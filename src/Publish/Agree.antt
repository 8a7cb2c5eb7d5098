-- ===== src/Publish/Agree.antt =====
-- internal/gateway/validate.go: the check before publishing against the check before a test run.
use ddag.Base.{
  arith, ℕ, ◌≡◌, refl, subst, ◌∙◌, ap, Bool, true, false, Option, none, some, List, Text,
  if◌then◌else◌,
}
use mathlib.Core.Option.{some-injective}
use ddag.Models.{ApiDefinition, ApiParameter, trim_space, is_empty}
use ddag.Errors.{validation, Result, result, failed, guard, >>=-eq-result, guard-eq-result}
use ddag.Sql.Strip.{strip_dialect}
use ddag.Sql.Extract.{extract_param_names}
use ddag.QueryBuilder.{QueryBuilderConfig, query_builder_from_api}
use ddag.Publish.{
  dialect_of, check, has_multiple_statements, writes, must_not_write, statement_checks, limit_check,
  params_check, unless_built, same_params, validate_for_publish, validate_for_execution,
}

check-passed :
    (o : Option Bool) (later : Option (Result (Unit {0})))
    → check o later ≡ some (result tt)
    → (o ≡ some false) × (later ≡ some (result tt))
check-passed none later h = ground (arith, h)
check-passed (some true) later h = cc
check-passed (some false) later h = (refl, h)

if-passed :
    (b : Bool) (later : Option (Result (Unit {0})))
    → (if b then some (failed validation) else later) ≡ some (result tt)
    → (b ≡ false) × (later ≡ some (result tt))
if-passed true later h = cc
if-passed false later h = (refl, h)

-- What passed the checks on the statement: it has text, no forbidden keyword, and no second statement.
pub record IsChecked (fuel : ℕ) (api : ApiDefinition) (q : Text) : Type 0 where
  pub non_empty : is_empty q ≡ false
  pub no_write :
      (if must_not_write api
        then writes (strip_dialect fuel q (dialect_of api.connector_type))
        else some false)
      ≡ some false
  pub one_statement : has_multiple_statements fuel q (dialect_of api.connector_type) ≡ some false

pub statement_checks-passed :
    (fuel : ℕ) (api : ApiDefinition) (q : Text) (later : Option (Result (Unit {0})))
    → statement_checks fuel api q later ≡ some (result tt)
    → IsChecked fuel api q × (later ≡ some (result tt))
unfolding statement_checks
statement_checks-passed fuel api q later h =
    let (text, h1) = if-passed (is_empty q) _ h in
    let (no_write, h2) = check-passed _ _ h1 in
    let (one, last) =
      check-passed (has_multiple_statements fuel q (dialect_of api.connector_type)) later h2 in
    (record { non_empty = text; no_write = no_write; one_statement = one }, last)

pub statement_checks-pass :
    (fuel : ℕ) (api : ApiDefinition) (q : Text) (later : Option (Result (Unit {0})))
    → IsChecked fuel api q
    → statement_checks fuel api q later ≡ later
unfolding statement_checks
statement_checks-pass fuel api q later h = rw (h.non_empty, h.no_write, h.one_statement) refl

pub params_check-passed :
    (compiles : Text → Bool) (api : ApiDefinition) (params : List ApiParameter)
    (used : Option (List Text))
    → params_check compiles api params used ≡ some (result tt)
    → (names : List Text) × (used ≡ some names)
      × (same_params params names ≡ true)
      × (limit_check api ≡ result tt)
params_check-passed compiles api params none h = ground (arith, h)
params_check-passed compiles api params (some names) h =
    let (_, same, h1) =
      >>=-eq-result (guard (same_params params names) validation) _ (some-injective _ _ h) in
    let (_, limit, h2) = >>=-eq-result (limit_check api) _ h1 in
    (names, refl, guard-eq-result (same_params params names) validation same, limit)

unless_built-implies :
    (api : ApiDefinition) (r : Result (Option QueryBuilderConfig))
    (earlier later : Option (Result (Unit {0})))
    → (earlier ≡ some (result tt) → later ≡ some (result tt))
    → unless_built api r earlier ≡ some (result tt)
    → unless_built api r later ≡ some (result tt)
unless_built-implies api (failed code) earlier later k h = h
unless_built-implies api (result (some c)) earlier later k h = h
unless_built-implies api (result none) earlier later k h = k h

-- An API that may be published may also be run by an administrator's test, with the same fuel.
pub published-executes :
    (decode : Text → Option (Option QueryBuilderConfig)) (compiles : Text → Bool) (fuel : ℕ)
    (api : ApiDefinition) (params : List ApiParameter)
    → validate_for_publish decode compiles fuel api params ≡ some (result tt)
    → validate_for_execution decode fuel api ≡ some (result tt)
unfolding validate_for_publish validate_for_execution
published-executes decode compiles fuel api params h =
    let q = trim_space api.query_template in
    unless_built-implies api (query_builder_from_api decode api) _ _
      (λ passed.
        let (checked, names) = statement_checks-passed fuel api q _ passed in
        let (used, found, same, limit) =
          params_check-passed compiles api params
            (extract_param_names fuel q (dialect_of api.connector_type)) names in
        statement_checks-pass fuel api q _ checked ∙ ap some limit)
      h

-- What the check before publishing leaves known of an API without a query builder.
pub validate_for_publish-passed :
    (decode : Text → Option (Option QueryBuilderConfig)) (compiles : Text → Bool) (fuel : ℕ)
    (api : ApiDefinition) (params : List ApiParameter)
    → query_builder_from_api decode api ≡ result none
    → validate_for_publish decode compiles fuel api params ≡ some (result tt)
    → (used : List Text) × (extract_param_names fuel
          (trim_space api.query_template)
          (dialect_of api.connector_type)
        ≡ some used)
      × (same_params params used ≡ true)
      × IsChecked fuel api (trim_space api.query_template)
unfolding validate_for_publish
validate_for_publish-passed decode compiles fuel api params no_builder valid =
    let q = trim_space api.query_template in
    let used = extract_param_names fuel q (dialect_of api.connector_type) in
    let later = statement_checks fuel api q (params_check compiles api params used) in
    let (checked, names) =
      statement_checks-passed fuel api q _
        (subst (λ r. unless_built api r later ≡ some (result tt)) no_builder valid) in
    let (names', found, same, limit) = params_check-passed compiles api params used names in
    (names', found, same, checked)
