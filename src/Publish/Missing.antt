-- ===== src/Publish/Missing.antt =====
-- internal/gateway/validate.go and params.go with internal/connectors/bind.go: a call of a published API.
use ddag.Base.{
  arith, ℕ, ◌≡◌, subst, Bool, true, &&-true, Bool-cases, inl, inr, Option, none, some, List, [],
  ◌∷◌, All, all, Text, eq_text, eq_text→eq, Dict, lookup,
}
use ddag.Models.{ApiDefinition, ApiParameter, trim_space}
use ddag.Errors.{result}
use ddag.Params.{Libs, Value, resolve_params}
use ddag.Params.Complete.{resolve_params_complete}
use ddag.Sql.Bind.{bound, bind}
use ddag.Sql.Bind.{is_some}
use ddag.Sql.Extract.{extract_param_names}
use ddag.Sql.Extract.Plain.{IsPlain, plain_names_suffice}
use ddag.QueryBuilder.{QueryBuilderConfig, query_builder_from_api}
use ddag.Publish.{contains_param, names_of, same_params, dialect_of, validate_for_publish}
use ddag.Publish.Agree.{validate_for_publish-passed}

declared-All :
    (P : Text → Type 0) (params : List ApiParameter) (name : Text)
    → contains_param (names_of params) name ≡ true
    → All (λ p. P p.name) params
    → P name
unfolding contains_param
declared-All P [] name e h = ground (arith, e)
declared-All P (p ∷ params) name e h = elim (Bool-cases (eq_text p.name name)) [
  | inl same ↦ subst P (eq_text→eq p.name name same) h.0
  | inr other ↦ declared-All P params name (ground (arith, e, other)) h.1
]

used-All :
    (P : Text → Type 0) (params : List ApiParameter) (used : List Text)
    → all (contains_param (names_of params)) used ≡ true
    → All (λ p. P p.name) params
    → All P used
used-All P params [] e h = tt
used-All P params (name ∷ used) e h =
    (declared-All P params name (ground (arith, e)) h, used-All P params used (ground (arith, e)) h)

-- An API without a query builder whose template begins and ends with no blank, and begins no quote or
-- comment that the connectors' binder does not know: once it passed the check before publishing, each
-- request whose parameters are accepted is bound to SQL and arguments. The connector reports no
-- missing parameter.
pub published_never_missing :
    (decode : Text → Option (Option QueryBuilderConfig)) (compiles : Text → Bool) (libs : Libs)
    (fuel : ℕ) (api : ApiDefinition) (params : List ApiParameter) (path_params : Dict Text)
    (query : Dict (List Text)) (body : Dict (Option Text)) (values : Dict (Value libs.Float))
    (ph : ℕ → Text)
    → query_builder_from_api decode api ≡ result none
    → trim_space api.query_template ≡ api.query_template
    → IsPlain (dialect_of api.connector_type) api.query_template
    → validate_for_publish decode compiles fuel api params ≡ some (result tt)
    → resolve_params libs params path_params query body ≡ result values
    → (sql : Text) × (args : List (Value libs.Float)) × (bind fuel api.query_template
          (λ name. lookup name values)
          ph
        ≡ some (bound sql args))
unfolding same_params
published_never_missing decode compiles libs fuel api params path_params query body values ph
      no_builder trimmed plain valid resolved =
    let d = dialect_of api.connector_type in
    let (used, found, same, checked) =
      validate_for_publish-passed decode compiles fuel api params no_builder valid in
    let here = subst (λ q. extract_param_names fuel q d ≡ some used) trimmed found in
    plain_names_suffice d fuel api.query_template used (λ name. lookup name values) ph plain here
      (used-All (λ name. is_some (lookup name values) ≡ true) params used (&&-true _ _ same).0
        (resolve_params_complete libs path_params query body params values resolved))
