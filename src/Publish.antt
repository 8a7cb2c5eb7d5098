-- ===== src/Publish.antt =====
-- internal/gateway/validate.go: the checks of an API before it is published, and before an
-- administrator's test run. Every error is one code: the source gives texts only. The scanners may run
-- on for ever, so the checks have their fuel, and none means that a scan is still running. Texts are
-- ASCII.
pub mod Statements
pub mod Agree
pub mod Missing
pub mod ReadOnly
mod Tests
use ddag.Base.{
  ℕ, zero, suc, Bool, true, false, ◌&&◌, ◌||◌, not, Option, none, some, List, [], ◌∷◌, ◌++◌, ◌==◌,
  if◌then◌else◌, ℤ, pos, Text, codes, eq_text, all, map,
}
use ddag.Models.{
  ApiDefinition, ApiParameter, OperationType, operation_read, operation_from_method, trim_space,
  trim_left, trim_right, is_empty,
}
use ddag.Errors.{Code, validation, Result, result, failed, ◌>>=◌, ◌>>◌, guard}
use ddag.Sql.Scan.{Dialect, postgres, mysql, sqlserver, oracle, other}
use ddag.Sql.Strip.{strip_dialect}
use ddag.Sql.Extract.{extract_param_names}
use ddag.Publish.Statements.{has_write_statement, contains_semicolon}
use ddag.QueryBuilder.{QueryBuilderConfig, query_builder_from_api}

-- `connectors.Dialect(api.ConnectorType)`.
unfoldable pub dialect_of : Text → Dialect
dialect_of connector =
    if eq_text connector (codes "postgres")
    then postgres
    else if eq_text connector (codes "mysql")
    then mysql
    else if eq_text connector (codes "sqlserver")
    then sqlserver
    else if eq_text connector (codes "oracle")
    then oracle
    else other

abbrev pub is_semicolon : ℕ → Bool
is_semicolon c = c == b';'

-- What runs with fuel, and fails or not.
abbrev pub check : Option Bool → Option (Result (Unit {0})) → Option (Result (Unit {0}))
check none later = none
check (some true) later = some (failed validation)
check (some false) later = later

abbrev pub has_more : Option Text → Option Bool
has_more none = none
has_more (some stripped) = some (contains_semicolon stripped)

unfoldable pub has_multiple_statements : ℕ → Text → Dialect → Option Bool
unfolding trim_left trim_right strip_dialect contains_semicolon
has_multiple_statements fuel q d =
    has_more (strip_dialect fuel (trim_right is_semicolon (trim_space q)) d)

abbrev pub writes : Option Text → Option Bool
writes none = none
writes (some stripped) = some (has_write_statement stripped)

unfoldable pub contains_param : List Text → Text → Bool
contains_param [] name = false
contains_param (n ∷ list) name = eq_text n name || contains_param list name

abbrev pub names_of : List ApiParameter → List Text
names_of = map (λ p. p.name)

abbrev pub positive : ℤ → Bool
positive (pos (suc n)) = true
positive _ = false

-- The two comparisons of the declared and the used names.
unfoldable pub same_params : List ApiParameter → List Text → Bool
unfolding contains_param
same_params params used =
    all (contains_param (names_of params)) used && all (contains_param used) (names_of params)

-- An empty or absent rule is skipped; `compile` is `regexp.Compile`.
abbrev pub rule_compiles : (Text → Bool) → Option Text → Bool
rule_compiles compiles none = true
rule_compiles compiles (some rule) = is_empty rule || compiles rule

unfoldable pub validate_parameter_regexes : (Text → Bool) → List ApiParameter → Bool
validate_parameter_regexes compiles params =
    all (λ p. rule_compiles compiles p.validation_rule) params

abbrev pub is_read_operation : OperationType → Bool
is_read_operation operation_read = true
is_read_operation _ = false

-- Both tests for a write keyword, of a read method and of an API that does not write.
abbrev pub must_not_write : ApiDefinition → Bool
must_not_write api = is_read_operation (operation_from_method api.method) || not api.is_write

-- The checks that publishing and a test run share.
unfoldable pub statement_checks :
    ℕ → ApiDefinition → Text → Option (Result (Unit {0})) → Option (Result (Unit {0}))
unfolding has_multiple_statements strip_dialect has_write_statement dialect_of operation_from_method
statement_checks fuel api q later =
    let d = dialect_of api.connector_type in
    if is_empty q
    then some (failed validation)
    else check (if must_not_write api then writes (strip_dialect fuel q d) else some false)
        (check (has_multiple_statements fuel q d) later)

abbrev pub limit_check : ApiDefinition → Result (Unit {0})
limit_check api = guard (positive api.default_limit) validation

abbrev pub params_check :
    (Text → Bool)
    → ApiDefinition
    → List ApiParameter
    → Option (List Text)
    → Option (Result (Unit {0}))
params_check compiles api params none = none
params_check compiles api params (some used) = some (do
  guard (same_params params used) validation
  limit_check api
  guard (validate_parameter_regexes compiles params) validation)

-- An API with a query builder has only its limit checked, and one whose builder is refused fails.
abbrev pub unless_built :
    ApiDefinition
    → Result (Option QueryBuilderConfig)
    → Option (Result (Unit {0}))
    → Option (Result (Unit {0}))
unless_built api (failed code) later = some (failed code)
unless_built api (result (some c)) later = some (limit_check api)
unless_built api (result none) later = later

module _ (decode : Text → Option (Option QueryBuilderConfig)) where
  unfoldable pub validate_for_publish :
      (Text → Bool) → ℕ → ApiDefinition → List ApiParameter → Option (Result (Unit {0}))
  unfolding query_builder_from_api statement_checks same_params validate_parameter_regexes
      extract_param_names dialect_of trim_left trim_right
  validate_for_publish compiles fuel api params =
      let q = trim_space api.query_template in
      unless_built api (query_builder_from_api decode api) (
        statement_checks fuel api q (
          params_check compiles api params
            (extract_param_names fuel q (dialect_of api.connector_type))))

  unfoldable pub validate_for_execution : ℕ → ApiDefinition → Option (Result (Unit {0}))
  unfolding query_builder_from_api statement_checks trim_left trim_right
  validate_for_execution fuel api =
      unless_built api (query_builder_from_api decode api)
        (statement_checks fuel api (trim_space api.query_template) (some (limit_check api)))
