-- ===== src/Publish/Tests.antt =====
-- A published API and a call of it.
use ddag.Base.{
  ℕ, ◌≡◌, ◌≢◌, refl, Bool, true, false, none, some, Option, List, [], ◌∷◌, ◌++◌, pos, Text, codes,
  eq_text, if◌then◌else◌, Dict, lookup, all-All,
}
use ddag.Models.{
  ApiDefinition, ApiParameter, operation_from_method, trim_left, trim_right, trim_space,
}
use ddag.Errors.{result, failed, validation}
use ddag.Params.{Libs, Value, int, resolve_params, parse_bool}
use ddag.Gateway.Limits.{atoi}
use ddag.Sql.Scan.{postgres}
use ddag.Sql.Strip.{strip_dialect, strip_token}
use ddag.Sql.Bind.{bind, bound}
use ddag.Sql.Extract.{extract_token}
use ddag.Sql.Extract.Plain.{is_plain, IsPlain}
use ddag.QueryBuilder.{QueryBuilderConfig, query_builder_from_api}
use ddag.Publish.{dialect_of, validate_for_publish, validate_for_execution}
use ddag.Publish.Missing.{published_never_missing}
use ddag.Publish.ReadOnly.{published-IsReadOnly}

abbrev user : Text → Text → ApiDefinition
user template method = record {
  id = codes "1";
  method = method;
  path = codes "/user";
  required_scope = [];
  database_connection_id = none;
  connector_type = codes "postgres";
  default_limit = pos 10;
  max_limit = pos 10;
  query_template = template;
  response_mapping = [];
  is_write = false;
}

abbrev template : Text
template = codes "select name from u where id = :id"

abbrev read_api : ApiDefinition
read_api = user template (codes "GET")

abbrev id_param : ApiParameter
id_param = record {
  name = codes "id";
  source = codes "path";
  param_type = codes "int";
  required = true;
  default_value = none;
  max_length = none;
  validation_rule = none;
}

abbrev libs : Libs
libs = record { Float = ℕ; parse_float = λ s. none; is_uuid = λ s. false; compile = λ s. none }

abbrev undecodable : Text → Option (Option QueryBuilderConfig)
undecodable s = none

abbrev compiles : Text → Bool
compiles s = true

valid : validate_for_publish undecodable compiles 40 read_api (id_param ∷ []) ≡ some (result tt)
unfolding validate_for_publish eq_text strip_token extract_token
valid = refl

hidden_write :
    validate_for_publish undecodable compiles 40
      (user (codes "with x as (DELETE from u) select 1") (codes "GET"))
      []
    ≡ some (failed validation)
unfolding validate_for_publish eq_text strip_token
hidden_write = refl

into :
    validate_for_execution undecodable 40 (user (codes "select *  into t from u") (codes "GET"))
    ≡ some (failed validation)
unfolding validate_for_execution eq_text strip_token
into = refl

resolved :
    resolve_params libs (id_param ∷ []) ((codes "id", codes "7") ∷ []) [] []
    ≡ result ((codes "id", int (pos 7)) ∷ [])
unfolding resolve_params ddag.Params.resolve_one eq_text lookup atoi ddag.Base.insert
resolved = refl

abbrev values : Dict (Value ℕ)
values = (codes "id", int (pos 7)) ∷ []

abbrev question_mark : ℕ → Text
question_mark n = codes "?"

no_builder : query_builder_from_api undecodable read_api ≡ result none
unfolding query_builder_from_api
no_builder = refl

trimmed : trim_space template ≡ template
unfolding trim_left trim_right
trimmed = refl

plain : IsPlain (dialect_of (codes "postgres")) template
unfolding dialect_of eq_text
plain = all-All (is_plain postgres) template refl

published_never_missing_example :
    bind 40 template (λ name. lookup name values) question_mark
    ≡ some (
        bound
          (published_never_missing undecodable compiles libs 40 read_api
            (id_param ∷ [])
            ((codes "id", codes "7") ∷ [])
            []
            []
            values
            question_mark
            no_builder
            trimmed
            plain
            valid
            resolved).0
          (published_never_missing undecodable compiles libs 40 read_api
            (id_param ∷ [])
            ((codes "id", codes "7") ∷ [])
            []
            []
            values
            question_mark
            no_builder
            trimmed
            plain
            valid
            resolved).1)
published_never_missing_example =
    (published_never_missing undecodable compiles libs 40 read_api (id_param ∷ [])
      ((codes "id", codes "7") ∷ []) [] [] values question_mark no_builder trimmed plain valid
      resolved).2

published-IsReadOnly_example :
    codes "select name from u where id = :id"
    ≢ codes "with x as (" ++ (codes "DELETE" ++ codes " from u)")
unfolding query_builder_from_api operation_from_method eq_text trim_right trim_left strip_dialect
    strip_token ddag.Publish.dialect_of ddag.Publish.contains_param
published-IsReadOnly_example =
    published-IsReadOnly undecodable compiles 40 read_api (id_param ∷ []) template
      (codes "with x as (") (codes "DELETE") (codes " from u)") no_builder valid refl refl refl refl
      refl
