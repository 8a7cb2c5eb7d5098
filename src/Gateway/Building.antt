-- ===== src/Gateway/Building.antt =====
-- internal/gatewaysvc/service.go: the query that `serve` builds from a request, by the parameters and
-- the query builder of internal/gateway. The body as `readBody` gives it is an argument.
mod Tests
use ddag.Base.{
  ◌≡◌, refl, ◌⊎◌, inl, inr, Option, none, some, List, Text, Dict, ◌||◌, if◌then◌else◌, Bool-cases,
  codes, eq_text,
}
use ddag.Models.{ApiDefinition, ApiParameter, is_empty}
use ddag.Errors.{
  Code, query_validation_failed, Result, result, failed, ◌>>=◌, ◌>>◌, guard, Returns, Returns-bind,
  Returns-if, Returns-const, Returns-of,
}
use ddag.Params.{Libs, Value, text, resolve_params}
use ddag.QueryBuilder.{
  QueryBuilderConfig, BuiltQuery, build, validate, add_generated, from_decoded, built,
  query_builder_from_api, build_dynamic_query,
}
use ddag.QueryBuilder.Inert.{IsInert}
use ddag.QueryBuilder.Conditions.{Inert}
use ddag.QueryBuilder.Injection.{NamesAreInert, Returns-build}

module _ (libs : Libs) (decode : Text → Option (Option QueryBuilderConfig)) where
  unfoldable pub build_query :
      ApiDefinition
      → List ApiParameter
      → Dict Text
      → Dict (List Text)
      → Result (Dict (Option Text))
      → Result (BuiltQuery (Value libs.Float))
  unfolding resolve_params build_dynamic_query
  build_query api declared path_params query body = do
    b ← body
    params ← resolve_params libs declared path_params query b
    build_dynamic_query decode text api query params

-- The SQL is the template as it stands, or consists of inert characters.
abbrev pub IsFixed : ApiDefinition → Text → Type 0
IsFixed api sql = (sql ≡ api.query_template) ⊎ IsInert sql

-- Each query builder that the API may have names its filters by inert characters.
abbrev pub BuilderIsInert : Option QueryBuilderConfig → Type 0
BuilderIsInert none = Unit
BuilderIsInert (some c) = NamesAreInert c

abbrev pub DecodedIsInert : Option (Option QueryBuilderConfig) → Type 0
DecodedIsInert none = Unit
DecodedIsInert (some o) = BuilderIsInert o

module _ (decode : Text → Option (Option QueryBuilderConfig)) (F : Type 0) (api : ApiDefinition)
    (query : Dict (List Text)) where
  abbrev Fixed : BuiltQuery (Value F) → Type 0
  Fixed q = IsFixed api q.sql

  from_decoded-BuilderIsInert :
      (o : Option (Option QueryBuilderConfig))
      → DecodedIsInert o
      → Returns BuilderIsInert (from_decoded decode o)
  unfolding from_decoded
  from_decoded-BuilderIsInert none h = tt
  from_decoded-BuilderIsInert (some none) h = tt
  from_decoded-BuilderIsInert (some (some c)) h =
      Returns-bind (λ _. NamesAreInert c) BuilderIsInert (validate c) _
        (Returns-const (validate c) h) (λ _ names. names)

  built-Fixed :
      (params : Dict (Value F)) (o : Option QueryBuilderConfig)
      → BuilderIsInert o
      → Returns Fixed (built decode text api.query_template query params o)
  unfolding built
  built-Fixed params none h = inl refl
  built-Fixed params (some c) h =
      Returns-bind Inert Fixed (build c query) _ (Returns-build c query h) (λ p inert. inr inert)

  api-BuilderIsInert :
      DecodedIsInert (decode api.response_mapping)
      → Returns BuilderIsInert (query_builder_from_api decode api)
  unfolding query_builder_from_api
  api-BuilderIsInert h =
      Returns-if BuilderIsInert
        (is_empty api.response_mapping || eq_text api.response_mapping (codes "null")) (result none)
        _ tt (from_decoded-BuilderIsInert (decode api.response_mapping) h)

-- Where the configured filter names of an API with a query builder are inert: the SQL that a request is
-- given is the template of the API as it stands, or consists of letters, digits, white space and
-- `_ . , ( ) * = < > :` alone. No text of the path, the query string or the body becomes part of a
-- string, a quoted name, a comment or a second statement.
pub build_query-IsFixed :
    (libs : Libs) (decode : Text → Option (Option QueryBuilderConfig)) (api : ApiDefinition)
    (declared : List ApiParameter) (path_params : Dict Text) (query : Dict (List Text))
    (body : Result (Dict (Option Text))) (q : BuiltQuery (Value libs.Float))
    → DecodedIsInert (decode api.response_mapping)
    → build_query libs decode api declared path_params query body ≡ result q
    → IsFixed api q.sql
unfolding build_query build_dynamic_query
build_query-IsFixed libs decode api declared path_params query body q names e =
    let dynamic = λ (params : Dict (Value libs.Float)).
      Returns-bind BuilderIsInert (λ x. IsFixed api x.sql) (query_builder_from_api decode api)
        (built decode text api.query_template query params)
        (api-BuilderIsInert decode libs.Float api query names)
        (built-Fixed decode libs.Float api query params) in
    Returns-of (λ x. IsFixed api x.sql) _ e
      (Returns-bind {0, 0, 0, 0} (λ _. Unit) (λ x. IsFixed api x.sql) body _ (Returns-const body tt)
        (λ b _.
          Returns-bind {0, 0, 0, 0} (λ _. Unit) (λ x. IsFixed api x.sql)
            (resolve_params libs declared path_params query b) _ (Returns-const _ tt)
            (λ params _. dynamic params)))
