-- ===== src/Gateway/Building/Tests.antt =====
-- The query of a request to an API with a query builder.
use ddag.Base.{
  ◌≡◌, refl, Option, none, some, List, [], ◌∷◌, false, ℕ, pos, Text, codes, Dict, eq_text, all-All,
  lookup, insert,
}
use ddag.Models.{ApiDefinition}
use ddag.Errors.{Result, result}
use ddag.Params.{Libs, Value, text}
use ddag.QueryBuilder.Names.{safe_ident, safe_select}
use ddag.QueryBuilder.Inert.{is_inert}
use ddag.QueryBuilder.{QueryBuilderConfig, BuiltQuery}
use ddag.Gateway.Building.{IsFixed, build_query, build_query-IsFixed}

abbrev libs : Libs
libs = record { Float = ℕ; parse_float = λ s. none; is_uuid = λ s. false; compile = λ s. none }

abbrev api : ApiDefinition
api = record {
  id = codes "7";
  method = codes "GET";
  path = codes "/orders";
  required_scope = [];
  database_connection_id = none;
  connector_type = codes "postgres";
  default_limit = pos 10;
  max_limit = pos 10;
  query_template = codes "select id from orders";
  response_mapping = codes "{}";
  is_write = false;
}

abbrev orders : QueryBuilderConfig
orders = record {
  base_table = codes "orders";
  select = codes "id" ∷ [];
  joins = [];
  group_by = [];
  filters =
      record { name = codes "state"; column = codes "state"; operators = codes "eq" ∷ [] } ∷ [];
  sortable_columns = [];
  default_sort = [];
}

abbrev decode : Text → Option (Option QueryBuilderConfig)
decode s = some (some orders)

abbrev asked : Dict (List Text)
asked = (codes "state", codes "x' or 1" ∷ []) ∷ []

abbrev body : Result (Dict (Option Text))
body = result []

abbrev orders_query : BuiltQuery (Value ℕ)
orders_query = record {
  sql = codes "SELECT id FROM orders WHERE state = :ddag_filter_state_0";
  params = (codes "ddag_filter_state_0", text (codes "x' or 1")) ∷ [];
}

orders_built : build_query libs decode api [] [] asked body ≡ result orders_query
unfolding build_query eq_text safe_ident safe_select lookup insert
orders_built = refl

build_query-IsFixed_example : IsFixed api orders_query.sql
build_query-IsFixed_example =
    build_query-IsFixed libs decode api [] [] asked body orders_query
      (all-All is_inert (codes "state") refl, tt) orders_built
