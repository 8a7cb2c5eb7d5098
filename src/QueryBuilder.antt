-- ===== src/QueryBuilder.antt =====
-- internal/gateway/querybuilder.go: the SQL of an API that is described by tables, columns and filters
-- in place of a template. Every error is the one code that `BuildDynamicQuery` gives it. Texts are
-- ASCII. Decoding the JSON of the description is a parameter: none is JSON that it refuses, and
-- `some none` an object without a `query_builder`.
pub mod Names
pub mod Where
pub mod Inert
pub mod Conditions
pub mod Clauses
pub mod Injection
mod Tests
use ddag.Base.{
  join, ℕ, Bool, true, false, ◌&&◌, ◌||◌, not, Option, none, some, List, [], ◌∷◌, ◌++◌, ◌==◌,
  if◌then◌else◌, Text, codes, eq_text, all, Dict, lookup, insert,
}
use ddag.Models.{ApiDefinition, to_upper, is_empty}
use ddag.Errors.{Code, query_validation_failed, Result, result, failed, ◌>>=◌, ◌>>◌, guard}
use ddag.QueryBuilder.Names.{safe_ident, safe_select, is_alias, to_lower, split_csv}
use ddag.QueryBuilder.Where.{FilterConfig, where_clauses}

pub record JoinCondition : Type 0 where
  pub left : Text
  pub operator : Text
  pub right : Text

pub record JoinConfig : Type 0 where
  pub join_type : Text
  pub table : Text
  pub alias : Text
  pub on : JoinCondition

pub record SortableColumn : Type 0 where
  pub name : Text
  pub column : Text

pub record QueryBuilderConfig : Type 0 where
  pub base_table : Text
  pub select : List Text
  pub joins : List JoinConfig
  pub group_by : List Text
  pub filters : List FilterConfig
  pub sortable_columns : List SortableColumn
  pub default_sort : Text

abbrev pub safe_join : JoinConfig → Bool
safe_join j =
    (eq_text (to_lower j.join_type) (codes "inner")
      || eq_text (to_lower j.join_type) (codes "left"))
    && (safe_ident j.table
        && ((is_empty j.alias || is_alias j.alias)
            && (safe_ident j.on.left
                && (safe_ident j.on.right && eq_text j.on.operator (codes "=")))))

abbrev pub safe_filter : FilterConfig → Bool
safe_filter f = not (is_empty f.name) && safe_ident f.column

abbrev pub safe_sort : SortableColumn → Bool
safe_sort s = not (is_empty s.name) && safe_ident s.column

unfoldable pub is_valid : QueryBuilderConfig → Bool
is_valid c =
    safe_ident c.base_table
    && (not (elim c.select [ [] ↦ true | _ ∷ _ ↦ false ])
        && (all safe_select c.select
            && (all safe_ident c.group_by
                && (all safe_join c.joins
                    && (all safe_filter c.filters && all safe_sort c.sortable_columns)))))

unfoldable pub validate : QueryBuilderConfig → Result (Unit {0})
unfolding is_valid
validate c = guard (is_valid c) query_validation_failed

-- The map from the names that a request may sort by to their columns; a later entry replaces.
unfoldable pub sortable : List SortableColumn → Dict Text → Dict Text
sortable [] m = m
sortable (s ∷ ss) m = sortable ss (insert s.name s.column m)

abbrev pub sort_name : Text → Text
sort_name [] = []
sort_name (c ∷ token) = if c == b'-' then token else c ∷ token

abbrev pub sort_direction : Text → Text
sort_direction [] = codes "ASC"
sort_direction (c ∷ token) = if c == b'-' then codes "DESC" else codes "ASC"

abbrev pub sort_part : Option Text → Text → Result Text
sort_part none token = failed query_validation_failed
sort_part (some column) token = result (column ++ (b' ' ∷ sort_direction token))

unfoldable pub sort_parts : Dict Text → List Text → Result (List Text)
sort_parts m [] = result []
sort_parts m (token ∷ tokens) = do
  part ← sort_part (lookup (sort_name token) m) token
  parts ← sort_parts m tokens
  result (part ∷ parts)

unfoldable pub order_by : QueryBuilderConfig → Text → Result Text
unfolding sortable sort_parts split_csv join
order_by c requested =
    let raw = if is_empty requested then c.default_sort else requested in
    if is_empty raw then result [] else (do
      parts ← sort_parts (sortable c.sortable_columns []) (split_csv raw)
      result (join (codes ", ") parts))

unfoldable pub join_sql : JoinConfig → Text
join_sql j =
    b' '
    ∷ (to_upper j.join_type
        ++ (codes " JOIN "
            ++ (j.table
                ++ ((if is_empty j.alias then [] else b' ' ∷ j.alias)
                    ++ (codes " ON "
                        ++ (j.on.left ++ (b' ' ∷ (j.on.operator ++ (b' ' ∷ j.on.right)))))))))

unfoldable pub joins_sql : List JoinConfig → Text
unfolding join_sql
joins_sql [] = []
joins_sql (j ∷ js) = join_sql j ++ joins_sql js

-- A clause that stands only when its list or text is not empty.
abbrev pub clause_sql : Text → Text → List Text → Text
clause_sql keyword separator [] = []
clause_sql keyword separator (p ∷ ps) = keyword ++ join separator (p ∷ ps)

abbrev pub order_sql : Text → Text
order_sql [] = []
order_sql (c ∷ order) = codes " ORDER BY " ++ (c ∷ order)

-- `url.Values.Get`.
abbrev pub get : Option (List Text) → Text
get none = []
get (some []) = []
get (some (v ∷ vs)) = v

unfoldable pub build : QueryBuilderConfig → Dict (List Text) → Result (Text × Dict Text)
unfolding validate joins_sql where_clauses order_by join
build c query = do
  validate c
  (clauses, params) ← where_clauses c.filters query
  order ← order_by c (get (lookup (codes "sort") query))
  result (
    codes "SELECT "
        ++ (join (codes ", ") c.select
            ++ (codes " FROM "
                ++ (c.base_table
                    ++ (joins_sql c.joins
                        ++ (clause_sql (codes " WHERE ") (codes " AND ") clauses
                            ++ (clause_sql (codes " GROUP BY ") (codes ", ") c.group_by
                                ++ order_sql order)))))),
    params,
  )

pub record BuiltQuery (A : Type 0) : Type 0 where
  pub sql : Text
  pub params : Dict A

module _ (decode : Text → Option (Option QueryBuilderConfig)) where
  unfoldable pub from_decoded :
      Option (Option QueryBuilderConfig) → Result (Option QueryBuilderConfig)
  unfolding validate
  from_decoded none = failed query_validation_failed
  from_decoded (some none) = result none
  from_decoded (some (some c)) = validate c >> result (some c)

  unfoldable pub query_builder_from_api : ApiDefinition → Result (Option QueryBuilderConfig)
  unfolding from_decoded
  query_builder_from_api api =
      if is_empty api.response_mapping || eq_text api.response_mapping (codes "null")
      then result none
      else from_decoded (decode api.response_mapping)

-- `for k, v := range generated { out.Params[k] = v }`.
unfoldable pub add_generated {ℓ} : {A : Type ℓ} → (Text → A) → Dict Text → Dict A → Dict A
add_generated as_value [] params = params
add_generated as_value ((k, v) ∷ generated) params =
    insert k (as_value v) (add_generated as_value generated params)

module _ (decode : Text → Option (Option QueryBuilderConfig)) {A : Type 0}
    (as_value : Text → A) where
  unfoldable pub built :
      Text → Dict (List Text) → Dict A → Option QueryBuilderConfig → Result (BuiltQuery A)
  unfolding build add_generated
  built template query params none = result record { sql = template; params = params }
  built template query params (some c) = do
    (sql, generated) ← build c query
    result record { sql = sql; params = add_generated as_value generated params }

  unfoldable pub build_dynamic_query :
      ApiDefinition → Dict (List Text) → Dict A → Result (BuiltQuery A)
  unfolding query_builder_from_api built
  build_dynamic_query api query params = do
    c ← query_builder_from_api decode api
    built api.query_template query params c
