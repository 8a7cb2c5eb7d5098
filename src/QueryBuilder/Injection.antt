-- ===== src/QueryBuilder/Injection.antt =====
-- internal/gateway/querybuilder.go: what the SQL of a request can contain.
use ddag.Base.{
  join, ◌≡◌, refl, true, false, not, List, [], ◌∷◌, ◌++◌, Text, codes, all, All, All-map, all-All,
  &&-true, Dict, lookup,
}
use ddag.Errors.{result, query_validation_failed, Returns, Returns-bind, Returns-guard, Returns-of}
use ddag.QueryBuilder.Names.{safe_ident, safe_select}
use ddag.QueryBuilder.Where.{sanitize_name, where_clauses}
use ddag.QueryBuilder.Inert.{
  is_inert, IsInert, IsInert-append, IsInert-behind, IsInert-join, IsInert-ident, IsInert-select,
}
use ddag.QueryBuilder.{
  QueryBuilderConfig, safe_join, safe_filter, safe_sort, is_valid, validate, order_by, joins_sql,
  clause_sql, order_sql, get, build,
}
use ddag.QueryBuilder.Conditions.{Inert}
use ddag.QueryBuilder.Clauses.{
  AllInert, where_clauses-AllInert, IsInert-order_by, IsInert-joins_sql, IsInert-clause_sql,
  IsInert-order_sql,
}

-- The names of the filters, which become parts of placeholders, are written in letters, digits and the
-- like. `Validate` only demands that they are not empty.
abbrev pub NamesAreInert : QueryBuilderConfig → Type 0
NamesAreInert c = All (λ f. IsInert (sanitize_name f.name)) c.filters

pub Returns-build :
    (c : QueryBuilderConfig) (query : Dict (List Text))
    → NamesAreInert c
    → Returns Inert (build c query)
unfolding build validate is_valid
Returns-build c query names =
    Returns-bind (λ _. is_valid c ≡ true) Inert (validate c) _
      (Returns-guard (is_valid c) query_validation_failed)
      (λ _ valid.
        let (base, v1) = &&-true (safe_ident c.base_table) _ valid in
        let (some_column, v2) = &&-true (not (elim c.select [ [] ↦ true | _ ∷ _ ↦ false ])) _ v1 in
        let (select, v3) = &&-true (all safe_select c.select) _ v2 in
        let (group, v4) = &&-true (all safe_ident c.group_by) _ v3 in
        let (joins, v5) = &&-true (all safe_join c.joins) _ v4 in
        let (filters, sorts) =
          &&-true (all safe_filter c.filters) (all safe_sort c.sortable_columns) v5 in
        Returns-bind AllInert Inert (where_clauses c.filters query) _
          (where_clauses-AllInert c.filters query (all-All safe_filter c.filters filters) names)
          (λ w hw.
            Returns-bind IsInert Inert (order_by c (get (lookup (codes "sort") query))) _
              (IsInert-order_by c (get (lookup (codes "sort") query))
                (all-All safe_sort c.sortable_columns sorts))
              (λ order ho.
                let ends : IsInert
                    (clause_sql (codes " GROUP BY ") (codes ", ") c.group_by ++ order_sql order) =
                  IsInert-append (clause_sql (codes " GROUP BY ") (codes ", ") c.group_by)
                    (order_sql order)
                    (IsInert-clause_sql (codes " GROUP BY ") (codes ", ") c.group_by refl refl
                      (All-map IsInert-ident c.group_by (all-All safe_ident c.group_by group)))
                    (IsInert-order_sql order ho) in
                let where_ends =
                  IsInert-append (clause_sql (codes " WHERE ") (codes " AND ") w.0) _
                    (IsInert-clause_sql (codes " WHERE ") (codes " AND ") w.0 refl refl hw) ends in
                let joined =
                  IsInert-append (joins_sql c.joins) _
                    (IsInert-joins_sql c.joins (all-All safe_join c.joins joins)) where_ends in
                let from =
                  IsInert-behind (codes " FROM ") _ refl
                    (IsInert-append c.base_table _ (IsInert-ident c.base_table base) joined) in
                IsInert-behind (codes "SELECT ") _ refl (
                  IsInert-append (join (codes ", ") c.select) _
                    (IsInert-join (codes ", ") c.select (all-All is_inert (codes ", ") refl)
                      (All-map IsInert-select c.select (all-All safe_select c.select select)))
                    from))))

-- Where the configured filter names are inert: whatever a request asks for, the SQL that `Build` gives
-- consists of letters, digits, white space and `_ . , ( ) * = < > :` alone. So no text of the request
-- opens a string, a quoted name or a comment, or ends the statement.
pub build-IsInert :
    (c : QueryBuilderConfig) (query : Dict (List Text)) (sql : Text) (params : Dict Text)
    → NamesAreInert c
    → build c query ≡ result (sql, params)
    → IsInert sql
build-IsInert c query sql params names e =
    Returns-of Inert (build c query) e (Returns-build c query names)
