-- ===== src/QueryBuilder/Conditions.antt =====
-- internal/gateway/querybuilder.go: what the condition of one filter consists of.
use ddag.Base.{
  join, refl, Bool, true, false, List, [], ◌∷◌, ◌++◌, if◌then◌else◌, Text, codes, eq_text, All,
  All-append, all-All, Dict,
}
use ddag.Models.{trim_space, equal_fold}
use ddag.Errors.{Returns, Returns-if}
use ddag.QueryBuilder.Names.{split_csv}
use ddag.QueryBuilder.Where.{
  FilterConfig, sanitize_name, add, add_all, compare_sql, between_sql, in_sql, build_where_clause,
  params_for_prefix,
}
use ddag.QueryBuilder.Inert.{
  is_inert, IsInert, IsInert-append, IsInert-behind, IsInert-join, IsInert-decimal,
}

abbrev pub Inert : Text × Dict Text → Type 0
Inert p = IsInert p.0

IsInert-add : (base v : Text) (params : Dict Text) → IsInert base → IsInert (add base v params).0
unfolding add
IsInert-add base v params h =
    (refl, All-append _ base _ h (refl, IsInert-decimal (params_for_prefix params base)))

IsInert-add_all :
    (base : Text) (vs : List Text) (params : Dict Text)
    → IsInert base
    → All IsInert (add_all base vs params).0
unfolding add_all
IsInert-add_all base [] params h = tt
IsInert-add_all base (v ∷ vs) params h =
    (IsInert-add base v params h, IsInert-add_all base vs (add base v params).1 h)

pub IsInert-if : (b : Bool) (s t : Text) → IsInert s → IsInert t → IsInert (if b then s else t)
IsInert-if true s t hs ht = hs
IsInert-if false s t hs ht = ht

module _ (f : FilterConfig) (column : IsInert f.column) where
  compare_lem :
      (operator : Text) (p : Text × Dict Text)
      → IsInert operator
      → Inert p
      → Returns Inert (compare_sql f.column operator p)
  compare_lem operator p ho hp = All-append _ f.column _ column (All-append _ operator _ ho hp)

  between_lem :
      (base : Text) (parts : List Text) (params : Dict Text)
      → IsInert base
      → Returns Inert (between_sql f.column base parts params)
  unfolding between_sql
  between_lem base [] params h = tt
  between_lem base (p ∷ []) params h = tt
  between_lem base (p ∷ q ∷ []) params h =
      let (from, one) = add base p params in
      let until = (add base q one).0 in
      let last = IsInert-behind (codes " AND ") until refl (IsInert-add base q one h) in
      let both = IsInert-append from (codes " AND " ++ until) (IsInert-add base p params h) last in
      IsInert-append f.column (codes " BETWEEN " ++ (from ++ (codes " AND " ++ until))) column
        (IsInert-behind (codes " BETWEEN ") (from ++ (codes " AND " ++ until)) refl both)
  between_lem base (p ∷ q ∷ r ∷ parts) params h = tt

  in_lem :
      (base : Text) (parts : List Text) (params : Dict Text)
      → IsInert base
      → Returns Inert (in_sql f.column base parts params)
  unfolding in_sql
  in_lem base [] params h = tt
  in_lem base (p ∷ parts) params h =
      let holders = (add_all base (p ∷ parts) params).0 in
      let joined =
        IsInert-join (codes ", ") holders (all-All is_inert (codes ", ") refl)
          (IsInert-add_all base (p ∷ parts) params h) in
      let list = join (codes ", ") holders in
      let closed = IsInert-append list (codes ")") joined (all-All is_inert (codes ")") refl) in
      IsInert-append f.column (codes " IN (" ++ (list ++ codes ")")) column
        (IsInert-behind (codes " IN (") (list ++ codes ")") refl closed)

  pub build_where_clause-Inert :
      (op raw : Text) (params : Dict Text)
      → IsInert (sanitize_name f.name)
      → Returns Inert (build_where_clause f op raw params)
  unfolding build_where_clause
  build_where_clause-Inert op raw params h =
      let base = codes "ddag_filter_" ++ sanitize_name f.name in
      let hb : IsInert base =
        All-append _ (codes "ddag_filter_") _ (all-All is_inert (codes "ddag_filter_") refl) h in
      let simple = λ (operator v : Text) (ho : IsInert operator).
        compare_lem operator (add base v params) ho (IsInert-add base v params hb) in
      Returns-if Inert (eq_text op (codes "eq")) _ _
        (simple (codes " = ") raw (all-All is_inert (codes " = ") refl))
        (Returns-if Inert (eq_text op (codes "neq")) _ _
          (simple (codes " <> ") raw (all-All is_inert (codes " <> ") refl))
          (Returns-if Inert (eq_text op (codes "like")) _ _
            (simple (codes " LIKE ") (b'%' ∷ (raw ++ codes "%"))
              (all-All is_inert (codes " LIKE ") refl))
            (Returns-if Inert (eq_text op (codes "gt")) _ _
              (simple (codes " > ") raw (all-All is_inert (codes " > ") refl))
              (Returns-if Inert (eq_text op (codes "gte")) _ _
                (simple (codes " >= ") raw (all-All is_inert (codes " >= ") refl))
                (Returns-if Inert (eq_text op (codes "lt")) _ _
                  (simple (codes " < ") raw (all-All is_inert (codes " < ") refl))
                  (Returns-if Inert (eq_text op (codes "lte")) _ _
                    (simple (codes " <= ") raw (all-All is_inert (codes " <= ") refl))
                    (Returns-if Inert (eq_text op (codes "between")) _ _
                      (between_lem base (split_csv raw) params hb)
                      (Returns-if Inert (eq_text op (codes "in")) _ _
                        (in_lem base (split_csv raw) params hb)
                        (Returns-if Inert (eq_text op (codes "isnull")) _ _
                          (let isnull = equal_fold (trim_space raw) (codes "true") in
                            IsInert-append f.column
                              (if isnull then codes " IS NULL" else codes " IS NOT NULL") column
                              (IsInert-if isnull (codes " IS NULL") (codes " IS NOT NULL")
                                (all-All is_inert (codes " IS NULL") refl)
                                (all-All is_inert (codes " IS NOT NULL") refl)))
                          tt)))))))))
