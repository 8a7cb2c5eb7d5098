-- ===== src/QueryBuilder/Clauses.antt =====
-- internal/gateway/querybuilder.go: what the clauses of the SQL consist of.
use ddag.Base.{
  join, arith, ℕ, ◌≡◌, refl, true, ◌&&◌, ◌||◌, not, none, some, List, [], ◌∷◌, ◌++◌, if◌then◌else◌,
  Text, codes, eq_text, eq_text→eq, all, All, all-All, &&-true, Bool-cases, inl, inr, Option-cases,
  All-insert, All-lookup, ◌==◌, leb, subst, Dict, lookup, insert,
}
use ddag.Models.{is_empty, upper, to_upper}
use ddag.Errors.{
  result, ◌>>=◌, guard, query_validation_failed, Returns, Returns-bind, Returns-if, Returns-guard,
}
use ddag.QueryBuilder.Names.{safe_ident, is_alias, lower, to_lower, split_csv}
use ddag.QueryBuilder.Where.{
  FilterConfig, sanitize_name, build_where_clause, operator_allowed, operation, given, with_clause,
  one_clause, where_loop, where_clauses, only_filters,
}
use ddag.QueryBuilder.Inert.{
  is_inert, IsInert, IsInert-append, IsInert-behind, IsInert-join, IsInert-alias, IsInert-ident,
}
use ddag.QueryBuilder.{
  JoinConfig, SortableColumn, QueryBuilderConfig, safe_join, safe_filter, safe_sort, sortable,
  sort_parts, sort_part, sort_name, sort_direction, order_by, join_sql, joins_sql, clause_sql,
  order_sql,
}
use ddag.QueryBuilder.Conditions.{Inert, IsInert-if, build_where_clause-Inert}

abbrev pub AllInert : List Text × Dict Text → Type 0
AllInert p = All IsInert p.0

with_clause-AllInert :
    (clause : Text) (clauses : List Text)
    → IsInert clause
    → All IsInert clauses
    → All IsInert (with_clause clause clauses)
with_clause-AllInert [] clauses h hs = hs
with_clause-AllInert (c ∷ clause) clauses h hs = (h, hs)

one_clause-Inert :
    (f : FilterConfig) (v : Text) (params : Dict Text)
    → safe_filter f ≡ true
    → IsInert (sanitize_name f.name)
    → Returns Inert (one_clause f v params)
one_clause-Inert f v params safe name =
    let (op, raw) = operation v in
    Returns-bind (λ _. operator_allowed f op ≡ true) Inert
      (guard (operator_allowed f op) query_validation_failed)
      (λ _. build_where_clause f op raw params)
      (Returns-guard (operator_allowed f op) query_validation_failed)
      (λ _ _.
        build_where_clause-Inert f
          (IsInert-ident f.column (&&-true (not (is_empty f.name)) (safe_ident f.column) safe).1) op
          raw params name)

where_loop-skip :
    (query : Dict (List Text)) (f : FilterConfig) (fs : List FilterConfig) (params : Dict Text)
    → given (lookup f.name query) ≡ none
    → where_loop query (f ∷ fs) params ≡ where_loop query fs params
unfolding where_loop
where_loop-skip query f fs params e = rw (e, where_loop) refl

where_loop-step :
    (query : Dict (List Text)) (f : FilterConfig) (fs : List FilterConfig) (params : Dict Text)
    (v : Text)
    → given (lookup f.name query) ≡ some v
    → where_loop query (f ∷ fs) params ≡ (
        one_clause f v params >>= λ p.
        (where_loop query fs p.1 >>= λ q. result (with_clause p.0 q.0, q.1)))
unfolding where_loop
where_loop-step query f fs params v e = rw (e, where_loop) refl

where_loop-AllInert :
    (query : Dict (List Text)) (fs : List FilterConfig) (params : Dict Text)
    → All (λ f. safe_filter f ≡ true) fs
    → All (λ f. IsInert (sanitize_name f.name)) fs
    → Returns AllInert (where_loop query fs params)
unfolding where_loop
where_loop-AllInert query [] params safe names = tt
where_loop-AllInert query (f ∷ fs) params safe names =
    elim (Option-cases (given (lookup f.name query))) [
      | inl e ↦
          rw (where_loop-skip query f fs params e)
            (where_loop-AllInert query fs params safe.1 names.1)
      | inr (v, e) ↦ rw (where_loop-step query f fs params v e) (
          Returns-bind Inert AllInert (one_clause f v params) _
            (one_clause-Inert f v params safe.0 names.0)
            (λ p hp.
              Returns-bind AllInert AllInert (where_loop query fs p.1) _
                (where_loop-AllInert query fs p.1 safe.1 names.1)
                (λ q hq. with_clause-AllInert p.0 q.0 hp hq)))
    ]

pub where_clauses-AllInert :
    (fs : List FilterConfig) (query : Dict (List Text))
    → All (λ f. safe_filter f ≡ true) fs
    → All (λ f. IsInert (sanitize_name f.name)) fs
    → Returns AllInert (where_clauses fs query)
unfolding where_clauses
where_clauses-AllInert fs query safe names =
    Returns-bind (λ _. only_filters fs query ≡ true) AllInert
      (guard (only_filters fs query) query_validation_failed) (λ _. where_loop query fs [])
      (Returns-guard (only_filters fs query) query_validation_failed)
      (λ _ _. where_loop-AllInert query fs [] safe names)

sortable-AllIdent :
    (ss : List SortableColumn) (m : Dict Text)
    → All (λ s. safe_sort s ≡ true) ss
    → All (λ p. IsInert p.1) m
    → All (λ p. IsInert p.1) (sortable ss m)
unfolding sortable
sortable-AllIdent [] m h hm = hm
sortable-AllIdent (s ∷ ss) m h hm = sortable-AllIdent ss (insert s.name s.column m) h.1 (
    All-insert IsInert s.name s.column m
      (IsInert-ident s.column (&&-true (not (is_empty s.name)) (safe_ident s.column) h.0).1) hm)

IsInert-direction : (token : Text) → IsInert (b' ' ∷ sort_direction token)
IsInert-direction [] = all-All is_inert (codes " ASC") refl
IsInert-direction (c ∷ token) = (
  refl,
  IsInert-if (c == b'-') (codes "DESC") (codes "ASC") (all-All is_inert (codes "DESC") refl)
      (all-All is_inert (codes "ASC") refl),
)

IsInert-sort_part :
    (m : Dict Text) (token : Text)
    → All (λ p. IsInert p.1) m
    → Returns IsInert (sort_part (lookup (sort_name token) m) token)
IsInert-sort_part m token hm = elim (Option-cases (lookup (sort_name token) m)) [
  | inl e ↦ rw e tt
  | inr (column, e) ↦ rw e (
      IsInert-append column (b' ' ∷ sort_direction token)
        (All-lookup IsInert (sort_name token) m hm e) (IsInert-direction token))
]

AllInert-sort_parts :
    (m : Dict Text) (tokens : List Text)
    → All (λ p. IsInert p.1) m
    → Returns (All IsInert) (sort_parts m tokens)
unfolding sort_parts
AllInert-sort_parts m [] hm = tt
AllInert-sort_parts m (token ∷ tokens) hm =
    Returns-bind IsInert (All IsInert) (sort_part (lookup (sort_name token) m) token) _
      (IsInert-sort_part m token hm)
      (λ part hp.
        Returns-bind (All IsInert) (All IsInert) (sort_parts m tokens) _
          (AllInert-sort_parts m tokens hm) (λ parts hs. (hp, hs)))

pub IsInert-order_by :
    (c : QueryBuilderConfig) (requested : Text)
    → All (λ s. safe_sort s ≡ true) c.sortable_columns
    → Returns IsInert (order_by c requested)
unfolding order_by
IsInert-order_by c requested h =
    let raw = if is_empty requested then c.default_sort else requested in
    Returns-if IsInert (is_empty raw) (result []) _ tt (
      Returns-bind (All IsInert) IsInert
        (sort_parts (sortable c.sortable_columns []) (split_csv raw)) _
        (AllInert-sort_parts (sortable c.sortable_columns []) (split_csv raw)
          (sortable-AllIdent c.sortable_columns [] h tt))
        (λ parts hs. IsInert-join (codes ", ") parts (all-All is_inert (codes ", ") refl) hs))

is_inert-upper : (c : ℕ) → is_inert (lower c) ≡ true → is_inert (upper c) ≡ true
is_inert-upper c h = elim (Bool-cases (leb b'A' c && leb c b'Z')) [
  | inl e ↦ ground (arith, e)
  | inr e ↦ elim (Bool-cases (leb b'a' c && leb c b'z')) [
    | inl e' ↦ ground (arith, e')
    | inr e' ↦ subst (λ x. is_inert x ≡ true) {x = lower c} {y = upper c} (ground (arith, e, e')) h
  ]
]

IsInert-word : (t w : Text) → IsInert w → eq_text (to_lower t) w ≡ true → IsInert (to_upper t)
unfolding eq_text
IsInert-word [] w hw e = tt
IsInert-word (c ∷ t) [] hw e = ground (arith, e)
IsInert-word (c ∷ t) (d ∷ w) hw e =
    let (l, r) = &&-true (lower c == d) (eq_text (to_lower t) w) e in
    (
      is_inert-upper c
          (subst (λ x. is_inert x ≡ true) {x = d} {y = lower c} (ground (arith, l)) hw.0),
      IsInert-word t w hw.1 r,
    )

IsInert-join_type :
    (t : Text)
    → (eq_text (to_lower t) (codes "inner") || eq_text (to_lower t) (codes "left")) ≡ true
    → IsInert (to_upper t)
IsInert-join_type t h = elim (Bool-cases (eq_text (to_lower t) (codes "inner"))) [
  | inl e ↦ IsInert-word t (codes "inner") (all-All is_inert (codes "inner") refl) e
  | inr e ↦
      IsInert-word t (codes "left") (all-All is_inert (codes "left") refl) (ground (arith, h, e))
]

IsInert-table_alias :
    (alias : Text)
    → (is_empty alias || is_alias alias) ≡ true
    → IsInert (if is_empty alias then [] else b' ' ∷ alias)
IsInert-table_alias [] h = tt
IsInert-table_alias (c ∷ alias) h = (refl, IsInert-alias (c ∷ alias) h)

IsInert-join_sql : (j : JoinConfig) → safe_join j ≡ true → IsInert (join_sql j)
unfolding join_sql
IsInert-join_sql j h =
    let (kind, h1) =
      &&-true
        (eq_text (to_lower j.join_type) (codes "inner")
          || eq_text (to_lower j.join_type) (codes "left"))
        _ h in
    let (table, h2) = &&-true (safe_ident j.table) _ h1 in
    let (alias, h3) = &&-true (is_empty j.alias || is_alias j.alias) _ h2 in
    let (left, h4) = &&-true (safe_ident j.on.left) _ h3 in
    let (right, equals) = &&-true (safe_ident j.on.right) (eq_text j.on.operator (codes "=")) h4 in
    let operator : IsInert j.on.operator =
      rw (eq_text→eq j.on.operator (codes "=") equals) (all-All is_inert (codes "=") refl) in
    let condition : IsInert (j.on.operator ++ (b' ' ∷ j.on.right)) =
      IsInert-append j.on.operator (b' ' ∷ j.on.right) operator
        (refl, IsInert-ident j.on.right right) in
    let on : IsInert (j.on.left ++ (b' ' ∷ (j.on.operator ++ (b' ' ∷ j.on.right)))) =
      IsInert-append j.on.left (b' ' ∷ (j.on.operator ++ (b' ' ∷ j.on.right)))
        (IsInert-ident j.on.left left) (refl, condition) in
    let behind_table : IsInert (
        (if is_empty j.alias then [] else b' ' ∷ j.alias)
        ++ (codes " ON " ++ (j.on.left ++ (b' ' ∷ (j.on.operator ++ (b' ' ∷ j.on.right)))))) =
      IsInert-append (if is_empty j.alias then [] else b' ' ∷ j.alias)
        (codes " ON " ++ (j.on.left ++ (b' ' ∷ (j.on.operator ++ (b' ' ∷ j.on.right)))))
        (IsInert-table_alias j.alias alias)
        (IsInert-behind (codes " ON ")
          (j.on.left ++ (b' ' ∷ (j.on.operator ++ (b' ' ∷ j.on.right)))) refl on) in
    let from_table = IsInert-append j.table _ (IsInert-ident j.table table) behind_table in
    (
      refl,
      IsInert-append (to_upper j.join_type) _ (IsInert-join_type j.join_type kind)
          (IsInert-behind (codes " JOIN ") _ refl from_table),
    )

pub IsInert-joins_sql :
    (js : List JoinConfig) → All (λ j. safe_join j ≡ true) js → IsInert (joins_sql js)
unfolding joins_sql
IsInert-joins_sql [] h = tt
IsInert-joins_sql (j ∷ js) h =
    IsInert-append (join_sql j) (joins_sql js) (IsInert-join_sql j h.0) (IsInert-joins_sql js h.1)

pub IsInert-clause_sql :
    (keyword separator : Text) (ts : List Text)
    → all is_inert keyword ≡ true
    → all is_inert separator ≡ true
    → All IsInert ts
    → IsInert (clause_sql keyword separator ts)
IsInert-clause_sql keyword separator [] hk hs h = tt
IsInert-clause_sql keyword separator (t ∷ ts) hk hs h =
    IsInert-behind keyword (join separator (t ∷ ts)) hk
      (IsInert-join separator (t ∷ ts) (all-All is_inert separator hs) h)

pub IsInert-order_sql : (order : Text) → IsInert order → IsInert (order_sql order)
IsInert-order_sql [] h = tt
IsInert-order_sql (c ∷ order) h = IsInert-behind (codes " ORDER BY ") (c ∷ order) refl h
