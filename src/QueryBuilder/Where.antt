-- ===== src/QueryBuilder/Where.antt =====
-- internal/gateway/querybuilder.go: the conditions that a request's filters stand for. Each value of
-- the request becomes a parameter with a generated name.
use ddag.Base.{
  join, ℕ, Bool, true, false, ◌&&◌, ◌||◌, Option, none, some, List, [], ◌∷◌, ◌++◌, ◌==◌,
  if◌then◌else◌, Text, codes, eq_text, count_if, map, Dict, lookup, insert,
}
use ddag.Models.{trim_space, trim_left, trim_right, is_empty, equal_fold}
use ddag.Errors.{query_validation_failed, Result, result, failed, ◌>>=◌, ◌>>◌, guard}
use ddag.Sql.Bind.{decimal}
use ddag.QueryBuilder.Names.{cut, to_lower, split_csv}

pub record FilterConfig : Type 0 where
  pub name : Text
  pub column : Text
  pub operators : List Text

abbrev pub underscore : ℕ → ℕ
underscore c = if c == b'.' || c == b'-' then b'_' else c

abbrev pub sanitize_name : Text → Text
sanitize_name = map underscore

unfoldable pub has_prefix : Text → Text → Bool
has_prefix s [] = true
has_prefix [] (p ∷ prefix) = false
has_prefix (c ∷ s) (p ∷ prefix) = c == p && has_prefix s prefix

-- `len(paramsForPrefix(params, prefix))`.
unfoldable pub params_for_prefix : Dict Text → Text → ℕ
unfolding has_prefix
params_for_prefix params prefix = count_if (λ p. has_prefix p.0 (prefix ++ codes "_")) params

-- `add`: the placeholder, and the parameters with the value.
unfoldable pub add : Text → Text → Dict Text → Text × Dict Text
unfolding decimal params_for_prefix
add base v params =
    let key = base ++ (b'_' ∷ decimal (params_for_prefix params base)) in
    (b':' ∷ key, insert key v params)

unfoldable pub add_all : Text → List Text → Dict Text → List Text × Dict Text
unfolding add
add_all base [] params = ([], params)
add_all base (v ∷ vs) params =
    let (holder, one) = add base v params in
    let (holders, rest) = add_all base vs one in (holder ∷ holders, rest)

abbrev pub compare_sql : Text → Text → (Text × Dict Text) → Result (Text × Dict Text)
compare_sql column operator (holder, params) = result (column ++ (operator ++ holder), params)

unfoldable pub between_sql : Text → Text → List Text → Dict Text → Result (Text × Dict Text)
unfolding add
between_sql column base (low ∷ high ∷ []) params =
    let (from, one) = add base low params in
    let (until, two) = add base high one in
    result (column ++ (codes " BETWEEN " ++ (from ++ (codes " AND " ++ until))), two)
between_sql column base _ params = failed query_validation_failed

unfoldable pub in_sql : Text → Text → List Text → Dict Text → Result (Text × Dict Text)
unfolding add_all join
in_sql column base [] params = failed query_validation_failed
in_sql column base (p ∷ parts) params =
    let (holders, rest) = add_all base (p ∷ parts) params in
    result (column ++ (codes " IN (" ++ (join (codes ", ") holders ++ codes ")")), rest)

unfoldable pub build_where_clause :
    FilterConfig → Text → Text → Dict Text → Result (Text × Dict Text)
unfolding add between_sql in_sql split_csv equal_fold trim_left trim_right
build_where_clause f op raw params =
    let base = codes "ddag_filter_" ++ sanitize_name f.name in
    if eq_text op (codes "eq")
    then compare_sql f.column (codes " = ") (add base raw params)
    else if eq_text op (codes "neq")
    then compare_sql f.column (codes " <> ") (add base raw params)
    else if eq_text op (codes "like")
    then compare_sql f.column (codes " LIKE ") (add base (b'%' ∷ (raw ++ codes "%")) params)
    else if eq_text op (codes "gt")
    then compare_sql f.column (codes " > ") (add base raw params)
    else if eq_text op (codes "gte")
    then compare_sql f.column (codes " >= ") (add base raw params)
    else if eq_text op (codes "lt")
    then compare_sql f.column (codes " < ") (add base raw params)
    else if eq_text op (codes "lte")
    then compare_sql f.column (codes " <= ") (add base raw params)
    else if eq_text op (codes "between")
    then between_sql f.column base (split_csv raw) params
    else if eq_text op (codes "in")
    then in_sql f.column base (split_csv raw) params
    else if eq_text op (codes "isnull")
    then result (
      f.column
          ++ (if equal_fold (trim_space raw) (codes "true")
              then codes " IS NULL"
              else codes " IS NOT NULL"),
      params,
    )
    else failed query_validation_failed

unfoldable pub has_operator : List Text → Text → Bool
has_operator [] op = false
has_operator (allowed ∷ rest) op = eq_text allowed op || has_operator rest op

unfoldable pub operator_allowed : FilterConfig → Text → Bool
unfolding has_operator
operator_allowed f op =
    has_operator f.operators op || elim f.operators [ [] ↦ eq_text op (codes "eq") | _ ∷ _ ↦ false ]

abbrev pub operator_of : Text → Option (Text × Text) → Text × Text
operator_of v none = ([], v)
operator_of v (some p) = (to_lower (trim_space p.0), p.1)

unfoldable pub split_operator : Text → Text × Text
unfolding cut trim_left trim_right
split_operator v = operator_of v (cut b':' v)

-- The operator and the operand of a filter value; without an operator, `eq` of the whole value.
unfoldable pub operation : Text → Text × Text
unfolding split_operator
operation v = let (op, raw) = split_operator v in if is_empty op then (codes "eq", v) else (op, raw)

abbrev pub ignored_query_param : Text → Bool
ignored_query_param name =
    eq_text name (codes "page")
    || (eq_text name (codes "limit")
        || (eq_text name (codes "offset") || eq_text name (codes "sort")))

-- A first value that is not empty.
abbrev pub given : Option (List Text) → Option Text
given none = none
given (some []) = none
given (some ([] ∷ vs)) = none
given (some ((c ∷ v) ∷ vs)) = some (c ∷ v)

unfoldable pub has_filter : Text → List FilterConfig → Bool
has_filter name [] = false
has_filter name (f ∷ fs) = eq_text f.name name || has_filter name fs

-- The first loop: each query parameter with a value names a filter.
unfoldable pub only_filters : List FilterConfig → Dict (List Text) → Bool
unfolding has_filter
only_filters fs [] = true
only_filters fs ((name, values) ∷ query) =
    (ignored_query_param name
      || (elim (given (some values)) [ none ↦ true | some _ ↦ false ] || has_filter name fs))
    && only_filters fs query

abbrev pub with_clause : Text → List Text → List Text
with_clause [] clauses = clauses
with_clause (c ∷ clause) clauses = (c ∷ clause) ∷ clauses

abbrev pub one_clause : FilterConfig → Text → Dict Text → Result (Text × Dict Text)
one_clause f v params =
    let (op, raw) = operation v in
    guard (operator_allowed f op) query_validation_failed >> build_where_clause f op raw params

-- The second loop.
unfoldable pub where_loop :
    Dict (List Text) → List FilterConfig → Dict Text → Result (List Text × Dict Text)
unfolding build_where_clause operator_allowed operation
where_loop query [] params = result ([], params)
where_loop query (f ∷ fs) params = elim (given (lookup f.name query)) [
  | none ↦ where_loop query fs params
  | some v ↦ do
    (clause, one) ← one_clause f v params
    (clauses, rest) ← where_loop query fs one
    result (with_clause clause clauses, rest)
]

unfoldable pub where_clauses : List FilterConfig → Dict (List Text) → Result (List Text × Dict Text)
unfolding only_filters where_loop
where_clauses fs query =
    guard (only_filters fs query) query_validation_failed >> where_loop query fs []
