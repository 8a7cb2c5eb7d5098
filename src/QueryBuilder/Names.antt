-- ===== src/QueryBuilder/Names.antt =====
-- internal/gateway/querybuilder.go: the expressions that a configured name must match, and the helpers
-- on texts. A regular expression is written as the scan that it stands for.
use ddag.Base.{
  ℕ, ◌+◌, Bool, true, false, ◌&&◌, ◌||◌, Option, none, some, List, [], ◌∷◌, leb, ◌==◌,
  if◌then◌else◌, Text, codes, eq_text, all, map,
}
use ddag.Models.{trim_space, trim_left, trim_right, to_upper, is_empty}

abbrev pub is_name_start : ℕ → Bool
is_name_start c = leb b'A' c && leb c b'Z' || leb b'a' c && leb c b'z' || c == b'_'

abbrev pub is_name_part : ℕ → Bool
is_name_part c = is_name_start c || leb b'0' c && leb c b'9'

-- `aliasRE`.
abbrev pub is_alias : Text → Bool
is_alias [] = false
is_alias (c ∷ s) = is_name_start c && all is_name_part s

-- `strings.Cut` at a rune.
unfoldable pub cut : ℕ → Text → Option (Text × Text)
cut sep [] = none
cut sep (c ∷ s) =
    let rest = cut sep s in
    if c == sep then some ([], s) else elim rest [ none ↦ none | some p ↦ some (c ∷ p.0, p.1) ]

abbrev pub qualified : Text → Option (Text × Text) → Bool
qualified v none = is_alias v
qualified v (some p) = is_alias p.0 && is_alias p.1

-- `identifierRE`.
unfoldable pub safe_ident : Text → Bool
unfolding cut
safe_ident v = qualified v (cut b'.' v)

abbrev pub as_alias : Text → Bool
as_alias (a ∷ s ∷ blank ∷ name) = a == b'A' && (s == b'S' && (blank == b' ' && is_alias name))
as_alias _ = false

-- `selectColRE`, split at its first blank.
abbrev pub column_as : Text → Option (Text × Text) → Bool
column_as v none = safe_ident v
column_as v (some p) = safe_ident p.0 && as_alias p.1

unfoldable pub is_select_column : Text → Bool
unfolding cut safe_ident
is_select_column v = column_as v (cut b' ' v)

abbrev pub is_aggregate_name : Text → Bool
is_aggregate_name f =
    eq_text f (codes "COUNT")
    || (eq_text f (codes "SUM")
        || (eq_text f (codes "AVG") || (eq_text f (codes "MIN") || eq_text f (codes "MAX"))))

abbrev pub behind_aggregate : Text → Bool
behind_aggregate [] = true
behind_aggregate (blank ∷ s) = blank == b' ' && as_alias s

abbrev pub aggregate_argument : Option (Text × Text) → Bool
aggregate_argument none = false
aggregate_argument (some p) = (safe_ident p.0 || eq_text p.0 (codes "*")) && behind_aggregate p.1

abbrev pub aggregate_call : Option (Text × Text) → Bool
aggregate_call none = false
aggregate_call (some p) = is_aggregate_name p.0 && aggregate_argument (cut b')' p.1)

-- `selectAggRE`, split at its parentheses.
unfoldable pub is_select_aggregate : Text → Bool
unfolding cut safe_ident
is_select_aggregate v = aggregate_call (cut b'(' v)

unfoldable pub safe_select : Text → Bool
unfolding is_select_column is_select_aggregate trim_left trim_right
safe_select v = is_select_column v || is_select_aggregate (to_upper (trim_space v))

abbrev pub lower : ℕ → ℕ
lower c = if leb b'A' c && leb c b'Z' then c + 32 else c

abbrev pub to_lower : Text → Text
to_lower = map lower

-- `strings.Split` at a rune.
unfoldable pub split_at : ℕ → Text → Text × List Text
split_at sep [] = ([], [])
split_at sep (c ∷ s) =
    let (first, rest) = split_at sep s in if c == sep then ([], first ∷ rest) else (c ∷ first, rest)

unfoldable pub keep_trimmed : List Text → List Text
unfolding trim_left trim_right
keep_trimmed [] = []
keep_trimmed (p ∷ ps) =
    let rest = keep_trimmed ps in if is_empty (trim_space p) then rest else trim_space p ∷ rest

unfoldable pub split_csv : Text → List Text
unfolding split_at keep_trimmed
split_csv v = let (first, rest) = split_at b',' v in keep_trimmed (first ∷ rest)
