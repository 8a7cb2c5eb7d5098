-- ===== src/Sql/Scan.antt =====
-- The helpers of internal/connectors/bind.go, over the runes that are left: where the source holds
-- an index `i` into `runes`, a function here takes `runes[i:]` and returns the runes that it passed
-- over with those that follow. A pending flag stands for the source's look at `runes[i+1]`.
pub mod Verbatim
pub mod Ordinary
use ddag.Base.{
  ℕ, zero, suc, ◌+◌, Bool, true, false, ◌&&◌, ◌||◌, Option, none, some, List, [], ◌∷◌, ◌++◌, leb,
  ◌==◌, if◌then◌else◌, Text, codes,
}

pub data Dialect : Type 0 where
  postgres mysql sqlserver oracle other : Dialect

abbrev pub is_postgres : Dialect → Bool
is_postgres postgres = true
is_postgres _ = false

abbrev pub is_mysql : Dialect → Bool
is_mysql mysql = true
is_mysql _ = false

abbrev pub is_sqlserver : Dialect → Bool
is_sqlserver sqlserver = true
is_sqlserver _ = false

abbrev pub is_oracle : Dialect → Bool
is_oracle oracle = true
is_oracle _ = false

-- The runes passed over, and the runes that follow.
abbrev pub Span : Type 0
Span = Text × Text

abbrev pub push : ℕ → Span → Span
push c p = (c ∷ p.0, p.1)

unfoldable pub is_ident_start : ℕ → Bool
is_ident_start r = r == b'_' || leb b'a' r && leb r b'z' || leb b'A' r && leb r b'Z'

unfoldable pub is_ident_part : ℕ → Bool
unfolding is_ident_start
is_ident_part r = is_ident_start r || leb b'0' r && leb r b'9'

-- The look at `runes[i+1]`, with its bounds check.
abbrev pub next_is : ℕ → Text → Bool
next_is x [] = false
next_is x (e ∷ s) = e == x

abbrev pub next_starts_ident : Text → Bool
next_starts_ident [] = false
next_starts_ident (e ∷ s) = is_ident_start e

-- The longest prefix of runes that pass a test.
unfoldable pub span : (ℕ → Bool) → Text → Span
span p [] = ([], [])
span p (c ∷ s) = elim (p c) [ true ↦ push c (span p s) | false ↦ ([], c ∷ s) ]

-- Behind an opening quote, up to and with the closing one; a doubled quote stands for itself. The
-- flag says that the last rune was a quote which may be the first of a doubled one.
unfoldable pub quoted : ℕ → Bool → Text → Span
quoted q pending [] = ([], [])
quoted q false (c ∷ s) = push c (quoted q (c == q) s)
quoted q true (c ∷ s) = if c == q then push c (quoted q false s) else ([], c ∷ s)

-- `copyDelimited`, `copyBracketIdentifier`: from the opening rune on.
unfoldable pub copy_delimited : ℕ → ℕ → Text → Span
unfolding quoted
copy_delimited opening q s = push opening (quoted q false s)

-- `skipDelimited`, `skipBracketIdentifier`: what follows.
unfoldable pub skip_delimited : ℕ → Text → Text
unfolding quoted
skip_delimited q s = (quoted q false s).1

-- Behind `/*`, up to and with `*/`; the flag says that the last rune was a star.
unfoldable pub block_comment : Bool → Text → Span
block_comment star [] = ([], [])
block_comment star (c ∷ s) =
    let rest = block_comment (c == b'*') s in if star && c == b'/' then (c ∷ [], s) else push c rest

-- A line comment, without its newline.
unfoldable pub line_comment : Text → Span
unfolding span
line_comment s = span (λ c. if c == b'\n' then false else true) s

-- The MySQL `#` comment of `bindDialect`, with its newline.
unfoldable pub hash_comment : Text → Span
hash_comment [] = ([], [])
hash_comment (c ∷ s) = let rest = hash_comment s in if c == b'\n' then (c ∷ [], s) else push c rest

-- `tag` and what follows it, if the text begins with it.
unfoldable pub strip_tag : Text → Text → Option Text
strip_tag [] s = some s
strip_tag (t ∷ tag) [] = none
strip_tag (t ∷ tag) (c ∷ s) = if t == c then strip_tag tag s else none

-- The first occurrence of the tag: what stands before it and with it, and what follows.
unfoldable pub found_tag : Option Text → Text → Option Span → Option Span
found_tag (some after) tag later = some (tag, after)
found_tag none tag later = later

unfoldable pub push_found : ℕ → Option Span → Option Span
push_found c none = none
push_found c (some p) = some (push c p)

unfoldable pub find_tag : Text → Text → Option Span
unfolding strip_tag found_tag push_found
find_tag tag [] = found_tag (strip_tag tag []) tag none
find_tag tag (c ∷ s) = found_tag (strip_tag tag (c ∷ s)) tag (push_found c (find_tag tag s))

-- The last rune of a tag, where a tag of the opening `$` alone has none.
abbrev pub ends_in_dollar : Text → Bool
ends_in_dollar [] = false
ends_in_dollar (c ∷ []) = c == b'$'
ends_in_dollar (c ∷ e ∷ s) = ends_in_dollar (e ∷ s)

abbrev pub is_tag_rune : ℕ → Bool
is_tag_rune c = is_ident_part c || c == b'$'

unfoldable pub append_found : Text → Option Span → Option Span
append_found tag none = none
append_found tag (some p) = some (tag ++ p.0, p.1)

-- `dollarQuoteEnd` at a `$` before the text: the whole quote and what follows it.
unfoldable pub dollar_quote : Text → Option Span
unfolding span find_tag append_found
dollar_quote s =
    let (tag, after) = span is_tag_rune s in
    if ends_in_dollar tag then append_found (b'$' ∷ tag) (find_tag (b'$' ∷ tag) after) else none

abbrev pub closing_delimiter : ℕ → ℕ
closing_delimiter d =
    if d == b'['
    then b']'
    else if d == b'('
    then b')'
    else if d == b'{'
    then b'}'
    else if d == b'<'
    then b'>'
    else d

-- Up to and with the closing delimiter and its quote; the flag says that the last rune was the
-- delimiter.
unfoldable pub oracle_body : ℕ → Bool → Text → Option Span
unfolding push_found
oracle_body close pending [] = none
oracle_body close pending (c ∷ s) =
    let rest = push_found c (oracle_body close (c == close) s) in
    if pending && c == b'\'' then some (c ∷ [], s) else rest

-- `i+2 < L && runes[i+1] == '\''` behind a `q`.
abbrev pub opens_oracle_quote : Text → Bool
opens_oracle_quote (e ∷ d ∷ s) = e == b'\''
opens_oracle_quote _ = false

-- `oracleQuoteEnd` at a `q` before the text, whose next rune is a quote.
unfoldable pub oracle_quote : Text → Option Span
unfolding oracle_body push_found
oracle_quote (e ∷ d ∷ s) =
    push_found b'q' (push_found e (push_found d (oracle_body (closing_delimiter d) false s)))
oracle_quote _ = none
