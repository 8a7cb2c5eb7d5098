-- ===== src/Sql/Extract.antt =====
-- `ExtractParamNamesDialect` of internal/connectors/bind.go.
pub mod Agreement
pub mod Plain
pub mod Mismatch
use ddag.Base.{
  ℕ, zero, suc, Bool, true, false, ◌&&◌, ◌||◌, Option, none, some, List, [], ◌∷◌, ◌++◌, ◌==◌,
  if◌then◌else◌, Text, eq_text,
}
use ddag.Sql.Scan.{
  Dialect, is_mysql, is_sqlserver, is_oracle, Span, is_ident_part, is_ident_start, next_is,
  next_starts_ident, span, skip_delimited, block_comment, line_comment, dollar_quote,
  opens_oracle_quote, oracle_quote,
}
use ddag.Sql.Bind.{tail}

-- One turn: go on behind some runes, note a name, or leave `i` where it is.
pub data Token : Type 0 where
  skipped : Text → Token
  noted : Text → Text → Token
  stuck : Token

abbrev pub skip_quote : Option Span → Token
skip_quote none = stuck
skip_quote (some p) = skipped p.1

abbrev pub noted_span : Span → Token
noted_span p = noted p.0 p.1

-- The `$` case stands before the others, and is not guarded by the dialect.
unfoldable pub extract_token : Dialect → ℕ → Text → Token
unfolding skip_delimited dollar_quote oracle_quote line_comment block_comment span tail
    is_ident_start is_ident_part
extract_token d c s =
    if c == b'$'
    then skip_quote (dollar_quote s)
    else if is_mysql d && c == b'`'
    then skipped (skip_delimited b'`' s)
    else if is_sqlserver d && c == b'['
    then skipped (skip_delimited b']' s)
    else if c == b'"'
    then skipped (skip_delimited b'"' s)
    else if is_mysql d && c == b'#'
    then skipped (line_comment (c ∷ s)).1
    else if is_oracle d && c == b'q' && opens_oracle_quote s
    then skip_quote (oracle_quote s)
    else if c == b'\''
    then skipped (skip_delimited b'\'' s)
    else if c == b'-' && next_is b'-' s
    then skipped (line_comment (c ∷ s)).1
    else if c == b'/' && next_is b'*' s
    then skipped (block_comment false (tail s)).1
    else if c == b':' && next_is b':' s
    then skipped (tail s)
    else if c == b':' && next_starts_ident s
    then noted_span (span is_ident_part s)
    else skipped s

unfoldable pub contains : List Text → Text → Bool
contains [] name = false
contains (n ∷ ns) name = eq_text n name || contains ns name

-- `if !seen[name] { … order = append(order, name) }`; the map `seen` holds the names of `order`.
unfoldable pub note : List Text → Text → List Text
unfolding contains
note order name = if contains order name then order else order ++ name ∷ []

-- The loop on fuel, over the names noted so far.
unfoldable pub extract_loop : Dialect → ℕ → List Text → Text → Option (List Text)
extract_loop d fuel order [] = some order
extract_loop d zero order (c ∷ s) = none
extract_loop d (suc fuel) order (c ∷ s) = elim (extract_token d c s) [
  | skipped rest ↦ extract_loop d fuel order rest
  | noted name rest ↦ extract_loop d fuel (note order name) rest
  | stuck ↦ extract_loop d fuel order (c ∷ s)
]

unfoldable pub extract_param_names : ℕ → Text → Dialect → Option (List Text)
unfolding extract_loop note
extract_param_names fuel template d = extract_loop d fuel [] template
