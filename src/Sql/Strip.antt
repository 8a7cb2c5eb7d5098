-- ===== src/Sql/Strip.antt =====
-- `StripDialect` of internal/connectors/bind.go: the SQL without quoted text and comments, which the
-- statement checks look at.
pub mod Hidden
use ddag.Base.{
  ℕ, zero, suc, Bool, true, false, ◌&&◌, Option, none, some, List, [], ◌∷◌, ◌==◌, if◌then◌else◌,
  Text,
}
use ddag.Sql.Scan.{
  Dialect, is_mysql, is_sqlserver, is_oracle, Span, next_is, skip_delimited, block_comment,
  line_comment, span, dollar_quote, opens_oracle_quote, oracle_quote,
}
use ddag.Sql.Bind.{tail}

-- One turn: write the rune and go on, go on behind some runes, or leave `i` where it is.
pub data Token : Type 0 where
  kept : ℕ → Text → Token
  skipped : Text → Token
  stuck : Token

abbrev pub skip_quote : Option Span → Token
skip_quote none = stuck
skip_quote (some p) = skipped p.1

unfoldable pub strip_token : Dialect → ℕ → Text → Token
unfolding skip_delimited dollar_quote oracle_quote line_comment block_comment span tail
strip_token d c s =
    if c == b'$'
    then skip_quote (dollar_quote s)
    else if is_mysql d && c == b'`'
    then skipped (skip_delimited b'`' s)
    else if is_sqlserver d && c == b'['
    then skipped (skip_delimited b']' s)
    else if c == b'"'
    then skipped (skip_delimited b'"' s)
    else if is_mysql d && c == b'#'
    then skipped (line_comment (c ∷ s)).1
    else if is_oracle d && c == b'q' && opens_oracle_quote s
    then skip_quote (oracle_quote s)
    else if c == b'\''
    then skipped (skip_delimited b'\'' s)
    else if c == b'-' && next_is b'-' s
    then skipped (line_comment (c ∷ s)).1
    else if c == b'/' && next_is b'*' s
    then skipped (block_comment false (tail s)).1
    else kept c s

abbrev pub write : ℕ → Option Text → Option Text
write c none = none
write c (some out) = some (c ∷ out)

-- The loop on fuel; `none` means that it is still running.
unfoldable pub strip_loop : Dialect → ℕ → Text → Option Text
strip_loop d fuel [] = some []
strip_loop d zero (c ∷ s) = none
strip_loop d (suc fuel) (c ∷ s) = elim (strip_token d c s) [
  | kept r rest ↦ write r (strip_loop d fuel rest)
  | skipped rest ↦ strip_loop d fuel rest
  | stuck ↦ strip_loop d fuel (c ∷ s)
]

unfoldable pub strip_dialect : ℕ → Text → Dialect → Option Text
unfolding strip_loop
strip_dialect fuel q d = strip_loop d fuel q
