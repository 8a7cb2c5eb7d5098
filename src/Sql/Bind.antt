-- ===== src/Sql/Bind.antt =====
-- `bindDialect` of internal/connectors/bind.go.
pub mod Progress
pub mod Pieces
use ddag.Base.{
  ℕ, zero, suc, ◌+◌, ◌/◌, ◌%◌, Bool, true, false, ◌&&◌, ◌||◌, Option, none, some, List, [], ◌∷◌,
  ◌++◌, leb, ltb, ◌==◌, if◌then◌else◌, Text, codes,
}
use ddag.Sql.Scan.{
  Dialect, postgres, mysql, sqlserver, oracle, other, is_postgres, is_mysql, is_sqlserver,
  is_oracle, Span, push, is_ident_part, is_ident_start, next_is, next_starts_ident, span, quoted,
  copy_delimited, block_comment, line_comment, hash_comment, dollar_quote, opens_oracle_quote,
  oracle_quote,
}

-- What one turn of the loop does: append runes to `out` and go on behind them, bind a parameter,
-- or leave `i` where it is.
pub data Token : Type 0 where
  copied : Text → Text → Token
  named : Text → Text → Token
  stalled : Token

abbrev pub copied_span : Span → Token
copied_span p = copied p.0 p.1

-- The cases that begin a quote: where none is closed, no statement moves `i`.
abbrev pub quote_or_stall : Option Span → Token
quote_or_stall none = stalled
quote_or_stall (some p) = copied p.0 p.1

abbrev pub named_span : Span → Token
named_span p = named p.0 p.1

unfoldable pub tail : Text → Text
tail [] = []
tail (c ∷ s) = s

-- The switch of the loop at the rune `c`, before the runes `s`.
unfoldable pub bind_token : Dialect → ℕ → Text → Token
unfolding copy_delimited hash_comment dollar_quote oracle_quote line_comment block_comment span tail
    is_ident_start is_ident_part
bind_token d c s =
    if is_postgres d && c == b'$'
    then quote_or_stall (dollar_quote s)
    else if is_mysql d && c == b'`'
    then copied_span (copy_delimited c b'`' s)
    else if is_sqlserver d && c == b'['
    then copied_span (copy_delimited c b']' s)
    else if c == b'"'
    then copied_span (copy_delimited c b'"' s)
    else if is_mysql d && c == b'#'
    then copied_span (hash_comment (c ∷ s))
    else if is_oracle d && c == b'q' && opens_oracle_quote s
    then quote_or_stall (oracle_quote s)
    else if c == b'\''
    then copied_span (copy_delimited c b'\'' s)
    else if c == b'-' && next_is b'-' s
    then copied_span (line_comment (c ∷ s))
    else if c == b'/' && next_is b'*' s
    then copied_span (push c (push b'*' (block_comment false (tail s))))
    else if c == b':' && next_is b':' s
    then copied (c ∷ b':' ∷ []) (tail s)
    else if c == b':' && next_starts_ident s
    then named_span (span is_ident_part s)
    else copied (c ∷ []) s

-- What `bindDialect` returns: the SQL with its arguments, or the missing parameter's error.
pub data Bound (A : Type 0) : Type 0 where
  bound : Text → List A → Bound A
  missing : Text → Bound A

module _ {A : Type 0} where
  -- `out` and `args` grow at their ends in the source; here a turn puts its part before the rest.
  abbrev pub prepend : Text → Bound A → Bound A
  prepend out (bound sql args) = bound (out ++ sql) args
  prepend out (missing name) = missing name

  abbrev pub prepend_arg : A → Bound A → Bound A
  prepend_arg v (bound sql args) = bound sql (v ∷ args)
  prepend_arg v (missing name) = missing name

  abbrev pub in_result : (Bound A → Bound A) → Option (Bound A) → Option (Bound A)
  in_result f none = none
  in_result f (some b) = some (f b)

  module _ (params : Text → Option A) (ph : ℕ → Text) (d : Dialect) where
    -- The loop on fuel: `none` means that it is still running. `n` parameters were bound before.
    unfoldable pub bind_loop : ℕ → ℕ → Text → Option (Bound A)
    bind_loop fuel n [] = some (bound [] [])
    bind_loop zero n (c ∷ s) = none
    bind_loop (suc fuel) n (c ∷ s) = elim (bind_token d c s) [
      | copied out rest ↦ in_result (prepend out) (bind_loop fuel n rest)
      | named name rest ↦ elim (params name) [
        | none ↦ some (missing name)
        | some v ↦
            in_result (λ b. prepend (ph (n + 1)) (prepend_arg v b)) (bind_loop fuel (n + 1) rest)
      ]
      | stalled ↦ bind_loop fuel n (c ∷ s)
    ]

-- `%d`: the decimal digits of a number, on fuel that the number itself bounds.
unfoldable pub digits_onto : ℕ → ℕ → Text → Text
digits_onto zero n acc = acc
digits_onto (suc fuel) n acc =
    let rest = digits_onto fuel (n / 10) ((b'0' + n % 10) ∷ acc) in
    if ltb n 10 then (b'0' + n) ∷ acc else rest

unfoldable pub decimal : ℕ → Text
unfolding digits_onto
decimal n = digits_onto (suc n) n []

unfoldable pub placeholder_for_dialect : Dialect → ℕ → Text
unfolding decimal
placeholder_for_dialect postgres n = b'$' ∷ decimal n
placeholder_for_dialect mysql n = b'?' ∷ []
placeholder_for_dialect sqlserver n = b'@' ∷ b'p' ∷ decimal n
placeholder_for_dialect oracle n = b':' ∷ decimal n
placeholder_for_dialect other n = b'?' ∷ []

unfoldable pub bind_dialect :
    {A : Type 0} → ℕ → Text → (Text → Option A) → Dialect → Option (Bound A)
unfolding bind_loop placeholder_for_dialect
bind_dialect fuel template params d = bind_loop params (placeholder_for_dialect d) d fuel 0 template

-- `Bind`, which the connectors call with the placeholder of their database: it scans with no dialect.
unfoldable pub bind : {A : Type 0} → ℕ → Text → (Text → Option A) → (ℕ → Text) → Option (Bound A)
unfolding bind_loop
bind fuel template params ph = bind_loop params ph other fuel 0 template

abbrev pub is_some : {A : Type 0} → Option A → Bool
is_some none = false
is_some (some v) = true
