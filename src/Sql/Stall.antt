-- ===== src/Sql/Stall.antt =====
-- The scanning loops that never end: a `$` that begins no closed dollar quote matches a case that
-- does not move the index.
use ddag.Base.{ℕ, zero, suc, true, ◌≡◌, refl, Option, none, List, [], ◌∷◌, ◌++◌, arith, Text, All}
use ddag.Sql.Scan.{Dialect, postgres, dollar_quote, is_ident_part}
use ddag.Sql.Scan.Ordinary.{is_ordinary, AreOrdinary, dollar_quote-name}
use ddag.Sql.Bind
use ddag.Sql.Bind.{
  bind_token, Bound, prepend, in_result, bind_loop, placeholder_for_dialect, bind_dialect,
}
use ddag.Sql.Extract
use ddag.Sql.Extract.{extract_token, extract_loop, extract_param_names}
use ddag.Sql.Strip
use ddag.Sql.Strip.{strip_token, strip_loop, strip_dialect}

bind_token-ordinary :
    (d : Dialect) (c : ℕ) (s : Text)
    → is_ordinary c ≡ true
    → bind_token d c s ≡ Bind.copied (c ∷ []) s
unfolding bind_token
bind_token-ordinary d c s h = ground arith

extract_token-ordinary :
    (d : Dialect) (c : ℕ) (s : Text)
    → is_ordinary c ≡ true
    → extract_token d c s ≡ Extract.skipped s
unfolding extract_token
extract_token-ordinary d c s h = ground arith

strip_token-ordinary :
    (d : Dialect) (c : ℕ) (s : Text) → is_ordinary c ≡ true → strip_token d c s ≡ Strip.kept c s
unfolding strip_token
strip_token-ordinary d c s h = ground arith

bind_token-stalled : (s : Text) → dollar_quote s ≡ none → bind_token postgres b'$' s ≡ Bind.stalled
unfolding bind_token
bind_token-stalled s h = rw h refl

extract_token-stuck :
    (d : Dialect) (s : Text) → dollar_quote s ≡ none → extract_token d b'$' s ≡ Extract.stuck
unfolding extract_token
extract_token-stuck d s h = rw h refl

strip_token-stuck :
    (d : Dialect) (s : Text) → dollar_quote s ≡ none → strip_token d b'$' s ≡ Strip.stuck
unfolding strip_token
strip_token-stuck d s h = rw h refl

module _ (s : Text) (unclosed : dollar_quote s ≡ none) where
  bind_loop-none :
      {A : Type 0} (params : Text → Option A) (ph : ℕ → Text) (fuel n : ℕ) (p : Text)
      → AreOrdinary p
      → bind_loop params ph postgres fuel n (p ++ (b'$' ∷ s)) ≡ none
  unfolding bind_loop
  bind_loop-none params ph zero n [] h = refl
  bind_loop-none params ph zero n (c ∷ p) h = refl
  bind_loop-none params ph (suc fuel) n [] h =
      rw (bind_token-stalled s unclosed, bind_loop) (bind_loop-none params ph fuel n [] h)
  bind_loop-none params ph (suc fuel) n (c ∷ p) h =
      rw
        (
          bind_token-ordinary postgres c (p ++ (b'$' ∷ s)) h.0,
          bind_loop,
          bind_loop-none params ph fuel n p h.1,
        )
        refl

  extract_loop-none :
      (d : Dialect) (fuel : ℕ) (order : List Text) (p : Text)
      → AreOrdinary p
      → extract_loop d fuel order (p ++ (b'$' ∷ s)) ≡ none
  unfolding extract_loop
  extract_loop-none d zero order [] h = refl
  extract_loop-none d zero order (c ∷ p) h = refl
  extract_loop-none d (suc fuel) order [] h =
      rw (extract_token-stuck d s unclosed, extract_loop) (extract_loop-none d fuel order [] h)
  extract_loop-none d (suc fuel) order (c ∷ p) h =
      rw (extract_token-ordinary d c (p ++ (b'$' ∷ s)) h.0, extract_loop)
        (extract_loop-none d fuel order p h.1)

  strip_loop-none :
      (d : Dialect) (fuel : ℕ) (p : Text)
      → AreOrdinary p
      → strip_loop d fuel (p ++ (b'$' ∷ s)) ≡ none
  unfolding strip_loop
  strip_loop-none d zero [] h = refl
  strip_loop-none d zero (c ∷ p) h = refl
  strip_loop-none d (suc fuel) [] h =
      rw (strip_token-stuck d s unclosed, strip_loop) (strip_loop-none d fuel [] h)
  strip_loop-none d (suc fuel) (c ∷ p) h =
      rw (strip_token-ordinary d c (p ++ (b'$' ∷ s)) h.0, strip_loop, strip_loop-none d fuel p h.1)
        refl

-- If a template has a `$` at which no closed dollar quote begins, as in `$1`, behind runes that begin
-- nothing, then `BindDialect` never returns for Postgres, and `ExtractParamNamesDialect` and
-- `StripDialect` never return for any dialect: no number of turns of their loops is enough.
pub unclosed_dollar_never_returns :
    {A : Type 0} (p s : Text) (params : Text → Option A)
    → AreOrdinary p
    → dollar_quote s ≡ none
    → let template = p ++ (b'$' ∷ s) in
      ((fuel : ℕ) → bind_dialect fuel template params postgres ≡ none)
      × ((fuel : ℕ) (d : Dialect) → extract_param_names fuel template d ≡ none)
      × ((fuel : ℕ) (d : Dialect) → strip_dialect fuel template d ≡ none)
unfolding bind_dialect extract_param_names strip_dialect
unclosed_dollar_never_returns p s params h unclosed = (
  λ fuel. bind_loop-none s unclosed params (placeholder_for_dialect postgres) fuel 0 p h,
  λ fuel d. extract_loop-none s unclosed d fuel [] p h,
  λ fuel d. strip_loop-none s unclosed d fuel p h,
)

-- A template that ends with the Postgres string `$$name$$`, with one identifier for its body, is
-- such a template: the scanner takes the whole string for the tag that opens a quote.
pub dollar_name_never_returns :
    {A : Type 0} (p name : Text) (params : Text → Option A)
    → AreOrdinary p
    → All (λ c. is_ident_part c ≡ true) name
    → let template = p ++ (b'$' ∷ b'$' ∷ (name ++ (b'$' ∷ b'$' ∷ []))) in
      ((fuel : ℕ) → bind_dialect fuel template params postgres ≡ none)
      × ((fuel : ℕ) (d : Dialect) → extract_param_names fuel template d ≡ none)
      × ((fuel : ℕ) (d : Dialect) → strip_dialect fuel template d ≡ none)
dollar_name_never_returns p name params h ident =
    unclosed_dollar_never_returns p _ params h (dollar_quote-name name ident)
