-- ===== src/Sql/Strip/Hidden.antt =====
-- What the statement checks do not see.
use ddag.Base.{
  ℕ, zero, suc, ◌≤◌, true, ◌⊎◌, inl, inr, ◌≢◌, ◌≡◌, refl, Option, some, [], ◌∷◌, ◌++◌, arith, Text,
  length, All, All-append,
}
use ddag.Sql.Scan.{Dialect, postgres, other}
use ddag.Sql.Scan.Ordinary.{
  is_ordinary, AreOrdinary, dollar_block, dollar_quote-block, AreOrdinary-NoDollar,
}
use ddag.Sql.Bind
use ddag.Sql.Bind.{bind_token, Bound, bound, bind_loop, bind}
use ddag.Sql.Strip.{skipped, strip_token, strip_loop, strip_dialect}

strip_token-block :
    (d : Dialect) (body : Text)
    → AreOrdinary body
    → strip_token d b'$' (b'$' ∷ b' ' ∷ (body ++ (b'$' ∷ b'$' ∷ []))) ≡ skipped []
unfolding strip_token
strip_token-block d body h =
    let (p, found, e) = dollar_quote-block body (AreOrdinary-NoDollar body h) in rw (found, e) refl

-- Runes that `bindDialect` copies one by one, in a dialect that has no dollar quotes.
abbrev IsCopied : ℕ → Type 0
IsCopied c = (is_ordinary c ≡ true) ⊎ (c ≡ b'$')

bind_token-copied :
    (d : Dialect) (c : ℕ) (s : Text)
    → d ≢ postgres
    → IsCopied c
    → bind_token d c s ≡ Bind.copied (c ∷ []) s
unfolding bind_token
bind_token-copied d c s other_dialect h = ground (arith, other_dialect)

bind_loop-copied :
    {A : Type 0} (d : Dialect) (params : Text → Option A) (ph : ℕ → Text) (fuel n : ℕ) (t : Text)
    → d ≢ postgres
    → All IsCopied t
    → length t ≤ fuel
    → bind_loop params ph d fuel n t ≡ some (bound t [])
unfolding bind_loop
bind_loop-copied d params ph fuel n [] od h enough = refl
bind_loop-copied d params ph zero n (c ∷ t) od h enough = absurd (omega arith)
bind_loop-copied d params ph (suc fuel) n (c ∷ t) od h enough =
    rw
      (
        bind_token-copied d c t od h.0,
        bind_loop,
        bind_loop-copied d params ph fuel n t od h.1 (omega arith),
      )
      refl

AreOrdinary-IsCopied : (t : Text) → AreOrdinary t → All IsCopied t
AreOrdinary-IsCopied [] h = tt
AreOrdinary-IsCopied (c ∷ t) h = (inl h.0, AreOrdinary-IsCopied t h.1)

block-IsCopied : (body : Text) → AreOrdinary body → All IsCopied (dollar_block body)
block-IsCopied body h = (
  inr refl,
  (
    inr refl,
    (
      inl refl,
      All-append IsCopied body (b'$' ∷ b'$' ∷ []) (AreOrdinary-IsCopied body h)
          (inr refl, (inr refl, tt)),
    ),
  ),
)

-- The connectors' `Bind` sends a text `$$ body$$` as it stands, with no arguments, where its body has no
-- rune that begins a quote, comment, cast, parameter or dollar, whatever the values and the
-- placeholders are; what StripDialect leaves of it, in every dialect, is empty. So where the database
-- knows no dollar quotes, the statement checks see neither a semicolon nor a keyword of the body.
pub dollar_block_hidden :
    {A : Type 0} (d : Dialect) (body : Text) (params : Text → Option A) (ph : ℕ → Text)
    → AreOrdinary body
    → (bind (length (dollar_block body)) (dollar_block body) params ph
        ≡ some (bound (dollar_block body) []))
      × (strip_dialect (length (dollar_block body)) (dollar_block body) d ≡ some [])
unfolding bind strip_dialect strip_loop
dollar_block_hidden d body params ph h = (
  bind_loop-copied other params ph (length (dollar_block body)) 0 (dollar_block body) (λ e. cc)
      (block-IsCopied body h) (omega arith),
  rw (strip_token-block d body h, strip_loop) refl,
)
