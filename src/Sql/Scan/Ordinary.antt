-- ===== src/Sql/Scan/Ordinary.antt =====
-- Runes that begin nothing, and the dollar quotes that `dollarQuoteEnd` finds and does not find.
use ddag.Base.{
  ℕ, Bool, true, false, ◌||◌, not, ◌≡◌, refl, ap, ◌∙◌, inl, inr, Bool-cases, none, some, [], ◌∷◌,
  ◌++◌, arith, ◌==◌, Text, All,
}
use ddag.Sql.Scan.{
  Span, push, span, strip_tag, find_tag, dollar_quote, is_tag_rune, is_ident_part, ends_in_dollar,
}

-- Begins no quote, comment, cast or parameter, in any dialect.
abbrev pub is_ordinary : ℕ → Bool
is_ordinary c = not (
    c == b'$'
    || c == b'`'
    || c == b'['
    || c == b'"'
    || c == b'#'
    || c == b'q'
    || c == b'\''
    || c == b'-'
    || c == b'/'
    || c == b':')

abbrev pub AreOrdinary : Text → Type 0
AreOrdinary = All (λ c. is_ordinary c ≡ true)

-- `$$ body$$`.
abbrev pub dollar_block : Text → Text
dollar_block body = b'$' ∷ b'$' ∷ b' ' ∷ (body ++ (b'$' ∷ b'$' ∷ []))

abbrev pub NoDollar : Text → Type 0
NoDollar = All (λ c. (c == b'$') ≡ false)

pub AreOrdinary-NoDollar : (s : Text) → AreOrdinary s → NoDollar s
AreOrdinary-NoDollar [] h = tt
AreOrdinary-NoDollar (c ∷ s) h = (ground (arith, h.0), AreOrdinary-NoDollar s h.1)

find_tag-body :
    (body : Text)
    → NoDollar body
    → (p : Span) × (find_tag (b'$' ∷ b'$' ∷ []) (body ++ (b'$' ∷ b'$' ∷ [])) ≡ some p) × (p.1 ≡ [])
unfolding find_tag strip_tag
find_tag-body [] h = ((b'$' ∷ b'$' ∷ [], []), refl, refl)
find_tag-body (c ∷ body) h =
    let (p, found, e) = find_tag-body body h.1 in ((c ∷ p.0, p.1), ground (arith, found, h.0), e)

-- A block whose body has no `$` and begins with a blank is found whole.
pub dollar_quote-block :
    (body : Text)
    → NoDollar body
    → (p : Span) × (dollar_quote (b'$' ∷ b' ' ∷ (body ++ (b'$' ∷ b'$' ∷ []))) ≡ some p) × (p.1 ≡ [])
unfolding dollar_quote span find_tag strip_tag is_ident_part find_tag-body
dollar_quote-block body h =
    let (p, found, e) = find_tag-body body h in ((b'$' ∷ b'$' ∷ b' ' ∷ p.0, p.1), rw found refl, e)

pub span-push : (p : ℕ → Bool) (c : ℕ) (s : Text) → p c ≡ true → span p (c ∷ s) ≡ push c (span p s)
unfolding span
span-push p c s h = ground arith

span_dollars : span is_tag_rune (b'$' ∷ b'$' ∷ []) ≡ (b'$' ∷ b'$' ∷ [], [])
unfolding span is_ident_part
span_dollars = refl

span-All :
    (name : Text)
    → All (λ c. is_ident_part c ≡ true) name
    → span is_tag_rune (name ++ (b'$' ∷ b'$' ∷ [])) ≡ (name ++ (b'$' ∷ b'$' ∷ []), [])
span-All [] h = span_dollars
span-All (c ∷ name) h =
    span-push is_tag_rune c (name ++ (b'$' ∷ b'$' ∷ [])) (rw h.0 refl)
    ∙ ap (push c) (span-All name h.1)

ends_all : (name : Text) → ends_in_dollar (name ++ (b'$' ∷ b'$' ∷ [])) ≡ true
ends_all [] = refl
ends_all (c ∷ []) = refl
ends_all (c ∷ e ∷ name) = ends_all (e ∷ name)

dollar_whole : (tag : Text) → span is_tag_rune tag ≡ (tag, []) → dollar_quote tag ≡ none
unfolding dollar_quote find_tag strip_tag
dollar_whole tag h = elim (Bool-cases (ends_in_dollar tag)) [
  | inl ends ↦ rw (h, dollar_quote, ends) refl
  | inr other ↦ rw (h, dollar_quote, other) refl
]

-- A block `$$name$$` whose body is one identifier is taken for the opening tag of a longer quote,
-- and not found, where the text ends behind it.
pub dollar_quote-name :
    (name : Text)
    → All (λ c. is_ident_part c ≡ true) name
    → dollar_quote (b'$' ∷ (name ++ (b'$' ∷ b'$' ∷ []))) ≡ none
dollar_quote-name name h = dollar_whole (b'$' ∷ (name ++ (b'$' ∷ b'$' ∷ []))) (
    span-push is_tag_rune b'$' (name ++ (b'$' ∷ b'$' ∷ [])) (unfold is_ident_part in refl)
    ∙ ap (push b'$') (span-All name h))
