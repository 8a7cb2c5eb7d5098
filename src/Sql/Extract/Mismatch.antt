-- ===== src/Sql/Extract/Mismatch.antt =====
-- Where the connectors' `Bind` and the extraction at publishing disagree.
use ddag.Base.{
  ℕ, suc, Bool, true, ◌||◌, ◌≡◌, refl, ap, ◌∙◌, Option, none, some, [], ◌∷◌, ◌++◌, arith, ◌==◌,
  Text, length, All,
}
use ddag.Sql.Scan.{Dialect, push, other, span, is_ident_part, is_ident_start, next_starts_ident}
use ddag.Sql.Scan.Ordinary.{NoDollar, dollar_block, dollar_quote-block, span-push}
use ddag.Sql.Bind
use ddag.Sql.Bind.{bind_token, Bound, missing, bind_loop, bind, tail, in_result, prepend}
use ddag.Sql.Extract.{skipped, extract_token, extract_loop, extract_param_names}

-- A parameter name: an identifier.
abbrev pub IsName : Text → Type 0
IsName name = (next_starts_ident name ≡ true) × All (λ c. is_ident_part c ≡ true) name

-- `$$ :name$$`, a string that quotes a colon and a name.
abbrev pub quoted_name : Text → Text
quoted_name name = dollar_block (b':' ∷ name)

IsName-NoDollar : (name : Text) → All (λ c. is_ident_part c ≡ true) name → NoDollar name
unfolding is_ident_part is_ident_start
IsName-NoDollar [] h = tt
IsName-NoDollar (c ∷ name) h = (ground (arith, h.0), IsName-NoDollar name h.1)

span-name :
    (name : Text)
    → All (λ c. is_ident_part c ≡ true) name
    → span is_ident_part (name ++ (b'$' ∷ b'$' ∷ [])) ≡ (name, b'$' ∷ b'$' ∷ [])
span-name [] h = unfold span is_ident_part is_ident_start in refl
span-name (c ∷ name) h =
    span-push is_ident_part c (name ++ (b'$' ∷ b'$' ∷ [])) h.0 ∙ ap (push c) (span-name name h.1)

extract-quoted :
    (d : Dialect) (name : Text)
    → IsName name
    → extract_token d b'$' (b'$' ∷ b' ' ∷ b':' ∷ (name ++ (b'$' ∷ b'$' ∷ []))) ≡ skipped []
unfolding extract_token
extract-quoted d name h =
    let (p, found, e) = dollar_quote-block (b':' ∷ name) (refl, IsName-NoDollar name h.1) in
    rw (found, e) refl

bind_token-name :
    (name : Text)
    → IsName name
    → bind_token other b':' (name ++ (b'$' ∷ b'$' ∷ [])) ≡ Bind.named name (b'$' ∷ b'$' ∷ [])
unfolding bind_token
bind_token-name [] h = ground (arith, h.0)
bind_token-name (c ∷ name) h = rw (span-name (c ∷ name) h.1) (ground (arith, h.0))

abbrev is_one : ℕ → Bool
is_one c = c == b'$' || c == b' '

plain_rune : (c : ℕ) (s : Text) → is_one c ≡ true → bind_token other c s ≡ Bind.copied (c ∷ []) s
unfolding bind_token
plain_rune c s h = ground (arith, h)

module _ {A : Type 0} (params : Text → Option A) (ph : ℕ → Text) (fuel n : ℕ) where
  bind_loop-plain :
      (c : ℕ) (s : Text)
      → is_one c ≡ true
      → bind_loop params ph other (suc fuel) n (c ∷ s)
        ≡ in_result (prepend (c ∷ [])) (bind_loop params ph other fuel n s)
  unfolding bind_loop
  bind_loop-plain c s h = rw (plain_rune c s h, bind_loop) refl

  bind_loop-missing :
      (name : Text)
      → IsName name
      → params name ≡ none
      → bind_loop params ph other (suc fuel) n (b':' ∷ (name ++ (b'$' ∷ b'$' ∷ [])))
        ≡ some (missing name)
  unfolding bind_loop
  bind_loop-missing name h absent = rw (bind_token-name name h, bind_loop, absent) refl

-- The template `$$ :name$$`, of two dollars, a blank, a colon, an identifier and two dollars: the
-- extraction finds no parameter in it, in every dialect, and the connectors' `Bind` takes the
-- identifier for a parameter, in every placeholder style, and reports it missing where it has no value.
pub quoted_name-missing :
    {A : Type 0} (d : Dialect) (name : Text) (params : Text → Option A) (ph : ℕ → Text)
    → IsName name
    → params name ≡ none
    → (extract_param_names (length (quoted_name name)) (quoted_name name) d ≡ some [])
      × (bind (length (quoted_name name)) (quoted_name name) params ph ≡ some (missing name))
unfolding extract_param_names bind extract_loop
quoted_name-missing d name params ph h absent =
    let tail = name ++ (b'$' ∷ b'$' ∷ []) in
    let m = length tail in
    let dollars =
      bind_loop-plain params ph (suc (suc (suc m))) 0 b'$' (b'$' ∷ b' ' ∷ b':' ∷ tail) refl in
    let dollar = bind_loop-plain params ph (suc (suc m)) 0 b'$' (b' ' ∷ b':' ∷ tail) refl in
    let blank = bind_loop-plain params ph (suc m) 0 b' ' (b':' ∷ tail) refl in
    (
      rw (extract-quoted d name h, extract_loop) refl,
      dollars
          ∙ ap (in_result (prepend (b'$' ∷ []))) (
              dollar
              ∙ ap (in_result (prepend (b'$' ∷ []))) (
                  blank
                  ∙ ap (in_result (prepend (b' ' ∷ [])))
                      (bind_loop-missing params ph m 0 name h absent))),
    )
