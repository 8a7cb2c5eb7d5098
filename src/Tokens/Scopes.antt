-- ===== src/Tokens/Scopes.antt =====
-- internal/authservice/service.go: the scopes that a client is granted.
use mathlib.Core.Option.{some-injective}
use ddag.Base.{
  arith, ℕ, ◌≡◌, refl, sym, subst, ◌∙◌, ap, true, false, Bool-cases, inl, inr, none, some, List, [],
  ◌∷◌, ◌++◌, All, all, Text, codes, eq_text, eq_text→eq, join,
}
use ddag.Models.{is_space, is_empty, trim_space}
use ddag.Policy.Scope.{
  end_field, fields_from, contains, no_space, IsScope, joined, fields_from-joined,
}
use ddag.Tokens.{fields, resolve_scope}

-- Each of the fields of a granted scope is one of the allowed scopes.
abbrev pub Within : Text → List Text → Type 0
Within scope allowed = (s : Text) → contains (fields scope) s ≡ true → contains allowed s ≡ true

no_space-append :
    (part : Text) (c : ℕ)
    → no_space part ≡ true
    → is_space c ≡ false
    → no_space (part ++ (c ∷ [])) ≡ true
unfolding no_space
no_space-append [] c h hc = ground (arith, hc)
no_space-append (d ∷ part) c h hc = ground (arith, h, hc, no_space-append part c)

end_field-IsScope :
    (part : Text) (rest : List Text)
    → no_space part ≡ true
    → All IsScope rest
    → All IsScope (end_field part rest)
end_field-IsScope [] rest h hs = hs
end_field-IsScope (c ∷ part) rest h hs = ((refl, h), hs)

fields_from-IsScope : (part s : Text) → no_space part ≡ true → All IsScope (fields_from part s)
unfolding fields_from
fields_from-IsScope part [] h = end_field-IsScope part [] h tt
fields_from-IsScope part (c ∷ s) h = elim (Bool-cases (is_space c)) [
  | inl e ↦ rw e (
      end_field-IsScope part (fields_from [] s) h
        (fields_from-IsScope [] s (unfold no_space in refl)))
  | inr e ↦ rw e (fields_from-IsScope (part ++ (c ∷ [])) s (no_space-append part c h e))
]

join-joined : (s : Text) (ts : List Text) → join (codes " ") (s ∷ ts) ≡ joined s ts
unfolding join joined
join-joined s [] = refl
join-joined s (t ∷ ts) = ap (λ x. s ++ (b' ' ∷ x)) (join-joined t ts)

fields-join : (ts : List Text) → All IsScope ts → fields (join (codes " ") ts) ≡ ts
fields-join [] h = unfold fields_from join in refl
fields-join (s ∷ ts) h = ap fields (join-joined s ts) ∙ fields_from-joined s ts h.0 h.1

contains-all :
    (allowed fs : List Text) (s : Text)
    → all (contains allowed) fs ≡ true
    → contains fs s ≡ true
    → contains allowed s ≡ true
unfolding contains
contains-all allowed [] s h e = ground (arith, e)
contains-all allowed (f ∷ fs) s h e = elim (Bool-cases (eq_text f s)) [
  | inl same ↦ subst (λ x. contains allowed x ≡ true) (eq_text→eq f s same) (ground (arith, h))
  | inr other ↦ contains-all allowed fs s (ground (arith, h)) (ground (arith, e, other))
]

-- The scope that a request is granted holds scopes of the client only, where none of those is empty or
-- has a space.
pub resolve_scope-Within :
    (requested : Text) (allowed : List Text) (granted : Text)
    → All IsScope allowed
    → resolve_scope requested allowed ≡ some granted
    → Within granted allowed
unfolding resolve_scope
resolve_scope-Within requested allowed granted scopes e s h =
    elim (Bool-cases (is_empty (trim_space requested))) [
      | inl blank ↦
          let same : join (codes " ") allowed ≡ granted = some-injective _ _ (rw blank at e) in
          let fieldwise : fields granted ≡ allowed =
            sym (ap fields same) ∙ fields-join allowed scopes in
          subst (λ fs. contains fs s ≡ true) fieldwise h
      | inr given ↦ elim (Bool-cases (all (contains allowed) (fields requested))) [
        | inl ok ↦
            let same : join (codes " ") (fields requested) ≡ granted =
              some-injective _ _ (rw (given, ok) at e) in
            let split = fields_from-IsScope [] requested (unfold no_space in refl) in
            let fieldwise : fields granted ≡ fields requested =
              sym (ap fields same) ∙ fields-join (fields requested) split in
            contains-all allowed (fields requested) s ok
              (subst (λ fs. contains fs s ≡ true) fieldwise h)
        | inr bad ↦ let no : none ≡ some granted = rw (given, bad) at e in cc
      ]
    ]
