-- ===== src/Policy/Scope.antt =====
-- internal/policy/policy.go: OAuth2 scopes. Scopes are ASCII texts.
use mathlib.Core.List.{append-nil, append_assoc, Memᴰ}
use mathlib.Core.List.Memᴰ.{head, tail}
use ddag.Base.{
  All, arith, ◌≡◌, refl, subst, ◌∙◌, Bool, true, false, ◌||◌, List, [], ◌∷◌, ◌++◌, if◌then◌else◌,
  Text, eq_text, eq_text→eq, eq_text_refl, Bool-cases, inl, inr, ◌↔◌, sym,
}
use ddag.Models.{is_space, is_empty, trim_left, trim_right, trim_space}

-- `strings.Fields`: the runs of runes that are no space; `part` is the run that is being read.
abbrev pub end_field : Text → List Text → List Text
end_field [] fields = fields
end_field (c ∷ s) fields = (c ∷ s) ∷ fields

unfoldable pub fields_from : Text → Text → List Text
fields_from part [] = end_field part []
fields_from part (c ∷ s) =
    if is_space c then end_field part (fields_from [] s) else fields_from (part ++ (c ∷ [])) s

unfoldable pub contains : List Text → Text → Bool
contains [] s = false
contains (x ∷ xs) s = eq_text x s || contains xs s

unfoldable pub has_scope : Text → Text → Bool
unfolding fields_from contains trim_left trim_right
has_scope token_scopes required =
    is_empty (trim_space required) || contains (fields_from [] token_scopes) required

-- A scope as a token writes it: not empty, and without a space.
unfoldable pub no_space : Text → Bool
no_space [] = true
no_space (c ∷ s) = elim (is_space c) [ true ↦ false | false ↦ no_space s ]

abbrev pub IsScope : Text → Type 0
IsScope s = (is_empty s ≡ false) × (no_space s ≡ true)

-- A claim that joins scopes by single spaces.
unfoldable pub joined : Text → List Text → Text
joined s [] = s
joined s (t ∷ ts) = s ++ (b' ' ∷ joined t ts)

end_field-full :
    (s : Text) (fields : List Text) → is_empty s ≡ false → end_field s fields ≡ s ∷ fields
end_field-full [] fields h = ground (arith, h)
end_field-full (c ∷ s) fields h = refl

fields_from-word :
    (part s rest : Text)
    → no_space s ≡ true
    → fields_from part (s ++ rest) ≡ fields_from (part ++ s) rest
unfolding fields_from no_space
fields_from-word part [] rest h = rw (append-nil part) refl
fields_from-word part (c ∷ s) rest h =
    ground (arith, append_assoc part (c ∷ []) s, fields_from-word (part ++ (c ∷ [])) s rest)

pub fields_from-joined :
    (s : Text) (ts : List Text) → IsScope s → All IsScope ts → fields_from [] (joined s ts) ≡ s ∷ ts
unfolding joined fields_from
fields_from-joined s [] h hs =
    subst (λ t. fields_from [] t ≡ s ∷ []) (append-nil s)
      (fields_from-word [] s [] h.1 ∙ end_field-full s [] h.0)
fields_from-joined s (t ∷ ts) h hs =
    rw
      (
        fields_from-word [] s (b' ' ∷ joined t ts) h.1,
        end_field-full s (fields_from [] (joined t ts)) h.0,
        fields_from-joined t ts hs.0 hs.1,
      )
      refl

trim_left-no_space : (s : Text) → no_space s ≡ true → trim_left is_space s ≡ s
unfolding trim_left no_space
trim_left-no_space [] h = refl
trim_left-no_space (c ∷ s) h = ground (arith, h)

trim_right-no_space : (s : Text) → no_space s ≡ true → trim_right is_space s ≡ s
unfolding trim_right no_space
trim_right-no_space [] h = refl
trim_right-no_space (c ∷ s) h = ground (arith, trim_right-no_space s)

contains→member : (xs : List Text) (x : Text) → contains xs x ≡ true → Memᴰ x xs
unfolding contains
contains→member [] x h = cc
contains→member (y ∷ ys) x h = elim (Bool-cases (eq_text y x)) [
  | inl e ↦ head (sym (eq_text→eq y x e))
  | inr e ↦ tail (contains→member ys x (rw e at h))
]

member→contains : (xs : List Text) (x : Text) → Memᴰ x xs → contains xs x ≡ true
unfolding contains
member→contains [] x a = elim a [ ]
member→contains (y ∷ ys) x (head e) = rw (sym e, eq_text_refl x) refl
member→contains (y ∷ ys) x (tail a) = elim (Bool-cases (eq_text y x)) [
  | inl e ↦ rw e refl
  | inr e ↦ rw e (member→contains ys x a)
]

-- A token whose claim joins scopes by single spaces has a required scope exactly when that scope is
-- equal to one of them: neither a part of a scope nor a longer one is enough. The scopes of the claim
-- and the required one are not empty and have no space.
pub has_scope-joined :
    (s : Text) (ts : List Text) (required : Text)
    → IsScope s
    → All IsScope ts
    → IsScope required
    → (has_scope (joined s ts) required ≡ true) ↔ Memᴰ required (s ∷ ts)
unfolding has_scope
has_scope-joined s ts required h hs hr =
    let same : has_scope (joined s ts) required ≡ contains (s ∷ ts) required =
      rw
        (
          trim_left-no_space required hr.1,
          trim_right-no_space required hr.1,
          hr.0,
          fields_from-joined s ts h hs,
        )
        refl in
    (
      λ e. contains→member (s ∷ ts) required (sym same ∙ e),
      λ a. same ∙ member→contains (s ∷ ts) required a,
    )
