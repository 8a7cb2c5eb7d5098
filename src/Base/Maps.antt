-- ===== src/Base/Maps.antt =====
-- A Go map with text keys, as an association list without repeated keys.
use mathlib.Core.Path.{◌≡◌, refl, subst}
use mathlib.Core.Logic.{inl, inr}
use mathlib.Core.Option.{Option, none, some}
use mathlib.Core.List.{List, [], ◌∷◌}
use native.Mathlib.Omega.{arith}
use ddag.Base.Tests.{if◌then◌else◌, Bool-cases}
use ddag.Base.Lists.{All}
use ddag.Base.Strings.{Text, eq_text, eq_text_iff}

abbrev pub Dict {ℓ} : Type ℓ → Type ℓ
Dict V = List (Text × V)

module _ {ℓ} {V : Type ℓ} where
  unfoldable pub lookup : Text → Dict V → Option V
  lookup k [] = none
  lookup k ((j, v) ∷ m) = if eq_text j k then some v else lookup k m

  unfoldable pub insert : Text → V → Dict V → Dict V
  insert k v [] = (k, v) ∷ []
  insert k v ((j, w) ∷ m) = if eq_text j k then (k, v) ∷ m else (j, w) ∷ insert k v m

  unfoldable pub delete : Text → Dict V → Dict V
  delete k [] = []
  delete k ((j, w) ∷ m) = if eq_text j k then delete k m else (j, w) ∷ delete k m

  pub lookup-insert :
      (k j : Text) (v : V) (m : Dict V)
      → lookup j (insert k v m) ≡ (if eq_text k j then some v else lookup j m)
  unfolding lookup insert
  lookup-insert k j v [] = refl
  lookup-insert k j v ((i, w) ∷ m) =
      ground (arith, eq_text_iff k j, eq_text_iff i k, eq_text_iff i j, lookup-insert k j v m)

  pub lookup-delete :
      (k j : Text) (m : Dict V) → lookup j (delete k m) ≡ (if eq_text k j then none else lookup j m)
  unfolding lookup delete
  lookup-delete k j [] = ground arith
  lookup-delete k j ((i, w) ∷ m) =
      ground (arith, eq_text_iff k j, eq_text_iff i k, eq_text_iff i j, lookup-delete k j m)

  pub All-insert {κ} :
      (P : V → Type κ) (k : Text) (v : V) (m : Dict V)
      → P v
      → All (λ p. P p.1) m
      → All (λ p. P p.1) (insert k v m)
  unfolding insert
  All-insert P k v [] hv h = (hv, tt)
  All-insert P k v ((j, w) ∷ m) hv h = elim (Bool-cases (eq_text j k)) [
    | inl e ↦ rw e (hv, h.1)
    | inr e ↦ rw e (h.0, All-insert P k v m hv h.1)
  ]

  pub All-lookup {κ} :
      (P : V → Type κ) (k : Text) (m : Dict V) {v : V}
      → All (λ p. P p.1) m
      → lookup k m ≡ some v
      → P v
  unfolding lookup
  All-lookup P k [] h found = cc
  All-lookup P k ((j, w) ∷ m) h found = elim (Bool-cases (eq_text j k)) [
    | inl e ↦ subst P (ground (arith, found, e)) h.0
    | inr e ↦ All-lookup P k m h.1 (ground (arith, found, e))
  ]
