-- ===== src/Sql/Bind/Pieces.antt =====
-- The contract of parameter binding: a template is a list of pieces, runes to copy and names to
-- bind, and binding fills in the names.
use ddag.Base.{
  ℕ, zero, suc, ◌+◌, ◌≤◌, false, ◌≡◌, refl, ap, sym, subst, ◌∙◌, Option, none, some, List, [], ◌∷◌,
  ◌++◌, arith, inl, inr, Option-cases, Text, length, All, All-split,
}
use mathlib.Core.Option.{some-injective}
use ddag.Sql.Scan.{Dialect, other}
use ddag.Sql.Bind.{
  Token, copied, named, stalled, bind_token, Bound, bound, missing, prepend, prepend_arg, bind_loop,
  placeholder_for_dialect, bind_dialect, bind,
}
use ddag.Sql.Bind.Progress.{may_stall, Consumes, bind_token-Consumes}

pub data Piece : Type 0 where
  verbatim : Text → Piece
  param : Text → Piece

-- The template that a list of pieces stands for.
unfoldable pub unparse : List Piece → Text
unparse [] = []
unparse (verbatim t ∷ ps) = t ++ unparse ps
unparse (param name ∷ ps) = b':' ∷ (name ++ unparse ps)

-- The SQL and the arguments for it: the k-th name becomes the k-th placeholder and its value the
-- k-th argument, all other runes stay; the first name with no value is reported.
unfoldable pub fill : {A : Type 0} → (Text → Option A) → (ℕ → Text) → ℕ → List Piece → Bound A
fill params ph n [] = bound [] []
fill params ph n (verbatim t ∷ ps) = prepend t (fill params ph n ps)
fill params ph n (param name ∷ ps) = elim (params name) [
  | none ↦ missing name
  | some v ↦ prepend (ph (n + 1)) (prepend_arg v (fill params ph (n + 1) ps))
]

abbrev cons_piece : Piece → Option (List Piece) → Option (List Piece)
cons_piece p none = none
cons_piece p (some ps) = some (p ∷ ps)

-- The pieces that the scanner of `bindDialect` finds.
unfoldable pub pieces : Dialect → ℕ → Text → Option (List Piece)
pieces d fuel [] = some []
pieces d zero (c ∷ s) = none
pieces d (suc fuel) (c ∷ s) = elim (bind_token d c s) [
  | copied out rest ↦ cons_piece (verbatim out) (pieces d fuel rest)
  | named name rest ↦ cons_piece (param name) (pieces d fuel rest)
  | stalled ↦ pieces d fuel (c ∷ s)
]

-- What the scanner finds, on fuel enough for every rune.
abbrev Parsed : Dialect → ℕ → Text → Type 0
Parsed d fuel t = (ps : List Piece) × (pieces d fuel t ≡ some ps) × (unparse ps ≡ t)

abbrev pub CannotStall : Dialect → Text → Type 0
CannotStall d t = All (λ c. may_stall d c ≡ false) t

rest-CannotStall :
    (d : Dialect) (out rest s : Text) → out ++ rest ≡ s → CannotStall d s → CannotStall d rest
rest-CannotStall d out rest s e h = (All-split _ out rest (subst (CannotStall d) (sym e) h)).1

parse_step :
    (d : Dialect) (fuel c : ℕ) (s : Text) (tok : Token)
    → bind_token d c s ≡ tok
    → Consumes d tok c s
    → may_stall d c ≡ false
    → ((rest : Text)
        → length rest ≤ length s
        → ((out : Text) → out ++ rest ≡ c ∷ s → Parsed d fuel rest))
    → Parsed d (suc fuel) (c ∷ s)
unfolding pieces unparse Consumes
parse_step d fuel c s (copied out rest) e h calm ih =
    let (ps, found, whole) = ih rest h.1 out h.0 in
    (verbatim out ∷ ps, rw (e, pieces, found) refl, ap (◌++◌ out) whole ∙ h.0)
parse_step d fuel c s (named name rest) e h calm ih =
    let (ps, found, whole) = ih rest h.1 (b':' ∷ name) h.0 in
    (param name ∷ ps, rw (e, pieces, found) refl, ap (λ r. b':' ∷ (name ++ r)) whole ∙ h.0)
parse_step d fuel c s stalled e h calm ih = ground (arith, h, calm)

parsed : (d : Dialect) (fuel : ℕ) (t : Text) → length t ≤ fuel → CannotStall d t → Parsed d fuel t
unfolding pieces unparse
parsed d fuel [] h calm = ([], refl, refl)
parsed d zero (c ∷ s) h calm = absurd (omega arith)
parsed d (suc fuel) (c ∷ s) h calm =
    parse_step d fuel c s (bind_token d c s) refl (bind_token-Consumes d c s) calm.0
      (λ rest short out e.
        parsed d fuel rest (omega arith) (rest-CannotStall d out rest (c ∷ s) e calm))

cons_piece-some :
    (p : Piece) (o : Option (List Piece)) (ps : List Piece)
    → cons_piece p o ≡ some ps
    → (qs : List Piece) × (o ≡ some qs) × (p ∷ qs ≡ ps)
cons_piece-some p none ps e = cc
cons_piece-some p (some qs) ps e = (qs, refl, ground (arith, e))

module _ {A : Type 0} (params : Text → Option A) (ph : ℕ → Text) (d : Dialect) where
  -- What one turn does in both loops.
  fill_step :
      (fuel n c : ℕ) (s : Text) (tok : Token) (ps : List Piece)
      → bind_token d c s ≡ tok
      → ((m : ℕ) (rest : Text) (qs : List Piece)
          → pieces d fuel rest ≡ some qs
          → bind_loop params ph d fuel m rest ≡ some (fill params ph m qs))
      → (pieces d fuel (c ∷ s) ≡ some ps
          → bind_loop params ph d fuel n (c ∷ s) ≡ some (fill params ph n ps))
      → pieces d (suc fuel) (c ∷ s) ≡ some ps
      → bind_loop params ph d (suc fuel) n (c ∷ s) ≡ some (fill params ph n ps)
  unfolding pieces bind_loop fill
  fill_step fuel n c s (copied out rest) ps e ih again found =
      let (qs, rest_found, whole) =
        cons_piece-some (verbatim out) (pieces d fuel rest) ps (rw (e, pieces) at found) in
      subst (λ r. bind_loop params ph d (suc fuel) n (c ∷ s) ≡ some (fill params ph n r)) whole
        (rw (e, bind_loop, ih n rest qs rest_found) refl)
  fill_step fuel n c s (named name rest) ps e ih again found =
      let (qs, rest_found, whole) =
        cons_piece-some (param name) (pieces d fuel rest) ps (rw (e, pieces) at found) in
      subst (λ r. bind_loop params ph d (suc fuel) n (c ∷ s) ≡ some (fill params ph n r)) whole
        (elim (Option-cases (params name)) [
          | inl absent ↦ rw (e, bind_loop, absent, fill) refl
          | inr (v, present) ↦ rw (e, bind_loop, present, fill, ih (n + 1) rest qs rest_found) refl
        ])
  fill_step fuel n c s stalled ps e ih again found =
      rw (e, bind_loop) (again (rw (e, pieces) at found))

  bind_loop-fill :
      (fuel n : ℕ) (t : Text) (ps : List Piece)
      → pieces d fuel t ≡ some ps
      → bind_loop params ph d fuel n t ≡ some (fill params ph n ps)
  unfolding pieces bind_loop fill
  bind_loop-fill fuel n [] ps e =
      subst (λ r. ◌≡◌ {A = Option (Bound A)} (some (bound [] [])) (some (fill params ph n r)))
        (some-injective [] ps e) refl
  bind_loop-fill zero n (c ∷ s) ps e = cc
  bind_loop-fill (suc fuel) n (c ∷ s) ps e =
      fill_step fuel n c s (bind_token d c s) ps refl (bind_loop-fill fuel)
        (bind_loop-fill fuel n (c ∷ s) ps) e

-- On a template with no `$` for Postgres, no `q` for Oracle, and on any template for the other
-- dialects, `BindDialect` returns after at most one turn for each rune. The template is split into
-- verbatim pieces and parameter names that stand for it exactly; whatever the values are, the
-- verbatim pieces are copied unchanged, the k-th name is replaced by the dialect's k-th placeholder
-- with its value as the k-th argument, and a name with no value is reported.
pub bind_dialect-fill :
    (d : Dialect) (t : Text)
    → CannotStall d t
    → (ps : List Piece) × (unparse ps ≡ t)
      × ((A : Type 0) (params : Text → Option A)
          → bind_dialect (length t) t params d
            ≡ some (fill params (placeholder_for_dialect d) 0 ps))
unfolding bind_dialect
bind_dialect-fill d t calm =
    let (ps, found, whole) = parsed d (length t) t (omega arith) calm in
    (
      ps,
      whole,
      λ A params. bind_loop-fill params (placeholder_for_dialect d) d (length t) 0 t ps found,
    )

calm_other : (t : Text) → CannotStall other t
calm_other [] = tt
calm_other (c ∷ s) = (refl, calm_other s)

-- `Bind`, the binder that the connectors call, returns on every template after at most one turn for
-- each rune. The template is split into verbatim pieces and parameter names that stand for it exactly;
-- whatever the values and the placeholders are, the verbatim pieces are copied unchanged, the k-th
-- name is replaced by the k-th placeholder with its value as the k-th argument, and a name with no
-- value is reported.
pub bind-fill :
    (t : Text)
    → (ps : List Piece) × (unparse ps ≡ t)
      × ((A : Type 0) (params : Text → Option A) (ph : ℕ → Text)
          → bind (length t) t params ph ≡ some (fill params ph 0 ps))
unfolding bind
bind-fill t =
    let (ps, found, whole) = parsed other (length t) t (omega arith) (calm_other t) in
    (ps, whole, λ A params ph. bind_loop-fill params ph other (length t) 0 t ps found)
