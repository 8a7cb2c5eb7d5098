-- ===== src/Sql/Extract/Agreement.antt =====
-- For Postgres the names that are extracted when an API is published are those that are bound when
-- it is called.
use ddag.Base.{
  ℕ, zero, suc, ◌+◌, true, false, ◌≡◌, refl, sym, subst, Option, none, some, List, [], ◌∷◌, ◌++◌,
  arith, Text, eq_text, eq_text→eq, Bool-cases, Option-cases, inl, inr, All, All-split,
}
use mathlib.Core.Option.{some-injective}
use ddag.Sql.Bind.Progress.{Consumes, bind_token-Consumes}
use ddag.Sql.Scan.{Dialect, postgres, copy_delimited, skip_delimited}
use ddag.Sql.Bind
use ddag.Sql.Bind.{
  bind_token, Bound, bound, missing, prepend, prepend_arg, in_result, bind_loop,
  placeholder_for_dialect, bind_dialect,
}
use ddag.Sql.Bind.{is_some}
use ddag.Sql.Extract.{
  Token, skipped, noted, stuck, extract_token, contains, note, extract_loop, extract_param_names,
}

abbrev pub forget : Bind.Token → Token
forget (Bind.copied out rest) = skipped rest
forget (Bind.named name rest) = noted name rest
forget Bind.stalled = stuck

same_token : (c : ℕ) (s : Text) → extract_token postgres c s ≡ forget (bind_token postgres c s)
unfolding extract_token bind_token copy_delimited skip_delimited
same_token c s = ground arith

module _ (d : Dialect) (P : Text → Type 0) where
  contains-All :
      (order : List Text) (name : Text) → contains order name ≡ true → All P order → P name
  unfolding contains
  contains-All [] name e h = cc
  contains-All (n ∷ ns) name e h = elim (Bool-cases (eq_text n name)) [
    | inl same ↦ subst P (eq_text→eq n name same) h.0
    | inr other ↦ contains-All ns name (ground (arith, e, other)) h.1
  ]

  note-All : (order : List Text) (name : Text) → All P (note order name) → All P order × P name
  unfolding note
  note-All order name h = elim (Bool-cases (contains order name)) [
    | inl old ↦
        let kept : All P order = rw (old, note) at h in (kept, contains-All order name old kept)
    | inr new ↦
        let (kept, last) = All-split P order (name ∷ []) (rw (new, note) at h) in (kept, last.0)
  ]

  extracted_step :
      (fuel c : ℕ) (order names : List Text) (s : Text) (tok : Token)
      → extract_token d c s ≡ tok
      → ((order : List Text) (t : Text) → extract_loop d fuel order t ≡ some names → All P order)
      → extract_loop d (suc fuel) order (c ∷ s) ≡ some names
      → All P order
  unfolding extract_loop
  extracted_step fuel c order names s (skipped rest) e ih found =
      ih order rest (rw (e, extract_loop) at found)
  extracted_step fuel c order names s (noted name rest) e ih found =
      (note-All order name (ih (note order name) rest (rw (e, extract_loop) at found))).0
  extracted_step fuel c order names s stuck e ih found =
      ih order (c ∷ s) (rw (e, extract_loop) at found)

  -- The names noted so far are among those returned.
  noted-All :
      (fuel : ℕ) (names : List Text)
      → All P names
      → (order : List Text) (t : Text) → extract_loop d fuel order t ≡ some names
      → All P order
  unfolding extract_loop
  noted-All fuel names h order [] found = subst (All P) (sym (some-injective order names found)) h
  noted-All zero names h order (c ∷ s) found = cc
  noted-All (suc fuel) names h order (c ∷ s) found =
      extracted_step fuel c order names s (extract_token d c s) refl (noted-All fuel names h) found

abbrev pub IsBound : {A : Type 0} → Option (Bound A) → Type 0
IsBound none = ⊥
IsBound (some (bound sql args)) = Unit {0}
IsBound (some (missing name)) = ⊥

prepend-IsBound :
    {A : Type 0} (out : Text) (r : Option (Bound A))
    → IsBound r
    → IsBound (in_result (prepend out) r)
prepend-IsBound out (some (bound sql args)) h = tt
prepend-IsBound out (some (missing name)) h = h
prepend-IsBound out none h = h

prepend_arg-IsBound :
    {A : Type 0} (out : Text) (v : A) (r : Option (Bound A))
    → IsBound r
    → IsBound (in_result (λ b. prepend out (prepend_arg v b)) r)
prepend_arg-IsBound out v (some (bound sql args)) h = tt
prepend_arg-IsBound out v (some (missing name)) h = h
prepend_arg-IsBound out v none h = h

-- Two dialects, one of the extractor and one of the binder, that scan alike on the texts of `Q`.
module _ (d b : Dialect) (Q : Text → Type 0)
    (alike : (c : ℕ) (s : Text) → Q (c ∷ s) → extract_token d c s ≡ forget (bind_token b c s))
    (rest-Q : (out rest s : Text) → out ++ rest ≡ s → Q s → Q rest) {A : Type 0}
    (params : Text → Option A) (ph : ℕ → Text) (names : List Text)
    (present : All (λ name. is_some (params name) ≡ true) names) where
  abbrev HasValue : Text → Type 0
  HasValue name = is_some (params name) ≡ true

  IsBound-step :
      (fuel n c : ℕ) (order : List Text) (s : Text) (tok : Bind.Token)
      → Q (c ∷ s)
      → bind_token b c s ≡ tok
      → Consumes b tok c s
      → ((n : ℕ) (order : List Text) (t : Text)
          → Q t
          → extract_loop d fuel order t ≡ some names
          → IsBound (bind_loop params ph b fuel n t))
      → extract_loop d (suc fuel) order (c ∷ s) ≡ some names
      → IsBound (bind_loop params ph b (suc fuel) n (c ∷ s))
  unfolding extract_loop bind_loop Consumes
  IsBound-step fuel n c order s (Bind.copied out rest) q e h ih found =
      rw (e, bind_loop)
        (prepend-IsBound out _ (
          ih n order rest (rest-Q out rest (c ∷ s) h.0 q)
            (rw (alike c s q, e, extract_loop) at found)))
  IsBound-step fuel n c order s (Bind.named name rest) q e h ih found =
      let later = rw (alike c s q, e, extract_loop) at found in
      let calm = rest-Q (b':' ∷ name) rest (c ∷ s) h.0 q in
      let has : HasValue name =
        (note-All d HasValue order name
          (noted-All d HasValue fuel names present (note order name) rest later)).1 in
      elim (Option-cases (params name)) [
        | inl absent ↦ let no_value : false ≡ true = rw absent at has in cc
        | inr (v, there) ↦
            rw (e, bind_loop, there)
              (prepend_arg-IsBound (ph (n + 1)) v _ (ih (n + 1) (note order name) rest calm later))
      ]
  IsBound-step fuel n c order s Bind.stalled q e h ih found =
      rw (e, bind_loop) (ih n order (c ∷ s) q (rw (alike c s q, e, extract_loop) at found))

  pub IsBound-when_present :
      (fuel n : ℕ) (order : List Text) (t : Text)
      → Q t
      → extract_loop d fuel order t ≡ some names
      → IsBound (bind_loop params ph b fuel n t)
  unfolding extract_loop bind_loop
  IsBound-when_present fuel n order [] q found = tt
  IsBound-when_present zero n order (c ∷ s) q found = cc
  IsBound-when_present (suc fuel) n order (c ∷ s) q found =
      IsBound-step fuel n c order s (bind_token b c s) q refl (bind_token-Consumes b c s)
        (IsBound-when_present fuel) found

pub IsBound-witness :
    {A : Type 0} (r : Option (Bound A))
    → IsBound r
    → (sql : Text) × (args : List A) × (r ≡ some (bound sql args))
IsBound-witness (some (bound sql args)) h = (sql, args, refl)
IsBound-witness (some (missing name)) h = absurd h
IsBound-witness none h = absurd h

-- For Postgres, if `ExtractParamNamesDialect` returns a list of names within some number of turns and
-- each of them has a value, then `BindDialect` returns within as many turns, and with SQL and
-- arguments: it reports no missing parameter.
pub extracted_names_suffice :
    {A : Type 0} (fuel : ℕ) (t : Text) (names : List Text) (params : Text → Option A)
    → extract_param_names fuel t postgres ≡ some names
    → All (λ name. is_some (params name) ≡ true) names
    → (sql : Text) × (args : List A) × (bind_dialect fuel t params postgres ≡ some (bound sql args))
unfolding extract_param_names bind_dialect
extracted_names_suffice fuel t names params found present = IsBound-witness _ (
    IsBound-when_present postgres postgres (λ u. Unit) (λ c u q. same_token c u)
      (λ out rest u e q. tt) params (placeholder_for_dialect postgres) names present fuel 0 [] t tt
      found)
