-- ===== src/Pools/Sound.antt =====
-- internal/connectorpool/registry.go: what holds of the pools between the steps.
use mathlib.Core.Option.{some-injective}
use ddag.Base.{
  arith, ℕ, ◌≤◌, ◌<◌, ◌≡◌, ◌⊎◌, refl, sym, subst, ◌∙◌, ap, Bool, true, false, Bool-cases, inl, inr,
  Option, none, some, ◌==◌, Text, eq_text, eq_text→eq, eq_text_refl,
}
use ddag.Pools.{
  Entry, Flight, Registry, new, set_entry, set_flight, close, close_stale, took_off, invalidate,
}

pub set_flight-cases :
    (g g' : ℕ) (o : Option Flight) (flights : ℕ → Option Flight) (f : Flight)
    → set_flight g o flights g' ≡ some f
    → ((g ≡ g') × (o ≡ some f)) ⊎ (((g == g') ≡ false) × (flights g' ≡ some f))
set_flight-cases g g' o flights f h = ground (arith, h)

pub set_entry-cases :
    (id id' : Text) (o : Option Entry) (entries : Text → Option Entry) (e : Entry)
    → set_entry id o entries id' ≡ some e
    → ((eq_text id id' ≡ true) × (o ≡ some e)) ⊎ ((eq_text id id' ≡ false) × (entries id' ≡ some e))
set_entry-cases id id' o entries e h = ground (arith, h)

-- What holds of a pool that may be returned, for a connection: it was built for it, and is open. The
-- holder is the goroutine that built it and has not yet looked again.
abbrev pub IsLive : Registry → (ℕ → Option ℕ) → ℕ → Text → Option ℕ → Type 0
IsLive r holder c id who =
    (c < r.pools) × (r.closed c ≡ false) × (eq_text (r.built_for c) id ≡ true) × (holder c ≡ who)

abbrev pub IsPast : Registry → (ℕ → Option ℕ) → ℕ → Text → Type 0
IsPast r holder c id = (c < r.pools) × (eq_text (r.built_for c) id ≡ true) × (holder c ≡ none)

pub record IsSound (r : Registry) (holder : ℕ → Option ℕ) : Type 0 where
  pub entry : (id : Text) (e : Entry) → r.entries id ≡ some e → IsLive r holder e.conn id none
  pub flight :
      (g : ℕ) (f : Flight) (c : ℕ)
      → r.flights g ≡ some f
      → f.conn ≡ some c
      → IsLive r holder c f.connection_id (some g)
  pub stale :
      (g : ℕ) (f : Flight) (e : Entry)
      → r.flights g ≡ some f
      → f.stale ≡ some e
      → IsPast r holder e.conn f.connection_id
  pub unbuilt : (c : ℕ) → r.pools ≤ c → r.closed c ≡ false

abbrev pub Sound : Registry → Type 0
Sound r = (holder : ℕ → Option ℕ) × IsSound r holder

-- Two pools with different holders, or for different connections, are not the same.
pub holders_differ :
    (holder : ℕ → Option ℕ) (c c' g : ℕ) → holder c ≡ none → holder c' ≡ some g → (c == c') ≡ false
holders_differ holder c c' g h h' = elim (Bool-cases (c == c')) [
  | inl e ↦ let none' : none ≡ some g = sym h ∙ (ap holder (ground (arith, e)) ∙ h') in cc
  | inr e ↦ e
]

pub connections_differ :
    (built_for : ℕ → Text) (c c' : ℕ) (id id' : Text)
    → eq_text (built_for c) id ≡ true
    → eq_text (built_for c') id' ≡ true
    → eq_text id id' ≡ false
    → (c == c') ≡ false
connections_differ built_for c c' id id' h h' other = elim (Bool-cases (c == c')) [
  | inl e ↦
      let same : built_for c ≡ built_for c' = ap built_for (ground (arith, e)) in
      let equal : id ≡ id' =
        sym (eq_text→eq (built_for c) id h) ∙ (same ∙ eq_text→eq (built_for c') id' h') in
      ground (arith, other, subst (λ x. eq_text id x ≡ true) equal (eq_text_refl id))
  | inr e ↦ e
]

pub close-other :
    (c c' : ℕ) (closed : ℕ → Bool)
    → closed c' ≡ false
    → (c == c') ≡ false
    → close c closed c' ≡ false
close-other c c' closed h other = ground (arith, h, other)

pub close_stale-other :
    (o : Option Entry) (c : ℕ) (closed : ℕ → Bool)
    → closed c ≡ false
    → ((e : Entry) → o ≡ some e → (e.conn == c) ≡ false)
    → close_stale o closed c ≡ false
close_stale-other none c closed h other = h
close_stale-other (some e) c closed h other = close-other e.conn c closed h (other e refl)

pub new-Sound : Sound new
new-Sound = (
  λ c. none,
  record {
    entry = λ id e h. cc;
    flight = λ g f c h hc. cc;
    stale = λ g f e h he. cc;
    unbuilt = λ c h. refl;
  },
)

module _ (r : Registry) (holder : ℕ → Option ℕ) (s : IsSound r holder) where
  pub took_off-IsSound :
      (g : ℕ) (id : Text) (version : ℕ) (o : Option ℕ)
      → IsSound (took_off g id version r o).0 holder
  unfolding took_off
  took_off-IsSound g id version (some c) = s
  took_off-IsSound g id version none = record {
    entry = s.entry;
    flight = λ g' f c h hc. elim (set_flight-cases g g' _ r.flights f h) [
      | inl (same, e) ↦
          let none' : none ≡ some c = ap (λ x. x.conn) (some-injective _ _ e) ∙ hc in cc
      | inr (other, e) ↦ s.flight g' f c e hc
    ];
    stale = λ g' f x h hx. elim (set_flight-cases g g' _ r.flights f h) [
      | inl (same, e) ↦
          let found : r.entries id ≡ some x = ap (λ y. y.stale) (some-injective _ _ e) ∙ hx in
          let (lt, is_open, own, free) = s.entry id x found in
          (
            lt,
            subst (λ y. eq_text (r.built_for x.conn) y.connection_id ≡ true) (some-injective _ _ e)
                own,
            free,
          )
      | inr (other, e) ↦ s.stale g' f x e hx
    ];
    unbuilt = s.unbuilt;
  }

  pub invalidate-IsSound : (id : Text) → IsSound (invalidate id r) holder
  unfolding invalidate
  invalidate-IsSound id = record {
    entry = λ id' e h. elim (set_entry-cases id id' none r.entries e h) [
      | inl (same, no_entry) ↦ cc
      | inr (other, old) ↦
          let (lt, is_open, own, free) = s.entry id' e old in
          (
            lt,
            close_stale-other (r.entries id) e.conn r.closed is_open (λ x found.
                connections_differ r.built_for x.conn e.conn id id' (s.entry id x found).2 own
                  other),
            own,
            free,
          )
    ];
    flight = λ g f c h hc.
        let (lt, is_open, own, held) = s.flight g f c h hc in
        (
          lt,
          close_stale-other (r.entries id) c r.closed is_open
              (λ x found. holders_differ holder x.conn c g (s.entry id x found).3 held),
          own,
          held,
        );
    stale = s.stale;
    unbuilt = λ c past.
        close_stale-other (r.entries id) c r.closed (s.unbuilt c past)
          (λ x found. ground (arith, (s.entry id x found).0, past));
  }
