-- ===== src/Pools/Leak.antt =====
-- internal/connectorpool/registry.go: two calls of `Acquire` with different versions of a connection.
use mathlib.Core.Option.{some-injective}
use ddag.Base.{
  arith, ℕ, suc, ◌<◌, ◌≡◌, refl, ap, subst, ◌∙◌, Bool, true, false, Bool-cases, inl, inr, Option,
  none, some, ◌==◌, if◌then◌else◌, Text, eq_text, eq_text_refl,
}
use ddag.Pools.{
  Entry, Flight, Registry, set_flight, current, took_off, first_look, built_flight, build, landed,
  landing, landing_of, second_look, invalidate, Step, looks, builds, looks_again, invalidates,
  Reached,
}
use ddag.Pools.Sound.{IsSound, set_flight-cases, set_entry-cases, close-other, close_stale-other}
use ddag.Pools.Steps.{Reached-Sound}

-- Two goroutines look, both build, and both look again.
abbrev both_look : ℕ → ℕ → Text → ℕ → ℕ → Registry → Registry
both_look g h id v v' r = (first_look h id v' (first_look g id v r).0).0

abbrev both_built : ℕ → ℕ → Text → ℕ → ℕ → Registry → Registry
both_built g h id v v' r = build h true (build g true (both_look g h id v v' r))

abbrev pub race : ℕ → ℕ → Text → ℕ → ℕ → Registry → Registry
race g h id v v' r = (second_look h (second_look g (both_built g h id v v' r)).0).0

-- A pool that is open, and that no entry and no call has.
record IsOrphan (p : ℕ) (r : Registry) : Type 0 where
  built : p < r.pools
  still_open : r.closed p ≡ false
  entry : (id : Text) (e : Entry) → r.entries id ≡ some e → (e.conn == p) ≡ false
  flight : (g : ℕ) (f : Flight) (c : ℕ) → r.flights g ≡ some f → f.conn ≡ some c → (c == p) ≡ false
  stale :
      (g : ℕ) (f : Flight) (e : Entry)
      → r.flights g ≡ some f
      → f.stale ≡ some e
      → (e.conn == p) ≡ false

module _ (g h : ℕ) (id : Text) (v v' : ℕ) (r : Registry) (no_entry : r.entries id ≡ none)
    (two : (g == h) ≡ false) (differ : (v == v') ≡ false) where
  race-closed : (race g h id v v' r).closed ≡ r.closed
  unfolding first_look took_off build built_flight second_look landing_of landing landed
  race-closed = ground (arith, no_entry, two, differ, eq_text_refl id)

  race-pools : (race g h id v v' r).pools ≡ suc (suc r.pools)
  unfolding first_look took_off build built_flight second_look landing_of landing landed
  race-pools = ground (arith, no_entry, two, differ, eq_text_refl id)

  race-entries :
      (id' : Text)
      → (race g h id v v' r).entries id' ≡ (
          if eq_text id id'
          then some record { conn = suc r.pools; version = v' }
          else r.entries id')
  unfolding first_look took_off build built_flight second_look landing_of landing landed
  race-entries id' = ground (arith, no_entry, two, differ, eq_text_refl id)

  race-flights :
      (g' : ℕ)
      → (race g h id v v' r).flights g'
        ≡ (if h == g' then none else if g == g' then none else r.flights g')
  unfolding first_look took_off build built_flight second_look landing_of landing landed
  race-flights g' = ground (arith, no_entry, two, differ, eq_text_refl id)

  race-IsOrphan : (holder : ℕ → Option ℕ) → IsSound r holder → IsOrphan r.pools (race g h id v v' r)
  race-IsOrphan holder s = record {
    built = omega (arith, race-pools);
    still_open = ap (λ closed. closed r.pools) race-closed ∙ s.unbuilt r.pools (omega arith);
    entry = λ id' e found. elim (Bool-cases (eq_text id id')) [
      | inl same ↦ ground (arith, race-entries id', found, same)
      | inr other ↦
          let old : r.entries id' ≡ some e = ground (arith, race-entries id', found, other) in
          ground (arith, (s.entry id' e old).0)
    ];
    flight = λ g' f c found built.
        let old : r.flights g' ≡ some f = ground (arith, race-flights g', found) in
        ground (arith, (s.flight g' f c old built).0);
    stale = λ g' f e found kept.
        let old : r.flights g' ≡ some f = ground (arith, race-flights g', found) in
        ground (arith, (s.stale g' f e old kept).0);
  }

module _ (p : ℕ) (r : Registry) (o : IsOrphan p r) where
  took_off-IsOrphan :
      (g : ℕ) (id : Text) (version : ℕ) (c : Option ℕ) → IsOrphan p (took_off g id version r c).0
  unfolding took_off
  took_off-IsOrphan g id version (some c) = o
  took_off-IsOrphan g id version none = record {
    built = o.built;
    still_open = o.still_open;
    entry = o.entry;
    flight = λ g' f c found built. elim (set_flight-cases g g' _ r.flights f found) [
      | inl (same, e) ↦
          let none' : none ≡ some c = ap (λ x. x.conn) (some-injective _ _ e) ∙ built in cc
      | inr (other, old) ↦ o.flight g' f c old built
    ];
    stale = λ g' f x found kept. elim (set_flight-cases g g' _ r.flights f found) [
      | inl (same, e) ↦ o.entry id x (ap (λ y. y.stale) (some-injective _ _ e) ∙ kept)
      | inr (other, old) ↦ o.stale g' f x old kept
    ];
  }

  ended-IsOrphan : (g : ℕ) → IsOrphan p (record r { flights = set_flight g none r.flights })
  ended-IsOrphan g = record {
    built = o.built;
    still_open = o.still_open;
    entry = o.entry;
    flight = λ g' f c found built. elim (set_flight-cases g g' none r.flights f found) [
      | inl (same, gone) ↦ cc
      | inr (other, old) ↦ o.flight g' f c old built
    ];
    stale = λ g' f x found kept. elim (set_flight-cases g g' none r.flights f found) [
      | inl (same, gone) ↦ cc
      | inr (other, old) ↦ o.stale g' f x old kept
    ];
  }

  built-IsOrphan :
      (g : ℕ) (ok : Bool) (f : Flight)
      → r.flights g ≡ some f
      → IsOrphan p (built_flight g ok r (some f))
  unfolding built_flight
  built-IsOrphan g false f flying = ended-IsOrphan g
  built-IsOrphan g true f flying = record {
    built = omega (arith, o.built);
    still_open = o.still_open;
    entry = o.entry;
    flight = λ g' f' c found built. elim (set_flight-cases g g' _ r.flights f' found) [
      | inl (same, e) ↦
          let this : r.pools ≡ c =
            some-injective _ _ (ap (λ x. x.conn) (some-injective _ _ e) ∙ built) in
          ground (arith, this, o.built)
      | inr (other, old) ↦ o.flight g' f' c old built
    ];
    stale = λ g' f' x found kept. elim (set_flight-cases g g' _ r.flights f' found) [
      | inl (same, e) ↦ o.stale g f x flying (ap (λ y. y.stale) (some-injective _ _ e) ∙ kept)
      | inr (other, old) ↦ o.stale g' f' x old kept
    ];
  }

  landed-IsOrphan :
      (g c : ℕ) (f : Flight) (x : Option ℕ)
      → r.flights g ≡ some f
      → f.conn ≡ some c
      → IsOrphan p (landed g c f r x).0
  unfolding landed
  landed-IsOrphan g c f (some other) flying built = record {
    built = o.built;
    still_open = close-other c p r.closed o.still_open (o.flight g f c flying built);
    entry = o.entry;
    flight = (ended-IsOrphan g).flight;
    stale = (ended-IsOrphan g).stale;
  }
  landed-IsOrphan g c f none flying built = record {
    built = o.built;
    still_open =
        close_stale-other f.stale p r.closed o.still_open (λ e kept. o.stale g f e flying kept);
    entry = λ id e found. elim (set_entry-cases f.connection_id id _ r.entries e found) [
      | inl (same, made) ↦
          subst (λ x. (x == p) ≡ false) (ap (λ x. x.conn) (some-injective _ _ made))
            (o.flight g f c flying built)
      | inr (other, old) ↦ o.entry id e old
    ];
    flight = (ended-IsOrphan g).flight;
    stale = (ended-IsOrphan g).stale;
  }

  invalidate-IsOrphan : (id : Text) → IsOrphan p (invalidate id r)
  unfolding invalidate
  invalidate-IsOrphan id = record {
    built = o.built;
    still_open =
        close_stale-other (r.entries id) p r.closed o.still_open (λ e found. o.entry id e found);
    entry = λ id' e found. elim (set_entry-cases id id' none r.entries e found) [
      | inl (same, gone) ↦ cc
      | inr (other, old) ↦ o.entry id' e old
    ];
    flight = o.flight;
    stale = o.stale;
  }

  landing-IsOrphan :
      (g : ℕ) (f : Flight) (x : Option ℕ)
      → r.flights g ≡ some f
      → f.conn ≡ x
      → IsOrphan p (landing g f r x).0
  unfolding landing
  landing-IsOrphan g f none flying e = o
  landing-IsOrphan g f (some c) flying e = landed-IsOrphan g c f _ flying e

  landing_of-IsOrphan :
      (g : ℕ) (x : Option Flight) → r.flights g ≡ x → IsOrphan p (landing_of g r x).0
  unfolding landing_of
  landing_of-IsOrphan g none flying = o
  landing_of-IsOrphan g (some f) flying = landing-IsOrphan g f f.conn flying refl

Step-IsOrphan : (p : ℕ) (r r' : Registry) → Step r r' → IsOrphan p r → IsOrphan p r'
unfolding first_look build second_look
Step-IsOrphan p r _ (looks g id version idle) o =
    took_off-IsOrphan p r o g id version (current version (r.entries id))
Step-IsOrphan p r _ (builds g ok f flying empty) o = rw flying (built-IsOrphan p r o g ok f flying)
Step-IsOrphan p r _ (looks_again g) o = landing_of-IsOrphan p r o g (r.flights g) refl
Step-IsOrphan p r _ (invalidates id) o = invalidate-IsOrphan p r o id

-- The steps that may follow a state of the registry.
pub data Later (r : Registry) : Registry → Type 0 where
  now : Later r r
  then_ : (s t : Registry) → Later r s → Step s t → Later r t

Later-IsOrphan : (p : ℕ) (r s : Registry) → IsOrphan p r → Later r s → IsOrphan p s
Later-IsOrphan p r _ o now = o
Later-IsOrphan p r t o (then_ s _ later step) =
    Step-IsOrphan p s t step (Later-IsOrphan p r s o later)

-- Where two goroutines acquire a connection that has no entry, with different versions, and both look
-- before either builds, both build, and then both look again: the pool that the first one built stays
-- open whatever steps of any goroutines follow, invalidations among them, and no entry has it.
pub race-leaks :
    (r later : Registry) (g h : ℕ) (id : Text) (v v' : ℕ)
    → Reached r
    → r.entries id ≡ none
    → (g == h) ≡ false
    → (v == v') ≡ false
    → Later (race g h id v v' r) later
    → (later.closed r.pools ≡ false)
      × ((id' : Text) (e : Entry) → later.entries id' ≡ some e → (e.conn == r.pools) ≡ false)
race-leaks r later g h id v v' reached no_entry two differ steps =
    let (holder, s) = Reached-Sound r reached in
    let o =
      Later-IsOrphan r.pools (race g h id v v' r) later
        (race-IsOrphan g h id v v' r no_entry two differ holder s) steps in
    (o.still_open, o.entry)
