-- ===== src/Pools/Steps.antt =====
-- internal/connectorpool/registry.go: every step keeps the pools sound.
use mathlib.Core.Option.{some-injective}
use ddag.Base.{
  arith, ℕ, ◌<◌, ◌≡◌, refl, sym, subst, ◌∙◌, ap, Bool, true, false, Bool-cases, inl, inr, Option,
  none, some, ◌==◌, if◌then◌else◌, Text, eq_text, eq_text→eq, eq_text_refl,
}
use ddag.Pools.{
  Flight, Registry, set_flight, close_stale, current, first_look, built_flight, build, landed,
  landing, landing_of, second_look, Step, looks, builds, looks_again, invalidates, Reached, start,
  after,
}
use ddag.Pools.Sound.{
  IsSound, Sound, new-Sound, set_flight-cases, set_entry-cases, holders_differ, connections_differ,
  close-other, close_stale-other, took_off-IsSound, invalidate-IsSound,
}

-- Two goroutines hold different pools.
goroutines_differ :
    (holder : ℕ → Option ℕ) (c c' g g' : ℕ)
    → holder c ≡ some g
    → holder c' ≡ some g'
    → (g == g') ≡ false
    → (c == c') ≡ false
goroutines_differ holder c c' g g' h h' other = elim (Bool-cases (c == c')) [
  | inl e ↦
      let same : some g ≡ some g' = sym h ∙ (ap holder (ground (arith, e)) ∙ h') in
      ground (arith, other, some-injective _ _ same)
  | inr e ↦ e
]

own_kept :
    (pools c : ℕ) (a b id : Text)
    → c < pools
    → eq_text b id ≡ true
    → eq_text (if pools == c then a else b) id ≡ true
own_kept pools c a b id lt h = let other : (pools == c) ≡ false = ground (arith, lt) in rw other h

abbrev set_holder : ℕ → Option ℕ → (ℕ → Option ℕ) → ℕ → Option ℕ
set_holder c who holder c' = if c == c' then who else holder c'

module _ (r : Registry) (holder : ℕ → Option ℕ) (s : IsSound r holder) (g : ℕ) (f : Flight)
    (flying : r.flights g ≡ some f) where
  failed-IsSound : IsSound (record r { flights = set_flight g none r.flights }) holder
  failed-IsSound = record {
    entry = s.entry;
    flight = λ g' f' c h hc. elim (set_flight-cases g g' none r.flights f' h) [
      | inl (same, gone) ↦ cc
      | inr (other, old) ↦ s.flight g' f' c old hc
    ];
    stale = λ g' f' x h hx. elim (set_flight-cases g g' none r.flights f' h) [
      | inl (same, gone) ↦ cc
      | inr (other, old) ↦ s.stale g' f' x old hx
    ];
    unbuilt = s.unbuilt;
  }

  built-IsSound : IsSound (built_flight g true r (some f)) (set_holder r.pools (some g) holder)
  unfolding built_flight
  built-IsSound = record {
    entry = λ id e h.
        let (lt, is_open, own, free) = s.entry id e h in
        (
          omega (arith, lt),
          is_open,
          own_kept r.pools e.conn f.connection_id (r.built_for e.conn) id lt own,
          ground (arith, lt, free),
        );
    flight = λ g' f' c h hc. elim (set_flight-cases g g' _ r.flights f' h) [
      | inl (same, e) ↦
          let same_f = some-injective _ _ e in
          let this : r.pools ≡ c = some-injective _ _ (ap (λ x. x.conn) same_f ∙ hc) in
          let equal : (r.pools == c) ≡ true = ground (arith, this) in
          (
            omega (arith, this),
            subst (λ x. r.closed x ≡ false) this (s.unbuilt r.pools (omega arith)),
            rw equal (
                subst (λ x. eq_text f.connection_id x.connection_id ≡ true) same_f
                  (eq_text_refl f.connection_id)),
            rw equal (ap some same),
          )
      | inr (other, old) ↦
          let (lt, is_open, own, held) = s.flight g' f' c old hc in
          (
            omega (arith, lt),
            is_open,
            own_kept r.pools c f.connection_id (r.built_for c) f'.connection_id lt own,
            ground (arith, lt, held),
          )
    ];
    stale = λ g' f' x h hx. elim (set_flight-cases g g' _ r.flights f' h) [
      | inl (same, e) ↦
          let same_f = some-injective _ _ e in
          let (lt, own, free) = s.stale g f x flying (ap (λ y. y.stale) same_f ∙ hx) in
          (
            omega (arith, lt),
            own_kept r.pools x.conn f.connection_id (r.built_for x.conn) f'.connection_id lt
                (subst (λ y. eq_text (r.built_for x.conn) y.connection_id ≡ true) same_f own),
            ground (arith, lt, free),
          )
      | inr (other, old) ↦
          let (lt, own, free) = s.stale g' f' x old hx in
          (
            omega (arith, lt),
            own_kept r.pools x.conn f.connection_id (r.built_for x.conn) f'.connection_id lt own,
            ground (arith, lt, free),
          )
    ];
    unbuilt = λ c past. s.unbuilt c (omega (arith, past));
  }

  pub landed-IsSound : (c : ℕ) (o : Option ℕ) → f.conn ≡ some c → Sound (landed g c f r o).0
  unfolding landed
  landed-IsSound c (some other_conn) hc =
      let (lt, is_open, own, held) = s.flight g f c flying hc in
      (
        holder,
        record {
          entry = λ id e h.
              let (lt', is_open', own', free') = s.entry id e h in
              (
                lt',
                close-other c e.conn r.closed is_open'
                    (ground (arith, holders_differ holder e.conn c g free' held)),
                own',
                free',
              );
          flight = λ g' f' c' h hc'. elim (set_flight-cases g g' none r.flights f' h) [
            | inl (same, gone) ↦ cc
            | inr (other, old) ↦
                let (lt', is_open', own', held') = s.flight g' f' c' old hc' in
                (
                  lt',
                  close-other c c' r.closed is_open'
                      (goroutines_differ holder c c' g g' held held' other),
                  own',
                  held',
                )
          ];
          stale = (failed-IsSound).stale;
          unbuilt =
              λ c' past. close-other c c' r.closed (s.unbuilt c' past) (ground (arith, lt, past));
        },
      )
  landed-IsSound c none hc =
      let (lt, is_open, own, held) = s.flight g f c flying hc in
      (
        set_holder c none holder,
        record {
          entry = λ id e h. elim (set_entry-cases f.connection_id id _ r.entries e h) [
            | inl (same, made) ↦
                let this : c ≡ e.conn = ap (λ x. x.conn) (some-injective _ _ made) in
                let still : close_stale f.stale r.closed c ≡ false =
                  close_stale-other f.stale c r.closed is_open (λ x found.
                    holders_differ holder x.conn c g (s.stale g f x flying found).2 held) in
                let own_id : eq_text (r.built_for c) id ≡ true =
                  subst (λ x. eq_text (r.built_for c) x ≡ true) (eq_text→eq f.connection_id id same)
                    own in
                (
                  subst (λ x. x < r.pools) this lt,
                  subst (λ x. close_stale f.stale r.closed x ≡ false) this still,
                  subst (λ x. eq_text (r.built_for x) id ≡ true) this own_id,
                  ground (arith, this),
                )
            | inr (other, old) ↦
                let (lt', is_open', own', free') = s.entry id e old in
                (
                  lt',
                  close_stale-other f.stale e.conn r.closed is_open' (λ x found.
                      connections_differ r.built_for x.conn e.conn f.connection_id id
                        (s.stale g f x flying found).1 own' other),
                  own',
                  ground (arith, free'),
                )
          ];
          flight = λ g' f' c' h hc'. elim (set_flight-cases g g' none r.flights f' h) [
            | inl (same, gone) ↦ cc
            | inr (other, old) ↦
                let (lt', is_open', own', held') = s.flight g' f' c' old hc' in
                (
                  lt',
                  close_stale-other f.stale c' r.closed is_open' (λ x found.
                      holders_differ holder x.conn c' g' (s.stale g f x flying found).2 held'),
                  own',
                  ground (arith, held', goroutines_differ holder c c' g g' held held' other),
                )
          ];
          stale = λ g' f' x h hx.
              let (lt', own', free') = (failed-IsSound).stale g' f' x h hx in
              (lt', own', ground (arith, free'));
          unbuilt = λ c' past.
              close_stale-other f.stale c' r.closed (s.unbuilt c' past)
                (λ x found. ground (arith, (s.stale g f x flying found).0, past));
        },
      )

landing-Sound :
    (r : Registry) (holder : ℕ → Option ℕ) (s : IsSound r holder) (g : ℕ) (f : Flight)
    (o : Option ℕ)
    → r.flights g ≡ some f
    → f.conn ≡ o
    → Sound (landing g f r o).0
unfolding landing
landing-Sound r holder s g f none flying e = (holder, s)
landing-Sound r holder s g f (some c) flying e = landed-IsSound r holder s g f flying c _ e

landing_of-Sound :
    (r : Registry) (g : ℕ) (o : Option Flight)
    → r.flights g ≡ o
    → Sound r
    → Sound (landing_of g r o).0
unfolding landing_of
landing_of-Sound r g none flying s = s
landing_of-Sound r g (some f) flying (holder, s) = landing-Sound r holder s g f f.conn flying refl

built-Sound :
    (r : Registry) (g : ℕ) (ok : Bool) (f : Flight)
    → r.flights g ≡ some f
    → Sound r
    → Sound (build g ok r)
unfolding build built_flight
built-Sound r g true f flying (holder, s) =
    rw flying (set_holder r.pools (some g) holder, built-IsSound r holder s g f flying)
built-Sound r g false f flying (holder, s) =
    rw flying (holder, failed-IsSound r holder s g f flying)

Step-Sound : (r r' : Registry) → Step r r' → Sound r → Sound r'
unfolding first_look second_look
Step-Sound r _ (looks g id version idle) (holder, s) =
    (holder, took_off-IsSound r holder s g id version (current version (r.entries id)))
Step-Sound r _ (builds g ok f flying empty) s = built-Sound r g ok f flying s
Step-Sound r _ (looks_again g) s = landing_of-Sound r g (r.flights g) refl s
Step-Sound r _ (invalidates id) (holder, s) = (holder, invalidate-IsSound r holder s id)

pub Reached-Sound : (r : Registry) → Reached r → Sound r
Reached-Sound _ start = new-Sound
Reached-Sound r (after before _ reached step) =
    Step-Sound before r step (Reached-Sound before reached)
