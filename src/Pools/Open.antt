-- ===== src/Pools/Open.antt =====
-- internal/connectorpool/registry.go: a pool that `Acquire` returns is open.
use ddag.Base.{
  arith, ℕ, ◌≡◌, refl, subst, true, false, Option-cases, inl, inr, Option, none, some, Text,
  eq_text, eq_text_refl,
}
use ddag.Pools.{
  Flight, Registry, current, took_off, first_look, landed, landing, landing_of, second_look,
  Reached,
}
use ddag.Pools.Sound.{IsLive, IsSound, holders_differ, close-other}
use ddag.Pools.Steps.{landed-IsSound, Reached-Sound}

-- A pool that is returned, if any, is open and was built for the connection.
abbrev pub IsUsable : Registry → Text → Option ℕ → Type 0
IsUsable r id none = Unit
IsUsable r id (some c) = (r.closed c ≡ false) × (eq_text (r.built_for c) id ≡ true)

module _ (r : Registry) (holder : ℕ → Option ℕ) (s : IsSound r holder) where
  current-IsLive :
      (id : Text) (version c : ℕ)
      → current version (r.entries id) ≡ some c
      → IsLive r holder c id none
  current-IsLive id version c h = elim (Option-cases (r.entries id)) [
    | inl gone ↦ let none' : none ≡ some c = rw gone at h in cc
    | inr (e, found) ↦
        let same : e.conn ≡ c = ground (arith, found, h) in
        subst (λ x. IsLive r holder x id none) same (s.entry id e found)
  ]

  took_off-IsUsable :
      (g : ℕ) (id : Text) (version : ℕ) (o : Option ℕ)
      → current version (r.entries id) ≡ o
      → IsUsable (took_off g id version r o).0 id (took_off g id version r o).1
  unfolding took_off
  took_off-IsUsable g id version none h = tt
  took_off-IsUsable g id version (some c) h =
      let (lt, is_open, own, free) = current-IsLive id version c h in (is_open, own)

  landed-IsUsable :
      (g : ℕ) (f : Flight) (c : ℕ) (o : Option ℕ)
      → r.flights g ≡ some f
      → f.conn ≡ some c
      → current f.version (r.entries f.connection_id) ≡ o
      → IsUsable (landed g c f r o).0 f.connection_id (landed g c f r o).1
  unfolding landed
  landed-IsUsable g f c (some other) flying hc h =
      let (lt, is_open, own, free) = current-IsLive f.connection_id f.version other h in
      let held = (s.flight g f c flying hc).3 in
      (
        close-other c other r.closed is_open
            (ground (arith, holders_differ holder other c g free held)),
        own,
      )
  landed-IsUsable g f c none flying hc h =
      let (holder', sound) = landed-IsSound r holder s g f flying c none hc in
      let (lt, is_open, own, free) =
        sound.entry f.connection_id record { conn = c; version = f.version }
          (rw (eq_text_refl f.connection_id) refl) in
      (is_open, own)

  landing-IsUsable :
      (g : ℕ) (f : Flight) (o : Option ℕ)
      → r.flights g ≡ some f
      → f.conn ≡ o
      → IsUsable (landing g f r o).0 f.connection_id (landing g f r o).1
  unfolding landing
  landing-IsUsable g f none flying hc = tt
  landing-IsUsable g f (some c) flying hc = landed-IsUsable g f c _ flying hc refl

-- Whatever the goroutines did before, in any interleaving of their steps with invalidations: a pool that
-- the first or the second look of `Acquire` returns is not closed, and was built for the connection
-- that was asked for.
pub returned-IsUsable :
    (r : Registry) (g g' : ℕ) (id : Text) (version : ℕ) (f : Flight)
    → Reached r
    → r.flights g' ≡ some f
    → IsUsable (first_look g id version r).0 id (first_look g id version r).1
      × IsUsable (second_look g' r).0 f.connection_id (second_look g' r).1
unfolding first_look second_look landing_of
returned-IsUsable r g g' id version f reached flying =
    let (holder, s) = Reached-Sound r reached in
    (
      took_off-IsUsable r holder s g id version _ refl,
      rw flying (landing-IsUsable r holder s g' f f.conn flying refl),
    )
