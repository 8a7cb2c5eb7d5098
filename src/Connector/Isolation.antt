-- ===== src/Connector/Isolation.antt =====
-- internal/connector/service.go: which breaker a query touches, and what it reports to it.
use ddag.Base.{
  arith, ◌≡◌, ◌≢◌, refl, Bool, true, false, ◌&&◌, Bool-cases, inl, inr, Option, none, some, List,
  [], ◌∷◌, if◌then◌else◌, Text, eq_text, eq_text_iff, Dict, lookup, lookup-insert,
}
use ddag.Errors.{Code}
use ddag.Circuit.{Breaker, Options, allow, Call, allows, reports, call, run}
use ddag.Connector.{Resolved, Course, breaker_for, query_pool, query_allowed, query_active}
use ddag.Connector.Breakers.{breaker_for-insert}

abbrev pub is_none {ℓ} : {A : Type ℓ} → Option A → Bool
is_none none = true
is_none (some x) = false

module _ {R : Type 0} (db_type : Text) (settings : Options) where
  -- The calls that a request makes on its breaker, `granted` being the answer of `Allow`: a report
  -- comes where the request was granted and admitted, a success where neither step failed.
  abbrev pub calls : Course R → Bool → List Call
  calls c granted =
      allows c.asks_at
      ∷ (if granted && c.admitted
          then reports (is_none c.pool_error && is_none c.query_error) c.reports_at ∷ []
          else [])

  query_pool-success :
      (c : Course R) (p q : Option Code)
      → (query_pool db_type settings c p q).0 ≡ is_none p && is_none q
  unfolding query_pool
  query_pool-success c (some x) q = refl
  query_pool-success c none (some x) = refl
  query_pool-success c none none = refl

  query_allowed-run :
      (c : Course R) (b : Breaker)
      → (query_allowed db_type settings c (allow b c.asks_at)).0
        ≡ run b (calls c (allow b c.asks_at).1)
  unfolding query_allowed run call
  query_allowed-run c b = elim (Bool-cases (allow b c.asks_at).1) [
    | inr refusal ↦ rw refusal refl
    | inl granted ↦ elim (Bool-cases c.admitted) [
      | inr rejection ↦ rw (granted, rejection) refl
      | inl admission ↦
          rw (granted, admission, query_pool-success c c.pool_error c.query_error) refl
    ]
  ]

  -- A query on an active connection asks the connection's breaker once, and reports to it exactly
  -- once if it was granted and admitted, a success where neither the pool nor the query failed; if
  -- not, it reports nothing. The breakers of all other connections stay as they were.
  pub query_active-run :
      (rc : Resolved) (c : Course R) (breakers : Dict Breaker) (j : Text)
      → j ≢ rc.id
      → let b = breaker_for settings rc.id breakers in
        let after = (query_active db_type settings rc c breakers).0 in
        (breaker_for settings rc.id after ≡ run b (calls c (allow b c.asks_at).1))
        × (lookup j after ≡ lookup j breakers)
  unfolding query_active
  query_active-run rc c breakers j apart =
      let b = breaker_for settings rc.id breakers in
      let stored = (query_allowed db_type settings c (allow b c.asks_at)).0 in
      let other : eq_text rc.id j ≡ false = ground (arith, eq_text_iff rc.id j, apart) in
      (
        rw (breaker_for-insert settings rc.id stored breakers) (query_allowed-run c b),
        rw (lookup-insert rc.id j stored breakers, other) refl,
      )
