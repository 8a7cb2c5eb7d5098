-- ===== src/Connector/Breakers.antt =====
-- internal/connector/service.go: what a query does to the breakers.
use ddag.Base.{
  arith, ℕ, ◌+◌, ◌≤◌, ◌≡◌, refl, Bool, true, false, List, [], ◌∷◌, All, Text, eq_text_refl, Dict,
  insert, lookup-insert,
}
use ddag.Errors.{circuit_breaker_open, backpressure_limit}
use ddag.Circuit.{Breaker, Options, allow, state_open, state_half_open}
use ddag.Circuit.Probes.{allow_full}
use ddag.Connector.{Resolved, Course, Reply, refused, breaker_for, query_allowed, query_active}

allow_last :
    (b : Breaker) (now : ℕ)
    → b.state ≡ state_open
    → b.opened_at + b.timeout ≤ now
    → b.max_requests ≡ 1
    → ((allow b now).1 ≡ true)
      × ((allow b now).0.state ≡ state_half_open)
      × ((allow b now).0.max_requests ≤ (allow b now).0.half_open_in_use)
unfolding allow
allow_last b now o h one = ground arith

module _ (settings : Options) where
  -- A half-open breaker with no free slot.
  abbrev pub IsWedged : Resolved → Dict Breaker → Type 0
  IsWedged rc breakers =
      let b = breaker_for settings rc.id breakers in
      (b.state ≡ state_half_open) × (b.max_requests ≤ b.half_open_in_use)

  pub breaker_for-insert :
      (id : Text) (b : Breaker) (breakers : Dict Breaker)
      → breaker_for settings id (insert id b breakers) ≡ b
  unfolding breaker_for
  breaker_for-insert id b breakers = rw (lookup-insert id id b breakers, eq_text_refl id) refl

  insert-IsWedged :
      (rc : Resolved) (b : Breaker) (breakers : Dict Breaker)
      → b.state ≡ state_half_open
      → b.max_requests ≤ b.half_open_in_use
      → IsWedged rc (insert rc.id b breakers)
  insert-IsWedged rc b breakers s full = rw (breaker_for-insert rc.id b breakers) (s, full)

module _ {R : Type 0} (db_type : Text) (settings : Options) where
  query_allowed-refused :
      (c : Course R) (r : Breaker × Bool)
      → r.1 ≡ false
      → query_allowed db_type settings c r ≡ (r.0, refused circuit_breaker_open)
  unfolding query_allowed
  query_allowed-refused c (b, false) h = refl
  query_allowed-refused c (b, true) h = ground (arith, h)

  query_allowed-rejected :
      (c : Course R) (r : Breaker × Bool)
      → r.1 ≡ true
      → c.admitted ≡ false
      → query_allowed db_type settings c r ≡ (r.0, refused backpressure_limit)
  unfolding query_allowed
  query_allowed-rejected c (b, false) h a = ground (arith, h)
  query_allowed-rejected c (b, true) h a = rw a refl

  -- The replies to requests that come one after the other.
  unfoldable pub replies : Resolved → List (Course R) → Dict Breaker → List (Reply R)
  replies rc [] breakers = []
  replies rc (c ∷ cs) breakers =
      let (after, answer) = query_active db_type settings rc c breakers in
      answer ∷ replies rc cs after

  replies-refused :
      (rc : Resolved) (cs : List (Course R)) (breakers : Dict Breaker)
      → IsWedged settings rc breakers
      → All (λ x. x ≡ refused circuit_breaker_open) (replies rc cs breakers)
  unfolding replies query_active
  replies-refused rc [] breakers w = tt
  replies-refused rc (c ∷ cs) breakers (s, full) =
      let b = breaker_for settings rc.id breakers in
      let (no_grant, s', full') = allow_full b c.asks_at s full in
      rw (query_allowed-refused c (allow b c.asks_at) no_grant) (
        refl,
        replies-refused rc cs (insert rc.id (allow b c.asks_at).0 breakers)
            (insert-IsWedged settings rc (allow b c.asks_at).0 breakers s' full'),
      )

-- An admission rejection can wedge a connection: if a request finds the connection's breaker open
-- past its timeout, with one probe allowed, and is then refused by the admission controller, the
-- probe is not given back: every request after it that has its secret, however many there are and at
-- whatever times, is refused as the circuit being open, as long as they come one after the other and
-- none in between fails to find its secret.
pub rejection_wedges :
    {R : Type 0} (db_type : Text) (settings : Options) (rc : Resolved) (c : Course R)
    (later : List (Course R)) (breakers : Dict Breaker)
    → (breaker_for settings rc.id breakers).state ≡ state_open
    → (breaker_for settings rc.id breakers).opened_at
        + (breaker_for settings rc.id breakers).timeout
      ≤ c.asks_at
    → (breaker_for settings rc.id breakers).max_requests ≡ 1
    → c.admitted ≡ false
    → ((query_active db_type settings rc c breakers).1 ≡ refused backpressure_limit)
      × All
          (λ x. x ≡ refused circuit_breaker_open)
          (replies db_type settings rc later (query_active db_type settings rc c breakers).0)
unfolding query_active
rejection_wedges db_type settings rc c later breakers o h one a =
    let b = breaker_for settings rc.id breakers in
    let (granted, s, full) = allow_last b c.asks_at o h one in
    rw (query_allowed-rejected db_type settings c (allow b c.asks_at) granted a) (
      refl,
      replies-refused db_type settings rc later (insert rc.id (allow b c.asks_at).0 breakers)
          (insert-IsWedged settings rc (allow b c.asks_at).0 breakers s full),
    )
