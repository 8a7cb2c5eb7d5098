-- ===== src/Connector.antt =====
-- internal/connector/service.go: `handleQuery`, the path of a query through a connector, and the
-- breakers that it keeps, one for each source database. One request runs at a time; what its steps
-- come to is an argument: whether the admission controller lets it in (Admission has that), and the
-- errors of the pool and of the query, as the codes that classifyPoolErr and classifyQueryErr give
-- them. Reading and authenticating the body, metrics and logging are left out.
pub mod Breakers
pub mod Isolation
mod Tests
use ddag.Base.{
  ℕ, Bool, true, false, not, Option, none, some, List, [], ◌∷◌, if◌then◌else◌, Text, codes, eq_text,
  Dict, lookup, insert,
}
use ddag.Errors.{
  Code, bad_request, not_found, internal, connector_unavailable, circuit_breaker_open,
  backpressure_limit,
}
use ddag.Circuit.{Breaker, Options, new, allow, report}

-- A connection as the service resolves it.
pub record Resolved : Type 0 where
  pub id : Text
  pub db_type : Text
  pub status : Text

pub data Resolution : Type 0 where
  missing unresolved : Resolution
  resolved : Resolved → Resolution

-- What happens to a request on its way: the times at which it asks the breaker and reports to it,
-- and how the steps in between end.
pub record Course (R : Type 0) : Type 0 where
  pub asks_at : ℕ
  pub reports_at : ℕ
  pub admitted : Bool
  pub pool_error : Option Code
  pub query_error : Option Code
  pub rows : R

pub data Reply (R : Type 0) : Type 0 where
  refused : Code → Reply R
  queried : R → Reply R

found_or_new : Option Breaker → Options → Breaker
found_or_new none settings = new settings
found_or_new (some b) settings = b

-- `breakerFor`.
unfoldable pub breaker_for : Options → Text → Dict Breaker → Breaker
unfolding found_or_new
breaker_for settings id breakers = found_or_new (lookup id breakers) settings

module _ {R : Type 0} (db_type : Text) (settings : Options) where
  -- What a query comes to behind the pool, with the success that is reported.
  unfoldable pub query_pool : Course R → Option Code → Option Code → Bool × Reply R
  query_pool c (some code) e = (false, refused code)
  query_pool c none (some code) = (false, refused code)
  query_pool c none none = (true, queried c.rows)

  -- From the answer of `Allow` on: the breaker after the request, and its reply.
  unfoldable pub query_allowed : Course R → Breaker × Bool → Breaker × Reply R
  unfolding query_pool
  query_allowed c (b, is_allowed) =
      if not is_allowed
      then (b, refused circuit_breaker_open)
      else if not c.admitted
      then (b, refused backpressure_limit)
      else (let (success, answer) = query_pool c c.pool_error c.query_error in
          (report b success c.reports_at, answer))

  -- `handleQuery` on an active connection of this connector's type.
  unfoldable pub query_active : Resolved → Course R → Dict Breaker → Dict Breaker × Reply R
  unfolding query_allowed
  query_active rc c breakers =
      let (b, answer) = query_allowed c (allow (breaker_for settings rc.id breakers) c.asks_at) in
      (insert rc.id b breakers, answer)

  unfoldable pub query_resolved :
      Text → Course R → Resolution → Dict Breaker → Dict Breaker × Reply R
  query_resolved id c missing breakers = (breakers, refused not_found)
  query_resolved id c unresolved breakers = (
    insert id (report (breaker_for settings id breakers) false c.reports_at) breakers,
    refused internal,
  )
  query_resolved id c (resolved rc) breakers =
      if not (eq_text rc.db_type db_type)
      then (breakers, refused bad_request)
      else if not (eq_text rc.status (codes "active"))
      then (breakers, refused connector_unavailable)
      else query_active rc c breakers

  -- `handleQuery`; no connection id is one that does not parse.
  unfoldable pub handle_query :
      (Text → Resolution) → Option Text → Course R → Dict Breaker → Dict Breaker × Reply R
  unfolding query_resolved
  handle_query resolve none c breakers = (breakers, refused bad_request)
  handle_query resolve (some id) c breakers = query_resolved id c (resolve id) breakers
