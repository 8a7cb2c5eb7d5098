-- ===== src/Connector/Tests.antt =====
-- Runs of queries on one connection.
use ddag.Base.{
  arith, ℕ, ◌+◌, ◌≡◌, refl, Bool, true, false, none, some, [], ◌∷◌, All, pos, codes, eq_text, Dict,
  lookup,
}
use ddag.Errors.{circuit_breaker_open, backpressure_limit, db_query_timeout}
use ddag.Circuit.{Breaker, Options, new, allow, report, run, call, reports}
use ddag.Connector.{Resolved, Course, refused, breaker_for, query_active}
use ddag.Connector.Breakers.{replies, rejection_wedges}
use ddag.Connector.Isolation.{calls, query_active-run}

abbrev settings : Options
settings = record {
  max_requests = pos 1;
  interval = pos 0;
  timeout = pos 1000;
  failure_threshold = pos 1;
  ratio_num = 0;
  ratio_den = 1;
}

abbrev orders : Resolved
orders = record { id = codes "orders"; db_type = codes "postgres"; status = codes "active" }

abbrev course : Bool → ℕ → Course ℕ
course admitted at = record {
  asks_at = at;
  reports_at = at + 5;
  admitted = admitted;
  pool_error = none;
  query_error = some db_query_timeout;
  rows = 0;
}

abbrev open_breakers : Dict Breaker
open_breakers = (codes "orders", run (new settings) (reports false 10 ∷ [])) ∷ []

rejection_wedges_example :
    ((query_active (codes "postgres") settings orders (course false 2000) open_breakers).1
      ≡ refused backpressure_limit)
    × All
        (λ x. x ≡ refused circuit_breaker_open)
        (replies
          (codes "postgres")
          settings
          orders
          (course true 9000 ∷ course true 9000000 ∷ [])
          (query_active (codes "postgres") settings orders (course false 2000) open_breakers).0)
unfolding breaker_for lookup eq_text run call report new
rejection_wedges_example =
    rejection_wedges (codes "postgres") settings orders (course false 2000)
      (course true 9000 ∷ course true 9000000 ∷ []) open_breakers refl (omega arith) refl refl

query_active-run_example :
    let b = breaker_for settings (codes "orders") open_breakers in
    let after =
      (query_active (codes "postgres") settings orders (course true 2000) open_breakers).0 in
    (breaker_for settings (codes "orders") after
      ≡ run b (calls (codes "postgres") settings (course true 2000) (allow b 2000).1))
    × (lookup (codes "stock") after ≡ lookup (codes "stock") open_breakers)
query_active-run_example =
    query_active-run (codes "postgres") settings orders (course true 2000) open_breakers
      (codes "stock") (ground arith)
