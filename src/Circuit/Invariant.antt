-- ===== src/Circuit/Invariant.antt =====
-- What holds of a breaker between two calls.
use ddag.Base.{ℕ, ◌≤◌, ◌<◌, ◌≡◌, Bool, List, [], ◌∷◌, arith, positive_or_positive}
use ddag.Circuit.{
  Options, Breaker, state_closed, state_open, state_half_open, new, allow, report, Call, allows,
  reports, call, run,
}

pub record IsValid (b : Breaker) : Type 0 where
  pub probes_positive : 0 < b.max_requests
  pub interval_positive : 0 < b.interval
  pub timeout_positive : 0 < b.timeout
  pub threshold_positive : 0 < b.failure_threshold
  pub probes_capped : b.half_open_in_use ≤ b.max_requests
  pub closed_idle : b.state ≡ state_closed → b.half_open_in_use ≡ 0
  pub open_idle : b.state ≡ state_open → b.half_open_in_use ≡ 0
  pub half_open_probing : b.state ≡ state_half_open → 0 < b.half_open_in_use
  pub closed_below : b.state ≡ state_closed → b.failures < b.failure_threshold

new-IsValid : (o : Options) → IsValid (new o)
unfolding new
new-IsValid o = ground (
  arith,
  positive_or_positive 1 o.max_requests,
  positive_or_positive 60000 o.interval,
  positive_or_positive 30000 o.timeout,
  positive_or_positive 5 o.failure_threshold,
)

pub allow-IsValid : (b : Breaker) (now : ℕ) → IsValid b → IsValid (allow b now).0
unfolding allow
allow-IsValid b now v = ground arith

pub report-IsValid :
    (b : Breaker) (success : Bool) (now : ℕ) → IsValid b → IsValid (report b success now)
unfolding report
report-IsValid b success now v = ground arith

pub call-IsValid : (b : Breaker) (c : Call) → IsValid b → IsValid (call b c)
unfolding call
call-IsValid b (allows now) v = allow-IsValid b now v
call-IsValid b (reports success now) v = report-IsValid b success now v

run_from-IsValid : (b : Breaker) (cs : List Call) → IsValid b → IsValid (run b cs)
unfolding run
run_from-IsValid b [] v = v
run_from-IsValid b (c ∷ cs) v = run_from-IsValid (call b c) cs (call-IsValid b c v)

-- After any history of calls on a breaker that `New` made, with any options and at any times: every
-- limit is positive, at most `MaxRequests` probes are in use, probes are in use exactly while the
-- breaker is half-open, and a closed breaker has fewer failures than its threshold.
pub run-new-IsValid : (o : Options) (cs : List Call) → IsValid (run (new o) cs)
run-new-IsValid o cs = run_from-IsValid (new o) cs (new-IsValid o)
