-- ===== src/Circuit.antt =====
-- internal/circuit/breaker.go: the circuit breaker of one source database. A method that mutates
-- `*Breaker` under its mutex returns the new record; `now` is an argument, as in the source.
-- Times are counted from the zero time; an unset `intervalStart` is `none`. `FailureRatio` is the
-- fraction `ratio_num / ratio_den`, compared exactly where the source divides two float64
-- (a negative ratio switches the test off, as 0 does).
pub mod Invariant
pub mod Transitions
pub mod Probes
mod Tests
use ddag.Base.{
  ℕ, suc, ◌+◌, ◌-◌, ◌*◌, Bool, true, false, ◌&&◌, ◌||◌, Option, none, some, List, [], ◌∷◌, ℤ, leb,
  ltb, ◌==◌, if◌then◌else◌, positive_or,
}

pub data State : Type 0 where
  state_closed state_open state_half_open : State

-- What a caller passes to `New`.
pub record Options : Type 0 where
  pub max_requests : ℤ
  pub interval : ℤ
  pub timeout : ℤ
  pub failure_threshold : ℤ
  pub ratio_num : ℕ
  pub ratio_den : ℕ

-- The settings after the defaults of `New`.
pub record Settings : Type 0 where
  pub max_requests : ℕ
  pub interval : ℕ
  pub timeout : ℕ
  pub failure_threshold : ℕ
  pub ratio_num : ℕ
  pub ratio_den : ℕ

pub record Breaker : Type 0 where
  pub settings : Settings
  pub open settings use *
  pub state : State
  pub opened_at : ℕ
  pub interval_start : Option ℕ
  pub requests : ℕ
  pub failures : ℕ
  pub half_open_in_use : ℕ

-- Durations are in milliseconds: 30 seconds and one minute.
unfoldable pub new : Options → Breaker
new o = record {
  settings = record {
    max_requests = positive_or 1 o.max_requests;
    interval = positive_or 60000 o.interval;
    timeout = positive_or 30000 o.timeout;
    failure_threshold = positive_or 5 o.failure_threshold;
    ratio_num = o.ratio_num;
    ratio_den = o.ratio_den;
  };
  state = state_closed;
  opened_at = 0;
  interval_start = none;
  requests = 0;
  failures = 0;
  half_open_in_use = 0;
}

rotate_from : Option ℕ → Breaker → ℕ → Breaker
rotate_from none b now = record b { interval_start = some now }
rotate_from (some start) b now =
    if leb (start + b.interval) now
    then record b { interval_start = some now; requests = 0; failures = 0 }
    else b

unfoldable pub rotate_window : Breaker → ℕ → Breaker
unfolding rotate_from
rotate_window b now = rotate_from b.interval_start b now

-- The end of `Allow`, behind the switch.
admit_probe : Breaker → Breaker × Bool
admit_probe b =
    if leb b.max_requests b.half_open_in_use
    then (b, false)
    else (record b { half_open_in_use = b.half_open_in_use + 1 }, true)

allow_in : State → Breaker → ℕ → Breaker × Bool
unfolding admit_probe
allow_in state_closed b now = (record b { requests = b.requests + 1 }, true)
allow_in state_open b now =
    if leb (b.opened_at + b.timeout) now
    then admit_probe (record b { state = state_half_open; half_open_in_use = 0 })
    else (b, false)
allow_in state_half_open b now = admit_probe b

unfoldable pub allow : Breaker → ℕ → Breaker × Bool
unfolding allow_in rotate_window
allow b now = let r = rotate_window b now in allow_in r.state r now

unfoldable pub should_open : Breaker → Bool
should_open b =
    leb b.failure_threshold b.failures
    || (ltb 0 b.ratio_num
        && ltb 0 b.requests
        && leb (b.ratio_num * b.requests) (b.failures * b.ratio_den))

open_at : Breaker → ℕ → Breaker
open_at b now = record b { state = state_open; opened_at = now; half_open_in_use = 0 }

close_at : Breaker → ℕ → Breaker
close_at b now = record b {
  state = state_closed;
  interval_start = some now;
  requests = 0;
  failures = 0;
  half_open_in_use = 0;
}

report_half_open : Breaker → Bool → ℕ → Breaker
unfolding open_at close_at
report_half_open b success now =
    let c =
      (if ltb 0 b.half_open_in_use
        then record b { half_open_in_use = b.half_open_in_use - 1 }
        else b) in
    if success then close_at c now else open_at c now

report_closed : Breaker → Bool → ℕ → Breaker
unfolding open_at should_open
report_closed b success now =
    let c = (if success then b else record b { failures = b.failures + 1 }) in
    if should_open c then open_at c now else c

report_in : State → Breaker → Bool → ℕ → Breaker
unfolding report_half_open report_closed
report_in state_half_open b success now = report_half_open b success now
report_in state_closed b success now = report_closed b success now
report_in state_open b success now = b

unfoldable pub report : Breaker → Bool → ℕ → Breaker
unfolding report_in rotate_window
report b success now = let r = rotate_window b now in report_in r.state r success now

-- A history of calls on one breaker, each with the time at which it takes the mutex.
pub data Call : Type 0 where
  allows : ℕ → Call
  reports : Bool → ℕ → Call

unfoldable pub call : Breaker → Call → Breaker
unfolding allow report
call b (allows now) = (allow b now).0
call b (reports success now) = report b success now

unfoldable pub run : Breaker → List Call → Breaker
run b [] = b
run b (c ∷ cs) = run (call b c) cs
