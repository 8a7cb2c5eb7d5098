-- ===== src/Circuit/Probes.antt =====
-- How many requests pass an open or half-open breaker.
use ddag.Base.{
  ℕ, ◌+◌, ◌-◌, ◌≤◌, ◌<◌, ◌≡◌, refl, ◌⊎◌, Bool, true, false, List, [], ◌∷◌, map, arith, All,
  if◌then◌else◌,
}
use ddag.Circuit.{
  Breaker, state_closed, state_open, state_half_open, allow, report, Call, allows, reports, call,
  run,
}
use ddag.Circuit.Invariant.{IsValid, allow-IsValid}

abbrev pub time : Call → ℕ
time (allows now) = now
time (reports success now) = now

-- How many calls of `Allow` in a history return true.
unfoldable pub granted : Breaker → List Call → ℕ
granted b [] = 0
granted b (allows now ∷ cs) = (if (allow b now).1 then 1 else 0) + granted (allow b now).0 cs
granted b (reports success now ∷ cs) = granted (report b success now) cs

abbrev IsOpenAt : Breaker → ℕ → Type 0
IsOpenAt b until = (b.state ≡ state_open) × (b.opened_at + b.timeout ≡ until)

allow_open :
    (b : Breaker) (until now : ℕ)
    → IsOpenAt b until
    → now < until
    → ((allow b now).1 ≡ false) × IsOpenAt (allow b now).0 until
unfolding allow
allow_open b until now o h = ground arith

report_open :
    (b : Breaker) (until now : ℕ) (success : Bool)
    → IsOpenAt b until
    → IsOpenAt (report b success now) until
unfolding report
report_open b until now success o = ground arith

open_run :
    (b : Breaker) (until : ℕ) (cs : List Call)
    → IsOpenAt b until
    → All (λ c. time c < until) cs
    → (granted b cs ≡ 0) × IsOpenAt (run b cs) until
unfolding granted run call
open_run b until [] o h = (refl, o)
open_run b until (allows now ∷ cs) o h =
    let (no_grant, o') = allow_open b until now o h.0 in
    rw no_grant (ground (arith, open_run (allow b now).0 until cs o' h.1))
open_run b until (reports success now ∷ cs) o h =
    open_run (report b success now) until cs (report_open b until now success o) h.1

-- An open breaker refuses every request until its timeout has passed, whatever is reported in
-- between: over any calls at earlier times no request is granted, and it stays open with the
-- same opening time and timeout.
pub open_refuses :
    (b : Breaker) (cs : List Call)
    → b.state ≡ state_open
    → All (λ c. time c < b.opened_at + b.timeout) cs
    → (granted b cs ≡ 0)
      × ((run b cs).state ≡ state_open)
      × ((run b cs).opened_at + (run b cs).timeout ≡ b.opened_at + b.timeout)
open_refuses b cs o h = ground (arith, open_run b (b.opened_at + b.timeout) cs (o, refl) h)

-- What is left for probes.
unfoldable slots : Breaker → ℕ
slots b = elim b.state [
  | state_closed ↦ 0
  | state_open ↦ b.max_requests
  | state_half_open ↦ b.max_requests - b.half_open_in_use
]

abbrev IsTripped : Breaker → Type 0
IsTripped b = (b.state ≡ state_open) ⊎ (b.state ≡ state_half_open)

allow-slots :
    (b : Breaker) (now : ℕ)
    → IsValid b
    → IsTripped b
    → ((if (allow b now).1 then 1 else 0) + slots (allow b now).0 ≤ slots b)
      × IsTripped (allow b now).0
unfolding allow slots
allow-slots b now v t = ground arith

granted-slots :
    (b : Breaker) (ts : List ℕ) → IsValid b → IsTripped b → granted b (map allows ts) ≤ slots b
unfolding granted
granted-slots b [] v t = omega arith
granted-slots b (now ∷ ts) v t =
    let (fewer, t') = allow-slots b now v t in
    omega (arith, granted-slots (allow b now).0 ts (allow-IsValid b now v) t')

-- From a valid breaker that is open or half-open, however many requests come and whenever they
-- come, at most `MaxRequests` of them pass before some result is reported.
pub granted-le-max_requests :
    (b : Breaker) (ts : List ℕ)
    → IsValid b
    → IsTripped b
    → granted b (map allows ts) ≤ b.max_requests
unfolding slots
granted-le-max_requests b ts v t = ground (arith, granted-slots b ts v t)

pub allow_full :
    (b : Breaker) (now : ℕ)
    → b.state ≡ state_half_open
    → b.max_requests ≤ b.half_open_in_use
    → ((allow b now).1 ≡ false)
      × ((allow b now).0.state ≡ state_half_open)
      × ((allow b now).0.max_requests ≤ (allow b now).0.half_open_in_use)
unfolding allow
allow_full b now s full = ground arith

-- A half-open breaker whose probe slots are all taken refuses every further request, at any times:
-- it waits for a report, and no timeout frees a slot.
pub full_refuses :
    (b : Breaker) (ts : List ℕ)
    → b.state ≡ state_half_open
    → b.max_requests ≤ b.half_open_in_use
    → (granted b (map allows ts) ≡ 0) × ((run b (map allows ts)).state ≡ state_half_open)
unfolding granted run call
full_refuses b [] s full = (refl, s)
full_refuses b (now ∷ ts) s full =
    let (no_grant, s', full') = allow_full b now s full in
    rw no_grant (ground (arith, full_refuses (allow b now).0 ts s' full'))

-- Once its timeout has passed, a valid open breaker grants a probe, and a report that is the next call
-- after it decides: a success closes the breaker with its requests, failures and probes at 0, a
-- failure opens it again from the time of that report.
pub probe_decides :
    (b : Breaker) (now later : ℕ)
    → IsValid b
    → b.state ≡ state_open
    → b.opened_at + b.timeout ≤ now
    → let (probing, granted) = allow b now in
      (granted ≡ true)
      × (probing.state ≡ state_half_open)
      × ((report probing true later).state ≡ state_closed)
      × ((report probing true later).requests ≡ 0)
      × ((report probing true later).failures ≡ 0)
      × ((report probing true later).half_open_in_use ≡ 0)
      × ((report probing false later).state ≡ state_open)
      × ((report probing false later).opened_at ≡ later)
unfolding allow report
probe_decides b now later v o h = ground arith
