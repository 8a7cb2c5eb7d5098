-- ===== src/Circuit/Transitions.antt =====
-- Which state a call leads to, and when.
use ddag.Base.{
  ℕ, suc, ◌+◌, ◌≤◌, ◌<◌, ◌≡◌, refl, ◌⊎◌, inl, inr, ◌↔◌, true, false, some, List, [], ◌∷◌, map,
  arith, length, All,
}
use ddag.Circuit.{
  State, Breaker, state_closed, state_open, state_half_open, allow, report, Call, allows, reports,
  call, run,
}
use ddag.Circuit.Invariant.{IsValid}

-- The diagram of the breaker: a call keeps the state or follows one edge.
pub data Edge : State → State → Type 0 where
  keep : {s : State} → Edge s s
  trip : Edge state_closed state_open
  probe : Edge state_open state_half_open
  recover : Edge state_half_open state_closed
  trip_again : Edge state_half_open state_open

-- Every call on every breaker keeps the state or follows one edge of the diagram: a closed breaker
-- never becomes half-open directly, and an open one closes only through half-open.
pub call-Edge : (b : Breaker) (c : Call) → Edge b.state (call b c).state
unfolding call
call-Edge b (allows now) = unfold allow in grind (arith, keep, trip, probe, recover, trip_again)
call-Edge b (reports success now) =
    unfold report in grind (arith, keep, trip, probe, recover, trip_again)

abbrev pub Admits : Breaker → ℕ → Type 0
Admits b now =
    (b.state ≡ state_closed)
    ⊎ ((b.state ≡ state_open) × (b.opened_at + b.timeout ≤ now))
    ⊎ ((b.state ≡ state_half_open) × (b.half_open_in_use < b.max_requests))

-- On a valid breaker, `Allow` admits a request exactly if the breaker is closed, or is open and its
-- timeout has passed, or is half-open with a probe slot free.
pub allow_iff : (b : Breaker) (now : ℕ) → IsValid b → ((allow b now).1 ≡ true) ↔ Admits b now
unfolding allow
allow_iff b now v = (λ h. ground arith, λ h. ground arith)

-- The failures reported at the given times.
abbrev pub failing : List ℕ → List Call
failing = map (reports false)

report_failure_open :
    (b : Breaker) (now : ℕ) → b.state ≡ state_open → (report b false now).state ≡ state_open
unfolding report
report_failure_open b now o = ground arith

run-failing_open :
    (b : Breaker) (ts : List ℕ) → b.state ≡ state_open → (run b (failing ts)).state ≡ state_open
unfolding run call
run-failing_open b [] o = o
run-failing_open b (t ∷ ts) o = run-failing_open (report b false t) ts (report_failure_open b t o)

-- One failure within the window opens the breaker or is counted.
report_failure_counts :
    (b : Breaker) (start now : ℕ)
    → b.state ≡ state_closed
    → b.interval_start ≡ some start
    → now < start + b.interval
    → ((report b false now).state ≡ state_open)
      ⊎ (((report b false now).state ≡ state_closed)
          × ((report b false now).interval_start ≡ some start)
          × ((report b false now).interval ≡ b.interval)
          × ((report b false now).failure_threshold ≡ b.failure_threshold)
          × ((report b false now).failures ≡ suc b.failures)
          × (suc b.failures < b.failure_threshold))
unfolding report
report_failure_counts b start now c w h = ground arith

failing_trips_by :
    (b : Breaker) (start until : ℕ) (ts : List ℕ)
    → b.state ≡ state_closed
    → b.interval_start ≡ some start
    → until ≡ start + b.interval
    → All (λ t. t < until) ts
    → b.failures < b.failure_threshold
    → b.failure_threshold ≤ b.failures + length ts
    → (run b (failing ts)).state ≡ state_open
unfolding run call
failing_trips_by b start until [] c w u within below enough = absurd (omega arith)
failing_trips_by b start until (t ∷ ts) c w u within below enough =
    elim (report_failure_counts b start t c w (omega arith)) [
      | inl o ↦ run-failing_open (report b false t) ts o
      | inr (c', w', same, limit, counted, below') ↦
          failing_trips_by (report b false t) start until ts c' w' (omega arith) within.1
            (omega arith) (omega arith)
    ]

-- A closed breaker whose window began at `start` is open after failures reported at times within
-- that window, if they reach the threshold together with the failures already counted, which are
-- below it.
pub failing_trips :
    (b : Breaker) (start : ℕ) (ts : List ℕ)
    → b.state ≡ state_closed
    → b.interval_start ≡ some start
    → All (λ t. t < start + b.interval) ts
    → b.failures < b.failure_threshold
    → b.failure_threshold ≤ b.failures + length ts
    → (run b (failing ts)).state ≡ state_open
failing_trips b start ts c w = failing_trips_by b start (start + b.interval) ts c w refl
