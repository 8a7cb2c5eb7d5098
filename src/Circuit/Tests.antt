-- ===== src/Circuit/Tests.antt =====
-- The breaker on concrete inputs.
use ddag.Base.{◌≤◌, ◌≡◌, refl, inl, true, false, List, [], ◌∷◌, map, pos, arith}
use ddag.Circuit.{
  Options, Breaker, state_closed, state_open, new, allow, report, Call, allows, reports, run, call,
}
use ddag.Circuit.Invariant.{IsValid, run-new-IsValid}
use ddag.Circuit.Transitions.{Edge, call-Edge, failing, failing_trips}
use ddag.Circuit.Probes.{granted, open_refuses, granted-le-max_requests, probe_decides}

-- Two failures within a minute trip the breaker for 30 seconds; one probe at a time.
abbrev strict : Options
strict = record {
  max_requests = pos 0;
  interval = pos 60000;
  timeout = pos 30000;
  failure_threshold = pos 2;
  ratio_num = 0;
  ratio_den = 1;
}

abbrev two_failures : List Call
two_failures = allows 1000 ∷ reports false 1010 ∷ allows 2000 ∷ reports false 2010 ∷ []

abbrev tripped : Breaker
tripped = run (new strict) two_failures

-- One probe is in use.
abbrev probing : Breaker
probing =
    run (new strict) (allows 1000 ∷ reports false 1010 ∷ reports false 1020 ∷ allows 31020 ∷ [])

-- Closed, with the window that began at 1000.
abbrev counting : Breaker
counting = run (new strict) (allows 1000 ∷ [])

tripped_open : tripped.state ≡ state_open
unfolding run call new
tripped_open = refl

history_recovers :
    (run (new strict) (
      allows 1000
      ∷ reports false 1010
      ∷ reports false 1020
      ∷ allows 2000
      ∷ allows 31020
      ∷ reports true 31030
      ∷ [])).state
    ≡ state_closed
unfolding run call new
history_recovers = refl

run-new-IsValid_example : IsValid tripped
run-new-IsValid_example = run-new-IsValid strict two_failures

call-Edge_example : Edge (new strict).state (call (new strict) (reports false 5)).state
call-Edge_example = call-Edge (new strict) (reports false 5)

failing_trips_example : (run counting (failing (1010 ∷ 60999 ∷ []))).state ≡ state_open
unfolding new run call
failing_trips_example =
    failing_trips counting 1000 (1010 ∷ 60999 ∷ []) refl refl (omega arith) (omega arith)
      (omega arith)

open_refuses_example : granted tripped (allows 3000 ∷ reports true 4000 ∷ allows 32009 ∷ []) ≡ 0
unfolding new run call
open_refuses_example =
    (open_refuses tripped (allows 3000 ∷ reports true 4000 ∷ allows 32009 ∷ []) refl
      (omega arith)).0

granted-le-max_requests_example : granted tripped (map allows (32010 ∷ 32011 ∷ 90000 ∷ [])) ≤ 1
unfolding new run call
granted-le-max_requests_example =
    granted-le-max_requests tripped (32010 ∷ 32011 ∷ 90000 ∷ [])
      (run-new-IsValid strict two_failures) (inl refl)

probe_decides_example : (report (allow tripped 32010).0 true 32020).state ≡ state_closed
unfolding new run call
probe_decides_example =
    (probe_decides tripped 32010 32020 (run-new-IsValid strict two_failures) refl (omega arith)).2
