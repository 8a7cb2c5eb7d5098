-- ===== src/Dispatch/Tests.antt =====
-- A connector that reports an open circuit.
use ddag.Base.{ℕ, ◌≡◌, refl, true, false, none, some, [], ◌∷◌, Text, codes, eq_text}
use ddag.Errors.{failed, circuit_breaker_open, connector_unavailable}
use ddag.Dispatch.{Circuits, ConnectorResponse, Event, calls, answers, decoded, dispatch}
use ddag.Dispatch.FailFast.{sent_for}

abbrev no_circuits : Circuits
no_circuits id = none

abbrev tripped : ConnectorResponse ℕ
tripped = record {
  status = 503;
  success = false;
  circuit_state = codes "open";
  error_code = some circuit_breaker_open;
  payload = 0;
}

abbrev call_at : ℕ → Event ℕ
call_at now = calls (some (failed connector_unavailable)) true now (codes "db")

abbrev tells : Text → Event ℕ
tells state = answers 105 (codes "db") (decoded (record tripped { circuit_state = state }))

abbrev opened : Circuits
opened = (dispatch (answers 100 (codes "db") (decoded tripped)) no_circuits).0

refused : (dispatch (call_at 130) opened).1 ≡ false
unfolding dispatch eq_text
refused = refl

asked_again : (dispatch (call_at 131) opened).1 ≡ true
unfolding dispatch eq_text
asked_again = refl

-- An answer to a request in flight closes the circuit before its time.
overtaken : sent_for (codes "db") (tells (codes "closed") ∷ call_at 110 ∷ []) opened ≡ 1
unfolding sent_for dispatch eq_text
overtaken = refl
