-- ===== src/Dispatch/FailFast.antt =====
-- internal/gateway/connectorclient.go, circuitstate.go and dispatcher.go: an open circuit is not asked.
use ddag.Base.{
  ℕ, suc, ◌≤◌, ◌≡◌, refl, Bool, true, false, ◌&&◌, ◌||◌, not, Option, some, List, [], ◌∷◌,
  if◌then◌else◌, Text, codes, eq_text,
}
use ddag.Models.{is_empty}
use ddag.Dispatch.{
  CachedCircuitState, Circuits, put, Transport, decoded, Event, calls, answers, dispatch,
}

-- The circuit of a connection is remembered as open until a time, or longer.
abbrev pub OpenUntil : ℕ → Option CachedCircuitState → Type 0
OpenUntil t o = (e : ℕ) × (o ≡ some record { state = codes "open"; expires_at = e }) × (t ≤ e)

-- How many requests a history of events sends over HTTP for a connection.
abbrev pub is_for : {P : Type 0} → Text → Event P → Bool
is_for id (calls grpc has_url now k) = eq_text k id
is_for id (answers now k transport) = eq_text k id

unfoldable pub sent_for : {P : Type 0} → Text → List (Event P) → Circuits → ℕ
sent_for id [] circuits = 0
sent_for id (e ∷ es) circuits =
    let (after, sent) = dispatch e circuits in
    let later = sent_for id es after in if is_for id e && sent then suc later else later

-- No answer for the connection tells of another state than open, such as one to a request that was in
-- flight when the circuit opened.
abbrev pub tells_open : {P : Type 0} → Transport P → Bool
tells_open (decoded r) = is_empty r.circuit_state || eq_text r.circuit_state (codes "open")
tells_open _ = true

-- The event is early enough, and does not tell of another state of the connection's circuit.
abbrev pub IsQuiet : {P : Type 0} → Text → ℕ → ℕ → Event P → Type 0
IsQuiet id from t (calls grpc has_url now k) = now ≤ t
IsQuiet id from t (answers now k transport) =
    (from ≤ now) × (eq_text k id && not (tells_open transport) ≡ false)

module _ (id : Text) (t : ℕ) where
  put-other :
      (k : Text) (o : Option CachedCircuitState) (circuits : Circuits)
      → eq_text k id ≡ false
      → put k o circuits id ≡ circuits id
  put-other k o circuits h = rw h refl
