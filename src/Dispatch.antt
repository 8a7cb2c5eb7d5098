-- ===== src/Dispatch.antt =====
-- internal/gateway/connectorclient.go, circuitstate.go and dispatcher.go: how the gateway sends a query
-- to the connector of a database type, and what it remembers of the connector's circuit breakers. What
-- the gRPC client and the HTTP library answer is an argument; other calls come between a request and its
-- answer, so the two are events apart; an error of the connector is one of the
-- codes of internal/httpx/errors.go. Times are in seconds.
pub mod FailFast
mod Tests
use ddag.Base.{
  ℕ, ◌+◌, Bool, true, false, ◌&&◌, ◌||◌, not, Option, none, some, List, [], ◌∷◌, ltb, leb, ◌==◌,
  if◌then◌else◌, Text, codes, eq_text,
}
use ddag.Models.{is_empty}
use ddag.Errors.{
  Code, connector_unavailable, circuit_breaker_open, db_query_timeout, connector_error, internal,
  Result, result, failed,
}

pub record CachedCircuitState : Type 0 where
  pub state : Text
  pub expires_at : ℕ

abbrev pub Circuits : Type 0
Circuits = Text → Option CachedCircuitState

abbrev pub put : Text → Option CachedCircuitState → Circuits → Circuits
put id entry circuits other = if eq_text id other then entry else circuits other

-- The time that `NewConnectorClient` gives the cache.
abbrev pub circuit_ttl : ℕ
circuit_ttl = 30

-- `Set`.
unfoldable pub set_state : ℕ → Text → Text → Circuits → Circuits
set_state now id state circuits =
    if is_empty id || is_empty state
    then circuits
    else if eq_text state (codes "closed")
    then put id none circuits
    else put id (some record { state = state; expires_at = now + circuit_ttl }) circuits

open_entry : ℕ → Text → Circuits → Option CachedCircuitState → Circuits × Bool
open_entry now id circuits none = (circuits, false)
open_entry now id circuits (some entry) =
    if ltb entry.expires_at now
    then (put id none circuits, false)
    else (circuits, eq_text entry.state (codes "open"))

-- `IsOpen`, which drops an entry that has expired.
unfoldable pub is_open : ℕ → Text → Circuits → Circuits × Bool
unfolding open_entry
is_open now id circuits =
    if is_empty id then (circuits, false) else open_entry now id circuits (circuits id)

-- What the connector answers over HTTP, or why there is no answer.
pub record ConnectorResponse (P : Type 0) : Type 0 where
  pub status : ℕ
  pub success : Bool
  pub circuit_state : Text
  pub error_code : Option Code
  pub payload : P

pub data Transport (P : Type 0) : Type 0 where
  not_built unreachable undecodable : Transport P
  decoded : ConnectorResponse P → Transport P

abbrev pub code_or : Option Code → Code
code_or none = connector_error
code_or (some code) = code

module _ {P : Type 0} where
  unfoldable pub answer_of : ConnectorResponse P → Result P
  answer_of r =
      if r.status == 408
      then failed db_query_timeout
      else if leb 400 r.status || not r.success
      then failed (code_or r.error_code)
      else result r.payload

  -- What is left to do when the answer arrives.
  unfoldable pub received : ℕ → Text → Circuits → Transport P → Circuits × Result P
  unfolding set_state answer_of
  received now id circuits not_built = (circuits, failed internal)
  received now id circuits unreachable = (circuits, failed connector_unavailable)
  received now id circuits undecodable = (circuits, failed connector_unavailable)
  received now id circuits (decoded r) = (set_state now id r.circuit_state circuits, answer_of r)

  -- `ConnectorClient.Query` up to the request: it sends one (`none`), or gives its answer at once. The
  -- flag says that the database type has a URL.
  unfoldable pub ask : Bool → ℕ → Text → Circuits → Circuits × Option (Result P)
  unfolding is_open
  ask has_url now id circuits =
      if has_url
      then (let (after, opened) = is_open now id circuits in
          (after, if opened then some (failed circuit_breaker_open) else none))
      else (circuits, some (failed connector_unavailable))

  abbrev pub is_unavailable : Result P → Bool
  is_unavailable (failed connector_unavailable) = true
  is_unavailable _ = false

  -- `DualTransportClient.Query` up to the HTTP request, behind the answer of gRPC; none is a database
  -- type without a gRPC client.
  unfoldable pub dual_ask :
      Option (Result P) → Bool → ℕ → Text → Circuits → Circuits × Option (Result P)
  unfolding ask
  dual_ask none has_url now id circuits = ask has_url now id circuits
  dual_ask (some answer) has_url now id circuits =
      if not (is_unavailable answer) then (circuits, some answer) else ask has_url now id circuits

abbrev pub sends : {A : Type 0} → Option A → Bool
sends none = true
sends (some answer) = false

-- One event of the dispatcher: a call gets to its HTTP request, or the answer to a request arrives. The
-- requests in flight are the calls that asked and whose answer is to come.
pub data Event (P : Type 0) : Type 0 where
  calls : (grpc : Option (Result P)) (has_url : Bool) (now : ℕ) (connection_id : Text) → Event P
  answers : (now : ℕ) (connection_id : Text) (transport : Transport P) → Event P

module _ {P : Type 0} where
  -- The circuits after an event, and whether it sends an HTTP request.
  unfoldable pub dispatch : Event P → Circuits → Circuits × Bool
  unfolding dual_ask received
  dispatch (calls grpc has_url now id) circuits =
      let (after, answer) = dual_ask grpc has_url now id circuits in (after, sends answer)
  dispatch (answers now id transport) circuits = ((received now id circuits transport).0, false)
