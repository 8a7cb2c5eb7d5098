-- ===== src/Admission.antt =====
-- internal/connector/admission.go: the admission controller of a connector, which bounds the
-- queries in flight on each source database. Each critical section of the mutex is a function on
-- the controller; the loop of `Acquire`, which leaves the mutex to wait, is the step relation of
-- Admission/System. A `notify` channel is the number of times that it was closed and made anew:
-- a channel read under number `g` is closed once the number has moved on.
pub mod Keys
pub mod System
pub mod Books
pub mod Bookkeeping
mod Tests
use ddag.Base.{
  ℕ, suc, ◌+◌, ◌-◌, Bool, true, false, ◌||◌, Option, none, some, List, [], ◌∷◌, ℤ, leb, ltb, ◌==◌,
  if◌then◌else◌, positive_or, nonneg, Text, Dict, lookup, insert,
}

pub record AdmissionState : Type 0 where
  pub inflight : ℕ
  pub waiting : ℕ
  pub notify : ℕ

pub record Controller : Type 0 where
  pub queue_size : ℕ
  pub states : Dict AdmissionState

unfoldable pub new_controller : ℤ → Controller
new_controller queue_size = record { queue_size = nonneg queue_size; states = [] }

abbrev fresh_state : AdmissionState
fresh_state = record { inflight = 0; waiting = 0; notify = 0 }

state_or_fresh : Option AdmissionState → AdmissionState
state_or_fresh none = fresh_state
state_or_fresh (some s) = s

-- The state of a key; a key that is not in the map is given a fresh one.
unfoldable pub state : Controller → Text → AdmissionState
unfolding state_or_fresh
state a key = state_or_fresh (lookup key a.states)

abbrev pub put : Controller → Text → AdmissionState → Controller
put a key s = record a { states = insert key s a.states }

-- How one round of the loop ends: with a slot, with a refusal, or waiting on a channel.
pub data Attempt : Type 0 where
  admitted rejected : Attempt
  waits : ℕ → Attempt

-- The decision of one round, on the state of the key. `s.waiting--` is exact, since a queued caller
-- is counted in `waiting` (Admission.Bookkeeping).
unfoldable pub decide : ℕ → AdmissionState → ℕ → Bool → AdmissionState × Attempt
decide queue_size s limit queued =
    if ltb s.inflight limit
    then (
      record s {
        inflight = s.inflight + 1;
        waiting = (if queued then s.waiting - 1 else s.waiting);
      },
      admitted,
    )
    else if queued
    then (s, waits s.notify)
    else if queue_size == 0 || leb queue_size s.waiting
    then (s, rejected)
    else (record s { waiting = s.waiting + 1 }, waits s.notify)

-- One round of the loop of `Acquire`, from `a.mu.Lock()` to `a.mu.Unlock()`.
unfoldable pub attempt : Controller → Text → ℤ → Bool → Controller × Attempt
unfolding decide
attempt a key limit queued =
    let (s, outcome) = decide a.queue_size (state a key) (positive_or 1 limit) queued in
    (put a key s, outcome)

dequeue_state : Option AdmissionState → Controller → Text → Controller
dequeue_state none a key = a
dequeue_state (some s) a key =
    if ltb 0 s.waiting then put a key (record s { waiting = s.waiting - 1 }) else a

unfoldable pub dequeue : Controller → Text → Controller
unfolding dequeue_state
dequeue a key = dequeue_state (lookup key a.states) a key

release_state : Option AdmissionState → Controller → Text → Controller
release_state none a key = a
release_state (some s) a key =
    if s.inflight == 0
    then a
    else put a key (record s { inflight = s.inflight - 1; notify = s.notify + 1 })

-- What `release` does under its `sync.Once`.
unfoldable pub release : Controller → Text → Controller
unfolding release_state
release a key = release_state (lookup key a.states) a key

-- The function that `Acquire` returns, with the flag of its `sync.Once`.
unfoldable pub release_once : Bool → Controller → Text → Bool × Controller
release_once true a key = (true, a)
release_once false a key = (true, release a key)

unfoldable pub depth : Controller → Text → ℕ
unfolding state
depth a key = (state a key).inflight + (state a key).waiting
