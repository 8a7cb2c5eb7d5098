-- ===== src/Admission/System.antt =====
-- The callers of the admission controller as interleaved steps. Each step is one critical section
-- of the mutex. A caller that waits holds the channel that it read; it is woken only once that
-- channel was closed, and may give up at any time (its context is done, or its timer fires).
-- A caller that was admitted holds a slot until it calls its release function.
-- The pool limit of each key is fixed here; `attempt` itself takes it anew on every call.
use ddag.Base.{ℕ, ◌<◌, ◌≡◌, Bool, true, false, List, [], ◌∷◌, ◌++◌, ℤ, Text, eq_text, count_if}
use ddag.Admission.{
  Controller, new_controller, state, Attempt, admitted, rejected, waits, attempt, dequeue, release,
}

pub record Waiter : Type 0 where
  pub key : Text
  pub channel : ℕ

pub record System : Type 0 where
  pub controller : Controller
  pub queued : List Waiter
  pub holding : List Text

unfoldable pub initial : ℤ → System
initial queue_size = record { controller = new_controller queue_size; queued = []; holding = [] }

-- Where a round on `key` leaves its caller.
abbrev pub settle : Attempt → Controller → Text → List Waiter → List Text → System
settle admitted a key queued holding = record {
  controller = a;
  queued = queued;
  holding = key ∷ holding;
}
settle rejected a key queued holding = record { controller = a; queued = queued; holding = holding }
settle (waits channel) a key queued holding = record {
  controller = a;
  queued = record { key = key; channel = channel } ∷ queued;
  holding = holding;
}

-- One round of the loop by a caller that is new, or that has left the queue to try again.
unfoldable pub round : (Text → ℤ) → Bool → Text → Controller → List Waiter → List Text → System
round limits again key a queued holding =
    let (b, outcome) = attempt a key (limits key) again in settle outcome b key queued holding

pub data Step (limits : Text → ℤ) (s : System) : System → Type 0 where
  arrive : (key : Text) → Step limits s (round limits false key s.controller s.queued s.holding)
  wake :
      (before after : List Waiter) (w : Waiter)
      → s.queued ≡ before ++ (w ∷ after)
      → w.channel < (state s.controller w.key).notify
      → Step limits s (round limits true w.key s.controller (before ++ after) s.holding)
  give_up :
      (before after : List Waiter) (w : Waiter)
      → s.queued ≡ before ++ (w ∷ after)
      → Step limits s
          (record s { controller = dequeue s.controller w.key; queued = before ++ after })
  finish :
      (before after : List Text) (key : Text)
      → s.holding ≡ before ++ (key ∷ after)
      → Step limits s
          (record s { controller = release s.controller key; holding = before ++ after })

pub data Reach (limits : Text → ℤ) (s : System) : System → Type 0 where
  here : Reach limits s s
  next : {t u : System} → Reach limits s t → Step limits t u → Reach limits s u

-- How many callers hold a slot of a key, and how many wait for one.
abbrev pub holders : Text → List Text → ℕ
holders k = count_if (λ j. eq_text j k)

abbrev pub waiters : Text → List Waiter → ℕ
waiters k = count_if (λ w. eq_text w.key k)
