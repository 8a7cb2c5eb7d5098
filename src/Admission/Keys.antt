-- ===== src/Admission/Keys.antt =====
-- The operations on one key: what they do to its state, and that they leave the other keys alone.
use ddag.Base.{
  ◌+◌, ◌-◌, ◌≡◌, refl, ◌≢◌, inl, inr, Bool, false, ℤ, arith, ltb, ◌==◌, if◌then◌else◌, positive_or,
  Text, eq_text, eq_text_iff, Option-cases, lookup, lookup-insert,
}
use ddag.Admission.{AdmissionState, Controller, state, put, decide, attempt, dequeue, release}

pub state-put :
    (a : Controller) (k j : Text) (s : AdmissionState)
    → state (put a k s) j ≡ (if eq_text k j then s else state a j)
unfolding state
state-put a k j s = ground (arith, lookup-insert k j s a.states)

-- The state that one round leaves.
abbrev pub decided : Controller → Text → ℤ → Bool → AdmissionState
decided a k limit queued = (decide a.queue_size (state a k) (positive_or 1 limit) queued).0

pub state-attempt :
    (a : Controller) (k j : Text) (limit : ℤ) (queued : Bool)
    → state (attempt a k limit queued).0 j
      ≡ (if eq_text k j then decided a k limit queued else state a j)
unfolding attempt
state-attempt a k j limit queued = state-put a k j (decided a k limit queued)

abbrev pub dequeued : AdmissionState → AdmissionState
dequeued s = if ltb 0 s.waiting then record s { waiting = s.waiting - 1 } else s

pub state-dequeue :
    (a : Controller) (k j : Text)
    → state (dequeue a k) j ≡ (if eq_text k j then dequeued (state a k) else state a j)
unfolding state dequeue
state-dequeue a k j = elim (Option-cases (lookup k a.states)) [
  | inl e ↦ ground (arith, eq_text_iff k j)
  | inr (s, e) ↦
      rw (e, dequeue)
        (ground (
          arith,
          eq_text_iff k j,
          lookup-insert k j (record s { waiting = s.waiting - 1 }) a.states,
        ))
]

abbrev pub released : AdmissionState → AdmissionState
released s =
    if s.inflight == 0 then s else record s { inflight = s.inflight - 1; notify = s.notify + 1 }

pub state-release :
    (a : Controller) (k j : Text)
    → state (release a k) j ≡ (if eq_text k j then released (state a k) else state a j)
unfolding state release
state-release a k j = elim (Option-cases (lookup k a.states)) [
  | inl e ↦ ground (arith, eq_text_iff k j)
  | inr (s, e) ↦
      rw (e, release)
        (ground (
          arith,
          eq_text_iff k j,
          lookup-insert k j (record s { inflight = s.inflight - 1; notify = s.notify + 1 })
              a.states,
        ))
]

pub queue_size-dequeue : (a : Controller) (k : Text) → (dequeue a k).queue_size ≡ a.queue_size
unfolding dequeue
queue_size-dequeue a k = ground arith

pub queue_size-release : (a : Controller) (k : Text) → (release a k).queue_size ≡ a.queue_size
unfolding release
queue_size-release a k = ground arith

pub queue_size-attempt :
    (a : Controller) (k : Text) (limit : ℤ) (queued : Bool)
    → (attempt a k limit queued).0.queue_size ≡ a.queue_size
unfolding attempt
queue_size-attempt a k limit queued = refl

pub ruleset queue_sizes = (queue_size-dequeue, queue_size-release, queue_size-attempt)

-- The outcome of a round depends on the state of its key alone.
pub attempt-outcome :
    (a b : Controller) (j : Text) (limit : ℤ) (queued : Bool)
    → a.queue_size ≡ b.queue_size
    → state a j ≡ state b j
    → (attempt a j limit queued).1 ≡ (attempt b j limit queued).1
unfolding attempt
attempt-outcome a b j limit queued e h = rw (h, e)

-- One source database cannot consume the capacity of another: a round of `Acquire`, a release and
-- a dequeue on one key leave the state of every other key as it was, and with it the outcome of
-- every round on that other key.
pub other_key_untouched :
    (a : Controller) (k j : Text) (limit limit' : ℤ) (queued queued' : Bool)
    → k ≢ j
    → let after = (attempt a k limit queued).0 in
      (state after j ≡ state a j)
      × (state (release a k) j ≡ state a j)
      × (state (dequeue a k) j ≡ state a j)
      × ((attempt after j limit' queued').1 ≡ (attempt a j limit' queued').1)
      × ((attempt (release a k) j limit' queued').1 ≡ (attempt a j limit' queued').1)
      × ((attempt (dequeue a k) j limit' queued').1 ≡ (attempt a j limit' queued').1)
other_key_untouched a k j limit limit' queued queued' apart =
    let other : eq_text k j ≡ false = ground (arith, eq_text_iff k j, apart) in
    let after = (attempt a k limit queued).0 in
    let by_attempt : state after j ≡ state a j = rw (state-attempt a k j limit queued, other) in
    let by_release : state (release a k) j ≡ state a j = rw (state-release a k j, other) in
    let by_dequeue : state (dequeue a k) j ≡ state a j = rw (state-dequeue a k j, other) in
    (
      by_attempt,
      by_release,
      by_dequeue,
      attempt-outcome after a j limit' queued' (queue_size-attempt a k limit queued) by_attempt,
      attempt-outcome (release a k) a j limit' queued' (queue_size-release a k) by_release,
      attempt-outcome (dequeue a k) a j limit' queued' (queue_size-dequeue a k) by_dequeue,
    )
