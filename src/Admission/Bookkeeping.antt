-- ===== src/Admission/Bookkeeping.antt =====
-- What holds of the controller and its callers after any interleaving.
use ddag.Base.{
  ℕ, suc, ◌+◌, ◌≤◌, ◌≡◌, refl, subst, ◌∙◌, inl, inr, true, false, List, ◌∷◌, ◌++◌, ℤ, arith,
  if◌then◌else◌, positive_or, nonneg, Text, eq_text, eq_text_refl, eq_text→eq, Bool-cases,
  count_if-append, All, All-split, All-map, lookup,
}
use ddag.Admission.{AdmissionState, Controller, new_controller, state, dequeue, release}
use ddag.Admission.Keys.{
  state-dequeue, state-release, queue_size-dequeue, queue_size-release, dequeued, released,
}
use ddag.Admission.System.{
  Waiter, System, initial, Step, arrive, wake, give_up, finish, Reach, here, next, holders, waiters,
}
use ddag.Admission.Books.{Watches, Books, SystemBooks, of_state, take_out, round_any}

module _ (limits : Text → ℤ) (size : ℕ) (k : Text) where
  dequeued-Books :
      (st : AdmissionState) (queued : List Waiter) (holding : List Text)
      → Books k (positive_or 1 (limits k)) size 1 st queued holding
      → Books k (positive_or 1 (limits k)) size 0 (dequeued st) queued holding
  dequeued-Books st queued holding b = (
    ground (arith, b.0),
    ground (arith, b.1),
    ground (arith, b.2),
    ground (arith, b.3),
    All-map (λ w f h. ground (arith, (f h).0, (f h).1)) queued b.4,
  )

  released-Books :
      (st : AdmissionState) (queued : List Waiter) (holding holding' : List Text)
      → holders k holding ≡ suc (holders k holding')
      → Books k (positive_or 1 (limits k)) size 0 st queued holding
      → Books k (positive_or 1 (limits k)) size 0 (released st) queued holding'
  released-Books st queued holding holding' less b = (
    ground (arith, b.0),
    ground (arith, b.1),
    ground (arith, b.2),
    ground (arith, b.3),
    All-map (λ w f h. ground (arith, b.0, less, (f h).0)) queued b.4,
  )

  hold-out :
      (before after : List Text) (key : Text)
      → holders k (before ++ (key ∷ after))
        ≡ (if eq_text key k then 1 else 0) + holders k (before ++ after)
  hold-out before after key = ground (
    arith,
    count_if-append (λ (j : Text). eq_text j k) before (key ∷ after),
    count_if-append (λ (j : Text). eq_text j k) before after,
  )

  give_up-Books :
      (a : Controller) (queued : List Waiter) (holding : List Text) (key : Text)
      → a.queue_size ≡ size
      → Books k
          (positive_or 1 (limits k))
          size
          (if eq_text key k then 1 else 0)
          (state a k)
          queued
          holding
      → SystemBooks limits size k
          (record { controller = dequeue a key; queued = queued; holding = holding })
  give_up-Books a queued holding key e b = elim (Bool-cases (eq_text key k)) [
    | inl same ↦
        of_state limits size k
          (record { controller = dequeue a key; queued = queued; holding = holding })
          (dequeued (state a k))
          (rw (eq_text→eq key k same, state-dequeue a k k, eq_text_refl k) refl)
          (queue_size-dequeue a key ∙ e)
          (dequeued-Books (state a k) queued holding (b.0, ground (arith, b.1), b.2, b.3, b.4))
    | inr other ↦
        of_state limits size k
          (record { controller = dequeue a key; queued = queued; holding = holding }) (state a k)
          (rw (state-dequeue a key k, other) refl) (queue_size-dequeue a key ∙ e)
          (b.0, ground (arith, b.1), b.2, b.3, b.4)
  ]

  finish-Books :
      (a : Controller) (queued : List Waiter) (before after : List Text) (key : Text)
      → a.queue_size ≡ size
      → Books k (positive_or 1 (limits k)) size 0 (state a k) queued (before ++ (key ∷ after))
      → SystemBooks limits size k
          (record { controller = release a key; queued = queued; holding = before ++ after })
  finish-Books a queued before after key e b = elim (Bool-cases (eq_text key k)) [
    | inl same ↦
        of_state limits size k
          (record { controller = release a key; queued = queued; holding = before ++ after })
          (released (state a k))
          (rw (eq_text→eq key k same, state-release a k k, eq_text_refl k) refl)
          (queue_size-release a key ∙ e)
          (released-Books (state a k) queued (before ++ (key ∷ after)) (before ++ after)
            (ground (arith, hold-out before after key)) b)
    | inr other ↦
        of_state limits size k
          (record { controller = release a key; queued = queued; holding = before ++ after })
          (state a k) (rw (state-release a key k, other) refl) (queue_size-release a key ∙ e)
          (ground (arith, b.0, hold-out before after key), b.1, b.2, b.3, b.4)
  ]

  Step-Books :
      {s t : System} → Step limits s t → SystemBooks limits size k s → SystemBooks limits size k t
  Step-Books {s} (arrive key) b =
      round_any limits size k s.controller s.queued s.holding false key b.0 b.1
  Step-Books {s} (wake before after w e closed) b =
      round_any limits size k s.controller (before ++ after) s.holding true w.key b.0 (
        take_out limits size k (state s.controller k) before after w s.holding (
          subst (λ q. Books k (positive_or 1 (limits k)) size 0 (state s.controller k) q s.holding)
            e b.1))
  Step-Books {s} (give_up before after w e) b =
      give_up-Books s.controller (before ++ after) s.holding w.key b.0 (
        take_out limits size k (state s.controller k) before after w s.holding (
          subst (λ q. Books k (positive_or 1 (limits k)) size 0 (state s.controller k) q s.holding)
            e b.1))
  Step-Books {s} (finish before after key e) b =
      finish-Books s.controller s.queued before after key b.0 (
        subst (λ h. Books k (positive_or 1 (limits k)) size 0 (state s.controller k) s.queued h) e
          b.1)

  Reach-Books :
      {s t : System} → Reach limits s t → SystemBooks limits size k s → SystemBooks limits size k t
  Reach-Books here b = b
  Reach-Books (next r st) b = Step-Books st (Reach-Books r b)

initial-Books :
    (limits : Text → ℤ) (queue_size : ℤ) (k : Text)
    → SystemBooks limits (nonneg queue_size) k (initial queue_size)
unfolding initial new_controller state lookup
initial-Books limits queue_size k = (refl, (refl, refl, ground arith, ground arith, tt))

-- Whatever the order in which callers arrive, wait, are woken, give up and finish, on any keys: for
-- every key the controller's two counts are exactly the callers that hold a slot and that wait, no
-- more than the pool limit of the key hold a slot (a limit below 1 counts as 1), and no more than
-- the queue size wait.
pub Reach-counts :
    (limits : Text → ℤ) (queue_size : ℤ) (k : Text) (s : System)
    → Reach limits (initial queue_size) s
    → ((state s.controller k).inflight ≡ holders k s.holding)
      × ((state s.controller k).waiting ≡ waiters k s.queued)
      × (holders k s.holding ≤ positive_or 1 (limits k))
      × (waiters k s.queued ≤ nonneg queue_size)
Reach-counts limits queue_size k s r =
    let b = (Reach-Books limits (nonneg queue_size) k r (initial-Books limits queue_size k)).1 in
    (b.0, ground (arith, b.1), ground (arith, b.0, b.2), ground (arith, b.1, b.3))

-- No wake-up is lost: after any interleaving, if a caller waits for a slot of its key on a channel
-- that is still open, then every slot of that key is in use.
pub Reach-no_lost_wakeup :
    (limits : Text → ℤ) (queue_size : ℤ) (s : System) (before after : List Waiter) (w : Waiter)
    → Reach limits (initial queue_size) s
    → s.queued ≡ before ++ (w ∷ after)
    → (state s.controller w.key).notify ≤ w.channel
    → holders w.key s.holding ≡ positive_or 1 (limits w.key)
Reach-no_lost_wakeup limits queue_size s before after w r e still =
    let b =
      (Reach-Books limits (nonneg queue_size) w.key r (initial-Books limits queue_size w.key)).1 in
    let watches = Watches w.key (positive_or 1 (limits w.key)) (state s.controller w.key) in
    let mine = (All-split watches before (w ∷ after) (subst (All watches) e b.4)).1.0 in
    let (past, full) = mine (eq_text_refl w.key) in ground (arith, b.0, b.2, past, full)
