-- ===== src/Admission/Books.antt =====
-- The books of one key: what the controller's counts and channel say of the callers, and that a round
-- of `Acquire` keeps it.
use ddag.Base.{
  ℕ, ◌+◌, ◌-◌, ◌≤◌, ◌<◌, ◌≡◌, sym, subst, ◌⊎◌, inl, inr, Bool, true, false, List, ◌∷◌, ◌++◌, ℤ,
  arith, if◌then◌else◌, positive_or, Text, eq_text, eq_text_refl, eq_text→eq, Bool-cases,
  count_if-append, All, All-append, All-split, All-map,
}
use ddag.Admission.{
  AdmissionState, Controller, state, put, admitted, rejected, waits, decide, attempt,
}
use ddag.Admission.Keys.{state-put}
use ddag.Admission.System.{Waiter, System, settle, round, holders, waiters}

-- A waiting caller of key `k` holds a channel that is not newer than the current one; if it is the
-- current one, no slot is free.
abbrev pub Watches : Text → ℕ → AdmissionState → Waiter → Type 0
Watches k limit st w =
    eq_text w.key k ≡ true → (w.channel ≤ st.notify) × (w.channel ≡ st.notify → limit ≤ st.inflight)

-- The books of one key: `more` callers of it are in neither list, since they run a round.
abbrev pub Books : Text → ℕ → ℕ → ℕ → AdmissionState → List Waiter → List Text → Type 0
Books k limit size more st queued holding =
    (st.inflight ≡ holders k holding)
    × (st.waiting ≡ waiters k queued + more)
    × (st.inflight ≤ limit)
    × (st.waiting ≤ size)
    × All (Watches k limit st) queued

-- The three ends of a round.
abbrev Ends : ℕ → AdmissionState → ℕ → Bool → Type 0
Ends size st limit again =
    ((st.inflight < limit)
      × (decide size st limit again ≡ (
        record st {
          inflight = st.inflight + 1;
          waiting = (if again then st.waiting - 1 else st.waiting);
        },
        admitted,
      )))
    ⊎ ((limit ≤ st.inflight) × (again ≡ false) × (decide size st limit again ≡ (st, rejected)))
    ⊎ ((limit ≤ st.inflight)
        × (again ≡ true)
        × (decide size st limit again ≡ (st, waits st.notify)))
    ⊎ ((limit ≤ st.inflight)
        × (again ≡ false)
        × (st.waiting < size)
        × (decide size st limit again ≡ (record st { waiting = st.waiting + 1 }, waits st.notify)))

decide-Ends : (size : ℕ) (st : AdmissionState) (limit : ℕ) (again : Bool) → Ends size st limit again
unfolding decide
decide-Ends size st limit again = ground arith

abbrev pub SystemBooks : (Text → ℤ) → ℕ → Text → System → Type 0
SystemBooks limits size k s =
    (s.controller.queue_size ≡ size)
    × Books k (positive_or 1 (limits k)) size 0 (state s.controller k) s.queued s.holding

module _ (limits : Text → ℤ) (size : ℕ) (k : Text) where
  abbrev pub cap : ℕ
  cap = positive_or 1 (limits k)

  pub of_state :
      (s : System) (st : AdmissionState)
      → state s.controller k ≡ st
      → s.controller.queue_size ≡ size
      → Books k cap size 0 st s.queued s.holding
      → SystemBooks limits size k s
  of_state s st e q b = (q, subst (λ x. Books k cap size 0 x s.queued s.holding) (sym e) b)

  module _ (a : Controller) (queued : List Waiter) (holding : List Text)
      (e : a.queue_size ≡ size) where
    state_other :
        (key : Text) (st : AdmissionState)
        → eq_text key k ≡ false
        → state (put a key st) k ≡ state a k
    state_other key st other = rw (state-put a key k st, other)

    state_same : (st : AdmissionState) → state (put a k st) k ≡ st
    state_same st = rw (state-put a k k st, eq_text_refl k)

    -- A round on another key.
    round_other :
        (again : Bool) (key : Text)
        → eq_text key k ≡ false
        → Books k cap size 0 (state a k) queued holding
        → SystemBooks limits size k (round limits again key a queued holding)
    unfolding round attempt
    round_other again key other b =
        elim (decide-Ends a.queue_size (state a key) (positive_or 1 (limits key)) again) [
          | inl (room, d) ↦
              rw (d, attempt)
                (of_state (settle admitted _ key queued holding) (state a k)
                  (state_other key _ other) e (ground (arith, b.0), b.1, b.2, b.3, b.4))
          | inr (inl (full, new, d)) ↦
              rw (d, attempt)
                (of_state (settle rejected _ key queued holding) (state a k)
                  (state_other key _ other) e b)
          | inr (inr (inl (full, old, d))) ↦
              rw (d, attempt)
                (of_state (settle (waits _) _ key queued holding) (state a k)
                  (state_other key _ other) e (b.0, ground (arith, b.1), b.2, b.3, (λ h. cc, b.4)))
          | inr (inr (inr (full, new, place, d))) ↦
              rw (d, attempt)
                (of_state (settle (waits _) _ key queued holding) (state a k)
                  (state_other key _ other) e (b.0, ground (arith, b.1), b.2, b.3, (λ h. cc, b.4)))
        ]

    -- A round on the same key.
    round_same :
        (again : Bool)
        → Books k cap size (if again then 1 else 0) (state a k) queued holding
        → SystemBooks limits size k (round limits again k a queued holding)
    unfolding round attempt
    round_same again b =
        let mine = eq_text_refl k in
        elim (decide-Ends a.queue_size (state a k) cap again) [
          | inl (room, d) ↦
              rw (d, attempt)
                (of_state (settle admitted _ k queued holding) _ (state_same _) e (
                  ground (arith, b.0),
                  ground (arith, b.1),
                  omega arith,
                  ground (arith, b.3),
                  All-map (λ w f h. ((f h).0, λ same. omega (arith, (f h).1 same))) queued b.4,
                ))
          | inr (inl (full, new, d)) ↦
              rw (d, attempt)
                (of_state (settle rejected _ k queued holding) _ (state_same _) e
                  (b.0, ground (arith, b.1), b.2, b.3, b.4))
          | inr (inr (inl (full, old, d))) ↦
              rw (d, attempt)
                (of_state (settle (waits _) _ k queued holding) _ (state_same _) e
                  (b.0, ground (arith, b.1), b.2, b.3, (λ h. (omega arith, λ same. full), b.4)))
          | inr (inr (inr (full, new, place, d))) ↦
              rw (d, attempt)
                (of_state (settle (waits _) _ k queued holding) _ (state_same _) e (
                  b.0,
                  ground (arith, b.1),
                  b.2,
                  omega arith,
                  (λ h. (omega arith, λ same. full), b.4),
                ))
        ]

  -- Taking one caller out of the queue.
  pub take_out :
      (st : AdmissionState) (before after : List Waiter) (w : Waiter) (holding : List Text)
      → Books k cap size 0 st (before ++ (w ∷ after)) holding
      → Books k cap size (if eq_text w.key k then 1 else 0) st (before ++ after) holding
  take_out st before after w holding b =
      let (in_front, (mine, behind)) = All-split (Watches k cap st) before (w ∷ after) b.4 in
      (
        b.0,
        ground (
          arith,
          b.1,
          count_if-append (λ (v : Waiter). eq_text v.key k) before (w ∷ after),
          count_if-append (λ (v : Waiter). eq_text v.key k) before after,
        ),
        b.2,
        b.3,
        All-append (Watches k cap st) before after in_front behind,
      )

  pub round_any :
      (a : Controller) (queued : List Waiter) (holding : List Text) (again : Bool) (key : Text)
      → a.queue_size ≡ size
      → Books k cap size
          (if again then (if eq_text key k then 1 else 0) else 0)
          (state a k)
          queued
          holding
      → SystemBooks limits size k (round limits again key a queued holding)
  round_any a queued holding again key e b = elim (Bool-cases (eq_text key k)) [
    | inl same ↦
        subst (λ j. SystemBooks limits size k (round limits again j a queued holding))
          (sym (eq_text→eq key k same))
          (round_same a queued holding e again (b.0, ground (arith, b.1), b.2, b.3, b.4))
    | inr other ↦
        round_other a queued holding e again key other (b.0, ground (arith, b.1), b.2, b.3, b.4)
  ]
