-- ===== src/Lifecycle/Races.antt =====
-- The lifecycle of an API when requests run at the same time: a handler that has read the row and
-- passed its checks waits, with what it decided, until it writes. Any writes may come in between.
use ddag.Base.{
  arith, ℕ, ◌≡◌, refl, subst, inl, inr, Bool, true, false, ◌&&◌, &&-true, Bool-cases, if◌then◌else◌,
  some, List, [], ◌∷◌, ◌++◌, All, All-split, All-append,
}
use ddag.Lifecycle.{
  Status, review, approved, deprecated, archived, disabled, Change, to_review, to_approved,
  to_deprecated, to_archived, to_disabled, target, Api, is_published, is_approved,
  can_transition_api_status, can_publish_api_status, update_api, set_api_status, approve_api,
  write_change, store_publish_api, live_definition, first_revision,
}

pub record System (D : Type 0) : Type 0 where
  pub api : Api D
  -- The definitions that a publishAPI has read and checked, and the changes that another handler has.
  pub publishing : List D
  pub changing : List Change

pub data Step {D : Type 0} (accepts : ℕ → ℕ → Bool) (is_ready : D → Bool) (s : System D)
    : System D → Type 0 where
  edits : (d : D) → Step accepts is_ready s (record s { api = update_api d s.api })
  checks_publish :
      can_publish_api_status s.api.status && is_ready s.api.definition ≡ true
      → Step accepts is_ready s (record s { publishing = s.api.definition ∷ s.publishing })
  writes_publish :
      (before after : List D) (read : D)
      → s.publishing ≡ before ++ (read ∷ after)
      → Step accepts is_ready s
          (record s { api = store_publish_api read s.api; publishing = before ++ after })
  checks_change :
      (c : Change)
      → can_transition_api_status s.api.status (target c) ≡ true
      → Step accepts is_ready s (record s { changing = c ∷ s.changing })
  writes_change :
      (before after : List Change) (c : Change)
      → s.changing ≡ before ++ (c ∷ after)
      → Step accepts is_ready s
          (record s { api = write_change accepts c s.api; changing = before ++ after })

pub data Reach {D : Type 0} (accepts : ℕ → ℕ → Bool) (is_ready : D → Bool) (s : System D)
    : System D → Type 0 where
  here : Reach accepts is_ready s s
  next :
      {t u : System D}
      → Reach accepts is_ready s t
      → Step accepts is_ready t u
      → Reach accepts is_ready s u

-- The row of an API, with no handler at work on it.
abbrev pub quiet : {D : Type 0} → Api D → System D
quiet a = record { api = a; publishing = []; changing = [] }

module _ {D : Type 0} (accepts : ℕ → ℕ → Bool) (is_ready : D → Bool) where
  abbrev IsReady : D → Type 0
  IsReady d = is_ready d ≡ true

  abbrev is_empty : List D → Bool
  is_empty [] = true
  is_empty (r ∷ rs) = false

  -- Every snapshot passed the check, and a published API has one.
  abbrev ApiChecked : Api D → Type 0
  ApiChecked a = All IsReady a.revisions × (is_published a.status && is_empty a.revisions ≡ false)

  -- So did every definition that is about to become a snapshot.
  abbrev IsChecked : System D → Type 0
  IsChecked s = ApiChecked s.api × All IsReady s.publishing

  edit-ApiChecked : (d : D) (a : Api D) → ApiChecked a → ApiChecked (update_api d a)
  unfolding update_api
  edit-ApiChecked d a (h, n) = elim (Bool-cases (is_published a.status)) [
    | inl live ↦ rw live (h, refl)
    | inr not_live ↦ rw not_live (h, rw not_live refl)
  ]

  publish-ApiChecked :
      (read : D) (a : Api D) → IsReady read → ApiChecked a → ApiChecked (store_publish_api read a)
  unfolding store_publish_api
  publish-ApiChecked read a ready (h, n) = elim (Bool-cases (is_approved a.status)) [
    | inl ok ↦ rw ok ((ready, h), refl)
    | inr other ↦ rw other (h, n)
  ]

  status-ApiChecked :
      (status : Status) (run : Bool) (a : Api D)
      → is_published status ≡ false
      → ApiChecked a
      → ApiChecked (if run then record a { status = status } else a)
  status-ApiChecked status true a other (h, n) = (h, rw other refl)
  status-ApiChecked status false a other h = h

  change-ApiChecked :
      (c : Change) (a : Api D) → ApiChecked a → ApiChecked (write_change accepts c a)
  unfolding write_change set_api_status approve_api
  change-ApiChecked to_review a h = status-ApiChecked review (accepts 2 3) a refl h
  change-ApiChecked to_approved a h = status-ApiChecked approved (accepts 3 3) a refl h
  change-ApiChecked to_deprecated a h = status-ApiChecked deprecated (accepts 2 3) a refl h
  change-ApiChecked to_archived a h = status-ApiChecked archived (accepts 2 3) a refl h
  change-ApiChecked to_disabled a h = status-ApiChecked disabled (accepts 2 3) a refl h

  Step-IsChecked : (s t : System D) → IsChecked s → Step accepts is_ready s t → IsChecked t
  Step-IsChecked s t (h, p) (edits d) = (edit-ApiChecked d s.api h, p)
  Step-IsChecked s t (h, p) (checks_publish ok) =
      (h, ((&&-true (can_publish_api_status s.api.status) (is_ready s.api.definition) ok).1, p))
  Step-IsChecked s t (h, p) (writes_publish before after read e) =
      let (hb, (ready, ha)) = All-split IsReady before (read ∷ after) (subst (All IsReady) e p) in
      (publish-ApiChecked read s.api ready h, All-append IsReady before after hb ha)
  Step-IsChecked s t (h, p) (checks_change c ok) = (h, p)
  Step-IsChecked s t (h, p) (writes_change before after c e) = (change-ApiChecked c s.api h, p)

  Reach-IsChecked : {s t : System D} → IsChecked s → Reach accepts is_ready s t → IsChecked t
  Reach-IsChecked h here = h
  Reach-IsChecked h (next {t} {u} r step) = Step-IsChecked t u (Reach-IsChecked h r) step

  newest-IsReady :
      (hist : List D) (row d : D)
      → All IsReady hist
      → is_empty hist ≡ false
      → first_revision hist row ≡ d
      → IsReady d
  unfolding first_revision
  newest-IsReady [] row d h full e = ground (arith, full)
  newest-IsReady (r ∷ rs) row d h full e = subst IsReady e h.0

  live-IsReady : (a : Api D) (d : D) → ApiChecked a → live_definition a ≡ some d → IsReady d
  unfolding live_definition
  live-IsReady a d (h, n) e = elim (Bool-cases (is_published a.status)) [
    | inl live ↦
        newest-IsReady a.revisions a.definition d h (ground (arith, n, live))
          (ground (arith, e, live))
    | inr hidden ↦ ground (arith, e, hidden)
  ]

-- From a row that is not published and whose snapshots, if any, passed the publishing check, with no
-- handler at work on it: whatever the order in which edits, checks and writes of any number of requests
-- come, the definition that the gateway is given for the API passed the publishing check.
pub Reach-live_ready :
    {D : Type 0} (accepts : ℕ → ℕ → Bool) (is_ready : D → Bool) (a : Api D) (d : D) (s : System D)
    → is_published a.status ≡ false
    → All (λ r. is_ready r ≡ true) a.revisions
    → Reach accepts is_ready (quiet a) s
    → live_definition s.api ≡ some d
    → is_ready d ≡ true
Reach-live_ready accepts is_ready a d s hidden checked r e =
    live-IsReady accepts is_ready s.api d
      (Reach-IsChecked accepts is_ready ((checked, rw hidden refl), tt) r).0 e
