-- ===== src/Lifecycle/Governance.antt =====
-- The lifecycle of an API when its requests are handled one after the other.
use ddag.Base.{
  ℕ, ◌≡◌, refl, subst, Bool, true, false, Bool-cases, inl, inr, List, [], ◌∷◌, if◌then◌else◌,
}
use ddag.Lifecycle.{
  Status, draft, review, approved, published, deprecated, archived, disabled, Change, to_review,
  to_approved, to_deprecated, to_archived, to_disabled, Api, can_transition_api_status, update_api,
  change_api, write_change, set_api_status, approve_api, publish_api, store_publish_api, Request,
  edit, change, publish, handle, run,
}

-- The steps of the approval chain.
pub data Stage : Type 0 where
  reviewed approval publication : Stage

module _ {D : Type 0} where
  abbrev pub performs : Stage → Request D → Bool
  performs reviewed (change to_review) = true
  performs approval (change to_approved) = true
  performs publication publish = true
  performs _ _ = false

  -- Whether the requests contain the stages, in this order.
  unfoldable pub in_order : List Stage → List (Request D) → Bool
  in_order [] rs = true
  in_order (s ∷ ss) [] = false
  in_order (s ∷ ss) (r ∷ rs) =
      let later = in_order ss rs in
      let same = in_order (s ∷ ss) rs in if performs s r then later else same

module _ {D : Type 0} where
  in_order-later :
      (r : Request D) (rs : List (Request D))
      → ((s : Stage) (ss : List Stage) → in_order (s ∷ ss) rs ≡ true → in_order ss rs ≡ true)
      → (ss : List Stage) → in_order ss rs ≡ true
      → in_order ss (r ∷ rs) ≡ true
  unfolding in_order
  in_order-later r rs fewer [] h = refl
  in_order-later r rs fewer (s ∷ ss) h = elim (Bool-cases (performs s r)) [
    | inl e ↦ rw e (fewer s ss h)
    | inr e ↦ rw e h
  ]

  -- Requests that contain the stages contain them without the first.
  in_order-fewer :
      (rs : List (Request D)) (s : Stage) (ss : List Stage)
      → in_order (s ∷ ss) rs ≡ true
      → in_order ss rs ≡ true
  unfolding in_order
  in_order-fewer [] s ss h = cc
  in_order-fewer (r ∷ rs) s ss h =
      let fewer = in_order-fewer rs in
      elim (Bool-cases (performs s r)) [
        | inl e ↦ in_order-later r rs fewer ss (rw e at h)
        | inr e ↦ in_order-later r rs fewer ss (fewer s ss (rw e at h))
      ]

-- The stages between a status and the publication.
abbrev pub missing : Status → List Stage
missing draft = reviewed ∷ approval ∷ publication ∷ []
missing review = approval ∷ publication ∷ []
missing approved = publication ∷ []
missing _ = []

module _ {D : Type 0} (accepts : ℕ → ℕ → Bool) (is_ready : D → Bool) where
  edit-in_order :
      (d : D) (status : Status) (v : ℕ) (e : D) (hist : List D) (rs : List (Request D))
      → in_order
          (missing
            (update_api d
              (record { status = status; version = v; definition = e; revisions = hist })).status)
          rs
        ≡ true
      → in_order (missing status) (edit d ∷ rs) ≡ true
  unfolding update_api in_order
  edit-in_order d draft v e hist rs h = h
  edit-in_order d review v e hist rs h = h
  edit-in_order d approved v e hist rs h = h
  edit-in_order d published v e hist rs h = refl
  edit-in_order d deprecated v e hist rs h = refl
  edit-in_order d archived v e hist rs h = refl
  edit-in_order d disabled v e hist rs h = refl

  publish-in_order :
      (status : Status) (v : ℕ) (e : D) (hist : List D) (rs : List (Request D))
      → in_order
          (missing
            (publish_api is_ready
              (record { status = status; version = v; definition = e; revisions = hist })).status)
          rs
        ≡ true
      → in_order (missing status) (publish ∷ rs) ≡ true
  unfolding publish_api store_publish_api can_transition_api_status in_order
  publish-in_order draft v e hist rs h = h
  publish-in_order review v e hist rs h = h
  publish-in_order approved v e hist rs h = refl
  publish-in_order published v e hist rs h = refl
  publish-in_order deprecated v e hist rs h = refl
  publish-in_order archived v e hist rs h = refl
  publish-in_order disabled v e hist rs h = refl

  change-in_order :
      (c : Change) (status : Status) (v : ℕ) (e : D) (hist : List D) (rs : List (Request D))
      → in_order
          (missing
            (change_api accepts c
              (record { status = status; version = v; definition = e; revisions = hist })).status)
          rs
        ≡ true
      → in_order (missing status) (change c ∷ rs) ≡ true
  unfolding change_api write_change set_api_status approve_api can_transition_api_status in_order
  change-in_order to_review draft v e hist rs h = elim (Bool-cases (accepts 2 3)) [
    | inl k ↦ rw k at h
    | inr k ↦ in_order-fewer rs reviewed (approval ∷ publication ∷ []) (rw k at h)
  ]
  change-in_order to_approved draft v e hist rs h = h
  change-in_order to_deprecated draft v e hist rs h = h
  change-in_order to_archived draft v e hist rs h = h
  change-in_order to_disabled draft v e hist rs h = h
  change-in_order to_review review v e hist rs h = h
  change-in_order to_approved review v e hist rs h = elim (Bool-cases (accepts 3 3)) [
    | inl k ↦ rw k at h
    | inr k ↦ in_order-fewer rs approval (publication ∷ []) (rw k at h)
  ]
  change-in_order to_deprecated review v e hist rs h = h
  change-in_order to_archived review v e hist rs h = h
  change-in_order to_disabled review v e hist rs h = h
  change-in_order to_review approved v e hist rs h = h
  change-in_order to_approved approved v e hist rs h = h
  change-in_order to_deprecated approved v e hist rs h = h
  change-in_order to_archived approved v e hist rs h = h
  change-in_order to_disabled approved v e hist rs h = h
  change-in_order c published v e hist rs h = refl
  change-in_order c deprecated v e hist rs h = refl
  change-in_order c archived v e hist rs h = refl
  change-in_order c disabled v e hist rs h = refl

  handle-in_order :
      (r : Request D) (a : Api D) (rs : List (Request D))
      → in_order (missing (handle accepts is_ready r a).status) rs ≡ true
      → in_order (missing a.status) (r ∷ rs) ≡ true
  unfolding handle
  handle-in_order (edit d) a rs h = edit-in_order d a.status a.version a.definition a.revisions rs h
  handle-in_order (change c) a rs h =
      change-in_order c a.status a.version a.definition a.revisions rs h
  handle-in_order publish a rs h = publish-in_order a.status a.version a.definition a.revisions rs h

  run-in_order :
      (rs : List (Request D)) (a : Api D)
      → (run accepts is_ready rs a).status ≡ published
      → in_order (missing a.status) rs ≡ true
  unfolding run in_order
  run-in_order [] a e = rw (e, in_order) refl
  run-in_order (r ∷ rs) a e =
      handle-in_order r a rs (run-in_order rs (handle accepts is_ready r a) e)

-- An API in review that is published after requests went through an approval and then a publication,
-- whatever statements the driver refuses.
pub run-published :
    {D : Type 0} (accepts : ℕ → ℕ → Bool) (is_ready : D → Bool) (rs : List (Request D)) (a : Api D)
    → a.status ≡ review
    → (run accepts is_ready rs a).status ≡ published
    → in_order (approval ∷ publication ∷ []) rs ≡ true
run-published accepts is_ready rs a start e =
    subst (λ s. in_order (missing s) rs ≡ true) start (run-in_order accepts is_ready rs a e)
