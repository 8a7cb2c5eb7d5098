-- ===== src/Lifecycle/Tests.antt =====
-- Runs of the lifecycle on concrete requests; a definition is a number, and any above 0 is ready.
use ddag.Base.{ℕ, ◌≡◌, refl, Bool, true, List, [], ◌∷◌, ltb, ◌==◌}
use ddag.Lifecycle.{
  Status, review, approved, published, to_approved, Api, Request, edit, change, publish, handle,
  run, update_api, change_api, write_change, approve_api, publish_api, store_publish_api,
  can_transition_api_status, live_definition,
}
use ddag.Lifecycle.Governance.{approval, publication, in_order, run-published}
use ddag.Lifecycle.Races.{
  System, Reach, here, next, checks_publish, writes_publish, checks_change, writes_change, quiet,
  Reach-live_ready,
}

abbrev is_ready : ℕ → Bool
is_ready n = ltb 0 n

-- pgx: as many arguments as placeholders.
abbrev pgx : ℕ → ℕ → Bool
pgx placeholders args = placeholders == args

abbrev api : Status → Api ℕ
api status = record { status = status; version = 1; definition = 3; revisions = [] }

abbrev requests : List (Request ℕ)
requests = edit 4 ∷ publish ∷ change to_approved ∷ publish ∷ []

run-published_example : in_order (approval ∷ publication ∷ []) requests ≡ true
unfolding run handle update_api change_api write_change approve_api publish_api store_publish_api
    can_transition_api_status
run-published_example = run-published pgx is_ready requests (api review) refl refl

abbrev live : System ℕ
live = quiet (record { status = published; version = 1; definition = 3; revisions = 3 ∷ [] })

went_live : Reach pgx is_ready (quiet (api review)) live
unfolding write_change approve_api store_publish_api can_transition_api_status
went_live =
    next
      (next
        (next (next here (checks_change to_approved refl)) (writes_change [] [] to_approved refl))
        (checks_publish refl))
      (writes_publish [] [] 3 refl)

Reach-live_ready_example : is_ready 3 ≡ true
unfolding live_definition
Reach-live_ready_example = Reach-live_ready pgx is_ready (api review) 3 live refl tt went_live refl

-- Two approvals that were both checked in review: the second is written after the API was published,
-- and takes it from the gateway.
unpublished :
    Reach pgx is_ready
      (quiet (api review))
      (quiet (record { status = approved; version = 1; definition = 3; revisions = 3 ∷ [] }))
unfolding write_change approve_api store_publish_api can_transition_api_status
unpublished =
    next
      (next
        (next
          (next (next (next here (checks_change to_approved refl)) (checks_change to_approved refl))
            (writes_change [] (to_approved ∷ []) to_approved refl))
          (checks_publish refl))
        (writes_publish [] [] 3 refl))
      (writes_change [] [] to_approved refl)
