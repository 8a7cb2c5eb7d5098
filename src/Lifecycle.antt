-- ===== src/Lifecycle.antt =====
-- The lifecycle of one API: internal/adminsvc/api_lifecycle.go (the table of transitions),
-- internal/adminsvc/handlers_apis.go (updateAPI, publishAPI, approveAPI, setAPIStatusHandler) and
-- the statements of internal/store/catalog.go that they run, on the row of an API that exists.
-- `D` is what an edit sets, a definition with its parameters; `is_ready` is the check of
-- internal/gateway/validate.go, whatever it checks. A handler is its two accesses to the database:
-- what it decides from the row that it read, and what it then writes. Left out are the checks of an
-- edit's method and connection, which come before it gets to the row, comments, approvers,
-- timestamps, the lifecycle events, and failures of the database, but for one: the driver may refuse a
-- statement for its number of arguments. `accepts` says whether it runs a statement with so many
-- placeholders on so many arguments; pgx does where the two are the same.
pub mod Governance
pub mod Races
pub mod Stuck
mod Tests
use ddag.Base.{
  ℕ, suc, ◌+◌, Bool, true, false, ◌&&◌, Option, none, some, List, [], ◌∷◌, if◌then◌else◌,
}

pub data Status : Type 0 where
  draft review approved published deprecated archived disabled : Status

unfoldable pub can_transition_api_status : Status → Status → Bool
can_transition_api_status draft review = true
can_transition_api_status review approved = true
can_transition_api_status approved published = true
can_transition_api_status published deprecated = true
can_transition_api_status published archived = true
can_transition_api_status published disabled = true
can_transition_api_status _ _ = false

abbrev pub can_publish_api_status : Status → Bool
can_publish_api_status status = can_transition_api_status status published

-- The statuses that have a handler of their own: approveAPI, and setAPIStatusHandler on each of the
-- others. Publishing is not one of them.
pub data Change : Type 0 where
  to_review to_approved to_deprecated to_archived to_disabled : Change

abbrev pub target : Change → Status
target to_review = review
target to_approved = approved
target to_deprecated = deprecated
target to_archived = archived
target to_disabled = disabled

-- The row of an API with the snapshots of its revisions, the newest first.
pub record Api (D : Type 0) : Type 0 where
  pub status : Status
  pub version : ℕ
  pub definition : D
  pub revisions : List D

abbrev pub is_published : Status → Bool
is_published published = true
is_published _ = false

abbrev pub is_approved : Status → Bool
is_approved approved = true
is_approved _ = false

module _ {D : Type 0} where
  -- `UpdateAPIWithParameters`.
  unfoldable pub update_api : D → Api D → Api D
  update_api d a =
      if is_published a.status
      then record a { status = draft; version = a.version + 1; definition = d }
      else record a { definition = d }

  -- `SetAPIStatus`: its statement has the placeholders $1 and $2, and it passes three arguments. Where
  -- the driver refuses it, the row stays as it is and the handler answers with an error.
  unfoldable pub set_api_status : (ℕ → ℕ → Bool) → Status → Api D → Api D
  set_api_status accepts status a = if accepts 2 3 then record a { status = status } else a

  -- `ApproveAPI`, with three placeholders and three arguments.
  unfoldable pub approve_api : (ℕ → ℕ → Bool) → Api D → Api D
  approve_api accepts a = if accepts 3 3 then record a { status = approved } else a

  -- What the handler of a change writes.
  unfoldable pub write_change : (ℕ → ℕ → Bool) → Change → Api D → Api D
  unfolding set_api_status approve_api
  write_change accepts to_approved a = approve_api accepts a
  write_change accepts c a = set_api_status accepts (target c) a

  -- `PublishAPI` of the row that was read: the transaction is rolled back where the status is no
  -- longer APPROVED.
  unfoldable pub store_publish_api : D → Api D → Api D
  store_publish_api read a =
      if is_approved a.status
      then record a { status = published; revisions = read ∷ a.revisions }
      else a

  first_revision : List D → D → D
  first_revision [] d = d
  first_revision (r ∷ rs) d = r

  -- What `ListPublishedAPIs` gives the gateway for this API: its newest snapshot, or the row itself
  -- where no snapshot is there.
  unfoldable pub live_definition : Api D → Option D
  unfolding first_revision
  live_definition a =
      if is_published a.status then some (first_revision a.revisions a.definition) else none

  -- The handlers, each run without another in between.
  unfoldable pub publish_api : (D → Bool) → Api D → Api D
  publish_api is_ready a =
      if can_publish_api_status a.status && is_ready a.definition
      then store_publish_api a.definition a
      else a

  unfoldable pub change_api : (ℕ → ℕ → Bool) → Change → Api D → Api D
  unfolding write_change
  change_api accepts c a =
      if can_transition_api_status a.status (target c) then write_change accepts c a else a

pub data Request (D : Type 0) : Type 0 where
  edit : D → Request D
  change : Change → Request D
  publish : Request D

module _ {D : Type 0} (accepts : ℕ → ℕ → Bool) (is_ready : D → Bool) where
  unfoldable pub handle : Request D → Api D → Api D
  unfolding update_api change_api write_change publish_api store_publish_api
  handle (edit d) a = update_api d a
  handle (change c) a = change_api accepts c a
  handle publish a = publish_api is_ready a

  unfoldable pub run : List (Request D) → Api D → Api D
  unfolding handle
  run [] a = a
  run (r ∷ rs) a = run rs (handle r a)
