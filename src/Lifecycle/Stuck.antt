-- ===== src/Lifecycle/Stuck.antt =====
-- Statuses that no request of the dashboard leaves.
use ddag.Base.{ℕ, ◌≡◌, Bool, true, false, All, []}
use ddag.Lifecycle.{Status, draft, deprecated, archived, disabled, to_review}
use ddag.Lifecycle.Races.{System}

abbrev pub is_terminal : Status → Bool
is_terminal deprecated = true
is_terminal archived = true
is_terminal disabled = true
is_terminal _ = false

module _ {D : Type 0} (accepts : ℕ → ℕ → Bool) (is_ready : D → Bool) where
  -- The API has a terminal status, and no handler is about to write.
  abbrev Ended : Status → System D → Type 0
  Ended status s = (s.api.status ≡ status) × (s.publishing ≡ []) × (s.changing ≡ [])

  -- A draft, on which the only handlers at work are those that ask for its review.
  abbrev Waiting : System D → Type 0
  Waiting s = (s.api.status ≡ draft) × (s.publishing ≡ []) × All (λ c. c ≡ to_review) s.changing
