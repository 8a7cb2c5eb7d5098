-- ===== src/Policy/Tests.antt =====
-- Runs of the access checks on concrete claims and counters.
use mathlib.Core.List.{Memᴰ}
use ddag.Base.{
  ℕ, ◌≡◌, ◌≤◌, ◌-◌, ◌↔◌, refl, true, List, [], ◌∷◌, pos, Text, codes, eq_text, lookup, insert,
}
use ddag.Policy.Scope.{has_scope, has_scope-joined, joined, no_space}
use ddag.Policy.RateLimit.{
  Window, Active, count, active_windows, allow, windows_from_rule, rate_limit_failure_decision,
}
use ddag.Policy.Windows.{Request, granted, granted-le, has_room, enforces}
use ddag.Policy.Rules.{allow-has_room}

has_scope-joined_example :
    (has_scope (joined (codes "users:read") (codes "users:write" ∷ [])) (codes "users") ≡ true)
    ↔ Memᴰ (codes "users") (codes "users:read" ∷ codes "users:write" ∷ [])
unfolding no_space
has_scope-joined_example =
    has_scope-joined (codes "users:read") (codes "users:write" ∷ []) (codes "users") (refl, refl)
      ((refl, refl), tt) (refl, refl)

abbrev ttl : Text → ℕ
ttl key = 900

abbrev rule : List Window
rule = windows_from_rule (pos 2) (pos 0) (pos 100) (pos 0)

abbrev per_second : Text
per_second = codes "ddag:rl:c1:a1:s"

abbrev request : Request
request = record { base = codes "c1:a1"; windows = rule }

granted-le_example :
    granted ttl per_second 2 [] (request ∷ request ∷ request ∷ []) ≤ 2 - count [] per_second
granted-le_example = granted-le ttl per_second 2 [] (request ∷ request ∷ request ∷ [])

-- The bound is reached.
two_granted : granted ttl per_second 2 [] (request ∷ request ∷ request ∷ []) ≡ 2
unfolding granted enforces active_windows windows_from_rule eq_text allow lookup insert
two_granted = refl

allow-has_room_example :
    (allow ttl
      ((per_second, 2) ∷ [])
      (codes "c1:a1")
      (windows_from_rule (pos 2) (pos 0) (pos 100) (pos 0))).1.allowed
    ≡ has_room
        ((per_second, 2) ∷ [])
        (active_windows (codes "c1:a1") (windows_from_rule (pos 2) (pos 0) (pos 100) (pos 0)))
allow-has_room_example =
    allow-has_room ttl ((per_second, 2) ∷ []) (codes "c1:a1") (pos 2) (pos 0) (pos 100) (pos 0)

abbrev second_window : Active
second_window = record { key = per_second; suffix = codes "s"; limit = 2 }

abbrev hour_window : Active
hour_window = record { key = codes "ddag:rl:c1:a1:h"; suffix = codes "h"; limit = 100 }

closed_mode : (rate_limit_failure_decision (codes " Closed ")).1 ≡ true
unfolding rate_limit_failure_decision eq_text
closed_mode = refl
