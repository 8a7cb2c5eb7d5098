-- ===== src/Admission/Tests.antt =====
-- The admission controller on a concrete interleaving.
use ddag.Base.{◌≡◌, refl, ◌≢◌, false, [], ◌∷◌, ℤ, pos, Text, codes, eq_text, arith, lookup, insert}
use ddag.Admission.{new_controller, state, attempt, rejected}
use ddag.Admission.Keys.{other_key_untouched}
use ddag.Admission.System.{System, initial, round, Reach, here, next, arrive, holders, waiters}
use ddag.Admission.Bookkeeping.{Reach-counts, Reach-no_lost_wakeup}

abbrev orders : Text
orders = codes "orders"

abbrev one_each : Text → ℤ
one_each key = pos 1

abbrev first : System
first = round one_each false orders (initial (pos 4)).controller [] []

abbrev second : System
second = round one_each false orders first.controller first.queued first.holding

-- One caller holds the only slot, and the second waits.
two_arrive : Reach one_each (initial (pos 4)) second
unfolding initial round
two_arrive = next (next here (arrive orders)) (arrive orders)

second_waits : second.queued ≡ record { key = orders; channel = 0 } ∷ []
unfolding initial round attempt state lookup insert eq_text new_controller
second_waits = refl

third_refused :
    (attempt
      (attempt (attempt (new_controller (pos 0)) orders (pos 2) false).0 orders (pos 2) false).0
      orders
      (pos 2)
      false).1
    ≡ rejected
unfolding new_controller attempt state lookup insert eq_text
third_refused = refl

Reach-counts_example : (state second.controller orders).waiting ≡ waiters orders second.queued
Reach-counts_example = (Reach-counts one_each (pos 4) orders second two_arrive).1

Reach-no_lost_wakeup_example : holders orders second.holding ≡ 1
unfolding initial round attempt state lookup insert eq_text new_controller
Reach-no_lost_wakeup_example =
    Reach-no_lost_wakeup one_each (pos 4) second [] [] (record { key = orders; channel = 0 })
      two_arrive refl (omega arith)

apart : ◌≢◌ {A = Text} (codes "orders") (codes "users")
apart = λ e. cc

other_key_untouched_example :
    state (attempt (new_controller (pos 4)) orders (pos 1) false).0 (codes "users")
    ≡ state (new_controller (pos 4)) (codes "users")
other_key_untouched_example =
    (other_key_untouched (new_controller (pos 4)) orders (codes "users") (pos 1) (pos 1) false false
      apart).0
