-- ===== src/Tests/Race.antt =====
-- internal/license: calls at the same time, at the small shop with one seat of two left.
use seatkey.Common.{eq_iff}
use seatkey.License.Race.Bound.{race-bound}
use seatkey.License.Race.Over.{race-over, racer, in_turn}
use seatkey.Store.Licenses.{license_of}
use seatkey.Store.Devices.{count_seats}
use seatkey.Store.Models.{License}
use seatkey.License.Race.{revokes_license, frees, moves, Turn, Racer, race}
use seatkey.Toys.{demo, demo_row}
use seatkey.Common.{arith, [], ◌+◌, ◌≤◌, ◌∷◌, ◌≡◌, List, refl}

abbrev two_seats : License
two_seats = license_of demo_row "Editor"

abbrev rivals : List Racer
rivals = racer "laptop" ∷ racer "tablet" ∷ []

-- Somebody else deactivates the desk and revokes the license between the statements.
abbrev busy : List Turn
busy = moves 0 ∷ frees "L1" "desk" ∷ moves 1 ∷ revokes_license "L1" ∷ in_turn

race-bound_example : count_seats "L1" (race two_seats busy rivals demo).1.db ≤ 2 + 1
race-bound_example = race-bound two_seats busy 1 rivals demo refl refl (omega arith)

race-over_example : count_seats "L1" (race two_seats in_turn rivals demo).1.db ≡ 3
race-over_example =
    race-over two_seats "laptop" "tablet" demo (λ n. refl) refl
      (λ h. cc ((eq_iff "laptop" "tablet").1 h)) refl refl refl
