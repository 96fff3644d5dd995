-- ===== src/License/Race/Bound.antt =====
-- internal/license/service.go: by how much activations at the same time can exceed the seats.
use seatkey.Store.Devices.Seats.{count_seats-free-le}
use seatkey.Store.Licenses.Revoke.{revoke_license-Revoked, Revoked}
use seatkey.Store.Devices.Outcomes.{deactivate_device-Freed, Freed}
use seatkey.Store.Licenses.{revoke_license}
use seatkey.Store.Devices.{count_seats, deactivate_device}
use seatkey.World.{err, ok, Result, World}
use seatkey.License.Race.{revokes_license, frees, moves, Racer, Turn, take_turn, race}
use seatkey.Store.Models.{License}
use seatkey.Common.{
  [], inr, ◌∙◌, ◌∷◌, arith, to_nat, inl, ◌+◌, suc, length, ◌≤◌, ℕ, String, List, ◌≡◌, refl,
}
use seatkey.License.Race.Steps.{seats, Moved, seats_kept, step-Moved, all_pending, all_pending_le}

module _ (lic : License) where
  frees-Moved :
      (license_id device_id : String) (w : World)
      → seats lic (deactivate_device license_id device_id w).1 ≤ seats lic w
  frees-Moved license_id device_id w =
      go (deactivate_device license_id device_id w) (deactivate_device-Freed license_id device_id w)
    where
      go :
          (p : Result (Unit {0}) × World)
          → Freed license_id device_id w p
          → seats lic p.1 ≤ seats lic w
      go (ok u, w') (some_row, (now, wrote), quiet) =
          rw wrote (count_seats-free-le lic.id license_id device_id now w.db.devices)
      go (err e, w') (why, same) = omega (arith, seats_kept lic w w' same)

  revokes-Moved : (id : String) (w : World) → seats lic (revoke_license id w).1 ≤ seats lic w
  revokes-Moved id w = go (revoke_license id w) (revoke_license-Revoked id w)
    where
      go : (p : Result (Unit {0}) × World) → Revoked id w p → seats lic p.1 ≤ seats lic w
      go (ok u, w') ((now, wrote), marked, quiet) = rw wrote (omega arith)
      go (err e, w') (same, why) = omega (arith, seats_kept lic w w' same)

  take_turn-Moved :
      (turn : Turn) (rs : List Racer) (w : World)
      → let (rs', w') = take_turn lic turn rs w in
        Moved lic w (all_pending rs) w' (all_pending rs') × (length rs' ≡ length rs)
  unfolding take_turn
  take_turn-Moved (moves i) rs w = step-Moved lic i rs w
  take_turn-Moved (frees license_id device_id) rs w =
      (inl (omega (arith, frees-Moved license_id device_id w)), refl)
  take_turn-Moved (revokes_license id) rs w = (inl (omega (arith, revokes-Moved id w)), refl)

  race_bounded :
      (schedule : List Turn) (extra : ℕ) (rs : List Racer) (w : World)
      → length rs ≡ suc extra
      → seats lic w + all_pending rs ≤ to_nat lic.max_devices + extra
      → seats lic (race lic schedule rs w).1 ≤ to_nat lic.max_devices + extra
  unfolding race
  race_bounded [] extra rs w len h = omega arith
  race_bounded (turn ∷ schedule) extra rs w len h =
      let (rs', w') = take_turn lic turn rs w in
      let (moved, same) = take_turn-Moved turn rs w in
      race_bounded schedule extra rs' w' (same ∙ len) (elim moved [
        | inl le ↦ omega (arith, le, h)
        | inr lt ↦ omega (arith, lt, same, len, all_pending_le rs')
      ])

  -- Activations of one license that run at the same time, their statements in any order and between
  -- those of any deactivations and revocations, exceed the license's limit by less than their number,
  -- if it was kept before and none of them has yet counted the seats.
  pub race-bound :
      (schedule : List Turn) (extra : ℕ) (rs : List Racer) (w : World)
      → length rs ≡ suc extra
      → all_pending rs ≡ 0
      → count_seats lic.id w.db ≤ to_nat lic.max_devices
      → count_seats lic.id (race lic schedule rs w).1.db ≤ to_nat lic.max_devices + extra
  race-bound schedule extra rs w len none_pending h =
      race_bounded schedule extra rs w len (omega arith)
