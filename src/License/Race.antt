-- ===== src/License/Race.antt =====
-- internal/license/service.go: activations that run at the same time. The server runs each request in
-- a goroutine of its own, and the database is one connection that each statement takes and gives
-- back, so the statements of several calls come in any order.
use seatkey.Store.Licenses.{revoke_license}
use seatkey.License.{add_seat, is_not_found}
use seatkey.Store.Devices.{deactivate_device, active_device_count, touch_device, get_active_device}
use seatkey.Store.Models.{Device, License}
use seatkey.Common.{zero, [], geb_ℤ, suc, ◌∷◌, if◌then◌else◌, List, String, ℕ}
pub mod Alone
pub mod Steps
pub mod Bound
pub mod Over
use seatkey.World.{device_limit, err, ok, Result, World}

-- Where a call stands between two statements of the `switch` of `activate`.
pub data Phase : Type 0 where
  looking : Phase
  touching : (id : ℕ) → Phase
  counting : Phase
  adding : Phase
  finished : Result (Unit {0}) → Phase

abbrev pub after_look : Result Device × World → Phase × World
after_look (ok dev, w) = (touching dev.id, w)
after_look (err e, w) = ((if is_not_found e then counting else finished (err e)), w)

abbrev pub after_count : License → Result ℕ × World → Phase × World
after_count lic (ok count, w) =
    ((if geb_ℤ count lic.max_devices then finished (err device_limit) else adding), w)
after_count lic (err e, w) = (finished (err e), w)

abbrev pub ended : Result (Unit {0}) × World → Phase × World
ended (r, w) = (finished r, w)

-- One statement of a call.
unfoldable pub advance : License → String → String → Phase → World → Phase × World
advance lic device_id device_name looking w = after_look (get_active_device lic.id device_id w)
advance lic device_id device_name (touching id) w = ended (touch_device id w)
advance lic device_id device_name counting w = after_count lic (active_device_count lic.id w)
advance lic device_id device_name adding w = ended (add_seat lic device_id device_name w)
advance lic device_id device_name (finished r) w = (finished r, w)

-- A call that is under way, for one of the devices of a license.
pub record Racer : Type 0 where
  pub device_id : String
  pub device_name : String
  pub phase : Phase

abbrev pub move : Racer → Phase × World → Racer × World
move r (p, w) = (record r { phase = p }, w)

-- The call at an index makes its next step.
unfoldable pub step : License → ℕ → List Racer → World → List Racer × World
step lic i [] w = ([], w)
step lic zero (r ∷ rs) w =
    let (r', w') = move r (advance lic r.device_id r.device_name r.phase w) in (r' ∷ rs, w')
step lic (suc i) (r ∷ rs) w = let (rs', w') = step lic i rs w in (r ∷ rs', w')

-- What happens next: a call makes its next step, or the statement of a deactivation or of a revocation
-- is run for a request of its own.
pub data Turn : Type 0 where
  moves : (i : ℕ) → Turn
  frees : (license_id device_id : String) → Turn
  revokes_license : (id : String) → Turn

unfoldable pub take_turn : License → Turn → List Racer → World → List Racer × World
take_turn lic (moves i) rs w = step lic i rs w
take_turn lic (frees license_id device_id) rs w = (rs, (deactivate_device license_id device_id w).1)
take_turn lic (revokes_license id) rs w = (rs, (revoke_license id w).1)

unfoldable pub race : License → List Turn → List Racer → World → List Racer × World
race lic [] rs w = (rs, w)
race lic (turn ∷ schedule) rs w =
    let (rs', w') = take_turn lic turn rs w in race lic schedule rs' w'
