-- ===== src/License/History.antt =====
-- internal/store and internal/license: any sequence of the calls that change products, licenses and
-- devices, with whatever the clock, the driver and the random source do meanwhile.
pub mod Limits
pub mod Revoked
pub mod Refinement
pub mod Undo
use seatkey.Common.{Bool, String, ◌≡◌, ◌≢◌, refl, List, [], ◌∷◌}
use seatkey.World.{World, ok, err}
use seatkey.Store.Valid.{IsValid, seating, seating-IsValid}
use seatkey.Store.Products.{create_product}
use seatkey.Store.Licenses.{CreateLicenseParams, create_license, revoke_license}
use seatkey.License.{Service, activate_with, validate, deactivate}

-- `Store.CreateProduct`, `Store.CreateLicense`, `Store.RevokeLicense`, `Service.Activate` and
-- `OfflineActivate`, `Service.Validate`, `Service.Deactivate`.
pub data Op : Type 0 where
  creates_product : (name : String) → Op
  creates_license : (p : CreateLicenseParams) → Op
  revokes : (id : String) → Op
  activates : (key device_id device_name : String) (offline : Bool) → Op
  validates : (key device_id : String) → Op
  deactivates : (key device_id : String) → Op

-- The world after a call; its result has gone to the caller.
unfoldable pub perform : Service → Op → World → World
perform s (creates_product name) w = (create_product name w).1
perform s (creates_license p) w = (create_license p w).1
perform s (revokes id) w = (revoke_license id w).1
perform s (activates key device_id device_name offline) w =
    (activate_with s key device_id device_name offline w).1
perform s (validates key device_id) w = (validate s key device_id w).1
perform s (deactivates key device_id) w = (deactivate key device_id w).1

unfoldable pub run : Service → List Op → World → World
run s [] w = w
run s (op ∷ ops) w = run s ops (perform s op w)
