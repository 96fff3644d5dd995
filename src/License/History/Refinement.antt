-- ===== src/License/History/Refinement.antt =====
-- internal/store and internal/license: each call of a history, as a step on the bag of seats.
use seatkey.Store.Products.Frame.{create_product-Leaves}
use seatkey.Store.Products.{create_product}
use seatkey.Store.Licenses.Create.{create_license-Created, Created}
use seatkey.License.Seats.{
  deactivate-seats, validate-seats, activate_with-seats, ActivateSeats, DeactivateSeats,
}
use seatkey.Store.Licenses.Revoke.{revoke_license-Revoked, Revoked}
use seatkey.Store.Models.{License}
use seatkey.Store.Valid.{IsValid}
use seatkey.Store.Schema.{Db, LicenseRow}
use seatkey.World.{err, ok, Result, World}
use seatkey.Store.Devices.Bag.{seats-devices, seats}
use seatkey.License.{deactivate, activate_with, Service}
use seatkey.License.History.{
  validates, revokes, creates_license, deactivates, creates_product, activates, Op, perform,
}
use seatkey.Store.Licenses.{
  revoke_license, create_license, new_row, insert_license, CreateLicenseParams,
}
use seatkey.Common.{arith, ap, String, ◌≡◌, refl}

-- What the contract of a call allows it to do to the seats, by its result: a success does what was asked
-- for, to the license of the key that was given.
abbrev pub SeatStep : Service → Op → World → Type 0
SeatStep s (activates key device_id device_name offline) w =
    ActivateSeats key device_id s device_name offline w
      (activate_with s key device_id device_name offline w)
SeatStep s (deactivates key device_id) w =
    DeactivateSeats key device_id w (deactivate key device_id w)
SeatStep s op w = seats (perform s op w).db ≡ seats w.db

insert_license-seats :
    (l : LicenseRow) (db db' : Db) → insert_license l db ≡ ok (tt, db') → seats db' ≡ seats db
unfolding insert_license
insert_license-seats l db db' e = seats-devices db db' (ground (arith, e))

Created-seats :
    (p : CreateLicenseParams) (w : World) (r : Result License × World)
    → Created p w r
    → seats r.1.db ≡ seats w.db
Created-seats p w (ok l, w') (key, id, now, same, inserted, made, quiet) =
    insert_license-seats (new_row p key id now) w.db w'.db inserted
Created-seats p w (err e, w') same = ap seats same.0

Revoked-seats :
    (id : String) (w : World) (r : Result (Unit {0}) × World)
    → Revoked id w r
    → seats r.1.db ≡ seats w.db
unfolding seats
Revoked-seats id w (ok u, w') ((now, wrote), marked, quiet) = rw wrote refl
Revoked-seats id w (err e, w') (same, why) = rw same.0 refl

-- On valid tables, each of the six calls that change products, licenses and devices refines the
-- contract on the bag of seats, with whatever the clock, the driver and the random source do. An
-- activation that succeeds has put the device in if it held no seat, and left the bag alone if it held
-- one; one that fails has done that or nothing. A deactivation that succeeds has taken out the device,
-- which held one seat; one that fails has done nothing. No other call changes the bag.
pub perform-SeatStep : (s : Service) (op : Op) (w : World) → IsValid w.db → SeatStep s op w
unfolding perform
perform-SeatStep s (creates_product name) w v =
    seats-devices w.db (create_product name w).1.db (ap (λ x. x.1) (create_product-Leaves name w))
perform-SeatStep s (creates_license p) w v =
    Created-seats p w (create_license p w) (create_license-Created p w)
perform-SeatStep s (revokes id) w v =
    Revoked-seats id w (revoke_license id w) (revoke_license-Revoked id w)
perform-SeatStep s (activates key device_id device_name offline) w v =
    activate_with-seats key device_id s device_name offline w v
perform-SeatStep s (validates key device_id) w v = validate-seats key device_id s w v
perform-SeatStep s (deactivates key device_id) w v = deactivate-seats key device_id w v
