-- ===== src/License/History/Limits.antt =====
-- internal/license: no history of calls, each run to its end before the next, breaks a seat limit.
use seatkey.Store.Open.{open_db}
use seatkey.Store.Products.Frame.{create_product-Leaves}
use seatkey.Store.Products.{create_product}
use seatkey.Store.Schema.{empty_db}
use seatkey.World
use seatkey.Store.Licenses.Insert.{insert_license-IsValid}
use seatkey.Crypto.{Envelope}
use seatkey.Store.Licenses.Create.{create_license-Created, Created}
use seatkey.Store.Licenses.Revoke.{revoke_license-Revoked, revoke-IsValid, Revoked}
use seatkey.Store.Valid.{seating-IsValid, IsValid}
use seatkey.Store.Models.{License}
use seatkey.License.{deactivate, validate, activate_with, Service}
use seatkey.Store.Licenses.{revoke_license, create_license, new_row, CreateLicenseParams}
use seatkey.Common.{suc, ℕ, ◌==◌, not, none, arith, List, Bool, String, inl, inr, [], ◌∷◌}
use seatkey.World.{Outside, marshal, not_found, Error, World, Result, ok, err, driver}
use seatkey.License.Outcome.{Activation, activate_with-Activation}
use seatkey.License.Renewal.{NotRenewed, Renewal, validate-Renewal}
use seatkey.License.Release.{Release, deactivate-Release}
use seatkey.License.History.{
  Op, creates_product, creates_license, revokes, activates, validates, deactivates, perform, run,
}

Created-IsValid :
    (p : CreateLicenseParams) (w : World) (r : Result License × World)
    → IsValid w.db
    → Created p w r
    → IsValid r.1.db
Created-IsValid p w (ok l, w') v (key, id, now, same, inserted, made, quiet) =
    insert_license-IsValid (new_row p key id now) w.db w'.db v inserted
Created-IsValid p w (err e, w') v same = rw same.0 v

Revoked-IsValid :
    (id : String) (w : World) (r : Result (Unit {0}) × World)
    → IsValid w.db
    → Revoked id w r
    → IsValid r.1.db
Revoked-IsValid id w (ok u, w') v ((now, wrote), marked, quiet) =
    rw wrote (revoke-IsValid id now w.db v)
Revoked-IsValid id w (err e, w') v (same, why) = rw same.0 v

Activation-IsValid :
    (key device_id : String) (s : Service) (offline : Bool) (now : ℕ) (w : World)
    (r : Result Envelope × World)
    → Activation key device_id s offline now w r
    → IsValid r.1.db
Activation-IsValid key device_id s offline now w (ok env, w') h = h.0
Activation-IsValid key device_id s offline now w (err e, w') h = h.0

Release-IsValid :
    (key device_id : String) (w : World) (r : Result (Unit {0}) × World)
    → IsValid w.db
    → Release key device_id w r
    → IsValid r.1.db
Release-IsValid key device_id w (ok u, w') v h = h.0
Release-IsValid key device_id w (err e, w') v (same, why) = rw same.0 v

NotRenewed-IsValid :
    (key device_id : String) (now : ℕ) (w w' : World) (e : Error)
    → IsValid w.db
    → NotRenewed key device_id now w e w'
    → IsValid w'.db
NotRenewed-IsValid key device_id now w w' not_found v h = rw h.0.0 v
NotRenewed-IsValid key device_id now w w' (World.Error.license_status st) v h = rw h.0.0 v
NotRenewed-IsValid key device_id now w w' driver v (inl same) = rw same.0 v
NotRenewed-IsValid key device_id now w w' driver v (inr (lic, found, fresh)) = fresh.0
NotRenewed-IsValid key device_id now w w' marshal v (lic, found, fresh) = fresh.0
NotRenewed-IsValid key device_id now w w' e v h = absurd h

Renewal-IsValid :
    (key device_id : String) (s : Service) (now : ℕ) (w : World) (r : Result Envelope × World)
    → IsValid w.db
    → Renewal key device_id s now w r
    → IsValid r.1.db
Renewal-IsValid key device_id s now w (ok env, w') v (lic, found, live, signed, fresh) = fresh.0
Renewal-IsValid key device_id s now w (err e, w') v h =
    NotRenewed-IsValid key device_id now w w' e v h

perform-IsValid : (s : Service) (op : Op) (w : World) → IsValid w.db → IsValid (perform s op w).db
unfolding perform
perform-IsValid s (creates_product name) w v =
    seating-IsValid w.db (create_product name w).1.db (create_product-Leaves name w) v
perform-IsValid s (creates_license p) w v =
    Created-IsValid p w (create_license p w) v (create_license-Created p w)
perform-IsValid s (revokes id) w v =
    Revoked-IsValid id w (revoke_license id w) v (revoke_license-Revoked id w)
perform-IsValid s (activates key device_id device_name offline) w v =
    Activation-IsValid key device_id s offline (w.outside.clock (suc w.calls)) w
      (activate_with s key device_id device_name offline w)
      (activate_with-Activation key device_id s offline device_name w v)
perform-IsValid s (validates key device_id) w v =
    Renewal-IsValid key device_id s (w.outside.clock (suc w.calls)) w (validate s key device_id w) v
      (validate-Renewal key device_id s w v)
perform-IsValid s (deactivates key device_id) w v =
    Release-IsValid key device_id w (deactivate key device_id w) v
      (deactivate-Release key device_id w v)

pub run-IsValid :
    (s : Service) (ops : List Op) (w : World) → IsValid w.db → IsValid (run s ops w).db
unfolding run
run-IsValid s [] w v = v
run-IsValid s (op ∷ ops) w v = run-IsValid s ops (perform s op w) (perform-IsValid s op w v)

empty_db-IsValid : (foreign_keys : Bool) → IsValid (empty_db foreign_keys)
empty_db-IsValid foreign_keys = record {
  ids = tt;
  keys = tt;
  rows = tt;
  limits = λ id. omega arith;
}

-- A process that has just opened a database without a file.
abbrev pub started : String → Outside → World
started path outside = record {
  outside = outside;
  calls = 0;
  db = open_db path none;
  notified = [];
}

-- After any history from an empty database no license has more seats in use than it allows, ids and
-- keys are distinct, and a device has one row for a license. Nothing is assumed of the clock, the
-- driver and the random source.
pub history-IsValid :
    (s : Service) (ops : List Op) (path : String) (outside : Outside)
    → IsValid (run s ops (started path outside)).db
unfolding open_db
history-IsValid s ops path outside =
    run-IsValid s ops (started path outside) (empty_db-IsValid (not (path == ":memory:")))
