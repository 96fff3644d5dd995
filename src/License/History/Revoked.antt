-- ===== src/License/History/Revoked.antt =====
-- internal/license: a license that is revoked stays so, and no token is signed for it again.
use seatkey.License.Frame.{deactivate-Leaves, validate-Leaves, activate_with-Leaves}
use seatkey.License.History.Limits.{run-IsValid}
use seatkey.Store.Products.Frame.{create_product-Leaves}
use seatkey.Store.Licenses.Lookup.{license_select-key}
use seatkey.Store.Schema.{LicenseRow}
use seatkey.Store.Valid.{IsValid}
use seatkey.Store.Licenses.Insert.{insert_license-ok}
use seatkey.Store.Licenses.Create.{create_license-Created, Created}
use seatkey.Crypto.{Envelope}
use seatkey.Store.Licenses.{
  revoke_license, create_license, find_license_by_key, new_row, CreateLicenseParams,
}
use seatkey.Store.Licenses.Revoke.{
  revoke_license-Revoked, append-RevokedKey, revoke-RevokedKey, Revoked, RevokedKey,
}
use seatkey.Store.Devices.Frame.{catalog}
use seatkey.License.{deactivate, validate, activate_with, Service}
use seatkey.Common.{arith, ap, List, Bool, subst, ℕ, String, ◌≡◌, ◌≢◌, sym, [], ◌∷◌, some}
use seatkey.World.{World, Result, ok, err}
use seatkey.Store.Models.{Device, Product, License, license_status, revoked}
use seatkey.License.Outcome.{Activation, activate_with-Activation}
use seatkey.License.Renewal.{Renewal, validate-Renewal}
use seatkey.License.History.{
  Op, creates_product, creates_license, revokes, activates, validates, deactivates, perform, run,
}

abbrev pub IsDead : String → World → Type 0
IsDead key w = RevokedKey key w.db.licenses

-- A call that leaves the catalog alone.
catalog-IsDead :
    (key : String) (w w' : World) → catalog w'.db ≡ catalog w.db → IsDead key w → IsDead key w'
catalog-IsDead key w w' e dead =
    subst (RevokedKey key) (ap (λ (p : List Product × List LicenseRow). p.1) (sym e)) dead

Created-IsDead :
    (key : String) (p : CreateLicenseParams) (w : World) (r : Result License × World)
    → IsDead key w
    → Created p w r
    → IsDead key r.1
Created-IsDead key p w (ok l, w') dead (k, id, now, same, inserted, made, quiet) =
    let (new_id, new_key, wrote) = insert_license-ok (new_row p k id now) w.db w'.db inserted in
    rw wrote (append-RevokedKey key w.db.licenses (new_row p k id now) dead)
Created-IsDead key p w (err e, w') dead same = rw same.0 dead

Revoked-IsDead :
    (key id : String) (w : World) (r : Result (Unit {0}) × World)
    → IsDead key w
    → Revoked id w r
    → IsDead key r.1
Revoked-IsDead key id w (ok u, w') dead ((now, wrote), marked, quiet) =
    rw wrote (revoke-RevokedKey key id now w.db.licenses dead)
Revoked-IsDead key id w (err e, w') dead (same, why) = rw same.0 dead

perform-IsDead :
    (key : String) (s : Service) (op : Op) (w : World) → IsDead key w → IsDead key (perform s op w)
unfolding perform
perform-IsDead key s (creates_product name) w dead =
    subst (RevokedKey key)
      (ap (λ (p : List LicenseRow × List Device). p.0) (sym (create_product-Leaves name w))) dead
perform-IsDead key s (creates_license p) w dead =
    Created-IsDead key p w (create_license p w) dead (create_license-Created p w)
perform-IsDead key s (revokes id) w dead =
    Revoked-IsDead key id w (revoke_license id w) dead (revoke_license-Revoked id w)
perform-IsDead key s (activates k device_id device_name offline) w dead =
    catalog-IsDead key w (activate_with s k device_id device_name offline w).1
      (activate_with-Leaves s k device_id device_name offline w) dead
perform-IsDead key s (validates k device_id) w dead =
    catalog-IsDead key w (validate s k device_id w).1 (validate-Leaves s k device_id w) dead
perform-IsDead key s (deactivates k device_id) w dead =
    catalog-IsDead key w (deactivate k device_id w).1 (deactivate-Leaves k device_id w) dead

run-IsDead :
    (key : String) (s : Service) (ops : List Op) (w : World)
    → IsDead key w
    → IsDead key (run s ops w)
unfolding run
run-IsDead key s [] w dead = dead
run-IsDead key s (op ∷ ops) w dead =
    run-IsDead key s ops (perform s op w) (perform-IsDead key s op w dead)

-- A license that the key of a revoked row finds is revoked at every instant.
dead-license_status :
    (key : String) (w : World) (l : License) (now : ℕ)
    → IsValid w.db
    → IsDead key w
    → find_license_by_key key w.db ≡ some l
    → license_status l now ≡ revoked
unfolding license_status
dead-license_status key w l now v (r, found, h) e =
    let (r', found', (name, same)) =
      license_select-key key w.db.products w.db.licenses l v.keys e in
    rw same (ground (arith, found, found', h))

-- No token comes of a revoked license.
no_grant :
    (key device_id : String) (s : Service) (offline : Bool) (now : ℕ) (w : World)
    (r : Result Envelope × World) (env : Envelope)
    → IsValid w.db
    → IsDead key w
    → Activation key device_id s offline now w r
    → r.0 ≢ ok env
no_grant key device_id s offline now w (ok env', w') env v dead
      (v', (lic, found, live, signed, limit, held, how)) e =
    cc (dead-license_status key w lic now v dead found)
no_grant key device_id s offline now w (err x, w') env v dead h e = cc

no_token :
    (key device_id : String) (s : Service) (now : ℕ) (w : World) (r : Result Envelope × World)
    (env : Envelope)
    → IsValid w.db
    → IsDead key w
    → Renewal key device_id s now w r
    → r.0 ≢ ok env
no_token key device_id s now w (ok env', w') env v dead (lic, found, live, signed, fresh) e =
    cc (dead-license_status key w lic now v dead found)
no_token key device_id s now w (err x, w') env v dead h e = cc

-- Once the row of a key is revoked, no activation, online or offline, and no validation returns a
-- token for the key, after any history of further calls.
pub revoked_for_good :
    (key device_id device_name : String) (s : Service) (ops : List Op) (w : World) (env : Envelope)
    → IsValid w.db
    → RevokedKey key w.db.licenses
    → ((offline : Bool)
        → (activate_with s key device_id device_name offline (run s ops w)).0 ≢ ok env)
      × ((validate s key device_id (run s ops w)).0 ≢ ok env)
revoked_for_good key device_id device_name s ops w env v dead =
    let later = run s ops w in
    let v' = run-IsValid s ops w v in
    let dead' = run-IsDead key s ops w dead in
    (
      λ offline.
          no_grant key device_id s offline _ later _ env v' dead'
            (activate_with-Activation key device_id s offline device_name later v'),
      no_token key device_id s _ later _ env v' dead' (validate-Renewal key device_id s later v'),
    )
