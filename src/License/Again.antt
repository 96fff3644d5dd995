-- ===== src/License/Again.antt =====
-- internal/license/service.go: `Validate` returns a token when nothing stands in its way, as after an
-- activation.
use seatkey.License.Frame.{activate_with-Leaves}
use seatkey.Store.Devices.Frame.{catalog}
use seatkey.License.History.Undo.{find-catalog}
use seatkey.License.Outcome.{activate_with-Activation, Activation}
use seatkey.Common.Rows.{update_where}
use seatkey.Store.Valid.{IsValid}
use seatkey.Crypto.{Envelope}
use seatkey.World.{Result, ok, World}
use seatkey.Store.Devices.{find_active, write_seen, touch_device, get_active_device}
use seatkey.Store.Licenses.{find_license_by_key, get_license_by_key}
use seatkey.Store.Models.{active, license_status, Device, License}
use seatkey.Common.{◌∙◌, nat_beq, subst, false, some, ◌≡◌, suc, Bool, String}
use seatkey.License.{activate_with, validate, Service}
use seatkey.License.Live.{IsUp, Marshals, signed_token-live}

module _ (s : Service) (key device_id : String) where
  -- The driver answers, the license is active at the clock's reading after the lookup, the device holds a
  -- seat on it, and the token of that instant can be written.
  validate-live :
      (lic : License) (d : Device) (w : World)
      → IsUp w
      → Marshals s lic device_id (w.outside.clock (suc w.calls)) false
      → find_license_by_key key w.db ≡ some lic
      → license_status lic (w.outside.clock (suc w.calls)) ≡ active
      → find_active lic.id device_id w.db ≡ some d
      → (env : Envelope) × ((validate s key device_id w).0 ≡ ok env)
  unfolding validate get_license_by_key get_active_device touch_device write_seen
  validate-live lic d w up total found live held =
      rw (up w.calls, found, live, up (suc (suc w.calls)), held, up (suc (suc (suc (suc w.calls)))))
        (signed_token-live s lic device_id (w.outside.clock (suc w.calls)) false
          (record w {
            calls = suc (suc (suc (suc (suc w.calls))));
            db = record w.db {
              devices =
                  update_where (λ x. nat_beq x.id d.id)
                    (λ x. record x { last_seen_at = w.outside.clock (suc (suc (suc w.calls))) })
                    w.db.devices;
            };
          })
          total up)

  -- An activation, online or offline, on valid tables has succeeded. If the license is still active at
  -- the reading of the clock that a validation makes in the world that this left, the driver answers
  -- and the token of that instant can be written as JSON, then the validation returns an envelope.
  pub validate-activate_with :
      (device_name : String) (offline : Bool) (lic : License) (w w1 : World) (env : Envelope)
      → IsValid w.db
      → find_license_by_key key w.db ≡ some lic
      → activate_with s key device_id device_name offline w ≡ (ok env, w1)
      → license_status lic (w1.outside.clock (suc w1.calls)) ≡ active
      → IsUp w1
      → Marshals s lic device_id (w1.outside.clock (suc w1.calls)) false
      → (env' : Envelope) × ((validate s key device_id w1).0 ≡ ok env')
  validate-activate_with device_name offline lic w w1 env v found act live up total =
      let (v1, (lic1, found1, live1, signed, limit, (d, held), how)) =
        subst (Activation key device_id s offline (w.outside.clock (suc w.calls)) w) act
          (activate_with-Activation key device_id s offline device_name w v) in
      let same : lic1 ≡ lic = cc in
      let kept : find_license_by_key key w1.db ≡ find_license_by_key key w.db =
        find-catalog key w.db w1.db (
          subst (λ (p : Result Envelope × World). catalog p.1.db ≡ catalog w.db) act
            (activate_with-Leaves s key device_id device_name offline w)) in
      validate-live lic d w1 up total (kept ∙ found) live
        (subst (λ (l : License). find_active l.id device_id w1.db ≡ some d) same held)
