-- ===== src/License/History/Undo.antt =====
-- internal/license: `activate` and `Deactivate` one after the other.
use seatkey.License.Seats.{deactivate-seats, DeactivateSeats, activate_with-seats, ActivateSeats}
use seatkey.License.Frame.{activate_with-Leaves}
use seatkey.License.Outcome.{activate_with-Activation, Activation}
use seatkey.Store.Devices.Bag.{remove-put, occupy-free, occupy, remove, seats, held}
use seatkey.Store.Valid.{IsValid}
use seatkey.Common.Rows.{find_where}
use seatkey.Store.Models.{License}
use seatkey.Store.Licenses.{license_select, find_license_by_key}
use seatkey.Crypto.{Envelope}
use seatkey.Store.Devices.Frame.{catalog}
use seatkey.World.{Result, ok, World}
use seatkey.Store.Schema.{Db}
use seatkey.License.{deactivate, activate_with, Service}
use seatkey.Common.{suc, sym, ◌∙◌, subst, ◌==◌, some, ap, Bool, String, ◌≡◌}

pub find-catalog :
    (key : String) (db db' : Db)
    → catalog db' ≡ catalog db
    → find_license_by_key key db' ≡ find_license_by_key key db
find-catalog key db db' e = ap (λ x. find_where (λ l. l.key == key) (license_select x.0 x.1)) e

module _ (s : Service) (key device_id device_name : String) (offline : Bool) where
  -- A device that holds no seat on the license activates, and is deactivated in the world that the
  -- activation left: if both calls succeed, the seats are as they were.
  pub deactivate-activate :
      (w w1 w2 : World) (env : Envelope) (lic : License)
      → IsValid w.db
      → find_license_by_key key w.db ≡ some lic
      → held lic.id device_id (seats w.db) ≡ 0
      → activate_with s key device_id device_name offline w ≡ (ok env, w1)
      → deactivate key device_id w1 ≡ (ok tt, w2)
      → seats w2.db ≡ seats w.db
  deactivate-activate w w1 w2 env lic v found free act deact =
      let (lic1, found1, filled) =
        subst (ActivateSeats key device_id s device_name offline w) act
          (activate_with-seats key device_id s device_name offline w v) in
      let (lic2, found2, once, emptied) =
        subst (DeactivateSeats key device_id w1) deact (deactivate-seats key device_id w1 valid) in
      let same1 : lic1 ≡ lic = cc in
      let same2 : lic2 ≡ lic = cc (sym found2 ∙ kept ∙ found) in
      emptied
      ∙ ap (λ (l : License). remove l.id device_id (seats w1.db)) same2
      ∙ ap (remove lic.id device_id) (
          filled
          ∙ ap (λ (l : License). occupy l.id device_id (seats w.db)) same1
          ∙ occupy-free lic.id device_id (seats w.db) free)
      ∙ remove-put lic.id device_id (seats w.db) free
    where
      valid : IsValid w1.db
      valid =
          (subst (Activation key device_id s offline (w.outside.clock (suc w.calls)) w) act
            (activate_with-Activation key device_id s offline device_name w v)).0

      kept : find_license_by_key key w1.db ≡ find_license_by_key key w.db
      kept = find-catalog key w.db w1.db (
          subst (λ (p : Result Envelope × World). catalog p.1.db ≡ catalog w.db) act
            (activate_with-Leaves s key device_id device_name offline w))
