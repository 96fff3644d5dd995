-- ===== src/Store/Devices/Limits.antt =====
-- internal/store/devices.go: the statements on devices keep every license within its seats, where
-- `activate_device` is called as its comment asks: after a check of the count.
use seatkey.Store.Devices.Distinct.{update_where-DistinctDevices, upsert-DistinctDevices}
use seatkey.Common.{
  ℕ, ◌≤◌, ◌<◌, ◌≡◌, refl, sym, ap, inl, inr, none, some, List, String, arith, to_nat, eq_iff, ◌==◌,
  Bool-cases, nat_beq,
}
use seatkey.Common.Rows.{find_where, count_where, update_where}
use seatkey.Store.Models.{Device, License}
use seatkey.Store.Schema.{Db, LicenseRow}
use seatkey.Store.Devices.{
  holds_seat, count_seats, find_active, is_active_device, new_device, upsert_device,
}
use seatkey.Store.Devices.Outcomes.{WithDevices}
use seatkey.Store.Devices.Seats.{
  count_seats-upsert_self, count_seats-upsert_ne, count_seats-touch, count_seats-free-le,
}
use seatkey.Store.Valid.{DistinctDevices, IsValid, IsRow, allowance}

-- The row of a license allows what the license says.
pub allowance-IsRow :
    (ls : List LicenseRow) (l : License)
    → IsRow ls l
    → allowance (find_where (λ x. x.id == l.id) ls) ≡ to_nat l.max_devices
allowance-IsRow ls l (r, found, (name, same)) =
    rw found (ap (λ (x : License). to_nat x.max_devices) (sym same))

module _ (db : Db) (v : IsValid db) where
  -- The tables with other devices are valid if no license has come to exceed its seats.
  devices-IsValid :
      (devices : List Device) (next : ℕ)
      → ((id : String)
          → count_where (holds_seat id) devices
            ≤ allowance (find_where (λ x. x.id == id) db.licenses))
      → DistinctDevices devices
      → IsValid (record db { devices = devices; next_device = next })
  devices-IsValid devices next h rows = record {
    ids = v.ids;
    keys = v.keys;
    rows = rows;
    limits = h;
  }

  pub upsert-IsValid :
      (lic : License) (device_id device_name : String) (now : ℕ) (db' : Db)
      → IsRow db.licenses lic
      → find_active lic.id device_id db ≡ none
      → count_seats lic.id db < to_nat lic.max_devices
      → WithDevices db
          (upsert_device db.next_device (new_device lic.id device_id device_name now) db.devices)
          db'
      → IsValid db'
  upsert-IsValid lic device_id device_name now db' row free room (next, same) =
      rw same
        (devices-IsValid _ next limit (upsert-DistinctDevices db.next_device d db.devices v.rows))
    where
      d : Device
      d = new_device lic.id device_id device_name now

      limit :
          (id : String)
          → count_where (holds_seat id) (upsert_device db.next_device d db.devices)
            ≤ allowance (find_where (λ x. x.id == id) db.licenses)
      limit id = elim (Bool-cases (id == lic.id)) [
        | inl hit ↦ rw ((eq_iff id lic.id).0 hit) (
            omega (
              arith,
              allowance-IsRow db.licenses lic row,
              count_seats-upsert_self db.next_device d db.devices refl free,
            ))
        | inr miss ↦ omega (
          arith,
          v.limits id,
          count_seats-upsert_ne id db.next_device d db.devices
              (λ e. ground (arith, miss, eq_iff id lic.id)),
        )
      ]

  pub touch-IsValid :
      (id now : ℕ)
      → IsValid (record db {
        devices =
            update_where (λ d. nat_beq d.id id) (λ d. record d { last_seen_at = now }) db.devices;
      })
  touch-IsValid id now =
      devices-IsValid _ db.next_device
        (λ license_id.
          omega (arith, v.limits license_id, count_seats-touch license_id id now db.devices))
        (update_where-DistinctDevices (λ d. nat_beq d.id id) (λ d. record d { last_seen_at = now })
          db.devices (λ d. (refl, refl)) v.rows)

  pub free-IsValid :
      (license_id device_id : String) (now : ℕ)
      → IsValid (record db {
        devices =
            update_where
              (is_active_device license_id device_id)
              (λ d. record d { deactivated_at = some now })
              db.devices;
      })
  free-IsValid license_id device_id now =
      devices-IsValid _ db.next_device
        (λ id.
          omega (arith, v.limits id, count_seats-free-le id license_id device_id now db.devices))
        (update_where-DistinctDevices (is_active_device license_id device_id)
          (λ d. record d { deactivated_at = some now }) db.devices (λ d. (refl, refl)) v.rows)
