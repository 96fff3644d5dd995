-- ===== src/Store/Devices/Frame.antt =====
-- internal/store/devices.go: no statement on devices touches the products or the licenses.
use seatkey.Common.Rows.{find_where}
use seatkey.Store.Models.{Product, Device}
use seatkey.Store.Schema.{LicenseRow, Db}
use seatkey.Common.{nat_beq, arith, List, Option, String, ℕ, ◌≡◌, refl, some, none}
use seatkey.World.{spend, fail_if, pure, exec, ok, not_found}
use seatkey.World.Leaves.{Leaves, Leaves-bind, Leaves-query_row, Leaves-exec}
use seatkey.Store.Devices.{
  is_device, free_seat, write_seen, find_active, new_device, activate_device, write_device,
  upserted, touch_device, deactivate_device, get_active_device, active_device_count,
}

abbrev pub catalog : Db → List Product × List LicenseRow
catalog db = (db.products, db.licenses)

upserted-catalog :
    (d : Device) (o : Option Device) (db db' : Db) (id : ℕ)
    → upserted d o db ≡ ok (id, db')
    → catalog db' ≡ catalog db
upserted-catalog d (some old) db db' id e = ground (arith, e)
upserted-catalog d none db db' id e = ground (arith, e)

pub active_device_count-Leaves :
    (license_id : String) → Leaves catalog (active_device_count license_id)
unfolding active_device_count
active_device_count-Leaves license_id w = refl

pub get_active_device-Leaves :
    (license_id device_id : String) → Leaves catalog (get_active_device license_id device_id)
unfolding get_active_device
get_active_device-Leaves license_id device_id =
    Leaves-query_row catalog (find_active license_id device_id)

pub activate_device-Leaves :
    (license_id device_id device_name : String)
    → Leaves catalog (activate_device license_id device_id device_name)
unfolding activate_device
activate_device-Leaves license_id device_id device_name w =
    let d = new_device license_id device_id device_name (w.outside.clock w.calls) in
    Leaves-bind catalog (exec (write_device d)) (λ id. pure (record d { id = id }))
      (Leaves-exec catalog (write_device d) (λ db db' id e.
        upserted-catalog d (find_where (is_device license_id device_id) db.devices) db db' id e))
      (λ id w'. refl) (spend w)

pub touch_device-Leaves : (id : ℕ) → Leaves catalog (touch_device id)
unfolding touch_device
touch_device-Leaves id w =
    Leaves-exec catalog (write_seen id (w.outside.clock w.calls)) (λ db db' u e. ground (arith, e))
      (spend w)

pub deactivate_device-Leaves :
    (license_id device_id : String) → Leaves catalog (deactivate_device license_id device_id)
unfolding deactivate_device
deactivate_device-Leaves license_id device_id w =
    let write = free_seat license_id device_id (w.outside.clock w.calls) in
    Leaves-bind catalog (exec write) (λ n. fail_if (nat_beq n 0) not_found (pure tt))
      (Leaves-exec catalog write (λ db db' n e. ground (arith, e))) (λ n w'. ground (arith))
      (spend w)
