-- ===== src/Store/Devices.antt =====
-- internal/store/devices.go: who holds a seat on a license.
pub mod Outcomes
pub mod Distinct
pub mod Frame
pub mod Seats
pub mod Limits
pub mod Bag
use seatkey.Common.{
  ℕ, suc, Bool, Option, none, some, List, [], ◌∷◌, String, nat_beq, is_none, not, if◌then◌else◌,
  ◌==◌, ◌&&◌,
}
use seatkey.Common.Rows.{find_where, count_where, select_where, update_where, order_by_desc}
use seatkey.Store.Models.{Device}
use seatkey.Store.Schema.{Db}
use seatkey.World.{
  Call, Result, ok, err, constraint, not_found, pure, fail_if, query, exec, query_row, time_now,
  ◌>>=◌,
}

-- `license_id = ? AND deactivated_at IS NULL`.
abbrev pub holds_seat : String → Device → Bool
holds_seat license_id d = d.license_id == license_id && is_none d.deactivated_at

-- `license_id = ? AND device_id = ?`, the columns of the UNIQUE constraint.
abbrev pub is_device : String → String → Device → Bool
is_device license_id device_id d = d.license_id == license_id && d.device_id == device_id

abbrev pub is_active_device : String → String → Device → Bool
is_active_device license_id device_id d =
    is_device license_id device_id d && is_none d.deactivated_at

abbrev pub count_seats : String → Db → ℕ
count_seats license_id db = count_where (holds_seat license_id) db.devices

abbrev pub find_active : String → String → Db → Option Device
find_active license_id device_id db = find_where (is_active_device license_id device_id) db.devices

unfoldable pub active_device_count : String → Call ℕ
active_device_count license_id = query (count_seats license_id)

unfoldable pub get_active_device : String → String → Call Device
get_active_device license_id device_id = query_row (find_active license_id device_id)

-- DO UPDATE SET … = excluded.…, deactivated_at = NULL.
abbrev pub revive : Device → Device → Device
revive d old = record old {
  device_name = d.device_name;
  activated_at = d.activated_at;
  last_seen_at = d.last_seen_at;
  deactivated_at = none;
}

-- INSERT … ON CONFLICT(license_id, device_id) DO UPDATE …: the row that the constraint finds is
-- revived under its own id, and otherwise a new row is added under the id `fresh`.
unfoldable pub upsert_device : ℕ → Device → List Device → List Device
upsert_device fresh d [] = record d { id = fresh } ∷ []
upsert_device fresh d (x ∷ rest) =
    if is_device d.license_id d.device_id x
    then revive d x ∷ rest
    else x ∷ upsert_device fresh d rest

abbrev pub has_license : String → Db → Bool
has_license id db = not (is_none (find_where (λ l. l.id == id) db.licenses))

-- RETURNING id. SQLite draws the next id of an AUTOINCREMENT column before it finds the conflict, so that
-- the row that was revived uses one up too.
abbrev pub upserted : Device → Option Device → Db → Result (ℕ × Db)
upserted d (some old) db = ok (
  old.id,
  record db {
    devices = upsert_device db.next_device d db.devices;
    next_device = suc db.next_device;
  },
)
upserted d none db =
    if db.foreign_keys && not (has_license d.license_id db)
    then err (constraint "devices.license_id")
    else ok (
      db.next_device,
      record db {
        devices = upsert_device db.next_device d db.devices;
        next_device = suc db.next_device;
      },
    )

unfoldable pub write_device : Device → Db → Result (ℕ × Db)
write_device d db = upserted d (find_where (is_device d.license_id d.device_id) db.devices) db

-- The row of `ActivateDevice` before the database has given it its id.
abbrev pub new_device : String → String → String → ℕ → Device
new_device license_id device_id device_name now = record {
  id = 0;
  license_id = license_id;
  device_id = device_id;
  device_name = device_name;
  activated_at = now;
  last_seen_at = now;
  deactivated_at = none;
}

unfoldable pub activate_device : String → String → String → Call Device
unfolding write_device
activate_device license_id device_id device_name = do
  now ← time_now
  let d : Device = new_device license_id device_id device_name now
  id ← exec (write_device d)
  pure (record d { id = id })

unfoldable pub write_seen : ℕ → ℕ → Db → Result (Unit {0} × Db)
write_seen id now db = ok (
  tt,
  record db {
    devices = update_where (λ d. nat_beq d.id id) (λ d. record d { last_seen_at = now }) db.devices;
  },
)

unfoldable pub touch_device : ℕ → Call (Unit {0})
unfolding write_seen
touch_device id = do now ← time_now; exec (write_seen id now)

-- The number of rows affected, and the tables.
pub free_seat : String → String → ℕ → Db → Result (ℕ × Db)
free_seat license_id device_id now db = ok (
  count_where (is_active_device license_id device_id) db.devices,
  record db {
    devices =
        update_where (is_active_device license_id device_id)
          (λ d. record d { deactivated_at = some now }) db.devices;
  },
)

unfoldable pub deactivate_device : String → String → Call (Unit {0})
unfolding free_seat
deactivate_device license_id device_id = do
  now ← time_now
  n ← exec (free_seat license_id device_id now)
  fail_if (nat_beq n 0) not_found (pure tt)

unfoldable pub list_devices : String → Call (List Device)
list_devices license_id = query (λ db.
    order_by_desc (λ d. d.activated_at) (select_where (λ d. d.license_id == license_id) db.devices))
