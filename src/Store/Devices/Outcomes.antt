-- ===== src/Store/Devices/Outcomes.antt =====
-- internal/store/devices.go: what each operation guarantees of its result and of the tables.
use seatkey.Common.{
  ◌⊎◌, inl, inr, refl, false, ℕ, zero, suc, ◌≤◌, ◌≡◌, refl, Option, none, some, List, String, arith,
  nat_beq-suc_zero, nat_beq,
}
use seatkey.Common.Rows.{find_where, count_where, update_where, update_where-none}
use seatkey.Store.Models.{Device}
use seatkey.Store.Schema.{Db}
use seatkey.World.{Error, driver, World, not_found, Result, ok, err, exec, fail_if, pure, spend}
use seatkey.World.Rules.{
  only_driver, Same, bind_rule, Queried, query-Queried, Fetched, query_row-Fetched, Executed,
  exec-Executed,
}
use seatkey.Store.Devices.{
  has_license, is_active_device, is_device, count_seats, find_active, active_device_count,
  get_active_device, upsert_device, upserted, write_device, new_device, activate_device, write_seen,
  touch_device, free_seat, deactivate_device,
}

-- The tables with other device rows and another next id.
abbrev pub WithDevices : Db → List Device → Db → Type 0
WithDevices db devices db' =
    (next : ℕ) × (db' ≡ record db { devices = devices; next_device = next })

abbrev pub Counted : String → World → Result ℕ × World → Type 0
Counted license_id w = Queried w (count_seats license_id)

pub active_device_count-Counted :
    (license_id : String) (w : World) → Counted license_id w (active_device_count license_id w)
unfolding active_device_count
active_device_count-Counted license_id w = query-Queried (count_seats license_id) w

-- The active device, or none, or the driver's failure; nothing is changed.
abbrev pub Looked : String → String → World → Result Device × World → Type 0
Looked license_id device_id w = Fetched w (find_active license_id device_id)

pub get_active_device-Looked :
    (license_id device_id : String) (w : World)
    → Looked license_id device_id w (get_active_device license_id device_id w)
unfolding get_active_device
get_active_device-Looked license_id device_id w =
    query_row-Fetched (find_active license_id device_id) w

-- The device has its row, new or revived.
abbrev pub Activated : String → String → String → World → Result Device × World → Type 0
Activated license_id device_id device_name w (ok d, w') =
    (d.device_id ≡ device_id)
    × ((now : ℕ) × WithDevices w.db
          (upsert_device w.db.next_device (new_device license_id device_id device_name now)
            w.db.devices)
          w'.db)
    × (w'.notified ≡ w.notified)
Activated license_id device_id device_name w (err e, w') =
    ((e ≡ driver) ⊎ (has_license license_id w.db ≡ false)) × Same w w'

write_device-WithDevices :
    (d : Device) (o : Option Device) (db db' : Db) (id : ℕ)
    → upserted d o db ≡ ok (id, db')
    → WithDevices db (upsert_device db.next_device d db.devices) db'
write_device-WithDevices d (some old) db db' id e = (suc db.next_device, ground (arith, e))
write_device-WithDevices d none db db' id e = (suc db.next_device, ground (arith, e))

upserted-err :
    (d : Device) (o : Option Device) (db : Db) (e : Error)
    → upserted d o db ≡ err e
    → has_license d.license_id db ≡ false
upserted-err d (some old) db e h = cc
upserted-err d none db e h = ground arith

activate_error :
    (d : Device) (w : World) (e : Error)
    → (e ≡ driver) ⊎ (write_device d w.db ≡ err e)
    → (e ≡ driver) ⊎ (has_license d.license_id w.db ≡ false)
unfolding write_device
activate_error d w e (inl h) = inl h
activate_error d w e (inr h) =
    inr (upserted-err d (find_where (is_device d.license_id d.device_id) w.db.devices) w.db e h)

pub activate_device-Activated :
    (license_id device_id device_name : String) (w : World)
    → Activated license_id device_id device_name w
        (activate_device license_id device_id device_name w)
unfolding activate_device
activate_device-Activated license_id device_id device_name w =
    let now = w.outside.clock w.calls in
    let d = new_device license_id device_id device_name now in
    bind_rule (Executed (spend w) (write_device d)) (Activated license_id device_id device_name w)
      (exec (write_device d)) (λ id. pure (record d { id = id })) (spend w)
      (exec-Executed (write_device d) (spend w)) (λ e w' h. (activate_error d w e h.0, h.1))
      (λ id w' h. (
        refl,
        (
          now,
          write_device-WithDevices d (find_where (is_device license_id device_id) w.db.devices) w.db
              w'.db id h.0,
        ),
        h.1.1,
      ))

-- Only the instant of the last contact has changed.
abbrev pub Touched : ℕ → World → Result (Unit {0}) × World → Type 0
Touched id w (ok _, w') =
    ((now : ℕ) × (w'.db ≡ record w.db {
      devices =
          update_where (λ d. nat_beq d.id id) (λ d. record d { last_seen_at = now }) w.db.devices;
    }))
    × (w'.notified ≡ w.notified)
Touched id w (err e, w') = (e ≡ driver) × Same w w'

pub touch_device-Touched : (id : ℕ) (w : World) → Touched id w (touch_device id w)
unfolding touch_device
touch_device-Touched id w =
    go (touch_device id w) (exec-Executed (write_seen id (w.outside.clock w.calls)) (spend w))
  where
    go :
        (p : Result (Unit {0}) × World)
        → Executed (spend w) (write_seen id (w.outside.clock w.calls)) p
        → Touched id w p
    go (ok a, w') h = ((w.outside.clock w.calls, ground (arith, h.0)), h.1.1)
    go (err e, w') h = (only_driver h.0, h.1)

-- The seat is free; or no active device was there, or the driver failed, and nothing has changed.
abbrev pub Freed : String → String → World → Result (Unit {0}) × World → Type 0
Freed license_id device_id w (ok _, w') =
    (1 ≤ count_where (is_active_device license_id device_id) w.db.devices)
    × ((now : ℕ) × (w'.db ≡ record w.db {
      devices =
          update_where (is_active_device license_id device_id)
            (λ d. record d { deactivated_at = some now }) w.db.devices;
    }))
    × (w'.notified ≡ w.notified)
Freed license_id device_id w (err e, w') =
    (((e ≡ not_found) × (count_where (is_active_device license_id device_id) w.db.devices ≡ 0))
      ⊎ (e ≡ driver))
    × Same w w'

free_seat-Freed :
    (license_id device_id : String) (now n : ℕ) (w w' : World)
    → Executed w (free_seat license_id device_id now) (ok n, w')
    → Freed license_id device_id w (fail_if (nat_beq n 0) not_found (pure tt) w')
unfolding free_seat
free_seat-Freed license_id device_id now zero w w' h = (
  inl (refl, ground (arith, h.0)),
  (
    ground (
      arith,
      h.0,
      update_where-none (is_active_device license_id device_id)
          (λ (d : Device). record d { deactivated_at = some now }) w.db.devices,
    ),
    h.1.1,
    h.1.2,
  ),
)
free_seat-Freed license_id device_id now (suc n) w w' h =
    rw (nat_beq-suc_zero n) (ground (arith, h.0), (now, ground (arith, h.0)), h.1.1)

pub deactivate_device-Freed :
    (license_id device_id : String) (w : World)
    → Freed license_id device_id w (deactivate_device license_id device_id w)
unfolding deactivate_device
deactivate_device-Freed license_id device_id w =
    let now = w.outside.clock w.calls in
    let write = free_seat license_id device_id now in
    bind_rule (Executed (spend w) write) (Freed license_id device_id w) (exec write)
      (λ n. fail_if (nat_beq n 0) not_found (pure tt)) (spend w) (exec-Executed write (spend w))
      (λ e w' h. (inr (only_driver h.0), h.1))
      (λ n w' h. free_seat-Freed license_id device_id now n (spend w) w' h)
