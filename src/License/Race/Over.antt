-- ===== src/License/Race/Over.antt =====
-- internal/license/service.go: two activations that count before either adds.
use seatkey.Store.Devices.Seats.{count_seats-upsert_self}
use seatkey.Store.Schema.{Db}
use seatkey.Common.Rows.{find_where}
use seatkey.License.{notify, add_seat}
use seatkey.Common.{
  ap, ◌∙◌, not, ◌&&◌, if◌then◌else◌, Bool, some, eq_iff, true, suc, ◌≢◌, Option, refl,
}
use seatkey.Store.Devices.{
  is_device, upserted, new_device, write_device, is_active_device, has_license, activate_device,
  upsert_device, count_seats, find_active, get_active_device, active_device_count,
}
use seatkey.Store.Models.{Device, License}
use seatkey.Common.{
  negsuc, arith, pos, geb_ℤ, ℤ, to_nat, none, ◌<◌, false, [], ◌∷◌, ◌≡◌, ℕ, String, List,
}
use seatkey.World.{Result, constraint, err, ok, spend, World}
use seatkey.License.Race.{
  moves, take_turn, Turn, step, race, Phase, adding, counting, Racer, advance, looking,
}

-- The statements of two calls in turn.
abbrev pub in_turn : List Turn
in_turn = moves 0 ∷ moves 1 ∷ moves 0 ∷ moves 1 ∷ moves 0 ∷ moves 1 ∷ []

abbrev pub racer : String → Racer
racer device_id = record { device_id = device_id; device_name = ""; phase = looking }

module _ (lic : License) where
  -- The driver works.
  abbrev pub IsCalm : World → Type 0
  IsCalm w = (n : ℕ) → w.outside.fault n ≡ false

  looking_free :
      (device_id : String) (w : World)
      → IsCalm w
      → find_active lic.id device_id w.db ≡ none
      → advance lic device_id "" looking w ≡ (counting, spend w)
  unfolding advance get_active_device
  looking_free device_id w calm free = rw (calm w.calls, free) refl

  counting_room :
      (device_id : String) (w : World)
      → IsCalm w
      → count_seats lic.id w.db < to_nat lic.max_devices
      → advance lic device_id "" counting w ≡ (adding, spend w)
  unfolding advance active_device_count
  counting_room device_id w calm room =
      rw (calm w.calls, room_left lic.max_devices (count_seats lic.id w.db) room) refl
    where
      room_left : (m : ℤ) (n : ℕ) → n < to_nat m → geb_ℤ n m ≡ false
      room_left (pos m) n h = ground arith
      room_left (negsuc m) n h = absurd (omega arith)

  written :
      (d : Device) (o : Option Device) (db : Db)
      → has_license d.license_id db ≡ true
      → (id next : ℕ) × (upserted d o db
          ≡ ok (
            id,
            record db { devices = upsert_device db.next_device d db.devices; next_device = next },
          ))
  written d (some old) db h = (old.id, suc db.next_device, refl)
  written d none db h = (db.next_device, suc db.next_device, go db.foreign_keys)
    where
      added : Result (ℕ × Db)
      added = ok (
        db.next_device,
        record db {
          devices = upsert_device db.next_device d db.devices;
          next_device = suc db.next_device;
        },
      )

      go :
          (b : Bool)
          → (if b && not (has_license d.license_id db)
              then err (constraint "devices.license_id")
              else added)
            ≡ added
      go true = rw h refl
      go false = refl

  -- The device has a seat more, whatever the count is by now.
  abbrev pub Adds : String → World → Phase × World → Type 0
  Adds device_id w (p, w') =
      (count_seats lic.id w'.db ≡ suc (count_seats lic.id w.db))
      × (w'.outside ≡ w.outside)
      × (has_license lic.id w'.db ≡ has_license lic.id w.db)
      × ((other : String)
          → device_id ≢ other
          → find_active lic.id other w.db ≡ none
          → find_active lic.id other w'.db ≡ none)

  find_active-upsert_ne :
      (other : String) (fresh : ℕ) (d : Device) (ds : List Device)
      → d.device_id ≢ other
      → find_where (is_active_device lic.id other) ds ≡ none
      → find_where (is_active_device lic.id other) (upsert_device fresh d ds) ≡ none
  unfolding upsert_device
  find_active-upsert_ne other fresh d [] ne e = ground (arith, eq_iff d.device_id other)
  find_active-upsert_ne other fresh d (x ∷ ds) ne e = ground (
    arith,
    eq_iff x.device_id other,
    eq_iff x.device_id d.device_id,
    find_active-upsert_ne other fresh d ds ne,
  )

  adding-Adds :
      (device_id : String) (w : World)
      → IsCalm w
      → has_license lic.id w.db ≡ true
      → find_active lic.id device_id w.db ≡ none
      → Adds device_id w (advance lic device_id "" adding w)
  unfolding advance add_seat notify activate_device write_device
  adding-Adds device_id w calm known free =
      let d = new_device lic.id device_id "" (w.outside.clock w.calls) in
      let (id, next, wrote) =
        written d (find_where (is_device lic.id device_id) w.db.devices) w.db known in
      rw (calm (suc w.calls), wrote)
        (
          count_seats-upsert_self w.db.next_device d w.db.devices refl free,
          refl,
          refl,
          λ other ne e. find_active-upsert_ne other w.db.next_device d w.db.devices ne e,
        )

  two_adds :
      (first second : String) (w : World)
      → IsCalm w
      → has_license lic.id w.db ≡ true
      → first ≢ second
      → find_active lic.id first w.db ≡ none
      → find_active lic.id second w.db ≡ none
      → count_seats lic.id (advance lic second "" adding (advance lic first "" adding w).1).1.db
        ≡ suc (suc (count_seats lic.id w.db))
  two_adds first second w calm known apart free1 free2 =
      let w1 = (advance lic first "" adding w).1 in
      let (more, still, kept, others) = adding-Adds first w calm known free1 in
      let calm1 : IsCalm w1 = λ n. rw still (calm n) in
      (adding-Adds second w1 calm1 (kept ∙ known) (others second apart free2)).0 ∙ ap suc more

  -- Two devices that hold no seat, a license with one seat left, a driver that works: when both
  -- calls have counted before either adds, both take a seat, and the license has one in use too many.
  pub race-over :
      (first second : String) (w : World)
      → IsCalm w
      → has_license lic.id w.db ≡ true
      → first ≢ second
      → find_active lic.id first w.db ≡ none
      → find_active lic.id second w.db ≡ none
      → suc (count_seats lic.id w.db) ≡ to_nat lic.max_devices
      → count_seats lic.id (race lic in_turn (racer first ∷ racer second ∷ []) w).1.db
        ≡ suc (to_nat lic.max_devices)
  unfolding race take_turn step
  race-over first second w calm known apart free1 free2 last =
      let room : count_seats lic.id w.db < to_nat lic.max_devices = omega (arith, last) in
      rw
        (
          looking_free first w calm free1,
          looking_free second (spend w) calm free2,
          counting_room first (spend (spend w)) calm room,
          counting_room second (spend (spend (spend w))) calm room,
        )
        (two_adds first second (spend (spend (spend (spend w)))) calm known apart free1 free2
          ∙ ap suc last)
