-- ===== src/License/Seat.antt =====
-- internal/license/service.go: the `switch` of `activate`, which takes a seat or finds one taken.
use seatkey.Store.Devices.Bag.{put, seats, seats-upsert, seats-touch}
use seatkey.Common.Rows.{find_where-update_where}
use seatkey.Store.Devices.Seats.{count_seats-touch, count_seats-upsert_self, find_active-upsert}
use seatkey.Store.Devices.Limits.{touch-IsValid, upsert-IsValid}
use seatkey.Store.Valid.{IsRow, IsValid}
use seatkey.Store.Schema.{Db}
use seatkey.Store.Devices.{
  is_active_device, touch_device, get_active_device, new_device, activate_device,
  active_device_count, has_license, count_seats, find_active,
}
use seatkey.Common.{
  nat_beq, geb_ℤ-false, geb_ℤ-true, refl, inl, inr, ap, sym, subst, Bool-cases, arith, ◌∷◌, inr,
  geb_ℤ, ℕ, ◌≤◌, to_nat, ◌<◌, suc, some, none, true, ◌≡◌, ◌⊎◌, String,
}
use seatkey.Store.Models.{License, Device}
use seatkey.World.{fail_if, World, Result, ok, err, driver, device_limit}
use seatkey.World.Rules.{transport_Same, Same, bind_rule}
use seatkey.Store.Devices.Outcomes.{
  touch_device-Touched, get_active_device-Looked, Looked, Touched, activate_device-Activated,
  Activated, Counted, active_device_count-Counted,
}
use seatkey.License.{event_of, notify, add_seat, new_seat, seat_for, take_seat}

-- The facts under which a seat is taken: the tables are valid, and the license was read from them.
-- `Held w'` says that the device holds a seat afterwards, and the tables are still valid.
module _ (lic : License) (device_id : String) where
  abbrev pub IsHeld : World → Type 0
  IsHeld w = (d : Device) × (find_active lic.id device_id w.db ≡ some d)

  -- The device held a seat before: no seat moves, and nobody is told.
  abbrev pub Kept : World → World → Type 0
  Kept w w' =
      (count_seats lic.id w'.db ≡ count_seats lic.id w.db)
      × (w'.notified ≡ w.notified)
      × IsHeld w
      × (seats w'.db ≡ seats w.db)

  -- The device takes one of the seats that were left, and one event tells so.
  abbrev pub Taken : World → World → Type 0
  Taken w w' =
      (find_active lic.id device_id w.db ≡ none)
      × (count_seats lic.id w'.db ≡ suc (count_seats lic.id w.db))
      × ((now : ℕ) × (dev : Device) × (dev.device_id ≡ device_id)
          × (w'.notified ≡ event_of "activation" lic dev now ∷ w.notified))
      × (seats w'.db ≡ put lic.id device_id (seats w.db))

  abbrev pub Seated : World → Result (Unit {0}) × World → Type 0
  Seated w (ok _, w') =
      IsValid w'.db × IsRow w'.db.licenses lic × IsHeld w' × (Kept w w' ⊎ Taken w w')
  Seated w (err e, w') =
      Same w w'
      × (((e ≡ device_limit)
            × (find_active lic.id device_id w.db ≡ none)
            × (to_nat lic.max_devices ≤ count_seats lic.id w.db))
          ⊎ (e ≡ driver))

module _ (lic : License) (device_id device_name : String) where
  Seated-Same :
      (w w' : World)
      → Same w w'
      → (p : Result (Unit {0}) × World) → Seated lic device_id w' p
      → Seated lic device_id w p
  Seated-Same w w' same p h = transport_Same (λ x. Seated lic device_id x p) w w' same h

  pub has_license-IsRow : (db : Db) → IsRow db.licenses lic → has_license lic.id db ≡ true
  has_license-IsRow db (r, found, _) = rw found

  add_seat-added :
      (w w' : World) (dev : Device)
      → IsValid w.db
      → IsRow w.db.licenses lic
      → find_active lic.id device_id w.db ≡ none
      → count_seats lic.id w.db < to_nat lic.max_devices
      → Activated lic.id device_id device_name w (ok dev, w')
      → Seated lic device_id w (notify "activation" lic dev w')
  unfolding notify
  add_seat-added w w' dev v row free room (named, (now, (next, same)), quiet) =
      let d = new_device lic.id device_id device_name now in
      (
        upsert-IsValid w.db v lic device_id device_name now w'.db row free room (next, same),
        subst (λ (db : Db). IsRow db.licenses lic) (sym same) row,
        rw same (find_active-upsert w.db.next_device d w.db.devices refl free),
        inr (
          free,
          rw same (count_seats-upsert_self w.db.next_device d w.db.devices refl free),
          (
            w'.outside.clock w'.calls,
            dev,
            named,
            ap (λ es. event_of "activation" lic dev (w'.outside.clock w'.calls) ∷ es) quiet,
          ),
          rw same (seats-upsert lic.id device_id device_name now next w.db free),
        ),
      )

  add_seat-Seated :
      (w : World)
      → IsValid w.db
      → IsRow w.db.licenses lic
      → find_active lic.id device_id w.db ≡ none
      → count_seats lic.id w.db < to_nat lic.max_devices
      → Seated lic device_id w (add_seat lic device_id device_name w)
  unfolding add_seat notify
  add_seat-Seated w v row free room =
      bind_rule (Activated lic.id device_id device_name w) (Seated lic device_id w)
        (activate_device lic.id device_id device_name) (notify "activation" lic) w
        (activate_device-Activated lic.id device_id device_name w)
        (λ e w' h. (h.1, inr (ground (arith, h.0, has_license-IsRow w.db row))))
        (λ dev w' h. add_seat-added w w' dev v row free room h)

  new_seat-of_count :
      (w w' : World) (n : ℕ)
      → IsValid w.db
      → IsRow w.db.licenses lic
      → find_active lic.id device_id w.db ≡ none
      → Counted lic.id w (ok n, w')
      → Seated lic device_id w
          (fail_if (geb_ℤ n lic.max_devices) device_limit (add_seat lic device_id device_name) w')
  new_seat-of_count w w' n v row free (counted, same) =
      elim (Bool-cases (geb_ℤ n lic.max_devices)) [
        | inl full ↦ rw full (
          same,
          inl (
            refl,
            free,
            subst (λ c. to_nat lic.max_devices ≤ c) counted (geb_ℤ-true n lic.max_devices full),
          ),
        )
        | inr room ↦ rw room (
            Seated-Same w w' same (add_seat lic device_id device_name w') (
              add_seat-Seated w' (subst IsValid (sym same.0) v)
                (subst (λ (db : Db). IsRow db.licenses lic) (sym same.0) row) (rw same.0 free)
                (rw (same.0, ← counted) (geb_ℤ-false n lic.max_devices room))))
      ]

  new_seat-Seated :
      (w : World)
      → IsValid w.db
      → IsRow w.db.licenses lic
      → find_active lic.id device_id w.db ≡ none
      → Seated lic device_id w (new_seat lic device_id device_name w)
  unfolding new_seat
  new_seat-Seated w v row free =
      bind_rule (Counted lic.id w) (Seated lic device_id w) (active_device_count lic.id)
        (λ count.
          fail_if (geb_ℤ count lic.max_devices) device_limit (add_seat lic device_id device_name))
        w (active_device_count-Counted lic.id w) (λ e w' h. (h.1, inr h.0))
        (λ n w' h. new_seat-of_count w w' n v row free h)

  touch-Seated :
      (w w' : World) (d : Device) (r : Result (Unit {0}) × World)
      → IsValid w.db
      → IsRow w.db.licenses lic
      → find_active lic.id device_id w.db ≡ some d
      → Same w w'
      → Touched d.id w' r
      → Seated lic device_id w r
  touch-Seated w w' d (ok a, w'') v row held same ((now, wrote), quiet) =
      Seated-Same w w' same (ok a, w'')
        (
          subst IsValid (sym wrote) (touch-IsValid w'.db (subst IsValid (sym same.0) v) d.id now),
          rw wrote (rw same.0 row),
          rw wrote (
              find_where-update_where (is_active_device lic.id device_id) (λ x. nat_beq x.id d.id)
                (λ x. record x { last_seen_at = now }) w'.db.devices d (λ x. refl)
                (rw same.0 held)),
          inl (
            rw wrote (count_seats-touch lic.id d.id now w'.db.devices),
            quiet,
            (d, rw same.0 held),
            rw wrote (seats-touch d.id now w'.db),
          ),
        )
  touch-Seated w w' d (err e, w'') v row held same (broken, kept) =
      Seated-Same w w' same (err e, w'') (kept, inr broken)

  seat_for-Seated :
      (w w' : World) (found : Result Device)
      → IsValid w.db
      → IsRow w.db.licenses lic
      → Looked lic.id device_id w (found, w')
      → Seated lic device_id w (seat_for lic device_id device_name found w')
  unfolding seat_for
  seat_for-Seated w w' (ok d) v row (held, same) =
      touch-Seated w w' d (touch_device d.id w') v row held same (touch_device-Touched d.id w')
  seat_for-Seated w w' (err e) v row (inl (missing, free), same) = rw missing (
      Seated-Same w w' same (new_seat lic device_id device_name w')
        (new_seat-Seated w' (subst IsValid (sym same.0) v) (rw same.0 row) (rw same.0 free)))
  seat_for-Seated w w' (err e) v row (inr broken, same) = rw broken (same, inr refl)

  pub take_seat-Seated :
      (w : World)
      → IsValid w.db
      → IsRow w.db.licenses lic
      → Seated lic device_id w (take_seat lic device_id device_name w)
  unfolding take_seat
  take_seat-Seated w v row =
      let (found, w') = get_active_device lic.id device_id w in
      seat_for-Seated w w' found v row (get_active_device-Looked lic.id device_id w)
