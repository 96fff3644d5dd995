-- ===== src/License/Release.antt =====
-- internal/license/service.go: what `Deactivate` returns, and what it has done by then.
use seatkey.Store.Devices.Bag.{held, remove, seats-free, seats}
use seatkey.Store.Devices.Distinct.{count_active-le-one}
use seatkey.Store.Devices.Seats.{find_active-free, count_seats-free}
use seatkey.Store.Devices.Limits.{free-IsValid}
use seatkey.Common.Rows.{count_where, find_where-of_count}
use seatkey.Store.Devices.{
  is_active_device, count_seats, new_device, deactivate_device, find_active,
}
use seatkey.Store.Devices.Outcomes.{deactivate_device-Freed, Freed}
use seatkey.Store.Models.{License}
use seatkey.Store.Valid.{IsValid}
use seatkey.Store.Licenses.{find_license_by_key, get_license_by_key}
use seatkey.Common.{◌≤◌, arith, ◌∷◌, ℕ, suc, some, none, String, ◌≡◌, ◌⊎◌, inl, inr, ap}
use seatkey.World.{World, Error, Result, ok, err, driver, not_found}
use seatkey.World.Rules.{query_row-Fetched, transport_Same, Fetched, Same, bind_rule}
use seatkey.License.{deactivate, notify, event_of}

-- The device gave up its seat: one seat fewer is in use, no active row of the device is left, and
-- one event tells so.
abbrev pub Released : String → String → World → World → Type 0
Released key device_id w w' =
    (lic : License) × (find_license_by_key key w.db ≡ some lic)
    × (suc (count_seats lic.id w'.db) ≡ count_seats lic.id w.db)
    × (find_active lic.id device_id w'.db ≡ none)
    × ((now : ℕ) × (w'.notified
          ≡ event_of "deactivation" lic (new_device "" device_id "" 0) now ∷ w.notified))
    × (seats w'.db ≡ remove lic.id device_id (seats w.db))
    × (held lic.id device_id (seats w.db) ≡ 1)

abbrev pub Release : String → String → World → Result (Unit {0}) × World → Type 0
Release key device_id w (ok _, w') = IsValid w'.db × Released key device_id w w'
Release key device_id w (err e, w') =
    Same w w'
    × (((e ≡ not_found)
          × ((find_license_by_key key w.db ≡ none)
              ⊎ ((lic : License) × (find_license_by_key key w.db ≡ some lic)
                  × (find_active lic.id device_id w.db ≡ none))))
        ⊎ (e ≡ driver))

module _ (key device_id : String) where
  Release-Same :
      (w w' : World)
      → Same w w'
      → (p : Result (Unit {0}) × World) → Release key device_id w' p
      → Release key device_id w p
  Release-Same w w' same p h = transport_Same (λ x. Release key device_id x p) w w' same h

  held_once :
      (license_id : String) (w : World)
      → IsValid w.db
      → 1 ≤ count_where (is_active_device license_id device_id) w.db.devices
      → held license_id device_id (seats w.db) ≡ 1
  unfolding held seats
  held_once license_id w v some_row =
      omega (arith, count_active-le-one license_id device_id w.db.devices v.rows)

  released :
      (w w' : World) (lic : License)
      → IsValid w.db
      → find_license_by_key key w.db ≡ some lic
      → Freed lic.id device_id w (ok tt, w')
      → Release key device_id w (notify "deactivation" lic (new_device "" device_id "" 0) w')
  unfolding notify
  released w w' lic v found (some_row, (now, wrote), quiet) = (
    rw wrote (free-IsValid w.db v lic.id device_id now),
    (
      lic,
      found,
      rw wrote (
          omega (
            arith,
            count_seats-free lic.id device_id now w.db.devices,
            count_active-le-one lic.id device_id w.db.devices v.rows,
          )),
      rw wrote (find_active-free lic.id device_id now w.db.devices),
      (
        w'.outside.clock w'.calls,
        ap
            (λ es.
              event_of "deactivation" lic (new_device "" device_id "" 0) (w'.outside.clock w'.calls)
              ∷ es)
            quiet,
      ),
      rw wrote (seats-free lic.id device_id now w.db),
      held_once lic.id w v some_row,
    ),
  )

  refused :
      (w w' : World) (lic : License) (e : Error)
      → find_license_by_key key w.db ≡ some lic
      → Freed lic.id device_id w (err e, w')
      → Release key device_id w (err e, w')
  refused w w' lic e found (inl (missing, empty), same) = (
    same,
    inl (
      missing,
      inr (lic, found, find_where-of_count (is_active_device lic.id device_id) w.db.devices empty),
    ),
  )
  refused w w' lic e found (inr broken, same) = (same, inr broken)

  lookup_failed :
      (w w' : World) (e : Error)
      → Fetched w (find_license_by_key key) (err e, w')
      → Release key device_id w (err e, w')
  lookup_failed w w' e (inl (missing, none_found), same) = (same, inl (missing, inl none_found))
  lookup_failed w w' e (inr broken, same) = (same, inr broken)

  -- A call of `Deactivate` frees exactly the device's seat and tells so once, or fails and changes
  -- nothing: for want of the license or of an active device, or in the driver. The tables stay valid.
  pub deactivate-Release :
      (w : World) → IsValid w.db → Release key device_id w (deactivate key device_id w)
  unfolding deactivate get_license_by_key
  deactivate-Release w v =
      bind_rule (Fetched w (find_license_by_key key)) (Release key device_id w)
        (get_license_by_key key) _ w (query_row-Fetched (find_license_by_key key) w)
        (λ e w1 h. lookup_failed w w1 e h)
        (λ lic w1 h. Release-Same w w1 h.1 _ (
          bind_rule (Freed lic.id device_id w1) (Release key device_id w1)
            (deactivate_device lic.id device_id)
            (λ _. notify "deactivation" lic (new_device "" device_id "" 0)) w1
            (deactivate_device-Freed lic.id device_id w1)
            (λ e w2 f. refused w1 w2 lic e (rw h.1.0 h.0) f)
            (λ u w2 f. released w1 w2 lic (rw h.1.0 v) (rw h.1.0 h.0) f)))
