-- ===== src/License/Seats.antt =====
-- internal/license: the calls, seen as operations on the bag of seats. `activate` puts a device in if it
-- is not there, `Deactivate` takes it out, and no other call moves a seat.
use seatkey.License.Renewal.{NotRenewed, validate-Renewal, Renewal}
use seatkey.Crypto.{Envelope}
use seatkey.License.Release.{deactivate-Release, Release}
use seatkey.License.Outcome.{activate_with-Activation, Activation, Refused, IsLate}
use seatkey.Store.Licenses.{find_license_by_key}
use seatkey.Store.Valid.{IsValid}
use seatkey.License.{activate_with, validate, deactivate, Service}
use seatkey.Store.Devices.{is_active_device}
use seatkey.Common.Rows.{find_where-count_where, count_where-of_find}
use seatkey.License.Seat.{Taken, Kept}
use seatkey.World.{marshal, driver, device_limit, not_found, err, ok, Error, Result, World}
use seatkey.Store.Models.{License}
use seatkey.Store.Devices.Bag.{remove, seats, held, occupy}
use seatkey.World
use seatkey.Common.{suc, ℕ, inr, inl, ap, ◌⊎◌, Bool, some, arith, String, ◌≡◌, refl}

occupy-Kept :
    (lic : License) (device_id : String) (w w' : World)
    → Kept lic device_id w w'
    → seats w'.db ≡ occupy lic.id device_id (seats w.db)
unfolding occupy held seats
occupy-Kept lic device_id w w' (count, quiet, (d, found), same) = rw same (
    ground (arith, find_where-count_where (is_active_device lic.id device_id) w.db.devices d found))

occupy-Taken :
    (lic : License) (device_id : String) (w w' : World)
    → Taken lic device_id w w'
    → seats w'.db ≡ occupy lic.id device_id (seats w.db)
unfolding occupy held seats
occupy-Taken lic device_id w w' (free, count, told, placed) =
    rw (placed, count_where-of_find (is_active_device lic.id device_id) w.db.devices free) refl

module _ (key device_id : String) where
  -- The device holds a seat now, and nothing else has moved.
  abbrev pub Occupies : World → World → Type 0
  Occupies w w' =
      (lic : License) × (find_license_by_key key w.db ≡ some lic)
      × (seats w'.db ≡ occupy lic.id device_id (seats w.db))

  -- The device held a seat, and nothing else has moved.
  abbrev pub Vacates : World → World → Type 0
  Vacates w w' =
      (lic : License) × (find_license_by_key key w.db ≡ some lic)
      × (held lic.id device_id (seats w.db) ≡ 1)
      × (seats w'.db ≡ remove lic.id device_id (seats w.db))

  settled-Occupies :
      (w w' : World) (lic : License)
      → find_license_by_key key w.db ≡ some lic
      → Kept lic device_id w w' ⊎ Taken lic device_id w w'
      → Occupies w w'
  settled-Occupies w w' lic found (inl kept) = (lic, found, occupy-Kept lic device_id w w' kept)
  settled-Occupies w w' lic found (inr taken) = (lic, found, occupy-Taken lic device_id w w' taken)

  late-Occupies : (w w' : World) → IsLate key device_id w w' → Occupies w w'
  late-Occupies w w' (lic, found, here, how) = settled-Occupies w w' lic found how

  Refused-seats :
      (now : ℕ) (w w' : World) (e : Error)
      → Refused key device_id now w e w'
      → (seats w'.db ≡ seats w.db) ⊎ Occupies w w'
  Refused-seats now w w' not_found h = inl (ap seats h.1.0)
  Refused-seats now w w' (World.Error.license_status status) h = inl (ap seats h.1.0)
  Refused-seats now w w' device_limit h = inl (ap seats h.1.0)
  Refused-seats now w w' driver h = elim h [
    | inl same ↦ inl (ap seats same.0)
    | inr late ↦ inr (late-Occupies w w' late)
  ]
  Refused-seats now w w' marshal h = inr (late-Occupies w w' h)
  Refused-seats now w w' _ h = absurd h

  module _ (s : Service) (device_name : String) (offline : Bool) where
    abbrev pub ActivateSeats : World → Result Envelope × World → Type 0
    ActivateSeats w (ok _, w') = Occupies w w'
    ActivateSeats w (err _, w') = (seats w'.db ≡ seats w.db) ⊎ Occupies w w'

    pub activate_with-seats :
        (w : World)
        → IsValid w.db
        → ActivateSeats w (activate_with s key device_id device_name offline w)
    activate_with-seats w v =
        go (activate_with s key device_id device_name offline w)
          (activate_with-Activation key device_id s offline device_name w v)
      where
        go :
            (p : Result Envelope × World)
            → Activation key device_id s offline (w.outside.clock (suc w.calls)) w p
            → ActivateSeats w p
        go (ok env, w') (v', (lic, found, live, signed, limit, here, how)) =
            settled-Occupies w w' lic found how
        go (err e, w') (v', refused) = Refused-seats (w.outside.clock (suc w.calls)) w w' e refused

  abbrev pub DeactivateSeats : World → Result (Unit {0}) × World → Type 0
  DeactivateSeats w (ok _, w') = Vacates w w'
  DeactivateSeats w (err _, w') = seats w'.db ≡ seats w.db

  pub deactivate-seats : (w : World) → IsValid w.db → DeactivateSeats w (deactivate key device_id w)
  deactivate-seats w v = go (deactivate key device_id w) (deactivate-Release key device_id w v)
    where
      go : (p : Result (Unit {0}) × World) → Release key device_id w p → DeactivateSeats w p
      go (ok _, w') (v', (lic, found, fewer, gone, told, moved, once)) = (lic, found, once, moved)
      go (err e, w') (same, x) = ap seats same.0

  not_renewed :
      (now : ℕ) (w w' : World) (e : Error)
      → NotRenewed key device_id now w e w'
      → seats w'.db ≡ seats w.db
  not_renewed now w w' not_found h = ap seats h.0.0
  not_renewed now w w' (World.Error.license_status status) h = ap seats h.0.0
  not_renewed now w w' driver h = elim h [
    | inl same ↦ ap seats same.0
    | inr (lic, found, (valid, kept, here)) ↦ kept.3
  ]
  not_renewed now w w' marshal (lic, found, (valid, kept, here)) = kept.3
  not_renewed now w w' _ h = absurd h

  module _ (s : Service) where
    pub validate-seats :
        (w : World) → IsValid w.db → seats (validate s key device_id w).1.db ≡ seats w.db
    validate-seats w v = go (validate s key device_id w) (validate-Renewal key device_id s w v)
      where
        go :
            (p : Result Envelope × World)
            → Renewal key device_id s (w.outside.clock (suc w.calls)) w p
            → seats p.1.db ≡ seats w.db
        go (ok env, w') (lic, found, live, signed, (valid, kept, here)) = kept.3
        go (err e, w') h = not_renewed (w.outside.clock (suc w.calls)) w w' e h
