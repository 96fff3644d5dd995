-- ===== src/License/Outcome.antt =====
-- internal/license/service.go: what `activate` returns, and what it has done by then, on every path.
use seatkey.Store.Devices.Limits.{allowance-IsRow}
use seatkey.License.Sealed.{signed_token-Signed, Signed}
use seatkey.Store.Devices.{count_seats, find_active}
use seatkey.Store.Valid.{license_select-IsRow, IsValid}
use seatkey.Crypto.{Envelope}
use seatkey.Store.Models.{Status, License}
use seatkey.License.{signed_token, require_active, take_seat, activate_with, Service, sign}
use seatkey.Store.Licenses.{get_license_by_key, find_license_by_key}
use seatkey.Common.{
  suc, ◌==◌, subst, to_nat, ℕ, some, Bool, none, String, ◌≡◌, ◌⊎◌, ◌≤◌, ◌≢◌, inl, inr, refl, sym,
  ap,
}
use seatkey.World
use seatkey.Store.Models.{license_status, active, revoked, expired}
use seatkey.World.{
  ◌>>◌, ◌>>=◌, spend, World, Error, Result, ok, err, driver, marshal, not_found, device_limit,
}
use seatkey.World.Rules.{query_row_rule, sym_Same, transport_Same, Same, bind_rule}
use seatkey.License.Seat.{take_seat-Seated, IsHeld, Kept, Taken, Seated}

module _ (key device_id : String) where
  -- A failure after the seat was settled: the device holds its seat, and a further call finds it.
  abbrev pub IsLate : World → World → Type 0
  IsLate w w' =
      (lic : License) × (find_license_by_key key w.db ≡ some lic)
      × IsHeld lic device_id w'
      × (Kept lic device_id w w' ⊎ Taken lic device_id w w')

  -- Why a call was refused, and that a refusal has changed nothing.
  -- `now` is the instant at which the status was asked for.
  abbrev pub Refused : ℕ → World → Error → World → Type 0
  Refused now w not_found w' = (find_license_by_key key w.db ≡ none) × Same w w'
  Refused now w (World.Error.license_status status) w' =
      ((lic : License) × (find_license_by_key key w.db ≡ some lic)
        × (license_status lic now ≡ status)
        × (status ≢ active))
      × Same w w'
  Refused now w device_limit w' =
      ((lic : License) × (find_license_by_key key w.db ≡ some lic)
        × (find_active lic.id device_id w.db ≡ none)
        × (to_nat lic.max_devices ≤ count_seats lic.id w.db))
      × Same w w'
  Refused now w driver w' = Same w w' ⊎ IsLate w w'
  Refused now w marshal w' = IsLate w w'
  Refused now w _ w' = ⊥

  module _ (s : Service) (offline : Bool) where
    abbrev pub Granted : ℕ → World → Envelope → World → Type 0
    Granted now w env w' =
        (lic : License) × (find_license_by_key key w.db ≡ some lic)
        × (license_status lic now ≡ active)
        × (sign s lic device_id (count_seats lic.id w'.db) now offline ≡ ok env)
        × (count_seats lic.id w'.db ≤ to_nat lic.max_devices)
        × IsHeld lic device_id w'
        × (Kept lic device_id w w' ⊎ Taken lic device_id w w')

    abbrev pub Activation : ℕ → World → Result Envelope × World → Type 0
    Activation now w (ok env, w') = IsValid w'.db × Granted now w env w'
    Activation now w (err e, w') = IsValid w'.db × Refused now w e w'

    Activation-Same :
        (now : ℕ) (w w' : World)
        → Same w w'
        → (p : Result Envelope × World) → Activation now w' p
        → Activation now w p
    Activation-Same now w w' same p h = transport_Same (λ x. Activation now x p) w w' same h

    settled :
        (w w1 w' : World) (lic : License)
        → Seated lic device_id w (ok tt, w1)
        → Same w1 w'
        → Seated lic device_id w (ok tt, w')
    settled w w1 w' lic seat same =
        transport_Same (λ x. Seated lic device_id w (ok tt, x)) w' w1 (sym_Same w1 w' same) seat

    -- The last step, in the world where the seat is settled.
    sealed :
        (w w1 w' : World) (lic : License) (now : ℕ) (r : Result Envelope)
        → find_license_by_key key w.db ≡ some lic
        → license_status lic now ≡ active
        → Seated lic device_id w (ok tt, w1)
        → Signed s lic device_id now offline w1 (r, w')
        → Activation now w (r, w')
    sealed w w1 w' lic now (ok env) found live seat (signed, same) =
        let (v, row, held, how) = settled w w1 w' lic seat same in
        (
          v,
          (
            lic,
            found,
            live,
            subst (λ n. sign s lic device_id n now offline ≡ ok env)
                (ap (count_seats lic.id) (sym same.0)) signed,
            subst (λ n. count_seats lic.id w'.db ≤ n) (allowance-IsRow w'.db.licenses lic row)
                (v.limits lic.id),
            held,
            how,
          ),
        )
    sealed w w1 w' lic now (err e) found live seat (inl broken, same) =
        let (v, row, held, how) = settled w w1 w' lic seat same in
        rw broken (v, inr (lic, found, held, how))
    sealed w w1 w' lic now (err e) found live seat (inr broken, same) =
        let (v, row, held, how) = settled w w1 w' lic seat same in
        rw broken (v, (lic, found, held, how))

    seat_refused :
        (now : ℕ) (w w' : World) (lic : License) (e : Error)
        → IsValid w.db
        → find_license_by_key key w.db ≡ some lic
        → Seated lic device_id w (err e, w')
        → Activation now w (err e, w')
    seat_refused now w w' lic e v found (same, inl (full, free, limit)) =
        rw full (rw same.0 v, ((lic, found, free, limit), same))
    seat_refused now w w' lic e v found (same, inr broken) = rw broken (rw same.0 v, inl same)

    module _ (device_name : String) where
      -- The steps after the license was found to be active.
      seat_and_sign :
          (now : ℕ) (w : World) (lic : License)
          → IsValid w.db
          → find_license_by_key key w.db ≡ some lic
          → license_status lic now ≡ active
          → Activation now w
              ((take_seat lic device_id device_name >> signed_token s lic device_id now offline) w)
      seat_and_sign now w lic v found live =
          bind_rule (Seated lic device_id w) (Activation now w)
            (take_seat lic device_id device_name) (λ _. signed_token s lic device_id now offline) w
            (take_seat-Seated lic device_id device_name w v (
              license_select-IsRow (λ l. l.key == key) w.db.products w.db.licenses lic v.ids found))
            (λ e w1 h. seat_refused now w w1 lic e v found h)
            (λ u w1 h.
              let (r, w') = signed_token s lic device_id now offline w1 in
              sealed w w1 w' lic now r found live h
                (signed_token-Signed s lic device_id now offline w1))

      admitted :
          (now : ℕ) (w : World) (lic : License) (status : Status)
          → IsValid w.db
          → find_license_by_key key w.db ≡ some lic
          → license_status lic now ≡ status
          → Activation now w (
              (require_active status
                  >> (take_seat lic device_id device_name
                      >> signed_token s lic device_id now offline))
                w)
      admitted now w lic revoked v found e = (v, ((lic, found, e, (λ h. cc)), (refl, refl, refl)))
      admitted now w lic expired v found e = (v, ((lic, found, e, (λ h. cc)), (refl, refl, refl)))
      admitted now w lic active v found e = seat_and_sign now w lic v found e

      -- Every call of `activate` ends in one of two ways and leaves the tables valid. It returns the
      -- signed token of a license that is active at the one instant the clock is read, after the lookup
      -- of the key, and that is the token's instant of issue; the device holds one of the seats, taken
      -- now or before. Or it returns an error, with the reason, where the status of an inactive license
      -- is the one of that instant; and then nothing has changed unless the failure came after the seat
      -- was settled.
      pub activate_with-Activation :
          (w : World)
          → IsValid w.db
          → Activation
              (w.outside.clock (suc w.calls))
              w
              (activate_with s key device_id device_name offline w)
      unfolding activate_with get_license_by_key
      activate_with-Activation w v =
          let now = w.outside.clock (suc w.calls) in
          query_row_rule (Activation now w) (find_license_by_key key) _ w
            (v, inl (refl, refl, refl)) (λ missing. (v, (missing, (refl, refl, refl))))
            (λ lic found.
              Activation-Same now w (spend w) (refl, refl, refl) _
                (admitted now (spend (spend w)) lic (license_status lic now) v found refl))
