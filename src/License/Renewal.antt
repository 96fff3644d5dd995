-- ===== src/License/Renewal.antt =====
-- internal/license/service.go: what `Validate` returns, and what it has done by then.
use seatkey.Store.Devices.Bag.{seats-touch}
use seatkey.World
use seatkey.Common.Rows.{find_where-update_where}
use seatkey.Store.Devices.Seats.{count_seats-touch}
use seatkey.Store.Devices.Limits.{touch-IsValid}
use seatkey.License.Sealed.{signed_token-Signed, Signed}
use seatkey.Store.Devices.{
  is_active_device, get_active_device, touch_device, count_seats, find_active,
}
use seatkey.License.Seat.{IsHeld, Kept}
use seatkey.Store.Devices.Outcomes.{touch_device-Touched, get_active_device-Looked, Touched, Looked}
use seatkey.Store.Valid.{IsValid}
use seatkey.Crypto.{Envelope}
use seatkey.Store.Licenses.{get_license_by_key, find_license_by_key}
use seatkey.Common.{
  suc, nat_beq, subst, false, ℕ, some, none, String, ◌≡◌, ◌⊎◌, ◌≢◌, inl, inr, refl, sym, ap,
}
use seatkey.Store.Models.{Status, Device, License, license_status, active, revoked, expired}
use seatkey.World.{
  spend, Call, ◌>>◌, ◌>>=◌, World, Error, Result, ok, err, driver, not_found, marshal,
}
use seatkey.World.Rules.{query_row_rule, sym_Same, transport_Same, Same, bind_rule}
use seatkey.License.{sign, Service, validate, signed_token, require_active}

module _ (key device_id : String) where
  -- No seat has moved, nobody was told, and the device holds the seat that it held.
  abbrev pub Refreshed : License → World → World → Type 0
  Refreshed lic w w' = IsValid w'.db × Kept lic device_id w w' × IsHeld lic device_id w'

  -- `now` is the instant at which the status was asked for.
  abbrev pub NotRenewed : ℕ → World → Error → World → Type 0
  NotRenewed now w not_found w' =
      Same w w'
      × ((find_license_by_key key w.db ≡ none)
          ⊎ ((lic : License) × (find_license_by_key key w.db ≡ some lic)
              × (find_active lic.id device_id w.db ≡ none)))
  NotRenewed now w (World.Error.license_status status) w' =
      Same w w'
      × ((lic : License) × (find_license_by_key key w.db ≡ some lic)
          × (license_status lic now ≡ status)
          × (status ≢ active))
  NotRenewed now w driver w' =
      Same w w' ⊎ ((lic : License) × (find_license_by_key key w.db ≡ some lic) × Refreshed lic w w')
  NotRenewed now w marshal w' =
      (lic : License) × (find_license_by_key key w.db ≡ some lic) × Refreshed lic w w'
  NotRenewed now w _ w' = ⊥

  module _ (s : Service) where
    abbrev pub Renewal : ℕ → World → Result Envelope × World → Type 0
    Renewal now w (ok env, w') =
        (lic : License) × (find_license_by_key key w.db ≡ some lic)
        × (license_status lic now ≡ active)
        × (sign s lic device_id (count_seats lic.id w'.db) now false ≡ ok env)
        × Refreshed lic w w'
    Renewal now w (err e, w') = NotRenewed now w e w'

    Renewal-Same :
        (now : ℕ) (w w' : World)
        → Same w w'
        → (p : Result Envelope × World) → Renewal now w' p
        → Renewal now w p
    Renewal-Same now w w' same p h = transport_Same (λ x. Renewal now x p) w w' same h

    missing_device :
        (now : ℕ) (w w' : World) (lic : License) (e : Error)
        → find_license_by_key key w.db ≡ some lic
        → Looked lic.id device_id w (err e, w')
        → Renewal now w (err e, w')
    missing_device now w w' lic e found (inl (missing, free), same) =
        rw missing (same, inr (lic, found, free))
    missing_device now w w' lic e found (inr broken, same) = rw broken (inl same)

    signed :
        (w w1 w' : World) (lic : License) (now : ℕ) (r : Result Envelope)
        → find_license_by_key key w.db ≡ some lic
        → license_status lic now ≡ active
        → Refreshed lic w w1
        → Signed s lic device_id now false w1 (r, w')
        → Renewal now w (r, w')
    signed w w1 w' lic now (ok env) found live fresh (sealed, same) = (
      lic,
      found,
      live,
      subst (λ n. sign s lic device_id n now false ≡ ok env) (ap (count_seats lic.id) (sym same.0))
          sealed,
      transport_Same (Refreshed lic w) w' w1 (sym_Same w1 w' same) fresh,
    )
    signed w w1 w' lic now (err e) found live fresh (inl broken, same) =
        rw broken
          (inr (lic, found, transport_Same (Refreshed lic w) w' w1 (sym_Same w1 w' same) fresh))
    signed w w1 w' lic now (err e) found live fresh (inr broken, same) =
        rw broken (lic, found, transport_Same (Refreshed lic w) w' w1 (sym_Same w1 w' same) fresh)

    touched :
        (w w1 : World) (lic : License) (d : Device) (now : ℕ)
        → IsValid w.db
        → find_active lic.id device_id w.db ≡ some d
        → Touched d.id w (ok tt, w1)
        → Refreshed lic w w1
    touched w w1 lic d now v held ((at, wrote), quiet) = (
      rw wrote (touch-IsValid w.db v d.id at),
      (
        rw wrote (count_seats-touch lic.id d.id at w.db.devices),
        quiet,
        (d, held),
        rw wrote (seats-touch d.id at w.db),
      ),
      rw wrote (
          find_where-update_where (is_active_device lic.id device_id) (λ x. nat_beq x.id d.id)
            (λ x. record x { last_seen_at = at }) w.db.devices d (λ x. refl) held),
    )

    -- The steps from the device on.
    refresh : License → ℕ → Call Envelope
    refresh lic now = do
      dev ← get_active_device lic.id device_id
      touch_device dev.id
      signed_token s lic device_id now false

    with_device :
        (w w1 : World) (lic : License) (d : Device) (now : ℕ)
        → IsValid w.db
        → find_license_by_key key w.db ≡ some lic
        → license_status lic now ≡ active
        → find_active lic.id device_id w.db ≡ some d
        → Same w w1
        → Renewal now w ((touch_device d.id >> signed_token s lic device_id now false) w1)
    with_device w w1 lic d now v found live held same = Renewal-Same now w w1 same _ (
        bind_rule (Touched d.id w1) (Renewal now w1) (touch_device d.id)
          (λ _. signed_token s lic device_id now false) w1 (touch_device-Touched d.id w1)
          (λ e w2 h. rw h.0 (inl h.1))
          (λ u w2 h.
            let (r, w') = signed_token s lic device_id now false w2 in
            signed w1 w2 w' lic now r (rw same.0 found) live
              (touched w1 w2 lic d now (rw same.0 v) (rw same.0 held) h)
              (signed_token-Signed s lic device_id now false w2)))

    refresh-Renewal :
        (now : ℕ) (w : World) (lic : License)
        → IsValid w.db
        → find_license_by_key key w.db ≡ some lic
        → license_status lic now ≡ active
        → Renewal now w (refresh lic now w)
    unfolding refresh
    refresh-Renewal now w lic v found live =
        bind_rule (Looked lic.id device_id w) (Renewal now w) (get_active_device lic.id device_id)
          (λ dev. touch_device dev.id >> signed_token s lic device_id now false) w
          (get_active_device-Looked lic.id device_id w)
          (λ e w1 h. missing_device now w w1 lic e found h)
          (λ d w1 h. with_device w w1 lic d now v found live h.0 h.1)

    admitted :
        (now : ℕ) (w : World) (lic : License) (status : Status)
        → IsValid w.db
        → find_license_by_key key w.db ≡ some lic
        → license_status lic now ≡ status
        → Renewal now w ((require_active status >> refresh lic now) w)
    admitted now w lic revoked v found e = ((refl, refl, refl), (lic, found, e, λ h. cc))
    admitted now w lic expired v found e = ((refl, refl, refl), (lic, found, e, λ h. cc))
    admitted now w lic active v found e = refresh-Renewal now w lic v found e

    -- A call of `Validate` reads the clock once, after the lookup of the key. It signs a token, issued at
    -- that instant, for a license that is active then and whose device holds a seat already; or it fails
    -- with the reason, where the status of an inactive license is the one of that instant. It never
    -- moves a seat and tells nobody, also where it fails late.
    pub validate-Renewal :
        (w : World)
        → IsValid w.db
        → Renewal (w.outside.clock (suc w.calls)) w (validate s key device_id w)
    unfolding validate get_license_by_key refresh
    validate-Renewal w v =
        let now = w.outside.clock (suc w.calls) in
        query_row_rule (Renewal now w) (find_license_by_key key) _ w (inl (refl, refl, refl))
          (λ missing. ((refl, refl, refl), inl missing))
          (λ lic found.
            Renewal-Same now w (spend w) (refl, refl, refl) _
              (admitted now (spend (spend w)) lic (license_status lic now) v found refl))
