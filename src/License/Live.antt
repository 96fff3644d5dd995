-- ===== src/License/Live.antt =====
-- internal/license/service.go: `activate` returns a token when nothing stands in its way.
use seatkey.License.Seat.{has_license-IsRow}
use seatkey.Store.Valid.{license_select-IsRow, IsValid}
use seatkey.Store.Licenses.{find_license_by_key, get_license_by_key}
use seatkey.Common.Rows.{find_where}
use seatkey.Crypto.Base64.{encode}
use seatkey.Store.Models.{active, license_status, Device, License}
use seatkey.Crypto.{Envelope, Bytes}
use seatkey.Store.Devices.{
  is_device, write_device, activate_device, has_license, write_seen, touch_device,
  get_active_device, find_active, count_seats, active_device_count,
}
use seatkey.World.{Outside, spend, err, resume, Result, ok, World}
use seatkey.License.{
  activate_with, notify, add_seat, new_seat, seat_for, token_of, take_seat, signed_token, sign,
  Service,
}
use seatkey.Crypto
use seatkey.Common.{
  ◌==◌, ◌∙◌, ap, ◌&&◌, Option, inr, suc, inl, geb_ℤ, true, none, ◌⊎◌, Bool, String, some, false, ℕ,
  ◌≡◌, refl,
}

-- The driver answers every statement.
abbrev pub IsUp : World → Type 0
IsUp w = (n : ℕ) → w.outside.fault n ≡ false

-- The token that is to be signed can be written as JSON, whatever its count of seats; so it is as long
-- as no instant of it lies beyond the year 9999.
abbrev pub Marshals : Service → License → String → ℕ → Bool → Type 0
Marshals s lic device_id now offline =
    (seats : ℕ)
    → (text : Bytes) × (s.token_json.marshal (token_of lic device_id seats now offline) ≡ some text)

module _ (s : Service) where
  sign-live :
      (lic : License) (device_id : String) (seats now : ℕ) (offline : Bool)
      → Marshals s lic device_id now offline
      → (env : Envelope) × (sign s lic device_id seats now offline ≡ ok env)
  unfolding sign Crypto.sign Crypto.seal
  sign-live lic device_id seats now offline total =
      let (text, e) = total seats in
      (record { payload = encode text; signature = encode (s.ed25519.sign s.priv text) }, rw e refl)

  pub signed_token-live :
      (lic : License) (device_id : String) (now : ℕ) (offline : Bool) (w : World)
      → Marshals s lic device_id now offline
      → IsUp w
      → (env : Envelope) × ((signed_token s lic device_id now offline w).0 ≡ ok env)
  unfolding signed_token active_device_count
  signed_token-live lic device_id now offline w total up =
      let (env, e) = sign-live lic device_id (count_seats lic.id w.db) now offline total in
      (env, rw (up w.calls) e)

module _ (s : Service) (lic : License) (device_id device_name : String) where
  -- The seat is there: the device has one, or there is one left.
  abbrev pub HasRoom : World → Type 0
  HasRoom w =
      ((d : Device) × (find_active lic.id device_id w.db ≡ some d))
      ⊎ ((find_active lic.id device_id w.db ≡ none)
          × (geb_ℤ (count_seats lic.id w.db) lic.max_devices ≡ false))

  take_seat-live :
      (w : World)
      → IsUp w
      → has_license lic.id w.db ≡ true
      → HasRoom w
      → ((take_seat lic device_id device_name w).0 ≡ ok tt)
        × ((take_seat lic device_id device_name w).1.outside ≡ w.outside)
  unfolding take_seat get_active_device seat_for touch_device write_seen new_seat
      active_device_count add_seat activate_device write_device notify
  take_seat-live w up known (inl (d, held)) =
      rw (up w.calls, held, up (suc (suc w.calls))) (refl, refl)
  take_seat-live w up known (inr (free, room)) =
      go (find_where (is_device lic.id device_id) w.db.devices) refl
    where
      and_false : (b : Bool) → (b && false) ≡ false
      and_false true = refl
      and_false false = refl

      go :
          (o : Option Device)
          → find_where (is_device lic.id device_id) w.db.devices ≡ o
          → ((take_seat lic device_id device_name w).0 ≡ ok tt)
            × ((take_seat lic device_id device_name w).1.outside ≡ w.outside)
      go none e =
          rw
            (
              up w.calls,
              free,
              up (suc w.calls),
              room,
              up (suc (suc (suc w.calls))),
              e,
              known,
              and_false w.db.foreign_keys,
            )
            (refl, refl)
      go (some old) e =
          rw (up w.calls, free, up (suc w.calls), room, up (suc (suc (suc w.calls))), e)
            (refl, refl)

  -- The clock is read after the license has been found. The driver answers every statement, the token of
  -- that instant can be written as JSON, with any count of seats, the tables are valid, the license of the key is active when the clock is read, and
  -- the device holds a seat or there is one left for it. Then `activate` returns an envelope, online or
  -- offline.
  pub activate_with-live :
      (key : String) (offline : Bool) (w : World)
      → IsUp w
      → Marshals s lic device_id (w.outside.clock (suc w.calls)) offline
      → IsValid w.db
      → find_license_by_key key w.db ≡ some lic
      → license_status lic (w.outside.clock (suc w.calls)) ≡ active
      → HasRoom w
      → (env : Envelope) × ((activate_with s key device_id device_name offline w).0 ≡ ok env)
  unfolding activate_with get_license_by_key
  activate_with-live key offline w up total v found live room =
      rw (up w.calls, found, live)
        (let (seated, outside) = take_seat-live (spend (spend w)) up known room in
          go (take_seat lic device_id device_name (spend (spend w))) seated
            (λ n. ap (λ (o : Outside). o.fault n) outside ∙ up n))
    where
      known : has_license lic.id w.db ≡ true
      known =
          has_license-IsRow lic device_id device_name w.db
            (license_select-IsRow (λ l. l.key == key) w.db.products w.db.licenses lic v.ids found)

      go :
          (p : Result (Unit {0}) × World)
          → p.0 ≡ ok tt
          → IsUp p.1
          → (env : Envelope) × ((resume
                (λ _. signed_token s lic device_id (w.outside.clock (suc w.calls)) offline)
                p).0
              ≡ ok env)
      go (ok _, w1) e up1 =
          signed_token-live s lic device_id (w.outside.clock (suc w.calls)) offline w1 total up1
      go (err x, w1) e up1 = absurd (cc)
