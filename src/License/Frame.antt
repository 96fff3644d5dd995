-- ===== src/License/Frame.antt =====
-- internal/license/service.go: the service's calls change devices only.
use seatkey.Store.Devices.{
  touch_device, new_device, deactivate_device, active_device_count, activate_device,
  get_active_device,
}
use seatkey.Store.Licenses.{find_license_by_key, get_license_by_key}
use seatkey.Common.{inr, inl, Bool-cases, geb_ℤ, ℕ, Bool, String, refl, true, false}
use seatkey.Store.Models.{license_status, Device, Status, License, active, revoked, expired}
use seatkey.World.{
  device_limit, time_now, ◌>>=◌, lift, fail_if, Result, Error, attempt, Call, ok, err, ◌>>◌,
}
use seatkey.World.Leaves.{Leaves-query_row, Leaves, Leaves-bind}
use seatkey.Store.Devices.Frame.{
  active_device_count-Leaves, deactivate_device-Leaves, get_active_device-Leaves,
  touch_device-Leaves, activate_device-Leaves, catalog,
}
use seatkey.License.{
  sign, is_not_found, Service, notify, add_seat, new_seat, seat_for, take_seat, signed_token,
  activate_with, validate, deactivate, require_active,
}

fail_if-Leaves :
    {A : Type 0} (b : Bool) (e : Error) (m : Call A)
    → Leaves catalog m
    → Leaves catalog (fail_if b e m)
fail_if-Leaves true e m h w = refl
fail_if-Leaves false e m h w = h w

require_active-Leaves : (status : Status) → Leaves catalog (require_active status)
require_active-Leaves active w = refl
require_active-Leaves revoked w = refl
require_active-Leaves expired w = refl

notify-Leaves :
    (event : String) (lic : License) (dev : Device) → Leaves catalog (notify event lic dev)
unfolding notify
notify-Leaves event lic dev w = refl

get_license_by_key-Leaves : (key : String) → Leaves catalog (get_license_by_key key)
unfolding get_license_by_key
get_license_by_key-Leaves key = Leaves-query_row catalog (find_license_by_key key)

add_seat-Leaves :
    (lic : License) (device_id device_name : String)
    → Leaves catalog (add_seat lic device_id device_name)
unfolding add_seat
add_seat-Leaves lic device_id device_name =
    Leaves-bind catalog (activate_device lic.id device_id device_name) (notify "activation" lic)
      (activate_device-Leaves lic.id device_id device_name) (notify-Leaves "activation" lic)

new_seat-Leaves :
    (lic : License) (device_id device_name : String)
    → Leaves catalog (new_seat lic device_id device_name)
unfolding new_seat
new_seat-Leaves lic device_id device_name =
    Leaves-bind catalog (active_device_count lic.id)
      (λ count.
        fail_if (geb_ℤ count lic.max_devices) device_limit (add_seat lic device_id device_name))
      (active_device_count-Leaves lic.id)
      (λ count.
        fail_if-Leaves (geb_ℤ count lic.max_devices) device_limit
          (add_seat lic device_id device_name) (add_seat-Leaves lic device_id device_name))

seat_for-Leaves :
    (lic : License) (device_id device_name : String) (found : Result Device)
    → Leaves catalog (seat_for lic device_id device_name found)
unfolding seat_for
seat_for-Leaves lic device_id device_name (ok d) w = touch_device-Leaves d.id w
seat_for-Leaves lic device_id device_name (err e) w = elim (Bool-cases (is_not_found e)) [
  | inl missing ↦ rw missing (new_seat-Leaves lic device_id device_name w)
  | inr other ↦ rw other refl
]

take_seat-Leaves :
    (lic : License) (device_id device_name : String)
    → Leaves catalog (take_seat lic device_id device_name)
unfolding take_seat
take_seat-Leaves lic device_id device_name =
    Leaves-bind catalog (attempt (get_active_device lic.id device_id))
      (seat_for lic device_id device_name) (get_active_device-Leaves lic.id device_id)
      (seat_for-Leaves lic device_id device_name)

signed_token-Leaves :
    (s : Service) (lic : License) (device_id : String) (now : ℕ) (offline : Bool)
    → Leaves catalog (signed_token s lic device_id now offline)
unfolding signed_token
signed_token-Leaves s lic device_id now offline =
    Leaves-bind catalog (active_device_count lic.id)
      (λ seats. lift (sign s lic device_id seats now offline)) (active_device_count-Leaves lic.id)
      (λ seats w. refl)

-- The common beginning: a license by its key, and the test of its state.
with_license-Leaves :
    {A : Type 0} (key : String) (rest : License → ℕ → Call A)
    → ((lic : License) (now : ℕ) → Leaves catalog (rest lic now))
    → Leaves catalog (
        get_license_by_key key >>= λ lic.
        time_now >>= λ now. require_active (license_status lic now) >> rest lic now)
with_license-Leaves key rest h =
    Leaves-bind catalog (get_license_by_key key)
      (λ lic. time_now >>= λ now. require_active (license_status lic now) >> rest lic now)
      (get_license_by_key-Leaves key)
      (λ lic.
        Leaves-bind catalog time_now
          (λ now. require_active (license_status lic now) >> rest lic now) (λ w. refl)
          (λ now.
            Leaves-bind catalog (require_active (license_status lic now)) (λ _. rest lic now)
              (require_active-Leaves (license_status lic now)) (λ u. h lic now)))

pub activate_with-Leaves :
    (s : Service) (key device_id device_name : String) (offline : Bool)
    → Leaves catalog (activate_with s key device_id device_name offline)
unfolding activate_with
activate_with-Leaves s key device_id device_name offline =
    with_license-Leaves key
      (λ lic now. take_seat lic device_id device_name >> signed_token s lic device_id now offline)
      (λ lic now.
        Leaves-bind catalog (take_seat lic device_id device_name)
          (λ _. signed_token s lic device_id now offline)
          (take_seat-Leaves lic device_id device_name)
          (λ u. signed_token-Leaves s lic device_id now offline))

pub validate-Leaves :
    (s : Service) (key device_id : String) → Leaves catalog (validate s key device_id)
unfolding validate
validate-Leaves s key device_id =
    with_license-Leaves key
      (λ lic now. get_active_device lic.id device_id >>= λ dev.
        touch_device dev.id >> signed_token s lic device_id now false)
      (λ lic now.
        Leaves-bind catalog (get_active_device lic.id device_id)
          (λ dev. touch_device dev.id >> signed_token s lic device_id now false)
          (get_active_device-Leaves lic.id device_id)
          (λ dev.
            Leaves-bind catalog (touch_device dev.id) (λ _. signed_token s lic device_id now false)
              (touch_device-Leaves dev.id) (λ u. signed_token-Leaves s lic device_id now false)))

pub deactivate-Leaves : (key device_id : String) → Leaves catalog (deactivate key device_id)
unfolding deactivate
deactivate-Leaves key device_id =
    Leaves-bind catalog (get_license_by_key key)
      (λ lic.
        deactivate_device lic.id device_id
        >> notify "deactivation" lic (new_device "" device_id "" 0))
      (get_license_by_key-Leaves key)
      (λ lic.
        Leaves-bind catalog (deactivate_device lic.id device_id)
          (λ _. notify "deactivation" lic (new_device "" device_id "" 0))
          (deactivate_device-Leaves lic.id device_id)
          (λ u. notify-Leaves "deactivation" lic (new_device "" device_id "" 0)))
