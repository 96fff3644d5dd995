-- ===== src/Tests/Seats.antt =====
-- internal/license: the bag of seats and the calls that succeed, at the small shop.
use seatkey.License.Again.{validate-activate_with}
use seatkey.Store.Devices.{
  write_device, upsert_device, active_device_count, get_active_device, activate_device,
}
use seatkey.Crypto.Base64.{symbol, encode}
use seatkey.License.Live.{activate_with-live}
use seatkey.World.{World, ok}
use seatkey.Tests.License.{the_envelope, demo_license}
use seatkey.License.History.{activates}
use seatkey.Toys.{checksum, demo-IsValid, demo, demo_service}
use seatkey.Crypto.{seal, Envelope}
use seatkey.Store.Models.{active, license_status}
use seatkey.Store.Licenses.{get_license_by_key, find_license_by_key, license_select}
use seatkey.License.{
  validate, signed_token, notify, add_seat, new_seat, seat_for, take_seat, token_of, sign,
  activate_with, Service,
}
use seatkey.License.History.Refinement.{perform-SeatStep, SeatStep}
use seatkey.Common.{ℕ, suc, inr, none, [], some, false, true, ◌≡◌, refl}

perform-SeatStep_example : SeatStep demo_service (activates "SEAT-1" "laptop" "" false) demo
perform-SeatStep_example =
    perform-SeatStep demo_service (activates "SEAT-1" "laptop" "" false) demo demo-IsValid

-- A service that writes every token as the same text.
abbrev plain : Service
plain = record demo_service {
  token_json = record { marshal = λ t. some []; unmarshal = λ text. none };
}

demo_license-found : find_license_by_key "SEAT-1" demo.db ≡ some demo_license
unfolding license_select
demo_license-found = refl

demo_license-live : license_status demo_license 1001 ≡ active
unfolding license_status
demo_license-live = refl

activate_with-live_example :
    (env : Envelope) × ((activate_with plain "SEAT-1" "laptop" "" true demo).0 ≡ ok env)
activate_with-live_example =
    activate_with-live plain demo_license "laptop" "" "SEAT-1" true demo (λ n. refl)
      (λ seats. ([], refl)) demo-IsValid demo_license-found demo_license-live (inr (refl, refl))

-- The laptop has a file for offline use, and goes online later.
abbrev seated : World
seated = (activate_with plain "SEAT-1" "laptop" "" true demo).1

seated_ok : activate_with plain "SEAT-1" "laptop" "" true demo ≡ (ok the_envelope, seated)
unfolding activate_with sign seatkey.Crypto.sign seal token_of encode symbol get_license_by_key
    take_seat seat_for new_seat add_seat notify signed_token license_status activate_device
    get_active_device active_device_count upsert_device write_device license_select checksum
seated_ok = refl

seated_up : (n : ℕ) → seated.outside.fault n ≡ false
unfolding activate_with sign seatkey.Crypto.sign seal token_of encode symbol get_license_by_key
    take_seat seat_for new_seat add_seat notify signed_token license_status activate_device
    get_active_device active_device_count upsert_device write_device license_select checksum
seated_up n = refl

seated_live : license_status demo_license (seated.outside.clock (suc seated.calls)) ≡ active
unfolding activate_with sign seatkey.Crypto.sign seal token_of encode symbol get_license_by_key
    take_seat seat_for new_seat add_seat notify signed_token license_status activate_device
    get_active_device active_device_count upsert_device write_device license_select checksum
seated_live = refl

validate-activate_with_example :
    (env : Envelope) × ((validate plain "SEAT-1" "laptop" seated).0 ≡ ok env)
validate-activate_with_example =
    validate-activate_with plain "SEAT-1" "laptop" "" true demo_license demo seated the_envelope
      demo-IsValid demo_license-found seated_ok seated_live seated_up (λ seats. ([], refl))
