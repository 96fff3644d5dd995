-- ===== src/Tests/License.antt =====
-- internal/license: its theorems at the small shop.
use seatkey.Crypto.Base64.{symbol, encode}
use seatkey.Store.Devices.{
  write_device, upsert_device, active_device_count, get_active_device, activate_device, count_seats,
}
use seatkey.Crypto
use seatkey.Crypto.{seal, verify, Envelope}
use seatkey.Store.Licenses.{license_select, get_license_by_key, license_of, find_license_by_key}
use seatkey.Store.Valid.{IsValid}
use seatkey.Store.Models.{active, license_status, License}
use seatkey.Toys.{
  is_some_9000, is_two, is_demo_token, checksum, demo, demo_service, demo_db, demo_row,
  demo-IsValid, calm, toy_ed25519-laws, toy_json-laws, toy_ed25519, toy_json,
}
use seatkey.Common.{
  to_nat, ◌+◌, ◌↔◌, ◌≤◌, eq_iff, arith, ◌≢◌, ℕ, Bool, List, refl, ◌∷◌, [], pos, some, none, false,
  true, ◌≡◌,
}
use seatkey.World.{ok, World}
use seatkey.License.{
  signed_token, notify, add_seat, new_seat, seat_for, take_seat, sign, deactivate, token_of,
  validate, activate_with,
}
use seatkey.License.Outcome.{Activation, activate_with-Activation}
use seatkey.License.Release.{Release, deactivate-Release}
use seatkey.License.Renewal.{Renewal, validate-Renewal}
use seatkey.License.History.{
  revokes, deactivates, activates, creates_license, creates_product, Op, run,
}
use seatkey.License.History.Limits.{history-IsValid, started}
use seatkey.License.History.Revoked.{revoked_for_good}
use seatkey.License.Verified.{activated_token}
use seatkey.License.Deadline.{token_of-deadline, span, NotAfter}

activate_with-Activation_example :
    Activation "SEAT-1" "laptop" demo_service false 1001 demo
      (activate_with demo_service "SEAT-1" "laptop" "Ann's laptop" false demo)
activate_with-Activation_example =
    activate_with-Activation "SEAT-1" "laptop" demo_service false "Ann's laptop" demo demo-IsValid

validate-Renewal_example :
    Renewal "SEAT-1" "desk" demo_service 1001 demo (validate demo_service "SEAT-1" "desk" demo)
validate-Renewal_example = validate-Renewal "SEAT-1" "desk" demo_service demo demo-IsValid

deactivate-Release_example : Release "SEAT-1" "desk" demo (deactivate "SEAT-1" "desk" demo)
deactivate-Release_example = deactivate-Release "SEAT-1" "desk" demo demo-IsValid

-- A shop that opens, sells one license, and whose customer moves from one machine to another.
abbrev moving : List Op
moving =
    creates_product "Editor"
    ∷ creates_license (record {
      product_id = "8c6f";
      customer_name = "Ann";
      customer_email = "";
      max_devices = pos 1;
      expires_at = none;
    })
    ∷ activates "SEAT-0123-4567-89AB-CDEF" "desk" "" false
    ∷ activates "SEAT-0123-4567-89AB-CDEF" "laptop" "" true
    ∷ deactivates "SEAT-0123-4567-89AB-CDEF" "desk"
    ∷ revokes "8c6f"
    ∷ []

history-IsValid_example : IsValid (run demo_service moving (started "seatkey.db" calm)).db
history-IsValid_example = history-IsValid demo_service moving "seatkey.db" calm

abbrev pub the_envelope : Envelope
the_envelope = record { payload = ""; signature = "AA==" }

abbrev pub activated_shop : World
activated_shop = (activate_with demo_service "SEAT-1" "laptop" "" false demo).1

abbrev pub demo_license : License
demo_license = license_of demo_row "Editor"

pub demo_license-active : license_status demo_license 1000 ≡ active
unfolding license_status
demo_license-active = refl

abbrev revoked_shop : World
revoked_shop = record demo {
  db = record demo_db { licenses = record demo_row { revoked_at = some 7 } ∷ [] };
}

revoked_shop-IsValid : IsValid revoked_shop.db
revoked_shop-IsValid = record {
  ids = (refl, tt);
  keys = (refl, tt);
  rows = (refl, tt);
  limits = λ id. ground (arith, eq_iff "L1" id);
}

revoked_for_good_example :
    ((offline : Bool)
      → (activate_with demo_service "SEAT-1" "laptop" "" offline
          (run demo_service moving revoked_shop)).0
        ≢ ok the_envelope)
    × ((validate demo_service "SEAT-1" "laptop" (run demo_service moving revoked_shop)).0
        ≢ ok the_envelope)
revoked_for_good_example =
    revoked_for_good "SEAT-1" "laptop" "" demo_service moving revoked_shop the_envelope
      revoked_shop-IsValid (record demo_row { revoked_at = some 7 }, refl, refl)

pub activated_ok :
    activate_with demo_service "SEAT-1" "laptop" "" false demo ≡ (ok the_envelope, activated_shop)
unfolding activate_with sign seatkey.Crypto.sign seal token_of encode symbol get_license_by_key
    take_seat seat_for new_seat add_seat notify signed_token license_status activate_device
    get_active_device active_device_count upsert_device write_device license_select checksum
    is_demo_token is_two is_some_9000
activated_ok = refl

activated_token_example :
    (lic : License) × (find_license_by_key "SEAT-1" demo.db ≡ some lic)
    × (license_status lic 1001 ≡ active)
    × (verify toy_ed25519 toy_json demo_service.public_key the_envelope
        ≡ ok (token_of lic "laptop" (count_seats lic.id activated_shop.db) 1001 false))
    × (count_seats lic.id activated_shop.db ≤ to_nat lic.max_devices)
activated_token_example =
    activated_token demo_service [] "SEAT-1" "laptop" "" false demo activated_shop the_envelope
      toy_ed25519-laws toy_json-laws (refl, refl) demo-IsValid activated_ok

token_of-deadline_example :
    let tok = token_of demo_license "desk" 1 1000 false in
    ((t : ℕ) → (t ≤ tok.valid_until) ↔ ((t ≤ 1000 + span false) × NotAfter t (some 9000)))
    × (1000 ≤ tok.valid_until)
    × (tok.status ≡ "active")
token_of-deadline_example = token_of-deadline demo_license "desk" 1 1000 false demo_license-active
