-- ===== src/Tests/Start.antt =====
-- cmd/seatkeyd: a server that starts twice on one database.
use seatkey.Store.Devices.{
  write_device, upsert_device, active_device_count, get_active_device, activate_device,
}
use seatkey.Store.Models.{license_status}
use seatkey.Store.Licenses.{license_select, get_license_by_key}
use seatkey.Web.Api.{malformed}
use seatkey.Web.Http.{redirect}
use seatkey.Crypto.Base64.{symbol, encode}
use seatkey.Crypto.{seal}
use seatkey.World.{spend, ok}
use seatkey.Toys.{
  is_some_9000, is_two, is_demo_token, checksum, demo-IsValid, toy_json-laws, toy_ed25519-laws,
  demo, toy_json, toy_ed25519,
}
use seatkey.Tests.Dashboard.{pair_loaded, toy_bcrypt, pair, seeded}
use seatkey.Tests.License.{activated_shop, the_envelope}
use seatkey.Seatkeyd.Start.{new_server, config_of, Config, start, Packages}
use seatkey.Seatkeyd.Issued.{start-Verifies, Verifies}
use seatkey.License.{
  signed_token, notify, add_seat, new_seat, seat_for, take_seat, token_of, sign, new_service,
  activate_with, Service,
}
use seatkey.Common.{true, none, ◌==◌, false, if◌then◌else◌, ◌≡◌, refl}

abbrev packages : Packages
packages = record {
  ed25519 = toy_ed25519;
  token_json = toy_json;
  bcrypt = toy_bcrypt;
  read_request = λ text. none;
  write_envelope = λ env. none;
  static_file = λ r. redirect "/";
  decode = λ r. malformed "no JSON";
}

abbrev config : Config
config = config_of (λ name. if name == "SEATKEY_COOKIE_SECURE" then "true" else "")

abbrev other_config : Config
other_config = config_of (λ name. if name == "SEATKEY_ADDR" then ":80" else "")

abbrev service : Service
service = new_service toy_ed25519 toy_json pair

start_ok :
    (c : Config)
    → start packages c seeded ≡ (ok (new_server packages service c.cookie_secure), spend seeded)
unfolding start
start_ok c = rw pair_loaded refl

issued_ok :
    activate_with service "SEAT-1" "laptop" "" false demo ≡ (ok the_envelope, activated_shop)
unfolding activate_with sign seatkey.Crypto.sign seal token_of encode symbol get_license_by_key
    take_seat seat_for new_seat add_seat notify signed_token license_status activate_device
    get_active_device active_device_count upsert_device write_device license_select checksum
    is_demo_token is_two is_some_9000
issued_ok = refl

start-Verifies_example :
    Verifies packages service.public_key the_envelope "SEAT-1" "laptop" false demo
start-Verifies_example =
    start-Verifies packages config other_config seeded (spend seeded) demo activated_shop seeded
      (spend seeded) (new_server packages service true) (new_server packages service false) "SEAT-1"
      "laptop" "" false the_envelope toy_ed25519-laws toy_json-laws (start_ok config) demo-IsValid
      issued_ok refl (start_ok other_config)
