-- ===== src/License.antt =====
-- internal/license: the token and the service. A duration is a number of nanoseconds.
pub mod Sealed
pub mod Frame
pub mod Seat
pub mod Outcome
pub mod Release
pub mod Renewal
pub mod Deadline
pub mod Verified
pub mod History
pub mod Race
pub mod Seats
pub mod Live
pub mod Again
use seatkey.Common.{
  ℕ, suc, ◌+◌, ◌*◌, Bool, true, false, Option, none, some, String, ℤ, geb_ℤ, ltb, if◌then◌else◌,
}
use seatkey.Store.Models.{
  status_text, License, Device, Status, revoked, expired, active, license_status,
}
use seatkey.Store.Licenses.{get_license_by_key}
use seatkey.Store.Devices.{
  active_device_count, get_active_device, activate_device, touch_device, deactivate_device,
  new_device,
}
use seatkey.Crypto.{Bytes, Ed25519, Json, Envelope}
use seatkey.Crypto
use seatkey.World.{
  World, Error, not_found, device_limit, Result, ok, err, Call, pure, fail, fail_if, lift, attempt,
  time_now, emit, Event, ◌>>=◌, ◌>>◌,
}
use seatkey.World

abbrev pub hour : ℕ
hour = 3600000000000

abbrev pub online_grace_period : ℕ
online_grace_period = 7 * 24 * hour

abbrev pub offline_horizon : ℕ
offline_horizon = 100 * 365 * 24 * hour

pub record Token : Type 0 where
  pub license_key : String
  pub product : String
  pub customer_name : String
  pub device_id : String
  pub seats_max : ℤ
  pub seats_used : ℕ
  pub status : String
  pub issued_at : ℕ
  pub valid_until : ℕ
  pub license_exp : Option ℕ
  pub offline : Bool

-- The fields that the methods read, with the primitives of the packages that it signs with. The
-- store and the notifier are parts of the world that a call runs in.
pub record Service : Type 0 where
  pub ed25519 : Ed25519
  pub token_json : Json Token
  pub priv : Bytes
  pub public_key : Bytes

abbrev pub new_service : Ed25519 → Json Token → Bytes × Bytes → Service
new_service e j (priv, public_key) = record {
  ed25519 = e;
  token_json = j;
  priv = priv;
  public_key = public_key;
}

-- `validUntil`, cut down to the license's own expiry.
abbrev pub cut : ℕ → Option ℕ → ℕ
cut valid_until none = valid_until
cut valid_until (some expiry) = if ltb expiry valid_until then expiry else valid_until

unfoldable pub token_of : License → String → ℕ → ℕ → Bool → Token
token_of lic device_id seats_used now offline = record {
  license_key = lic.key;
  product = lic.product_name;
  customer_name = lic.customer_name;
  device_id = device_id;
  seats_max = lic.max_devices;
  seats_used = seats_used;
  status = status_text (license_status lic now);
  issued_at = now;
  valid_until =
      cut (now + (if offline then offline_horizon else online_grace_period)) lic.expires_at;
  license_exp = lic.expires_at;
  offline = offline;
}

unfoldable pub sign : Service → License → String → ℕ → ℕ → Bool → Result Envelope
sign s lic device_id seats_used now offline =
    Crypto.sign s.ed25519 s.token_json s.priv (token_of lic device_id seats_used now offline)

-- The entries of the map that `notify` builds.
abbrev pub event_of : String → License → Device → ℕ → Event
event_of event lic dev now = record {
  event = event;
  license_key = lic.key;
  product = lic.product_name;
  customer_name = lic.customer_name;
  device_id = dev.device_id;
  timestamp = now;
}

unfoldable pub notify : String → License → Device → Call (Unit {0})
notify event lic dev = do now ← time_now; emit (event_of event lic dev now)

-- `if status := lic.Status(now); status != "active"`.
abbrev pub require_active : Status → Call (Unit {0})
require_active active = pure tt
require_active revoked = fail (World.license_status revoked)
require_active expired = fail (World.license_status expired)

-- `errors.Is(err, store.ErrNotFound)`.
abbrev pub is_not_found : Error → Bool
is_not_found not_found = true
is_not_found _ = false

-- The case of a device that holds no seat, once the count is known to be below the limit.
unfoldable pub add_seat : License → String → String → Call (Unit {0})
add_seat lic device_id device_name = do
  dev ← activate_device lic.id device_id device_name
  notify "activation" lic dev

-- The whole case, with the check of the count.
unfoldable pub new_seat : License → String → String → Call (Unit {0})
new_seat lic device_id device_name = do
  count ← active_device_count lic.id
  fail_if (geb_ℤ count lic.max_devices) device_limit (add_seat lic device_id device_name)

-- The `switch` on what `GetActiveDevice` returned.
unfoldable pub seat_for : License → String → String → Result Device → Call (Unit {0})
seat_for lic device_id device_name (ok dev) = touch_device dev.id
seat_for lic device_id device_name (err e) =
    if is_not_found e then new_seat lic device_id device_name else fail e

unfoldable pub take_seat : License → String → String → Call (Unit {0})
take_seat lic device_id device_name = do
  found ← attempt (get_active_device lic.id device_id)
  seat_for lic device_id device_name found

-- The last steps of `activate` and `Validate`.
unfoldable pub signed_token : Service → License → String → ℕ → Bool → Call Envelope
signed_token s lic device_id now offline = do
  seats ← active_device_count lic.id
  lift (sign s lic device_id seats now offline)

-- The private method `activate`.
unfoldable pub activate_with : Service → String → String → String → Bool → Call Envelope
activate_with s key device_id device_name offline = do
  lic ← get_license_by_key key
  now ← time_now
  require_active (license_status lic now)
  take_seat lic device_id device_name
  signed_token s lic device_id now offline

unfoldable pub activate : Service → String → String → String → Call Envelope
activate s key device_id device_name = activate_with s key device_id device_name false

unfoldable pub offline_activate : Service → String → String → String → Call Envelope
offline_activate s key device_id device_name = activate_with s key device_id device_name true

unfoldable pub validate : Service → String → String → Call Envelope
validate s key device_id = do
  lic ← get_license_by_key key
  now ← time_now
  require_active (license_status lic now)
  dev ← get_active_device lic.id device_id
  touch_device dev.id
  signed_token s lic device_id now false

-- The device of the event has its device id only; the rest is Go's zero value.
unfoldable pub deactivate : String → String → Call (Unit {0})
deactivate key device_id = do
  lic ← get_license_by_key key
  deactivate_device lic.id device_id
  notify "deactivation" lic (new_device "" device_id "" 0)
