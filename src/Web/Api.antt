-- ===== src/Web/Api.antt =====
-- internal/web/api.go: the public license-check API. Decoding a request's body is a parameter, with
-- the text of its error.
pub mod Answers
pub mod Others
use Prim.Native.String
use seatkey.Crypto.{encode_public_key}
use seatkey.Store.Models.{status_text, Status}
use seatkey.Common.{String, ◌==◌, ◌||◌, if◌then◌else◌}
use seatkey.World
use seatkey.World.{World, Error, not_found, device_limit}
use seatkey.License.{Service, activate, validate, deactivate}
use seatkey.Web.Http.{
  Response, Handler, answer, write_json, write_api_error, envelope, flag_ok, public_key,
}

pub record ActivateRequest : Type 0 where
  pub license_key : String
  pub device_id : String
  pub device_name : String

-- What `decodeJSON` gives: a request, or the decoder's complaint.
pub data Decoded : Type 0 where
  decoded : ActivateRequest → Decoded
  malformed : String → Decoded

-- The text of `fmt.Errorf("%w: %s", ErrLicenseStatus, status)`.
abbrev pub status_message : Status → String
status_message status = String.◌++◌ "license is not active: " (status_text status)

unfoldable pub map_license_error : Error → Response
map_license_error not_found = write_api_error 404 "not_found" "license key or device not found"
map_license_error device_limit =
    write_api_error 409 "device_limit_reached" "this license has reached its device limit"
map_license_error (World.license_status status) =
    write_api_error 403 "license_not_active" (status_message status)
map_license_error _ = write_api_error 500 "internal_error" "internal error"

-- The checks that the three handlers have in common, and then the call.
unfoldable pub with_request : Decoded → (ActivateRequest → Handler) → Handler
with_request (malformed complaint) next w = (write_api_error 400 "invalid_request" complaint, w)
with_request (decoded req) next w =
    if req.license_key == "" || req.device_id == ""
    then (write_api_error 400 "invalid_request" "license_key and device_id are required", w)
    else next req w

unfoldable pub handle_api_activate : Service → Decoded → Handler
handle_api_activate s body = with_request body λ req.
    answer (λ env. write_json 200 (envelope env)) map_license_error
      (activate s req.license_key req.device_id req.device_name)

unfoldable pub handle_api_validate : Service → Decoded → Handler
handle_api_validate s body = with_request body λ req.
    answer (λ env. write_json 200 (envelope env)) map_license_error
      (validate s req.license_key req.device_id)

unfoldable pub handle_api_deactivate : Decoded → Handler
handle_api_deactivate body = with_request body λ req.
    answer (λ _. write_json 200 flag_ok) map_license_error
      (deactivate req.license_key req.device_id)

unfoldable pub handle_api_pubkey : Service → Handler
handle_api_pubkey s w = (write_json 200 (public_key (encode_public_key s.public_key) "ed25519"), w)
