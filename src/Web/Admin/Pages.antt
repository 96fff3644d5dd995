-- ===== src/Web/Admin/Pages.antt =====
-- internal/web/admin.go: the pages of products and licenses, the creation of licenses, and offline
-- activation.
use seatkey.Web.Admin.{license_address, or_page_not_found}
use seatkey.License.{offline_activate}
use seatkey.Web.Forms.{atoi, parse_date, day, url_escape}
use seatkey.Store.Devices.{list_devices, active_device_count}
use seatkey.Store.Products.{get_product}
use seatkey.Store.Licenses.{create_license, list_licenses, get_license, CreateLicenseParams}
use seatkey.Crypto.{Envelope}
use seatkey.Store.Models.{license_status, status_text, License}
use seatkey.Web.Http.{
  product_page, license_page, render, reply, checked, proceed, server_error, redirect, LicenseView,
  Response, Handler, Request,
}
use seatkey.Common.{
  suc, [], none, ◌+◌, pos, ◌∷◌, ◌==◌, some, ℕ, if◌then◌else◌, ℤ, String, Option, List,
}
use seatkey.Web.Auth.{OfflineRequest, Server}
use Prim.Native.String
use seatkey.World
use seatkey.World.{
  marshal, time_now, pure, device_limit, Call, Error, World, Result, ok, err, not_found, ◌>>=◌,
  ◌>>◌,
}

unfoldable pub to_license_view : License → Call LicenseView
to_license_view l = do
  count ← active_device_count l.id
  now ← time_now
  pure (record {
    license = l;
    status_text = status_text (license_status l now);
    device_count = count;
    expires = l.expires_at;
    created = l.created_at;
  })

-- The loop over the licenses, which stops at the first error.
unfoldable pub to_license_views : List License → Call (List LicenseView)
to_license_views [] = pure []
to_license_views (l ∷ licenses) = do
  view ← to_license_view l
  views ← to_license_views licenses
  pure (view ∷ views)

-- `http.NotFound` for a missing row, a server error for another failure, before the rest.
abbrev pub found_or : {A : Type 0} → Call A → (A → Handler) → Handler
found_or m next w = proceed or_page_not_found (m w) next

unfoldable pub handle_product_detail : Request → Handler
handle_product_detail r = found_or (get_product (r.path "id")) λ product.
    checked (list_licenses (r.path "id")) λ licenses.
      checked (to_license_views licenses) λ views. reply (render (product_page product views))

-- `if err != nil || maxDevices < 1`.
unfoldable pub at_least_one : Option ℤ → ℤ
at_least_one (some (pos (suc n))) = pos (suc n)
at_least_one _ = pos 1

unfoldable pub max_devices_of : String → ℤ
unfolding at_least_one
max_devices_of raw = at_least_one (atoi raw)

abbrev pub next_midnight : Option ℕ → Option ℕ
next_midnight none = none
next_midnight (some t) = some (t + day)

-- A text that is no date is as good as none.
unfoldable pub expires_at_of : String → Option ℕ
expires_at_of raw = if raw == "" then none else next_midnight (parse_date raw)

abbrev pub params_of : Request → CreateLicenseParams
params_of r = record {
  product_id = r.path "id";
  customer_name = r.form "customer_name";
  customer_email = r.form "customer_email";
  max_devices = max_devices_of (r.form "max_devices");
  expires_at = expires_at_of (r.form "expires_at");
}

unfoldable pub handle_license_create : Request → Handler
handle_license_create r =
    found_or (get_product (r.path "id"))
      λ product. checked (create_license (params_of r)) λ l. reply (license_address l.id)

abbrev pub absent_if_empty : String → Option String
absent_if_empty raw = if raw == "" then none else some raw

unfoldable pub handle_license_detail : Request → Handler
handle_license_detail r = found_or (get_license (r.path "id")) λ l.
    checked (list_devices (r.path "id")) λ devices. checked (to_license_view l) λ view.
      reply (render (license_page view devices (absent_if_empty (r.query "offline_result"))))

-- The redirection to the license's page with a text to show.
abbrev pub show_result : String → String → Response
show_result id text =
    redirect
      (String.◌++◌ "/licenses/" (String.◌++◌ id (String.◌++◌ "?offline_result=" (url_escape text))))

unfoldable pub offline_message : Error → String
offline_message device_limit = "device limit reached for this license"
offline_message (World.license_status status) = "license is not active"
offline_message _ = "could not issue offline activation"

-- The answer with the envelope's text, or to a failure to write it.
abbrev pub envelope_result : String → Option String → Response
envelope_result id none = server_error marshal
envelope_result id (some text) = show_result id text

abbrev pub offline_answer : Server → String → Result Envelope × World → Response × World
offline_answer s id (ok env, w) = (envelope_result id (s.write_envelope env), w)
offline_answer s id (err e, w) = (show_result id (offline_message e), w)

-- The request, once it is read; one without a device is refused as one that cannot be read.
unfoldable pub issue_offline : Server → String → License → Option OfflineRequest → Handler
issue_offline s id l none w =
    (show_result id "invalid request file: could not find a device_id field", w)
issue_offline s id l (some req) w =
    if req.device_id == ""
    then (show_result id "invalid request file: could not find a device_id field", w)
    else offline_answer s id (offline_activate s.licenses l.key req.device_id req.device_name w)

unfoldable pub handle_license_offline_activate : Server → Request → Handler
handle_license_offline_activate s r =
    found_or (get_license (r.path "id"))
      λ l. issue_offline s (r.path "id") l (s.read_request (r.form "request_json"))
