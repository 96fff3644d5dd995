-- ===== src/Tests/Pages.antt =====
-- internal/web: the license pages and the routing table at the small shop.
use seatkey.Web.Routes.Apart.{serve_http-member}
use mathlib.Core.List.{Memᴰ}
use seatkey.Web.Http.{head}
use seatkey.Web.Admin.Expiry.{license_status-date_text}
use seatkey.Web.Forms.{day, midnight}
use seatkey.Web.Forms.Dates.{date_text}
use seatkey.Web.Api.{malformed}
use seatkey.Web.Admin.Pages.{handle_license_offline_activate, expires_at_of, handle_license_create}
use seatkey.Tests.License.{demo_license}
use seatkey.Tests.Dashboard.{office, dashboard}
use seatkey.Toys.{demo-IsValid, demo}
use seatkey.Web.Routes.{
  dashboard_routes, literal, match_segments, get_route, public_routes, routes, match_pattern, Route,
  handle_healthz, serve_http, Site,
}
use seatkey.Store.Models.{active, License, license_status}
use seatkey.Web.Routes.Sessions.{serve_http-Protected, Protected}
use seatkey.Web.Admin.Creation.{handle_license_create-Issued, Issued}
use seatkey.Web.Auth.{Server}
use seatkey.Web.Http.{redirect, post, Request}
use seatkey.Web.Admin.Offline.{handle_license_offline_activate-OfflineIssued, OfflineIssued}
use seatkey.Common.{arith, ◌+◌, ◌==◌, ◌≤◌, if◌then◌else◌, some, [], ◌↔◌, ◌∷◌, ◌≡◌, refl}

abbrev order : Request
order = record {
  method = post;
  segments = "products" ∷ "P1" ∷ "licenses" ∷ [];
  session = some "3f";
  form =
      λ name. if name == "customer_name" then "Bob" else if name == "max_devices" then "3" else "";
  path = λ name. "P1";
  query = λ name. "";
}

handle_license_create-Issued_example : Issued order demo (handle_license_create order demo)
handle_license_create-Issued_example = handle_license_create-Issued order demo demo-IsValid

abbrev until_february : License
until_february = record demo_license { expires_at = expires_at_of (date_text 2027 2 28) }

license_status-date_text_example :
    (license_status until_february 1000 ≡ active) ↔ (1000 ≤ midnight 2027 2 28 + day)
license_status-date_text_example =
    license_status-date_text until_february 2027 2 28 1000
      (omega arith, omega arith, omega arith, omega arith, omega arith) refl refl

abbrev machine : Request
machine = record order {
  segments = "licenses" ∷ "L1" ∷ "offline-activate" ∷ [];
  form = λ name. "laptop";
  path = λ name. "L1";
}

-- The request is the name of the device.
abbrev vendor : Server
vendor = record dashboard {
  read_request = λ text. some (record { device_id = text; device_name = "" });
  write_envelope = λ env. some env.signature;
}

handle_license_offline_activate-OfflineIssued_example :
    OfflineIssued vendor machine 1002 demo (handle_license_offline_activate vendor machine demo)
handle_license_offline_activate-OfflineIssued_example =
    handle_license_offline_activate-OfflineIssued vendor machine demo demo-IsValid

abbrev site : Site
site = record {
  server = vendor;
  static_file = λ r. redirect "/";
  decode = λ r. malformed "no JSON";
}

serve_http-Protected_example : Protected order office (serve_http site order office)
serve_http-Protected_example = serve_http-Protected site order office refl

abbrev health : Route
health = get_route (literal "healthz" ∷ []) handle_healthz

abbrev probe : Request
probe = record order { method = head; segments = "healthz" ∷ [] }

health-member : Memᴰ health (routes site)
unfolding routes public_routes dashboard_routes
health-member = Memᴰ.tail (Memᴰ.tail (Memᴰ.tail (Memᴰ.tail (Memᴰ.head refl))))

health-taken : match_pattern health.pattern probe.segments probe.path ≡ some probe.path
unfolding match_pattern match_segments
health-taken = refl

serve_http-member_example : serve_http site probe ≡ handle_healthz probe
serve_http-member_example =
    serve_http-member site probe health probe.path health-member refl health-taken
