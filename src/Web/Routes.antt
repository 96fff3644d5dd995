-- ===== src/Web/Routes.antt =====
-- internal/web/server.go: the routing table, and the part of net/http's ServeMux that it uses. A path is
-- the list of the texts between its slashes; cleaning it is the multiplexer's and is done.
use seatkey.Web.Admin.Pages.{
  handle_license_offline_activate, handle_license_detail, handle_license_create,
  handle_product_detail,
}
use seatkey.Web.Admin.{
  handle_webhook_settings, handle_settings, handle_device_deactivate, handle_license_revoke,
  handle_product_create, handle_products_list,
}
use seatkey.Web.Api.{
  handle_api_pubkey, handle_api_deactivate, handle_api_validate, handle_api_activate, Decoded,
}
use seatkey.Web.Http.{
  redirect_to, head, get, post, page_not_found, redirect, text, reply, Handler, write_json, Request,
  Response, Method,
}
use seatkey.Common.{
  some, map, ◌==◌, true, false, [], ◌∷◌, ◌++◌, if◌then◌else◌, Bool, none, Option, List, String,
}
use seatkey.Web.Auth.{
  handle_change_password, handle_logout, handle_login, handle_setup, require_auth, Server,
}
pub mod Sessions
pub mod Apart
use Prim.Native.String

pub data Segment : Type 0 where
  literal : String → Segment
  wildcard : String → Segment

-- A pattern that ends in a slash takes every path below it.
pub data Pattern : Type 0 where
  exact : List Segment → Pattern
  below : String → Pattern

pub record Route : Type 0 where
  pub allows : Method → Bool
  pub pattern : Pattern
  pub handler : Request → Handler

-- A route for GET is one for HEAD.
abbrev pub is_get : Method → Bool
is_get get = true
is_get head = true
is_get _ = false

abbrev pub is_post : Method → Bool
is_post post = true
is_post _ = false

-- The package's files, and the body of a request to the API as it is decoded.
pub record Site : Type 0 where
  pub server : Server
  pub static_file : Request → Response
  pub decode : Request → Decoded

abbrev pub bind : String → String → (String → String) → String → String
bind name value path key = if key == name then value else path key

-- The values of the wildcards, over those already known. A wildcard takes no empty text.
unfoldable pub match_segments :
    List Segment → List String → (String → String) → Option (String → String)
match_segments [] [] path = some path
match_segments [] (part ∷ parts) path = none
match_segments (segment ∷ segments) [] path = none
match_segments (literal name ∷ segments) (part ∷ parts) path =
    let rest = match_segments segments parts path in if name == part then rest else none
match_segments (wildcard name ∷ segments) (part ∷ parts) path =
    let rest = match_segments segments parts (bind name part path) in
    if part == "" then none else rest

unfoldable pub match_pattern : Pattern → List String → (String → String) → Option (String → String)
match_pattern (exact segments) parts path = match_segments segments parts path
match_pattern (below first) [] path = none
match_pattern (below first) (part ∷ []) path = none
match_pattern (below first) (part ∷ next ∷ parts) path = if first == part then some path else none

abbrev pub get_route : List Segment → (Request → Handler) → Route
get_route segments handler = record { allows = is_get; pattern = exact segments; handler = handler }

abbrev pub post_route : List Segment → (Request → Handler) → Route
post_route segments handler = record {
  allows = is_post;
  pattern = exact segments;
  handler = handler;
}

unfoldable pub handle_healthz : Request → Handler
handle_healthz r = reply (write_json 200 (text "ok"))

unfoldable pub handle_home : Request → Handler
handle_home r = reply (redirect "/products")

-- A path that lacks only the slash of a pattern is redirected by the multiplexer; the query that it
-- keeps is left out.
abbrev pub moved_to_static : Response
moved_to_static = write_json 307 (redirect_to "/static/")

-- The public routes: the API, the health check, setup, login and logout, and the files.
unfoldable pub public_routes : Site → List Route
public_routes s =
    post_route (literal "v1" ∷ literal "activate" ∷ [])
      (λ r. handle_api_activate s.server.licenses (s.decode r))
    ∷ post_route (literal "v1" ∷ literal "validate" ∷ [])
        (λ r. handle_api_validate s.server.licenses (s.decode r))
    ∷ post_route (literal "v1" ∷ literal "deactivate" ∷ [])
        (λ r. handle_api_deactivate (s.decode r))
    ∷ get_route (literal "v1" ∷ literal "pubkey" ∷ []) (λ r. handle_api_pubkey s.server.licenses)
    ∷ get_route (literal "healthz" ∷ []) handle_healthz
    ∷ get_route (literal "setup" ∷ []) (handle_setup s.server)
    ∷ post_route (literal "setup" ∷ []) (handle_setup s.server)
    ∷ get_route (literal "login" ∷ []) (handle_login s.server)
    ∷ post_route (literal "login" ∷ []) (handle_login s.server)
    ∷ post_route (literal "logout" ∷ []) (handle_logout s.server)
    ∷ record { allows = is_get; pattern = below "static"; handler = λ r. reply (s.static_file r) }
    ∷ get_route (literal "static" ∷ []) (λ r. reply moved_to_static)
    ∷ []

-- The pages of the dashboard, before the session's guard.
unfoldable pub dashboard_routes : Server → List Route
dashboard_routes s =
    get_route (literal "" ∷ []) handle_home
    ∷ get_route (literal "products" ∷ []) handle_products_list
    ∷ post_route (literal "products" ∷ []) handle_product_create
    ∷ get_route (literal "products" ∷ wildcard "id" ∷ []) handle_product_detail
    ∷ post_route (literal "products" ∷ wildcard "id" ∷ literal "licenses" ∷ [])
        handle_license_create
    ∷ get_route (literal "licenses" ∷ wildcard "id" ∷ []) handle_license_detail
    ∷ post_route (literal "licenses" ∷ wildcard "id" ∷ literal "revoke" ∷ []) handle_license_revoke
    ∷ post_route (literal "licenses" ∷ wildcard "id" ∷ literal "offline-activate" ∷ [])
        (handle_license_offline_activate s)
    ∷ post_route
        (literal "licenses"
          ∷ wildcard "id"
          ∷ literal "devices"
          ∷ wildcard "deviceID"
          ∷ literal "deactivate"
          ∷ [])
        handle_device_deactivate
    ∷ get_route (literal "settings" ∷ []) (handle_settings s)
    ∷ post_route (literal "settings" ∷ literal "webhook" ∷ []) handle_webhook_settings
    ∷ post_route (literal "settings" ∷ literal "password" ∷ []) (handle_change_password s)
    ∷ []

abbrev pub guarded : Route → Route
guarded route = record route { handler = require_auth route.handler }

unfoldable pub routes : Site → List Route
routes s = public_routes s ++ map guarded (dashboard_routes s.server)

-- What the multiplexer answers to a path that no route takes, by any method.
abbrev pub method_not_allowed : Response
method_not_allowed = write_json 405 (text "Method Not Allowed")

-- A route that takes the path and allows the method is run; the rest of the table is told whether the
-- path was taken.
abbrev pub take :
    Option (String → String)
    → Bool
    → Bool
    → (Bool → Handler)
    → ((String → String) → Handler)
    → Handler
take none allowed seen rest run = rest seen
take (some path) true seen rest run = run path
take (some path) false seen rest run = rest true

-- `ServeHTTP` over the table. `seen` says that a route took the path.
unfoldable pub serve_from : List Route → Bool → Request → Handler
serve_from [] seen r = reply (if seen then method_not_allowed else page_not_found)
serve_from (route ∷ table) seen r =
    take (match_pattern route.pattern r.segments r.path) (route.allows r.method) seen
      (λ b. serve_from table b r) (λ path. route.handler (record r { path = path }))

unfoldable pub serve_http : Site → Request → Handler
serve_http s r = serve_from (routes s) false r
