-- ===== src/Web/Admin.antt =====
-- internal/web/admin.go: products, revocation, devices and settings of the dashboard.
use seatkey.Store.Products.{create_product, list_products}
use seatkey.Store.Settings.{set_setting}
use seatkey.Store.Licenses.{get_license, revoke_license}
use seatkey.License.{deactivate, is_not_found}
use seatkey.Web.Auth.{render_settings, Server}
use seatkey.Common.{◌==◌, if◌then◌else◌, String}
use seatkey.Web.Http.{
  products_page, render, page_not_found, server_error, reply, proceed, checked, redirect, Handler,
  Request, Response,
}
pub mod Revocation
pub mod Pages
pub mod Creation
pub mod Expiry
pub mod Offline
pub mod WebhookSettings
use Prim.Native.String
use seatkey.World
use seatkey.World.{Error, World, Result, ok, err, not_found}

unfoldable pub handle_products_list : Request → Handler
handle_products_list r = checked list_products λ products. reply (render (products_page products))

unfoldable pub handle_product_create : Request → Handler
handle_product_create r =
    if r.form "name" == ""
    then reply (redirect "/products")
    else checked (create_product (r.form "name"))
        λ p. reply (redirect (String.◌++◌ "/products/" p.id))

abbrev pub license_address : String → Response
license_address id = redirect (String.◌++◌ "/licenses/" id)

-- `err != nil && !errors.Is(err, …ErrNotFound)`, and then the redirection.
abbrev pub unless_missing : Response → Result (Unit {0}) × World → Response × World
unless_missing answer (ok u, w) = (answer, w)
unless_missing answer (err e, w) = ((if is_not_found e then answer else server_error e), w)

unfoldable pub handle_license_revoke : Request → Handler
handle_license_revoke r w =
    unless_missing (license_address (r.path "id")) (revoke_license (r.path "id") w)

-- `http.NotFound` for a missing row, a server error for another failure.
abbrev pub or_page_not_found : Error → Response
or_page_not_found e = if is_not_found e then page_not_found else server_error e

unfoldable pub handle_device_deactivate : Request → Handler
handle_device_deactivate r w =
    proceed or_page_not_found (get_license (r.path "id") w) λ l w1.
      unless_missing (license_address (r.path "id")) (deactivate l.key (r.path "deviceID") w1)

unfoldable pub handle_settings : Server → Request → Handler
handle_settings s r = render_settings s ""

unfoldable pub handle_webhook_settings : Request → Handler
handle_webhook_settings r = checked (set_setting "webhook_url" (r.form "webhook_url")) λ _.
    checked (set_setting "webhook_secret" (r.form "webhook_secret"))
      λ _. reply (redirect "/settings")
