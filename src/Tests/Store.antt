-- ===== src/Tests/Store.antt =====
-- internal/store: its theorems at the small shop.
use seatkey.Store.Licenses.Symbols.{generate_license_key-SameSymbols, SameSymbols}
use seatkey.Store.Products.{list_products}
use seatkey.Store.Listings.{list_products-Listed, licenses_in, Listed}
use seatkey.Store.Licenses.{list_licenses, write_groups, write_symbols}
use seatkey.Store.Valid.{IsValid}
use seatkey.Store.Licenses.{generate_license_key}
use seatkey.Store.Devices.{count_seats}
use seatkey.Store.Licenses.{
  new_row, revoke_license, insert_license, license_of, create_license, find_license_by_key,
  CreateLicenseParams,
}
use seatkey.Store.Models.{Product, License}
use seatkey.World.{ok, World}
use seatkey.Store.Licenses.Revoke.{revoke_license-Revoked, Revoked}
use seatkey.Toys.{calm, demo, demo-IsValid}
use seatkey.Common.{◌+◌, ◌↔◌, refl, ◌≡◌, pos, none, some}
use seatkey.Store.Licenses.Lookup.{create_license-get_license}

abbrev order : CreateLicenseParams
order = record {
  product_id = "P1";
  customer_name = "Ben";
  customer_email = "ben@example.org";
  max_devices = pos 1;
  expires_at = none;
}

abbrev the_license : License
the_license = license_of (new_row order "SEAT-0123-4567-89AB-CDEF" "8c6f" 1002) ""

abbrev after : World
after = (create_license order demo).1

order_created : create_license order demo ≡ (ok the_license, after)
unfolding create_license insert_license generate_license_key write_groups write_symbols
order_created = refl

create_license-get_license_example :
    (find_license_by_key the_license.key after.db
      ≡ some (record the_license { product_name = "Editor" }))
    × (the_license.max_devices ≡ order.max_devices)
    × (the_license.expires_at ≡ order.expires_at)
    × (the_license.customer_name ≡ order.customer_name)
    × (the_license.customer_email ≡ order.customer_email)
    × (the_license.product_id ≡ order.product_id)
    × (the_license.revoked_at ≡ none)
    × (count_seats the_license.id after.db ≡ 0)
    × IsValid after.db
create_license-get_license_example =
    create_license-get_license order demo after the_license
      (record { id = "P1"; name = "Editor"; created_at = 1 }) demo-IsValid refl order_created

revoke_license-Revoked_example : Revoked "L1" demo (revoke_license "L1" demo)
revoke_license-Revoked_example = revoke_license-Revoked "L1" demo

list_products-Listed_example :
    Listed (λ (p : Product). p.created_at) (λ db. db.products) demo (list_products demo)
    × Listed (λ (l : License). l.created_at) (licenses_in "P1") demo (list_licenses "P1" demo)
list_products-Listed_example = list_products-Listed "P1" demo

-- The same random source, whose bytes are some multiple of 32 further on.
abbrev further : World
further = record demo { outside = record calm { random = λ n. some (λ k. k + 32) } }

generate_license_key-SameSymbols_example :
    ((generate_license_key demo).0 ≡ (generate_license_key further).0)
    ↔ SameSymbols (λ k. k) (λ k. k + 32)
generate_license_key-SameSymbols_example =
    generate_license_key-SameSymbols demo further (λ k. k) (λ k. k + 32) refl refl
