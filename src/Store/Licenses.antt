-- ===== src/Store/Licenses.antt =====
-- internal/store/licenses.go.
mod Key
pub mod Insert
pub mod Revoke
pub mod Create
pub mod Lookup
pub mod Symbols
unfoldable pub use Key.{
  crockford, symbol_at, groups, group_len, write_symbols, write_groups, generate_license_key,
}
use seatkey.Common.{
  ℕ, Bool, Option, none, some, List, [], ◌∷◌, ◌++◌, String, ℤ, nat_beq, is_none, not, if◌then◌else◌,
  ◌==◌, ◌&&◌,
}
use seatkey.Common.Rows.{find_where, count_where, select_where, update_where, order_by_desc}
use seatkey.Store.Models.{Product, License}
use seatkey.Store.Schema.{Db, LicenseRow}
use seatkey.Store.Products.{find_product}
use seatkey.World.{
  Call, Error, Result, ok, err, constraint, key_exists, not_found, pure, fail, fail_if, query, exec,
  query_row, time_now, new_uuid, map_error, ◌>>=◌, ◌>>◌,
}

pub record CreateLicenseParams : Type 0 where
  pub product_id : String
  pub customer_name : String
  pub customer_email : String
  pub max_devices : ℤ
  pub expires_at : Option ℕ

abbrev pub find_row : String → Db → Option LicenseRow
find_row id db = find_where (λ l. l.id == id) db.licenses

abbrev pub find_key : String → Db → Option LicenseRow
find_key key db = find_where (λ l. l.key == key) db.licenses

-- Two unique columns and, where it is enforced, a foreign key.
unfoldable pub insert_license : LicenseRow → Db → Result (Unit {0} × Db)
insert_license l db =
    if not (is_none (find_row l.id db))
    then err (constraint "licenses.id")
    else if not (is_none (find_key l.key db))
    then err (constraint "licenses.key")
    else if db.foreign_keys && is_none (find_product l.product_id db)
    then err (constraint "licenses.product_id")
    else ok (tt, record db { licenses = db.licenses ++ l ∷ [] })

-- The test of the error's text for a collision of keys.
abbrev pub key_collision : Error → Error
key_collision (constraint column) =
    if column == "licenses.key" then key_exists else constraint column
key_collision e = e

abbrev pub new_row : CreateLicenseParams → String → String → ℕ → LicenseRow
new_row p key id now = record {
  id = id;
  product_id = p.product_id;
  key = key;
  customer_name = p.customer_name;
  customer_email = p.customer_email;
  max_devices = p.max_devices;
  expires_at = p.expires_at;
  revoked_at = none;
  created_at = now;
}

-- A row with the product's name.
abbrev pub license_of : LicenseRow → String → License
license_of l product_name = record {
  id = l.id;
  product_id = l.product_id;
  product_name = product_name;
  key = l.key;
  customer_name = l.customer_name;
  customer_email = l.customer_email;
  max_devices = l.max_devices;
  expires_at = l.expires_at;
  revoked_at = l.revoked_at;
  created_at = l.created_at;
}

-- The license that is returned has no product name.
unfoldable pub create_license : CreateLicenseParams → Call License
unfolding insert_license
create_license p = do
  key ← generate_license_key
  id ← new_uuid
  now ← time_now
  let l : LicenseRow = new_row p key id now
  map_error key_collision (exec (insert_license l))
  pure (license_of l "")

-- FROM licenses l JOIN products p ON p.id = l.product_id: a row whose product is missing is left out.
abbrev pub join_row : Option Product → LicenseRow → List License → List License
join_row none l rest = rest
join_row (some p) l rest = license_of l p.name ∷ rest

unfoldable pub license_select : List Product → List LicenseRow → List License
license_select products [] = []
license_select products (l ∷ ls) =
    join_row (find_where (λ p. p.id == l.product_id) products) l (license_select products ls)

abbrev pub licenses_of : Db → List License
licenses_of db = license_select db.products db.licenses

abbrev pub find_license : String → Db → Option License
find_license id db = find_where (λ l. l.id == id) (licenses_of db)

abbrev pub find_license_by_key : String → Db → Option License
find_license_by_key key db = find_where (λ l. l.key == key) (licenses_of db)

unfoldable pub get_license : String → Call License
get_license id = query_row (find_license id)

unfoldable pub get_license_by_key : String → Call License
get_license_by_key key = query_row (find_license_by_key key)

unfoldable pub list_licenses : String → Call (List License)
list_licenses product_id = query (λ db.
    order_by_desc (λ l. l.created_at)
      (if product_id == ""
        then licenses_of db
        else select_where (λ l. l.product_id == product_id) (licenses_of db)))

abbrev pub is_unrevoked : String → LicenseRow → Bool
is_unrevoked id l = l.id == id && is_none l.revoked_at

-- The number of rows affected, and the tables.
pub write_revoked : String → ℕ → Db → Result (ℕ × Db)
write_revoked id now db = ok (
  count_where (is_unrevoked id) db.licenses,
  record db {
    licenses = update_where (is_unrevoked id) (λ l. record l { revoked_at = some now }) db.licenses;
  },
)

unfoldable pub revoke_license : String → Call (Unit {0})
unfolding write_revoked
revoke_license id = do
  now ← time_now
  n ← exec (write_revoked id now)
  fail_if (nat_beq n 0) not_found (pure tt)
