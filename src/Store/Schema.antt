-- ===== src/Store/Schema.antt =====
-- internal/store/schema.go: the tables. A unique column is kept unique by the statements that insert
-- (in the modules beside this one), so a table is a plain list of rows, oldest first.
use seatkey.Common.{ℕ, Bool, Option, List, [], String, ℤ}
use seatkey.Store.Models.{Product, Device}

pub record Setting : Type 0 where
  pub key : String
  pub value : String

pub record Admin : Type 0 where
  pub id : ℕ
  pub password_hash : String
  pub created_at : ℕ

pub record Session : Type 0 where
  pub token : String
  pub created_at : ℕ
  pub expires_at : ℕ

-- A row of `licenses`. The product's name is joined in by the queries.
pub record LicenseRow : Type 0 where
  pub id : String
  pub product_id : String
  pub key : String
  pub customer_name : String
  pub customer_email : String
  pub max_devices : ℤ
  pub expires_at : Option ℕ
  pub revoked_at : Option ℕ
  pub created_at : ℕ

-- `foreign_keys` is the pragma that `Open` puts in the DSN; the two counters are those of
-- AUTOINCREMENT.
pub record Db : Type 0 where
  pub foreign_keys : Bool
  pub settings : List Setting
  pub admins : List Admin
  pub next_admin : ℕ
  pub sessions : List Session
  pub products : List Product
  pub licenses : List LicenseRow
  pub devices : List Device
  pub next_device : ℕ

-- What the CREATE TABLE statements make of an empty file.
abbrev pub empty_db : Bool → Db
empty_db foreign_keys = record {
  foreign_keys = foreign_keys;
  settings = [];
  admins = [];
  next_admin = 1;
  sessions = [];
  products = [];
  licenses = [];
  devices = [];
  next_device = 1;
}
