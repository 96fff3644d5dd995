-- ===== src/World.antt =====
-- What the operations run in: the database, the services of the operating system that Go's library
-- reaches (clock, random bytes, the SQL driver's failures), the errors, and the calls themselves as
-- functions from a world to a result and the world after.
pub mod Rules
pub mod Leaves
use seatkey.Common.{ℕ, suc, Bool, Option, none, some, List, ◌∷◌, String, if◌then◌else◌}
use seatkey.Store.Models.{Status}
use seatkey.Store.Schema.{Db}

-- The answers of the outside, by the number of the interaction: a reading of the clock, whether a
-- statement fails in the driver (a full disk, a closed file), a buffer of random bytes or none, and
-- a fresh UUID. Nothing is assumed of them; what a theorem needs it says.
pub record Outside : Type 0 where
  pub clock : ℕ → ℕ
  pub fault : ℕ → Bool
  pub random : ℕ → Option (ℕ → ℕ)
  pub uuid : ℕ → String

-- One call of `Notifier.Notify`, with the entries of its map.
pub record Event : Type 0 where
  pub event : String
  pub license_key : String
  pub product : String
  pub customer_name : String
  pub device_id : String
  pub timestamp : ℕ

-- `calls` counts the interactions with the outside so far; `notified` holds the notifier's calls,
-- the latest first.
pub record World : Type 0 where
  pub outside : Outside
  pub calls : ℕ
  pub db : Db
  pub notified : List Event

-- The errors of internal/store and internal/license: their sentinels, a driver's failure, a
-- violated constraint by its column, failures of `rand.Read`, `json.Marshal` and `json.Unmarshal`, and
-- those of internal/crypto and of bcrypt.
pub data Error : Type 0 where
  not_found key_exists device_limit driver entropy marshal : Error
  unmarshal corrupt_base64 invalid_signature bad_length bcrypt : Error
  license_status : Status → Error
  constraint : String → Error

pub data Result (A : Type 0) : Type 0 where
  ok : A → Result A
  err : Error → Result A

abbrev pub Call : Type 0 → Type 0
Call A = World → Result A × World

abbrev pub spend : World → World
spend w = record w { calls = suc w.calls }

module _ {A : Type 0} where
  abbrev pub pure : A → Call A
  pure a w = (ok a, w)

  abbrev pub fail : Error → Call A
  fail e w = (err e, w)

  abbrev pub fail_if : Bool → Error → Call A → Call A
  fail_if test e rest = if test then fail e else rest

  abbrev pub or_not_found : Option A → Call A
  or_not_found none = fail not_found
  or_not_found (some a) = pure a

  -- The result of a function that reaches nothing outside.
  abbrev pub lift : Result A → Call A
  lift r w = (r, w)

  -- The result and its error as a value, for the caller's `switch`.
  abbrev pub attempt : Call A → Call (Result A)
  attempt m w = (ok (m w).0, (m w).1)

  -- A SELECT statement: it reads the tables, or fails in the driver.
  abbrev pub query : (Db → A) → Call A
  query read w = (if w.outside.fault w.calls then err driver else ok (read w.db), spend w)

  -- A statement that writes. One that fails, in the driver or by a constraint, changes nothing.
  abbrev pub exec_result : World → Result (A × Db) → Result A × World
  exec_result w (ok (a, db')) = (ok a, record (spend w) { db = db' })
  exec_result w (err e) = (err e, spend w)

  abbrev pub exec : (Db → Result (A × Db)) → Call A
  exec write w = exec_result w (if w.outside.fault w.calls then err driver else write w.db)

abbrev pub resume : {A B : Type 0} → (A → Call B) → Result A × World → Result B × World
resume f (ok a, w) = f a w
resume f (err e, w) = (err e, w)

infixl 5 ◌>>=◌ ◌>>◌
abbrev pub ◌>>=◌ : {A B : Type 0} → Call A → (A → Call B) → Call B
◌>>=◌ m f w = resume f (m w)

abbrev pub ◌>>◌ : {A B : Type 0} → Call A → Call B → Call B
m >> k = m >>= λ _. k

-- `time.Now`.
abbrev pub time_now : Call ℕ
time_now w = (ok (w.outside.clock w.calls), spend w)

-- `rand.Read` of a buffer.
abbrev pub rand_result : World → Option (ℕ → ℕ) → Result (ℕ → ℕ) × World
rand_result w none = (err entropy, spend w)
rand_result w (some buf) = (ok buf, spend w)

abbrev pub rand_read : Call (ℕ → ℕ)
rand_read w = rand_result w (w.outside.random w.calls)

-- `uuid.NewString`.
abbrev pub new_uuid : Call String
new_uuid w = (ok (w.outside.uuid w.calls), spend w)

-- An error that the caller puts another in place of.
abbrev pub map_error_result : {A : Type 0} → (Error → Error) → Result A × World → Result A × World
map_error_result f (ok a, w) = (ok a, w)
map_error_result f (err e, w) = (err (f e), w)

abbrev pub map_error : {A : Type 0} → (Error → Error) → Call A → Call A
map_error f m w = map_error_result f (m w)

-- A call of the notifier.
abbrev pub emit : Event → Call (Unit {0})
emit e w = (ok tt, record w { notified = e ∷ w.notified })

-- `QueryRow(…).Scan(…)` with `sql.ErrNoRows` turned into `ErrNotFound`.
abbrev pub query_row : {A : Type 0} → (Db → Option A) → Call A
query_row read = query read >>= or_not_found
