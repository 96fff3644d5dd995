-- ===== src/Store/Models.antt =====
-- internal/store/models.go. An instant (`time.Time`) is a number of nanoseconds since the start of
-- the year 0, in UTC; a pointer to one is an `Option`.
use seatkey.Common.{ℕ, Bool, false, Option, none, some, String, ltb, is_none, ℤ, if◌then◌else◌}

pub record Product : Type 0 where
  pub id : String
  pub name : String
  pub created_at : ℕ

pub record License : Type 0 where
  pub id : String
  pub product_id : String
  pub product_name : String
  pub key : String
  pub customer_name : String
  pub customer_email : String
  pub max_devices : ℤ
  pub expires_at : Option ℕ
  pub revoked_at : Option ℕ
  pub created_at : ℕ

-- The three texts that `License.Status` returns.
pub data Status : Type 0 where
  revoked expired active : Status

abbrev pub status_text : Status → String
status_text revoked = "revoked"
status_text expired = "expired"
status_text active = "active"

-- `l.ExpiresAt != nil && now.After(*l.ExpiresAt)`.
abbrev pub is_past : Option ℕ → ℕ → Bool
is_past none now = false
is_past (some expiry) now = ltb expiry now

unfoldable pub license_status : License → ℕ → Status
license_status l now =
    if is_none l.revoked_at then (if is_past l.expires_at now then expired else active) else revoked

pub record Device : Type 0 where
  pub id : ℕ
  pub license_id : String
  pub device_id : String
  pub device_name : String
  pub activated_at : ℕ
  pub last_seen_at : ℕ
  pub deactivated_at : Option ℕ

-- `Device.Active`.
abbrev pub is_active : Device → Bool
is_active d = is_none d.deactivated_at
