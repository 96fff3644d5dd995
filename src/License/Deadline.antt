-- ===== src/License/Deadline.antt =====
-- internal/license/service.go: until when the token that `sign` makes is good.
use seatkey.Common.{
  ◌*◌, ap, is_none, arith, String, Option, ℕ, Bool, ◌≡◌, ◌↔◌, ◌≤◌, ◌+◌, some, none, if◌then◌else◌,
}
use seatkey.Store.Models.{status_text, revoked, expired, License, license_status, active, is_past}
use seatkey.License.{hour, token_of, cut}

-- The span that a token may last, by how it is used: a hundred years offline, seven days online.
abbrev pub span : Bool → ℕ
span offline = if offline then 100 * 365 * 24 * hour else 7 * 24 * hour

-- Not after an instant that may be missing.
abbrev pub NotAfter : ℕ → Option ℕ → Type 0
NotAfter t none = Unit
NotAfter t (some expiry) = t ≤ expiry

cut_iff :
    (t until : ℕ) (expiry : Option ℕ) → (t ≤ cut until expiry) ↔ ((t ≤ until) × NotAfter t expiry)
cut_iff t until none = ((λ h. (h, tt)), λ h. h.0)
cut_iff t until (some expiry) = (λ h. ground arith, λ h. ground arith)

active-NotAfter :
    (l : License) (now : ℕ) → license_status l now ≡ active → NotAfter now l.expires_at
unfolding license_status
active-NotAfter l now h = go l.revoked_at l.expires_at h
  where
    go :
        (revoked_at expires_at : Option ℕ)
        → (if is_none revoked_at
            then (if is_past expires_at now then expired else active)
            else revoked)
          ≡ active
        → NotAfter now expires_at
    go r none e = tt
    go none (some expiry) e = ground (arith, e)
    go (some r) (some expiry) e = absurd (cc)

-- A token is good up to an instant exactly if that is within the span from its issue, seven days online
-- or a hundred years offline, and not after the license's own expiry. At its issue, to an active
-- license, it is good, and it says that the license is active.
pub token_of-deadline :
    (lic : License) (device_id : String) (seats now : ℕ) (offline : Bool)
    → license_status lic now ≡ active
    → let tok = token_of lic device_id seats now offline in
      ((t : ℕ) → (t ≤ tok.valid_until) ↔ ((t ≤ now + span offline) × NotAfter t lic.expires_at))
      × (now ≤ tok.valid_until)
      × (tok.status ≡ "active")
unfolding token_of
token_of-deadline lic device_id seats now offline live = (
  λ t. cut_iff t (now + span offline) lic.expires_at,
  (cut_iff now (now + span offline) lic.expires_at).1 (omega arith, active-NotAfter lic now live),
  ap status_text live,
)
