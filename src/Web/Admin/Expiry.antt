-- ===== src/Web/Admin/Expiry.antt =====
-- internal/web/admin.go and internal/store/models.go: until when a license from the form is active.
use seatkey.Web.Forms.Dates.{parse_date-date_text, date_text, IsDate}
use seatkey.Common.{
  inr, eq_iff, refl, subst, ◌∙◌, inl, arith, Bool-cases, ◌+◌, false, ◌≤◌, ◌==◌, ◌↔◌, some, none,
  ◌≡◌, String, ℕ,
}
use seatkey.Web.Admin.Pages.{expires_at_of}
use seatkey.Web.Forms.{day, midnight, parse_date}
use seatkey.Store.Models.{license_status, License, active}

some_text : (s : String) (t : ℕ) → parse_date s ≡ some t → (s == "") ≡ false
unfolding parse_date
some_text s t h = elim (Bool-cases (s == "")) [
  | inl e ↦ absurd (empty (subst (λ x. parse_date x ≡ some t) ((eq_iff s "").0 e) h))
  | inr e ↦ e
]
  where
    empty : parse_date "" ≡ some t → ⊥
    empty e = cc

expires_at_of-date_text :
    (y m d : ℕ) → IsDate y m d → expires_at_of (date_text y m d) ≡ some (midnight y m d + day)
unfolding expires_at_of
expires_at_of-date_text y m d h =
    rw
      (
        some_text (date_text y m d) (midnight y m d) (parse_date-date_text y m d h),
        parse_date-date_text y m d h,
      )
      refl

status_iff :
    (l : License) (now t : ℕ)
    → l.revoked_at ≡ none
    → l.expires_at ≡ some t
    → (license_status l now ≡ active) ↔ (now ≤ t)
unfolding license_status
status_iff l now t r e = (λ h. ground (arith, r, e, h), λ h. ground (arith, r, e, h))

-- A license that was created with a date of the calendar, and that is not revoked, is active up to the
-- end of that day and not longer.
pub license_status-date_text :
    (l : License) (y m d now : ℕ)
    → IsDate y m d
    → l.revoked_at ≡ none
    → l.expires_at ≡ expires_at_of (date_text y m d)
    → (license_status l now ≡ active) ↔ (now ≤ midnight y m d + day)
license_status-date_text l y m d now h r e =
    status_iff l now (midnight y m d + day) r (e ∙ expires_at_of-date_text y m d h)
