-- ===== src/Web/Forms/Dates.antt =====
-- internal/web/admin.go: the dates of the form for a new license.
use seatkey.Common.{
  none, ◌||◌, ltb, if◌then◌else◌, true, ap, ◌∙◌, some, ◌≤◌, refl, arith, ◌%◌, ◌+◌, ◌*◌, ◌≡◌, zero,
  ◌/◌, String, suc, ◌<◌, ℕ,
}
use seatkey.Web.Forms.{is_digit, midnight, natural, parse_date, days_in, checked_date, digits_from}
use Prim.Native.Char.{Char, code}

-- The digit of a number below ten.
unfoldable pub digit_char : ℕ → Char
digit_char zero = "0"
digit_char (suc zero) = "1"
digit_char (suc (suc zero)) = "2"
digit_char (suc (suc (suc zero))) = "3"
digit_char (suc (suc (suc (suc zero)))) = "4"
digit_char (suc (suc (suc (suc (suc zero))))) = "5"
digit_char (suc (suc (suc (suc (suc (suc zero)))))) = "6"
digit_char (suc (suc (suc (suc (suc (suc (suc zero))))))) = "7"
digit_char (suc (suc (suc (suc (suc (suc (suc (suc zero)))))))) = "8"
digit_char (suc (suc (suc (suc (suc (suc (suc (suc (suc n))))))))) = "9"

code-digit_char : (n : ℕ) → n < 10 → code (digit_char n) ≡ 48 + n
unfolding digit_char
code-digit_char zero h = refl
code-digit_char (suc zero) h = refl
code-digit_char (suc (suc zero)) h = refl
code-digit_char (suc (suc (suc zero))) h = refl
code-digit_char (suc (suc (suc (suc zero)))) h = refl
code-digit_char (suc (suc (suc (suc (suc zero))))) h = refl
code-digit_char (suc (suc (suc (suc (suc (suc zero)))))) h = refl
code-digit_char (suc (suc (suc (suc (suc (suc (suc zero))))))) h = refl
code-digit_char (suc (suc (suc (suc (suc (suc (suc (suc zero)))))))) h = refl
code-digit_char (suc (suc (suc (suc (suc (suc (suc (suc (suc zero))))))))) h = refl
code-digit_char (suc (suc (suc (suc (suc (suc (suc (suc (suc (suc n)))))))))) h =
    absurd (omega arith)

abbrev pub two_digits : ℕ → String → String
two_digits n rest = String.◌∷◌ (digit_char (n / 10)) (String.◌∷◌ (digit_char (n % 10)) rest)

-- A day of the calendar as the form sends it.
unfoldable pub date_text : ℕ → ℕ → ℕ → String
date_text y m d =
    two_digits (y / 100)
      (two_digits (y % 100) (String.◌∷◌ "-" (two_digits m (String.◌∷◌ "-" (two_digits d "")))))

digits-step :
    (n k : ℕ) (s : String)
    → k < 10
    → digits_from n (String.◌∷◌ (digit_char k) s) ≡ digits_from (n * 10 + k) s
unfolding digits_from
digits-step n k s h =
    rw
      (in_range (code (digit_char k)) (omega (arith, code-digit_char k h))
        (omega (arith, code-digit_char k h)))
      (ap (λ x. digits_from (n * 10 + x) s) (omega (arith, code-digit_char k h)))
  where
    in_range : (c : ℕ) → 48 ≤ c → c ≤ 57 → is_digit c ≡ true
    in_range c lo hi = ground arith

natural-two_digits : (n : ℕ) → n < 100 → natural (two_digits n "") ≡ some n
unfolding natural digits_from
natural-two_digits n h =
    digits-step 0 (n / 10) (String.◌∷◌ (digit_char (n % 10)) "") (omega arith)
    ∙ digits-step (0 * 10 + n / 10) (n % 10) "" (omega arith)
    ∙ ap some (omega arith)

natural-four_digits :
    (y : ℕ) → y < 10000 → natural (two_digits (y / 100) (two_digits (y % 100) "")) ≡ some y
unfolding natural digits_from
natural-four_digits y h =
    digits-step 0 (y / 100 / 10) (String.◌∷◌ (digit_char (y / 100 % 10)) (two_digits (y % 100) ""))
      (omega arith)
    ∙ digits-step (0 * 10 + y / 100 / 10) (y / 100 % 10) (two_digits (y % 100) "") (omega arith)
    ∙ digits-step ((0 * 10 + y / 100 / 10) * 10 + y / 100 % 10) (y % 100 / 10)
        (String.◌∷◌ (digit_char (y % 100 % 10)) "") (omega arith)
    ∙ digits-step (((0 * 10 + y / 100 / 10) * 10 + y / 100 % 10) * 10 + y % 100 / 10) (y % 100 % 10)
        "" (omega arith)
    ∙ ap some (omega arith)

-- A day of the calendar, up to the year 9999.
abbrev pub IsDate : ℕ → ℕ → ℕ → Type 0
IsDate y m d = (y < 10000) × (1 ≤ m) × (m ≤ 12) × (1 ≤ d) × (d ≤ days_in y m)

days_in_bounds : (y m : ℕ) → days_in y m ≤ 31
days_in_bounds y m = ground arith

checked_date_in_range :
    (y m d : ℕ) → IsDate y m d → checked_date (some y) (some m) (some d) ≡ some (midnight y m d)
unfolding checked_date
checked_date_in_range y m d (hy, h1, h12, hd, hm) = within (days_in y m) hm
  where
    within :
        (n : ℕ)
        → d ≤ n
        → (if ltb m 1 || ltb 12 m
            then none
            else if ltb d 1 || ltb n d
            then none
            else some (midnight y m d))
          ≡ some (midnight y m d)
    within n h = ground arith

-- A date that was written as the form sends it is read back as the instant at which its day begins.
pub parse_date-date_text :
    (y m d : ℕ) → IsDate y m d → parse_date (date_text y m d) ≡ some (midnight y m d)
unfolding parse_date date_text
parse_date-date_text y m d h =
    let (hy, h1, h12, hd, hm) = h in
    rw
      (
        natural-four_digits y hy,
        natural-two_digits m (omega arith),
        natural-two_digits d (omega (arith, days_in_bounds y m)),
      )
      (checked_date_in_range y m d h)
