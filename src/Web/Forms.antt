-- ===== src/Web/Forms.antt =====
-- internal/web/admin.go: what its handlers read from forms and write into addresses by Go's library:
-- `strconv.Atoi`, `time.Parse` with the layout 2006-01-02, and `url.QueryEscape`.
use seatkey.Store.Licenses.{symbol_at}
use seatkey.License.{hour}
use seatkey.Common.{
  not, ◌%◌, zero, [], ◌^◌, ◌&&◌, negsuc, ◌-◌, ◌/◌, nat_beq, leb, ltb, ◌||◌, pos, suc, ◌∷◌, none,
  ◌+◌, if◌then◌else◌, ℤ, Bool, some, ◌*◌, List, ℕ, String, Option,
}
pub mod Dates
use Prim.Native.Char.{Char, code}
use Prim.Native.String

abbrev pub is_digit : ℕ → Bool
is_digit c = leb b'0' c && leb c b'9'

-- Decimal digits and nothing else, after those already read.
unfoldable pub digits_from : ℕ → String → Option ℕ
digits_from n String.[] = some n
digits_from n (String.◌∷◌ c s) =
    let rest = digits_from (n * 10 + (code c - b'0')) s in if is_digit (code c) then rest else none

-- At least one digit.
unfoldable pub natural : String → Option ℕ
natural String.[] = none
natural (String.◌∷◌ c s) = digits_from 0 (String.◌∷◌ c s)

abbrev pub negate : ℕ → ℤ
negate zero = pos 0
negate (suc n) = negsuc n

-- Within 64 bits.
abbrev pub positive : Option ℕ → Option ℤ
positive none = none
positive (some n) = if ltb n (2 ^ 63) then some (pos n) else none

abbrev pub negative : Option ℕ → Option ℤ
negative none = none
negative (some n) = if leb n (2 ^ 63) then some (negate n) else none

-- `strconv.Atoi`: a sign may come first.
unfoldable pub atoi : String → Option ℤ
atoi String.[] = none
atoi (String.◌∷◌ c s) =
    if nat_beq (code c) b'-'
    then negative (natural s)
    else if nat_beq (code c) b'+'
    then positive (natural s)
    else positive (natural (String.◌∷◌ c s))

abbrev pub is_leap : ℕ → Bool
is_leap y = nat_beq (y % 4) 0 && (not (nat_beq (y % 100) 0) || nat_beq (y % 400) 0)

-- The days of a month, by its number.
abbrev pub days_in : ℕ → ℕ → ℕ
days_in y m =
    if nat_beq m 2
    then (if is_leap y then 29 else 28)
    else if nat_beq m 4 || nat_beq m 6 || nat_beq m 9 || nat_beq m 11
    then 30
    else 31

-- The days of the months before one.
unfoldable pub days_before_month : ℕ → ℕ → ℕ
days_before_month y zero = 0
days_before_month y (suc m) = if nat_beq m 0 then 0 else days_before_month y m + days_in y m

-- The days from the first of January of the year 0.
abbrev pub days_before_year : ℕ → ℕ
days_before_year y = y * 365 + (y + 3) / 4 - (y + 99) / 100 + (y + 399) / 400

abbrev pub day : ℕ
day = 24 * hour

-- The instant at which a day of the calendar begins.
unfoldable pub midnight : ℕ → ℕ → ℕ → ℕ
midnight y m d = (days_before_year y + days_before_month y m + (d - 1)) * day

-- `time.Date`, once the month and the day are found to be in range.
unfoldable pub checked_date : Option ℕ → Option ℕ → Option ℕ → Option ℕ
checked_date (some y) (some m) (some d) =
    if ltb m 1 || ltb 12 m
    then none
    else if ltb d 1 || ltb (days_in y m) d
    then none
    else some (midnight y m d)
checked_date _ _ _ = none

abbrev pub text_of : Char → Char → String
text_of a b = String.◌∷◌ a (String.◌∷◌ b "")

-- `time.Parse`: four digits, two and two, with dashes between.
unfoldable pub parse_date : String → Option ℕ
parse_date
      (String.◌∷◌ a (
        String.◌∷◌ b (
          String.◌∷◌ c (
            String.◌∷◌ d (
              String.◌∷◌ e (
                String.◌∷◌ f
                  (String.◌∷◌ g (String.◌∷◌ h (String.◌∷◌ i (String.◌∷◌ j String.[])))))))))) =
    if nat_beq (code e) b'-' && nat_beq (code h) b'-'
    then checked_date (natural (String.◌∷◌ a (String.◌∷◌ b (text_of c d)))) (natural (text_of f g))
        (natural (text_of i j))
    else none
parse_date _ = none

-- The bytes of a character in UTF-8.
unfoldable pub utf8 : ℕ → List ℕ
utf8 c =
    if ltb c 0x80
    then c ∷ []
    else if ltb c 0x800
    then (0xC0 + c / 0x40) ∷ (0x80 + c % 0x40) ∷ []
    else if ltb c 0x10000
    then (0xE0 + c / 0x1000) ∷ (0x80 + c / 0x40 % 0x40) ∷ (0x80 + c % 0x40) ∷ []
    else (0xF0 + c / 0x40000)
      ∷ (0x80 + c / 0x1000 % 0x40)
      ∷ (0x80 + c / 0x40 % 0x40)
      ∷ (0x80 + c % 0x40)
      ∷ []

-- The bytes that an address may have as they are.
abbrev pub is_unreserved : ℕ → Bool
is_unreserved b =
    is_digit b
    || (leb b'a' b && leb b b'z')
    || (leb b'A' b && leb b b'Z')
    || nat_beq b b'-'
    || nat_beq b b'_'
    || nat_beq b b'.'
    || nat_beq b b'~'

abbrev pub upper_hex : String
upper_hex = "0123456789ABCDEF"

unfoldable pub percent : List ℕ → String → String
percent [] rest = rest
percent (b ∷ bytes) rest = String.◌++◌ "%" (
    String.◌++◌ (symbol_at upper_hex (b / 16))
      (String.◌++◌ (symbol_at upper_hex (b % 16)) (percent bytes rest)))

-- `url.QueryEscape`.
unfoldable pub url_escape : String → String
url_escape String.[] = ""
url_escape (String.◌∷◌ c s) =
    let rest = url_escape s in
    if is_unreserved (code c)
    then String.◌∷◌ c rest
    else if nat_beq (code c) b' '
    then String.◌∷◌ "+" rest
    else percent (utf8 (code c)) rest
