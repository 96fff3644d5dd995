-- ===== src/Crypto/Base64.antt =====
-- encoding/base64, `StdEncoding`, as the program uses it: three bytes to four symbols, with padding.
-- `DecodeString` skips line ends and takes no notice of the bits that padding leaves over.
pub mod RoundTrip
use Prim.Native.Char.{Char, code}
use seatkey.Common.{
  ℕ, zero, suc, ◌+◌, ◌*◌, ◌/◌, ◌%◌, Bool, ◌||◌, Option, none, some, List, [], ◌∷◌, String, nat_beq,
  if◌then◌else◌,
}

abbrev alphabet : String
alphabet = "ABCDEFGHIJKLMNOPQRSTUVWXYZabcdefghijklmnopqrstuvwxyz0123456789+/"

char_at : String → ℕ → Char
char_at String.[] i = "="
char_at (String.◌∷◌ c s) zero = c
char_at (String.◌∷◌ c s) (suc i) = char_at s i

unfoldable pub symbol : ℕ → Char
unfolding char_at
symbol = char_at alphabet

index_in : String → ℕ → ℕ → Option ℕ
index_in String.[] c i = none
index_in (String.◌∷◌ d s) c i = if nat_beq (code d) c then some i else index_in s c (suc i)

-- The value of a symbol.
unfoldable pub digit : Char → Option ℕ
unfolding index_in
digit c = index_in alphabet (code c) 0

unfoldable pub encode : List ℕ → String
encode [] = ""
encode (a ∷ []) = String.◌∷◌ (symbol (a / 4)) (String.◌∷◌ (symbol (a % 4 * 16)) "==")
encode (a ∷ b ∷ []) =
    String.◌∷◌ (symbol (a / 4))
      (String.◌∷◌ (symbol (a % 4 * 16 + b / 16)) (String.◌∷◌ (symbol (b % 16 * 4)) "="))
encode (a ∷ b ∷ c ∷ rest) = String.◌∷◌ (symbol (a / 4)) (
    String.◌∷◌ (symbol (a % 4 * 16 + b / 16))
      (String.◌∷◌ (symbol (b % 16 * 4 + c / 64)) (String.◌∷◌ (symbol (c % 64)) (encode rest))))

unfoldable pub is_line_end : Char → Bool
is_line_end c = nat_beq (code c) 10 || nat_beq (code c) 13

unfoldable pub strip : String → String
strip String.[] = ""
strip (String.◌∷◌ c s) = if is_line_end c then strip s else String.◌∷◌ c (strip s)

unfoldable pub two_digits : Option ℕ → Option ℕ → Option (List ℕ)
two_digits (some p) (some q) = some ((p * 4 + q / 16) ∷ [])
two_digits _ _ = none

unfoldable pub three_digits : Option ℕ → Option ℕ → Option ℕ → Option (List ℕ)
three_digits (some p) (some q) (some r) = some ((p * 4 + q / 16) ∷ (q % 16 * 16 + r / 4) ∷ [])
three_digits _ _ _ = none

unfoldable pub four_digits :
    Option ℕ → Option ℕ → Option ℕ → Option ℕ → Option (List ℕ) → Option (List ℕ)
four_digits (some p) (some q) (some r) (some t) (some rest) =
    some ((p * 4 + q / 16) ∷ (q % 16 * 16 + r / 4) ∷ (r % 4 * 64 + t) ∷ rest)
four_digits _ _ _ _ _ = none

unfoldable pub is_pad : Char → Bool
is_pad c = nat_beq (code c) b'='

-- The last group of four, which padding may shorten.
unfoldable pub last_group : Char → Char → Char → Char → Option (List ℕ)
last_group c d e f =
    if is_pad f
    then if is_pad e
      then two_digits (digit c) (digit d)
      else three_digits (digit c) (digit d) (digit e)
    else four_digits (digit c) (digit d) (digit e) (digit f) (some [])

unfoldable pub decode_groups : String → Option (List ℕ)
decode_groups String.[] = some []
decode_groups (String.◌∷◌ c (String.◌∷◌ d (String.◌∷◌ e (String.◌∷◌ f String.[])))) =
    last_group c d e f
decode_groups (String.◌∷◌ c (String.◌∷◌ d (String.◌∷◌ e (String.◌∷◌ f rest)))) =
    four_digits (digit c) (digit d) (digit e) (digit f) (decode_groups rest)
decode_groups _ = none

unfoldable pub decode : String → Option (List ℕ)
unfolding decode_groups strip is_line_end last_group is_pad
decode s = decode_groups (strip s)
