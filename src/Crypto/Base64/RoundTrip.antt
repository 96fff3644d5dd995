-- ===== src/Crypto/Base64/RoundTrip.antt =====
-- encoding/base64: what `EncodeToString` writes of bytes, `DecodeString` reads back.
use seatkey.Common.{
  ◌∙◌, ◌*◌, not, ◌%◌, ◌&&◌, ap, ◌/◌, nat_beq, All, Bool, String, arith, List, Option, ℕ, ◌≡◌, refl,
  ◌<◌, ◌+◌, zero, suc, true, false, [], ◌∷◌, some, none,
}
use seatkey.Crypto.Base64.{
  symbol, digit, encode, decode, decode_groups, strip, is_line_end, is_pad, last_group, four_digits,
  two_digits, three_digits,
}

-- `some i` and no other.
is_value : Option ℕ → ℕ → Bool
is_value none i = false
is_value (some k) i = nat_beq k i

is_value-eq : (o : Option ℕ) (i : ℕ) → is_value o i ≡ true → o ≡ some i
unfolding is_value
is_value-eq none i h = cc
is_value-eq (some k) i h = ground arith

-- A symbol stands for its index, and is neither padding nor a line end.
is_good : ℕ → Bool
unfolding is_value
is_good i = is_value (digit (symbol i)) i && not (is_pad (symbol i)) && not (is_line_end (symbol i))

-- The symbols of the first `n` indices are good.
are_good : ℕ → Bool
unfolding is_good
are_good zero = true
are_good (suc n) = are_good n && is_good n

are_good-is_good : (i n : ℕ) → i < n → are_good n ≡ true → is_good i ≡ true
unfolding are_good
are_good-is_good i zero below h = absurd (omega arith)
are_good-is_good i (suc n) below h = ground (arith, are_good-is_good i n)

good : (i : ℕ) → i < 64 → is_good i ≡ true
unfolding are_good is_good symbol digit is_pad is_line_end
good i h = are_good-is_good i 64 h refl

digit-symbol : (i : ℕ) → i < 64 → digit (symbol i) ≡ some i
unfolding is_good
digit-symbol i h = is_value-eq (digit (symbol i)) i (ground (arith, good i h))

is_pad-symbol : (i : ℕ) → i < 64 → is_pad (symbol i) ≡ false
unfolding is_good
is_pad-symbol i h = ground (arith, good i h)

is_line_end-symbol : (i : ℕ) → i < 64 → is_line_end (symbol i) ≡ false
unfolding is_good
is_line_end-symbol i h = ground (arith, good i h)

-- A full group, before whatever follows.
four_symbols :
    (p q r t : ℕ) (rest : String) (out : List ℕ)
    → p < 64
    → q < 64
    → r < 64
    → t < 64
    → decode_groups rest ≡ some out
    → decode_groups (
        String.◌∷◌
          (symbol p)
          (String.◌∷◌ (symbol q) (String.◌∷◌ (symbol r) (String.◌∷◌ (symbol t) rest))))
      ≡ four_digits (some p) (some q) (some r) (some t) (some out)
unfolding decode_groups last_group
four_symbols p q r t String.[] out hp hq hr ht e =
    rw
      (
        is_pad-symbol t ht,
        digit-symbol p hp,
        digit-symbol q hq,
        digit-symbol r hr,
        digit-symbol t ht,
      )
      (ap (λ o. four_digits (some p) (some q) (some r) (some t) o) e)
four_symbols p q r t (String.◌∷◌ c s) out hp hq hr ht e =
    rw (digit-symbol p hp, digit-symbol q hq, digit-symbol r hr, digit-symbol t ht)
      (ap (λ o. four_digits (some p) (some q) (some r) (some t) o) e)

is_pad-pad : is_pad "=" ≡ true
unfolding is_pad
is_pad-pad = refl

decode_groups-encode :
    (bytes : List ℕ) → All (λ b. b < 256) bytes → decode_groups (encode bytes) ≡ some bytes
unfolding encode decode_groups last_group two_digits three_digits four_digits
decode_groups-encode [] h = refl
decode_groups-encode (a ∷ []) h =
    rw (is_pad-pad, digit-symbol (a / 4) (omega arith), digit-symbol (a % 4 * 16) (omega arith))
      (ground arith)
decode_groups-encode (a ∷ b ∷ []) h =
    rw
      (
        is_pad-pad,
        is_pad-symbol (b % 16 * 4) (omega arith),
        digit-symbol (a / 4) (omega arith),
        digit-symbol (a % 4 * 16 + b / 16) (omega arith),
        digit-symbol (b % 16 * 4) (omega arith),
      )
      (ground arith)
decode_groups-encode (a ∷ b ∷ c ∷ rest) h =
    four_symbols (a / 4) (a % 4 * 16 + b / 16) (b % 16 * 4 + c / 64) (c % 64) (encode rest) rest
      (omega arith) (omega arith) (omega arith) (omega arith) (decode_groups-encode rest h.1.1.1)
    ∙ ground arith

strip-symbol :
    (i : ℕ) (s : String)
    → i < 64
    → strip (String.◌∷◌ (symbol i) s) ≡ String.◌∷◌ (symbol i) (strip s)
unfolding strip
strip-symbol i s h = rw (is_line_end-symbol i h)

strip-pad : (strip "" ≡ "") × (strip "=" ≡ "=") × (strip "==" ≡ "==")
unfolding strip is_line_end
strip-pad = (refl, refl, refl)

-- The text has no line end.
strip-encode : (bytes : List ℕ) → All (λ b. b < 256) bytes → strip (encode bytes) ≡ encode bytes
unfolding encode
strip-encode [] h = strip-pad.0
strip-encode (a ∷ []) h =
    rw
      (strip-symbol (a / 4) _ (omega arith), strip-symbol (a % 4 * 16) _ (omega arith), strip-pad.2)
strip-encode (a ∷ b ∷ []) h = rw (
  strip-symbol (a / 4) _ (omega arith),
  strip-symbol (a % 4 * 16 + b / 16) _ (omega arith),
  strip-symbol (b % 16 * 4) _ (omega arith),
  strip-pad.1,
)
strip-encode (a ∷ b ∷ c ∷ rest) h = rw (
  strip-symbol (a / 4) _ (omega arith),
  strip-symbol (a % 4 * 16 + b / 16) _ (omega arith),
  strip-symbol (b % 16 * 4 + c / 64) _ (omega arith),
  strip-symbol (c % 64) _ (omega arith),
  strip-encode rest h.1.1.1,
)

-- Whatever bytes are written as base64 are read back from it.
pub decode-encode : (bytes : List ℕ) → All (λ b. b < 256) bytes → decode (encode bytes) ≡ some bytes
unfolding decode
decode-encode bytes h = rw (strip-encode bytes h) (decode_groups-encode bytes h)
