-- ===== src/Tests/Crypto.antt =====
-- internal/crypto: its theorems with the stand-ins for Ed25519 and JSON.
use seatkey.Crypto.Base64.{symbol, encode}
use seatkey.World.{ok, spend, Outside, World}
use seatkey.Toys.{key_bytes, demo, calm, toy_ed25519-laws, toy_ed25519, toy_json, demo_token}
use seatkey.Common.{arith, ◌<◌, none, ◌↔◌, ℕ, Option, [], some, subst, String, refl, ◌≡◌}
use seatkey.Crypto.{bytes_from, generate_seed, Envelope, verify}
use seatkey.Crypto.Signatures.{verify_iff, Evidence}
use seatkey.Crypto.Keys.{IsFilled, generate_seed-IsKeypair, IsKeypair}

abbrev demo_envelope : Envelope
demo_envelope = record { payload = ""; signature = "AA==" }

verify_iff_example :
    (verify toy_ed25519 toy_json (key_bytes 32 []) demo_envelope ≡ ok demo_token)
    ↔ Evidence toy_ed25519 toy_json (key_bytes 32 []) demo_envelope demo_token
verify_iff_example = verify_iff toy_ed25519 toy_json (key_bytes 32 []) demo_envelope demo_token

abbrev zeros : Outside
zeros = record calm { random = λ n. some (λ k. 0) }

abbrev fresh : World
fresh = record demo { outside = zeros }

-- The bytes of a buffer, whichever it is.
byte_of : Option (ℕ → ℕ) → ℕ → ℕ
byte_of none k = 0
byte_of (some buf) k = buf k

zeros-IsFilled : (n : ℕ) (buf : ℕ → ℕ) → fresh.outside.random n ≡ some buf → IsFilled buf
unfolding byte_of
zeros-IsFilled n buf h k = subst (λ o. byte_of o k < 256) h (omega arith)

abbrev zero_seed : String
zero_seed = "AAAAAAAAAAAAAAAAAAAAAAAAAAAAAAAAAAAAAAAAAAA="

zero_seed-generated : generate_seed fresh ≡ (ok zero_seed, spend fresh)
unfolding generate_seed encode symbol bytes_from
zero_seed-generated = refl

generate_seed-IsKeypair_example : IsKeypair toy_ed25519 zero_seed
generate_seed-IsKeypair_example =
    generate_seed-IsKeypair toy_ed25519 fresh (spend fresh) zero_seed toy_ed25519-laws
      zeros-IsFilled zero_seed-generated
