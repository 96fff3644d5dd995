-- ===== src/Crypto.antt =====
-- internal/crypto: the signed envelopes and the server's key. Ed25519 and JSON are taken as
-- parameters: their operations in one record each, and what is relied on in a second one.
pub mod Base64
pub mod Signatures
pub mod Keys
use seatkey.Common.{
  ℕ, zero, suc, ◌<◌, ◌≡◌, Bool, true, false, Option, none, some, List, [], ◌∷◌, String, All, length,
  nat_beq, if◌then◌else◌,
}
use seatkey.World.{
  Result, ok, err, marshal, unmarshal, corrupt_base64, invalid_signature, bad_length, Call, pure,
  rand_read, ◌>>=◌,
}
use Base64.{encode, decode}

abbrev pub Bytes : Type 0
Bytes = List ℕ

-- crypto/ed25519.
pub record Ed25519 : Type 0 where
  pub sign : Bytes → Bytes → Bytes
  pub verify : Bytes → Bytes → Bytes → Bool
  pub new_key_from_seed : Bytes → Bytes
  pub public_key : Bytes → Bytes

-- `json.Marshal` and `json.Unmarshal` at one type. An instant beyond the year 9999 is refused.
pub record Json (T : Type 0) : Type 0 where
  pub marshal : T → Option Bytes
  pub unmarshal : Bytes → Option T

abbrev pub IsByte : ℕ → Type 0
IsByte b = b < 256

-- What the documentation of crypto/ed25519 promises of a key that was made from a seed.
pub record Ed25519Laws (e : Ed25519) : Type 0 where
  pub verify-sign :
      (seed message : Bytes)
      → e.verify
          (e.public_key (e.new_key_from_seed seed))
          message
          (e.sign (e.new_key_from_seed seed) message)
        ≡ true
  pub sign-bytes : (key message : Bytes) → All IsByte (e.sign key message)
  pub public_key-bytes : (key : Bytes) → All IsByte (e.public_key key)
  pub public_key-length : (key : Bytes) → length (e.public_key key) ≡ 32

-- What was marshalled is read back.
pub record JsonLaws {T : Type 0} (j : Json T) : Type 0 where
  pub unmarshal-marshal :
      (t : T) (text : Bytes) → j.marshal t ≡ some text → j.unmarshal text ≡ some t
  pub marshal-bytes : (t : T) (text : Bytes) → j.marshal t ≡ some text → All IsByte text

pub record Envelope : Type 0 where
  pub payload : String
  pub signature : String

unfoldable pub seal : Ed25519 → Bytes → Option Bytes → Result Envelope
seal e priv none = err marshal
seal e priv (some text) =
    ok (record { payload = encode text; signature = encode (e.sign priv text) })

-- `Sign`.
unfoldable pub sign : {T : Type 0} → Ed25519 → Json T → Bytes → T → Result Envelope
unfolding seal
sign e j priv payload = seal e priv (j.marshal payload)

or_error : {A : Type 0} → Option A → Result A → Result A
or_error none failed = failed
or_error (some a) failed = ok a

open_checked : {T : Type 0} → Json T → Bytes → Bool → Result T
open_checked j text true = or_error (j.unmarshal text) (err unmarshal)
open_checked j text false = err invalid_signature

open_decoded : {T : Type 0} → Ed25519 → Json T → Bytes → Option Bytes → Option Bytes → Result T
open_decoded e j key none signature = err corrupt_base64
open_decoded e j key (some text) none = err corrupt_base64
open_decoded e j key (some text) (some signature) =
    open_checked j text (e.verify key text signature)

-- `Verify`: the payload that it unmarshals is its result.
unfoldable pub verify : {T : Type 0} → Ed25519 → Json T → Bytes → Envelope → Result T
unfolding open_decoded open_checked or_error
verify e j key env = open_decoded e j key (decode env.payload) (decode env.signature)

abbrev pub seed_size : ℕ
seed_size = 32

abbrev pub public_key_size : ℕ
public_key_size = 32

-- The first bytes of a buffer, from an index on.
unfoldable pub bytes_from : (ℕ → ℕ) → ℕ → ℕ → Bytes
bytes_from buf k zero = []
bytes_from buf k (suc left) = buf k ∷ bytes_from buf (suc k) left

-- `GenerateSeed`: the seed of the key that `ed25519.GenerateKey` makes is what it read from `rand`.
unfoldable pub generate_seed : Call String
unfolding bytes_from
generate_seed = do buf ← rand_read; pure (encode (bytes_from buf 0 seed_size))

unfoldable pub keypair : Ed25519 → Option Bytes → Result (Bytes × Bytes)
keypair e none = err corrupt_base64
keypair e (some raw) =
    if nat_beq (length raw) seed_size
    then ok (e.new_key_from_seed raw, e.public_key (e.new_key_from_seed raw))
    else err bad_length

unfoldable pub keypair_from_seed : Ed25519 → String → Result (Bytes × Bytes)
unfolding keypair
keypair_from_seed e seed = keypair e (decode seed)

unfoldable pub encode_public_key : Bytes → String
encode_public_key = encode

unfoldable pub sized_key : Option Bytes → Result Bytes
sized_key none = err corrupt_base64
sized_key (some raw) = if nat_beq (length raw) public_key_size then ok raw else err bad_length

unfoldable pub decode_public_key : String → Result Bytes
unfolding sized_key
decode_public_key text = sized_key (decode text)
