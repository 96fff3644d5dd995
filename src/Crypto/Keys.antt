-- ===== src/Crypto/Keys.antt =====
-- internal/crypto/keys.go: the server's key from its seed, and the public key that clients are given.
use seatkey.Crypto.Base64.{encode}
use seatkey.World.{rand_result, pure, resume, ok, World}
use seatkey.Common.{
  refl, ap, zero, none, subst, suc, length, All, Option, arith, some, ◌≡◌, String, ℕ,
}
use seatkey.Crypto.{
  Bytes, Ed25519Laws, encode_public_key, IsByte, Ed25519, keypair_from_seed, decode_public_key,
  generate_seed,
}
use seatkey.Crypto.Base64.RoundTrip.{decode-encode}
use seatkey.Crypto.{bytes_from, sized_key, keypair}

-- A buffer of the random source holds bytes.
abbrev pub IsFilled : (ℕ → ℕ) → Type 0
IsFilled buf = (k : ℕ) → IsByte (buf k)

bytes_from-IsByte : (buf : ℕ → ℕ) (k n : ℕ) → IsFilled buf → All IsByte (bytes_from buf k n)
unfolding bytes_from
bytes_from-IsByte buf k zero h = tt
bytes_from-IsByte buf k (suc n) h = (h k, bytes_from-IsByte buf (suc k) n h)

length-bytes_from : (buf : ℕ → ℕ) (k n : ℕ) → length (bytes_from buf k n) ≡ n
unfolding bytes_from
length-bytes_from buf k zero = refl
length-bytes_from buf k (suc n) = ap suc (length-bytes_from buf (suc k) n)

-- client, is read back.
abbrev pub IsKeypair : Ed25519 → String → Type 0
IsKeypair e seed =
    (raw : Bytes) × (keypair_from_seed e seed
      ≡ ok (e.new_key_from_seed raw, e.public_key (e.new_key_from_seed raw)))
    × (decode_public_key (encode_public_key (e.public_key (e.new_key_from_seed raw)))
        ≡ ok (e.public_key (e.new_key_from_seed raw)))

pub public_key_text :
    (key : Bytes)
    → All IsByte key
    → length key ≡ 32
    → decode_public_key (encode_public_key key) ≡ ok key
unfolding decode_public_key encode_public_key sized_key
public_key_text key bytes size = rw (decode-encode key bytes, size) refl

made_of_bytes :
    (e : Ed25519) (raw : Bytes)
    → Ed25519Laws e
    → All IsByte raw
    → length raw ≡ 32
    → IsKeypair e (encode raw)
unfolding keypair_from_seed keypair
made_of_bytes e raw laws bytes size = (
  raw,
  rw (decode-encode raw bytes, size) refl,
  public_key_text _ (laws.public_key-bytes (e.new_key_from_seed raw))
      (laws.public_key-length (e.new_key_from_seed raw)),
)

-- A seed that was generated makes a key pair, and the public key of the pair, as a client gets it, is
-- read back as the same key. The random source fills its buffers with bytes.
pub generate_seed-IsKeypair :
    (e : Ed25519) (w w' : World) (seed : String)
    → Ed25519Laws e
    → ((n : ℕ) (buf : ℕ → ℕ) → w.outside.random n ≡ some buf → IsFilled buf)
    → generate_seed w ≡ (ok seed, w')
    → IsKeypair e seed
unfolding generate_seed
generate_seed-IsKeypair e w w' seed laws filled h = go (w.outside.random w.calls) refl h
  where
    go :
        (o : Option (ℕ → ℕ))
        → w.outside.random w.calls ≡ o
        → resume (λ buf. pure (encode (bytes_from buf 0 32))) (rand_result w o) ≡ (ok seed, w')
        → IsKeypair e seed
    go none q r = absurd (cc)
    go (some buf) q r = subst (IsKeypair e) (ground arith) (
        made_of_bytes e (bytes_from buf 0 32) laws
          (bytes_from-IsByte buf 0 32 (filled w.calls buf q)) (length-bytes_from buf 0 32))
