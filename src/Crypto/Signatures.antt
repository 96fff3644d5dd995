-- ===== src/Crypto/Signatures.antt =====
-- internal/crypto: envelopes that are opened with the key they were sealed for, and what an envelope
-- that opens has shown.
use seatkey.Crypto.{JsonLaws, Ed25519Laws, Envelope, Bytes, Json, Ed25519}
use seatkey.Common.{subst, arith, Option, ◌≡◌, refl, ◌↔◌, some, none, true}
use seatkey.World.{ok}
use seatkey.Crypto.Base64.{encode, decode}
use seatkey.Crypto.Base64.RoundTrip.{decode-encode}
use seatkey.Crypto

module _ {T : Type 0} (e : Ed25519) (j : Json T) where
  open_made :
      (seed : Bytes) (t : T) (text : Bytes)
      → Ed25519Laws e
      → JsonLaws j
      → j.marshal t ≡ some text
      → Crypto.verify e j (e.public_key (e.new_key_from_seed seed)) (record {
        payload = encode text;
        signature = encode (e.sign (e.new_key_from_seed seed) text);
      })
        ≡ ok t
  unfolding Crypto.verify
  open_made seed t text el jl m = rw (
    decode-encode text (jl.marshal-bytes t text m),
    decode-encode (e.sign (e.new_key_from_seed seed) text)
        (el.sign-bytes (e.new_key_from_seed seed) text),
    el.verify-sign seed text,
    jl.unmarshal-marshal t text m,
  )

  seal-verify :
      (seed : Bytes) (t : T) (o : Option Bytes) (env : Envelope)
      → Ed25519Laws e
      → JsonLaws j
      → j.marshal t ≡ o
      → Crypto.seal e (e.new_key_from_seed seed) o ≡ ok env
      → Crypto.verify e j (e.public_key (e.new_key_from_seed seed)) env ≡ ok t
  unfolding Crypto.verify Crypto.seal
  seal-verify seed t none env el jl m h = cc
  seal-verify seed t (some text) env el jl m h =
      let key = e.new_key_from_seed seed in
      let made : Envelope = record {
        payload = encode text;
        signature = encode (e.sign key text);
      } in
      subst (λ x. Crypto.verify e j (e.public_key key) x ≡ ok t) (ground arith)
        (open_made seed t text el jl m)

  -- What was signed with the key of a seed opens with that seed's public key, and is what was signed.
  pub verify-sign :
      (seed : Bytes) (t : T) (env : Envelope)
      → Ed25519Laws e
      → JsonLaws j
      → Crypto.sign e j (e.new_key_from_seed seed) t ≡ ok env
      → Crypto.verify e j (e.public_key (e.new_key_from_seed seed)) env ≡ ok t
  unfolding Crypto.sign
  verify-sign seed t env el jl h = seal-verify seed t (j.marshal t) env el jl refl h

  -- The evidence that an envelope holds for a payload.
  abbrev pub Evidence : Bytes → Envelope → T → Type 0
  Evidence key env t =
      (text signature : Bytes) × (decode env.payload ≡ some text)
      × (decode env.signature ≡ some signature)
      × (e.verify key text signature ≡ true)
      × (j.unmarshal text ≡ some t)

  -- An envelope opens exactly if both its parts are base64, its signature verifies over the very bytes
  -- of the payload, and those bytes are read as the result.
  pub verify_iff :
      (key : Bytes) (env : Envelope) (t : T)
      → (Crypto.verify e j key env ≡ ok t) ↔ Evidence key env t
  unfolding Crypto.verify
  verify_iff key env t = (go (decode env.payload) (decode env.signature) refl refl, back)
    where
      go :
          (p q : Option Bytes)
          → decode env.payload ≡ p
          → decode env.signature ≡ q
          → Crypto.open_decoded e j key p q ≡ ok t
          → Evidence key env t
      go none q hp hq h = absurd (cc)
      go (some text) none hp hq h = absurd (cc)
      go (some text) (some signature) hp hq h =
          (text, signature, hp, hq, ground arith, ground arith)

      back : Evidence key env t → Crypto.verify e j key env ≡ ok t
      back (text, signature, hp, hq, good, read) = rw (hp, hq, good, read)
