-- ===== src/License/Verified.antt =====
-- internal/license and internal/crypto together: what a client may conclude from an envelope.
use seatkey.Store.Devices.{count_seats}
use seatkey.Store.Licenses.{find_license_by_key}
use seatkey.Store.Valid.{IsValid}
use seatkey.Common.{suc, subst, to_nat, Bool, ℕ, String, ◌≡◌, ◌≤◌, some}
use seatkey.World.{World, ok}
use seatkey.Store.Models.{License, license_status, active}
use seatkey.License.{Service, token_of, sign, activate_with}
use seatkey.License.Outcome.{Activation, activate_with-Activation}
use seatkey.Crypto
use seatkey.Crypto.{Ed25519Laws, JsonLaws, Envelope}
use seatkey.Crypto.Signatures.{verify-sign}

-- The service signs with the key of a seed, and hands out that seed's public key.
abbrev pub HasSeed : Service → Crypto.Bytes → Type 0
HasSeed s seed =
    (s.priv ≡ s.ed25519.new_key_from_seed seed)
    × (s.public_key ≡ s.ed25519.public_key (s.ed25519.new_key_from_seed seed))

pub sign-verify :
    (s : Service) (seed : Crypto.Bytes) (lic : License) (device_id : String) (seats now : ℕ)
    (offline : Bool) (env : Envelope)
    → Ed25519Laws s.ed25519
    → JsonLaws s.token_json
    → HasSeed s seed
    → sign s lic device_id seats now offline ≡ ok env
    → Crypto.verify s.ed25519 s.token_json s.public_key env
      ≡ ok (token_of lic device_id seats now offline)
unfolding sign
sign-verify s seed lic device_id seats now offline env el jl (hp, hk) h = rw hk (
    verify-sign s.ed25519 s.token_json seed (token_of lic device_id seats now offline) env el jl
      (rw hp at h))

-- What the token of an activation says, once a client has verified it with the server's key: the
-- license of the key that was sent, active at the instant of issue, which is the clock's reading after
-- the lookup; the device that asked; the seats in use then, within the limit.
pub activated_token :
    (s : Service) (seed : Crypto.Bytes) (key device_id device_name : String) (offline : Bool)
    (w w' : World) (env : Envelope)
    → Ed25519Laws s.ed25519
    → JsonLaws s.token_json
    → HasSeed s seed
    → IsValid w.db
    → activate_with s key device_id device_name offline w ≡ (ok env, w')
    → (lic : License) × (find_license_by_key key w.db ≡ some lic)
      × (license_status lic (w.outside.clock (suc w.calls)) ≡ active)
      × (Crypto.verify s.ed25519 s.token_json s.public_key env
          ≡ ok (
              token_of lic device_id
                (count_seats lic.id w'.db)
                (w.outside.clock (suc w.calls))
                offline))
      × (count_seats lic.id w'.db ≤ to_nat lic.max_devices)
activated_token s seed key device_id device_name offline w w' env el jl hs v e =
    let now = w.outside.clock (suc w.calls) in
    let (v', (lic, found, live, signed, limit, held, how)) =
      subst (Activation key device_id s offline now w) e
        (activate_with-Activation key device_id s offline device_name w v) in
    (
      lic,
      found,
      live,
      sign-verify s seed lic device_id (count_seats lic.id w'.db) now offline env el jl hs signed,
      limit,
    )
