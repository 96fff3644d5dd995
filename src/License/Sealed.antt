-- ===== src/License/Sealed.antt =====
-- internal/license/service.go: `sign`, and the count of seats that goes into the token.
use seatkey.Store.Devices.{count_seats, active_device_count}
use seatkey.Store.Devices.Outcomes.{active_device_count-Counted, Counted}
use seatkey.Crypto.{Envelope}
use seatkey.Store.Models.{License}
use seatkey.Common.{none, some, some, Bool, ℕ, arith, String, Option, ◌≡◌, ◌⊎◌, inl, inr, refl}
use seatkey.World.{lift, World, Error, Result, ok, err, driver, marshal}
use seatkey.World.Rules.{Same, bind_rule}
use seatkey.Crypto
use seatkey.License.{token_of, Service, sign, signed_token}

seal-err :
    (s : Service) (o : Option Crypto.Bytes) (e : Error)
    → Crypto.seal s.ed25519 s.priv o ≡ err e
    → e ≡ marshal
unfolding Crypto.seal
seal-err s none e h = ground arith
seal-err s (some text) e h = absurd (cc)

-- `sign` fails only where the token's instants cannot be written.
pub sign-err :
    (s : Service) (lic : License) (device_id : String) (seats now : ℕ) (offline : Bool) (e : Error)
    → sign s lic device_id seats now offline ≡ err e
    → e ≡ marshal
unfolding sign Crypto.sign
sign-err s lic device_id seats now offline e h =
    seal-err s (s.token_json.marshal (token_of lic device_id seats now offline)) e h

module _ (s : Service) (lic : License) (device_id : String) (now : ℕ) (offline : Bool) where
  -- The token tells the seats in use at that moment.
  abbrev pub Signed : World → Result Envelope × World → Type 0
  Signed w (ok env, w') =
      (sign s lic device_id (count_seats lic.id w.db) now offline ≡ ok env) × Same w w'
  Signed w (err e, w') = ((e ≡ driver) ⊎ (e ≡ marshal)) × Same w w'

  lift-Signed :
      (w w' : World) (seats : ℕ) (r : Result Envelope)
      → sign s lic device_id seats now offline ≡ r
      → seats ≡ count_seats lic.id w.db
      → Same w w'
      → Signed w (r, w')
  lift-Signed w w' seats (ok env) e counted same = (rw (← counted) e, same)
  lift-Signed w w' seats (err x) e counted same =
      (inr (sign-err s lic device_id seats now offline x e), same)

  pub signed_token-Signed : (w : World) → Signed w (signed_token s lic device_id now offline w)
  unfolding signed_token
  signed_token-Signed w =
      bind_rule (Counted lic.id w) (Signed w) (active_device_count lic.id)
        (λ seats. lift (sign s lic device_id seats now offline)) w
        (active_device_count-Counted lic.id w) (λ e w' h. (inl h.0, h.1))
        (λ seats w' h. lift-Signed w w' seats (sign s lic device_id seats now offline) refl h.0 h.1)
