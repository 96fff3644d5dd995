-- ===== src/Client/Opened.antt =====
-- cmd/democli: a token that was opened, and a state that was loaded.
use seatkey.Client.Rules.{IsQuiet}
use seatkey.License.{Token}
use seatkey.Crypto.{verify, decode_public_key, Bytes, Envelope}
use seatkey.Common.{
  false, true, inl, none, if◌then◌else◌, Bool, inr, refl, ◌⊎◌, some, ◌≡◌, Option, String,
}
use seatkey.Client.{load_state, open_token, CachedState, Codecs}
use seatkey.World
use seatkey.Client.Machine.{
  spend, proceed, crypto, unreadable, of_crypto, malformed, or_fail, failed, done, Outcome, Machine,
}

module _ (c : Codecs) where
  -- The text is a public key, and the envelope verifies with it to the token.
  abbrev pub Opens : String → Envelope → Token → Type 0
  Opens text env tok =
      (key : Bytes) × (decode_public_key text ≡ World.ok key)
      × (verify c.ed25519 c.token_json key env ≡ World.ok tok)

  abbrev pub HasOpened : String → Envelope → Machine → Outcome Token × Machine → Type 0
  HasOpened text env m (done tok, m') = Opens text env tok × IsQuiet m m'
  HasOpened text env m (failed f, m') = IsQuiet m m' × ((e : World.Error) × (f ≡ crypto e))

  pub open_token-HasOpened :
      (text : String) (env : Envelope) (m : Machine)
      → HasOpened text env m (open_token c text env m)
  unfolding open_token
  open_token-HasOpened text env m = go (decode_public_key text) refl
    where
      verified :
          (key : Bytes) (r : World.Result Token)
          → decode_public_key text ≡ World.ok key
          → verify c.ed25519 c.token_json key env ≡ r
          → HasOpened text env m (of_crypto r m)
      verified key (World.ok tok) d v = ((key, d, v), ((refl, refl, refl), refl, refl))
      verified key (World.err e) d v = (((refl, refl, refl), refl, refl), (e, refl))

      go :
          (r : World.Result Bytes)
          → decode_public_key text ≡ r
          → HasOpened text env m
              (proceed (λ key. of_crypto (verify c.ed25519 c.token_json key env)) (of_crypto r m))
      go (World.ok key) d = verified key (verify c.ed25519 c.token_json key env) d refl
      go (World.err e) d = (((refl, refl, refl), refl, refl), (e, refl))

  -- The cached state, and nothing else has happened.
  abbrev pub Cached : CachedState → Machine → Type 0
  Cached st m =
      (bytes : Bytes) × (m.license_file ≡ some bytes) × (c.state_json.unmarshal bytes ≡ some st)

  abbrev pub HasLoaded : Machine → Outcome CachedState × Machine → Type 0
  HasLoaded m (done st, m') = Cached st m × IsQuiet m m'
  HasLoaded m (failed e, m') = IsQuiet m m' × ((e ≡ unreadable) ⊎ (e ≡ malformed))

  pub load_state-HasLoaded : (m : Machine) → HasLoaded m (load_state c m)
  unfolding load_state
  load_state-HasLoaded m = go (m.around.fault m.calls) (m.license_file) refl
    where
      parsed :
          (bytes : Bytes) (o : Option CachedState)
          → m.license_file ≡ some bytes
          → c.state_json.unmarshal bytes ≡ o
          → HasLoaded m (or_fail malformed o (spend m))
      parsed bytes none f u = (((refl, refl, refl), refl, refl), inr refl)
      parsed bytes (some st) f u = ((bytes, f, u), ((refl, refl, refl), refl, refl))

      go :
          (b : Bool) (o : Option Bytes)
          → m.license_file ≡ o
          → HasLoaded m (
              proceed
                (λ bytes. or_fail malformed (c.state_json.unmarshal bytes))
                (or_fail unreadable (if b then none else o) (spend m)))
      go true o f = (((refl, refl, refl), refl, refl), inl refl)
      go false none f = (((refl, refl, refl), refl, refl), inl refl)
      go false (some bytes) f = parsed bytes (c.state_json.unmarshal bytes) f refl
