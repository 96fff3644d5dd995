-- ===== src/Client/Written.antt =====
-- cmd/democli: what the steps that write the two files and print a token give.
use seatkey.Client.Opened.{open_token-HasOpened, HasOpened, Cached}
use seatkey.Client.Rules.{bind_rule}
use seatkey.Client.Session.{SameFiles}
use seatkey.Crypto.{Bytes, JsonLaws, Envelope}
use seatkey.Client.Machine.{
  malformed, or_fail, write_license, proceed, activated, spend, unwritable, print, failed, done,
  write_pubkey, Outcome, Machine,
}
use seatkey.Client.{open_token, save_state, print_token, CachedState, Codecs}
use seatkey.Common.{none, false, true, Option, some, if◌then◌else◌, Bool, String, ◌≡◌, refl}

-- What the two writes give.
abbrev pub KeyWritten : String → Machine → Outcome (Unit {0}) × Machine → Type 0
KeyWritten text m (done _, m') = (m'.pubkey_file ≡ some text) × (m'.sent ≡ m.sent)
KeyWritten text m (failed _, m') = m'.sent ≡ m.sent

pub write_pubkey-KeyWritten :
    (text : String) (m : Machine) → KeyWritten text m (write_pubkey text m)
write_pubkey-KeyWritten text m = go (m.around.fault m.calls)
  where
    go :
        (b : Bool)
        → KeyWritten text m (
            if b
            then (failed unwritable, record (spend m) { pubkey_file = m.around.torn_text m.calls })
            else (done tt, record (spend m) { pubkey_file = some text }))
    go true = refl
    go false = (refl, refl)

module _ (c : Codecs) where
  abbrev pub StateWritten : CachedState → Machine → Outcome (Unit {0}) × Machine → Type 0
  StateWritten st m (done _, m') =
      Cached c st m' × (m'.pubkey_file ≡ m.pubkey_file) × (m'.sent ≡ m.sent)
  StateWritten st m (failed _, m') = m'.sent ≡ m.sent

  pub save_state-StateWritten :
      (st : CachedState) (m : Machine)
      → JsonLaws c.state_json
      → StateWritten st m (save_state c st m)
  unfolding save_state
  save_state-StateWritten st m laws = go (c.state_json.marshal st) refl
    where
      written :
          (bytes : Bytes) (b : Bool)
          → c.state_json.marshal st ≡ some bytes
          → StateWritten st m (
              if b
              then (failed unwritable, record (spend m) { license_file = m.around.torn m.calls })
              else (done tt, record (spend m) { license_file = some bytes }))
      written bytes true e = refl
      written bytes false e = ((bytes, refl, laws.unmarshal-marshal st bytes e), refl, refl)

      go :
          (o : Option Bytes)
          → c.state_json.marshal st ≡ o
          → StateWritten st m (proceed write_license (or_fail malformed o m))
      go none e = refl
      go (some bytes) e = written bytes (m.around.fault m.calls) e

  abbrev pub Shown : Machine → Outcome (Unit {0}) × Machine → Type 0
  Shown m (o, m') = SameFiles m m' × (m'.sent ≡ m.sent)

  pub print_token-Shown :
      (text : String) (env : Envelope) (m : Machine) → Shown m (print_token c text env m)
  unfolding print_token
  print_token-Shown text env m =
      bind_rule (HasOpened c text env m) (Shown m) (open_token c text env)
        (λ tok. print (activated tok)) m (open_token-HasOpened c text env m)
        (λ f m1 (((a, b, e), q, p), x). ((a, b), q)) (λ tok m1 (o, ((a, b, e), q, p)). ((a, b), q))
