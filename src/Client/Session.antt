-- ===== src/Client/Session.antt =====
-- cmd/democli: `activate` and a later `run`, on a machine whose files can be read and written.
use seatkey.Client.Opened.{Opens}
use seatkey.Client.Run.{Holds}
use seatkey.Crypto.{JsonLaws, Bytes, Envelope}
use seatkey.License.{Token}
use seatkey.Client.Machine.{activated, Reply, done, Outcome, spend, Machine}
use seatkey.Client.{
  print_token, require_current, open_token, is_refused, save_state, fetch_pubkey, load_pubkey,
  load_state, post_json, cmd_activate, cmd_run, CachedState, Codecs,
}
use seatkey.Common.{◌||◌, ◌==◌, ◌∷◌, suc, some, String, false, ℕ, ◌≡◌, refl}

-- No access to a file fails.
abbrev pub IsCalm : Machine → Type 0
IsCalm m = (n : ℕ) → m.around.fault n ≡ false

abbrev pub SameFiles : Machine → Machine → Type 0
SameFiles m m' = (m'.license_file ≡ m.license_file) × (m'.pubkey_file ≡ m.pubkey_file)

-- The machine after the three interactions of a run.
abbrev pub ran : Machine → Machine
ran m = spend (spend (spend m))

module _ (c : Codecs) where
  pub cmd_run-Holds :
      (m : Machine) (tok : Token)
      → IsCalm m
      → Holds c m tok
      → cmd_run c m ≡ require_current tok (m.around.clock (suc (suc m.calls))) (ran m)
  unfolding cmd_run load_state load_pubkey open_token
  cmd_run-Holds m tok calm (st, text, (bytes, lf, js), pf, (key, kd, vf)) =
      rw (calm m.calls, lf, js, calm (suc m.calls), pf, kd, vf) refl

  -- The server answers the two requests of `activate` with this envelope and this public key.
  abbrev pub IsAnswered : Machine → Envelope → String → Type 0
  IsAnswered m env text =
      (r1 : Reply) × (r2 : Reply) × (m.around.answer m.calls ≡ some r1)
      × (is_refused r1 ≡ false)
      × (c.envelope_json.unmarshal r1.body ≡ some env)
      × (m.around.answer (suc m.calls) ≡ some r2)
      × (c.read_public_key r2.body ≡ some text)

  -- The state can be written as JSON.
  abbrev pub IsWritable : CachedState → Type 0
  IsWritable st = (bytes : Bytes) × (c.state_json.marshal st ≡ some bytes)

  abbrev pub state_of : Envelope → (device server : String) → CachedState
  state_of env device server = record { envelope = env; device_id = device; server = server }

  abbrev pub HasActivated : Machine → Token → (Outcome (Unit {0}) × Machine) → Type 0
  HasActivated m tok (o, m') =
      (o ≡ done tt) × Holds c m' tok × (m'.printed ≡ activated tok ∷ m.printed)

  pub cmd_activate-HasActivated :
      (server key device name : String) (m : Machine) (env : Envelope) (text : String) (tok : Token)
      → JsonLaws c.state_json
      → (key == "" || device == "") ≡ false
      → IsCalm m
      → IsAnswered m env text
      → IsWritable (state_of env device server)
      → Opens c text env tok
      → HasActivated m tok (cmd_activate c server key device name m)
  unfolding cmd_activate post_json fetch_pubkey save_state print_token open_token
  cmd_activate-HasActivated server key device name m env text tok laws given calm
        (r1, r2, a1, ok1, e1, a2, e2) (bytes, js) (pk, kd, vf) =
      rw
        (
          given,
          a1,
          ok1,
          e1,
          a2,
          e2,
          calm (suc (suc m.calls)),
          js,
          calm (suc (suc (suc m.calls))),
          kd,
          vf,
        )
        (
          refl,
          (
            state_of env device server,
            text,
            (bytes, refl, laws.unmarshal-marshal (state_of env device server) bytes js),
            refl,
            (pk, kd, vf),
          ),
          refl,
        )
