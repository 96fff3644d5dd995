-- ===== src/Client.antt =====
-- cmd/democli/main.go: the reference client. Its flags are parsed already: a command takes their
-- values.
use seatkey.Crypto.Base64.{decode}
use seatkey.World.{corrupt_base64}
use seatkey.Common.{
  none, some, ◌||◌, ◌==◌, ltb, leb, [], List, if◌then◌else◌, Option, ◌∷◌, Bool, ℕ, String,
}
use seatkey.Crypto.{verify, Bytes, decode_public_key, Json, Ed25519, Envelope}
use seatkey.License.{Token}
use seatkey.Client.Machine.{
  offline_request, verified, write_pubkey, rejected, licensed, lapsed, missing_flags, pure,
  deactivated, bad_status, fail, write_license, remove_license, crypto, posted, malformed,
  activated, Failure, got, or_fail, exchange, read, of_crypto, time_now, print, Reply, Command,
}
pub mod Machine
pub mod Rules
pub mod Opened
pub mod Run
pub mod Session
pub mod Issued
pub mod Served
pub mod Import
pub mod Written
pub mod Asked
pub mod Leave
pub mod Overwrite
use Prim.Native.String
use Machine.{◌>>=◌, ◌>>◌}

pub record CachedState : Type 0 where
  pub envelope : Envelope
  pub device_id : String
  pub server : String

-- The packages that the commands call: Ed25519, and JSON at the types that are read and written. A
-- map of texts can always be written; `read_message` and `read_public_key` are the fields of an answer.
pub record Codecs : Type 0 where
  pub ed25519 : Ed25519
  pub token_json : Json Token
  pub envelope_json : Json Envelope
  pub state_json : Json CachedState
  pub read_message : Bytes → Option String
  pub read_public_key : Bytes → Option String

unfoldable pub save_state : Codecs → CachedState → Command (Unit {0})
save_state c st = do bytes ← or_fail malformed (c.state_json.marshal st); write_license bytes

unfoldable pub load_state : Codecs → Command CachedState
load_state c = do
  bytes ← read (λ m. m.license_file)
  or_fail malformed (c.state_json.unmarshal bytes)

unfoldable pub load_pubkey : Command String
load_pubkey = read (λ m. m.pubkey_file)

-- What a status of 300 or more is reported as.
abbrev pub refusal : ℕ → Option String → Failure
refusal status none = bad_status status
refusal status (some message) = if message == "" then bad_status status else rejected message

abbrev pub is_refused : Reply → Bool
is_refused reply = leb 300 reply.status

unfoldable pub post_json : Codecs → String → String → List (String × String) → Command Envelope
post_json c server path fields = do
  reply ← exchange (posted (String.◌++◌ server path) fields)
  if is_refused reply
      then fail (refusal reply.status (c.read_message reply.body))
      else or_fail malformed (c.envelope_json.unmarshal reply.body)

unfoldable pub post_json_ok : Codecs → String → String → List (String × String) → Command (Unit {0})
post_json_ok c server path fields = do
  reply ← exchange (posted (String.◌++◌ server path) fields)
  if is_refused reply then fail (refusal reply.status (c.read_message reply.body)) else pure tt

-- The status is not looked at.
unfoldable pub fetch_pubkey : Codecs → String → Command String
fetch_pubkey c server = do
  reply ← exchange (got (String.◌++◌ server "/v1/pubkey"))
  or_fail malformed (c.read_public_key reply.body)

-- The token of an envelope that verifies with the public key of a text.
unfoldable pub open_token : Codecs → String → Envelope → Command Token
open_token c pub_text env = do
  key ← of_crypto (decode_public_key pub_text)
  of_crypto (verify c.ed25519 c.token_json key env)

unfoldable pub print_token : Codecs → String → Envelope → Command (Unit {0})
print_token c pub_text env = do tok ← open_token c pub_text env; print (activated tok)

unfoldable pub cmd_activate : Codecs → (server key device name : String) → Command (Unit {0})
cmd_activate c server key device name = if key == "" || device == "" then fail missing_flags else do
  env ←
      post_json c server "/v1/activate"
        (("license_key", key) ∷ ("device_id", device) ∷ ("device_name", name) ∷ [])
  pub_text ← fetch_pubkey c server
  write_pubkey pub_text
  save_state c (record { envelope = env; device_id = device; server = server })
  print_token c pub_text env

-- `mustDecodePayload`, which ends the program.
abbrev pub must_decode_payload : Envelope → Command Bytes
must_decode_payload env = or_fail (crypto corrupt_base64) (decode env.payload)

-- The cached token, unverified.
unfoldable pub cached_token : Codecs → Envelope → Command Token
cached_token c env = do
  bytes ← must_decode_payload env
  or_fail malformed (c.token_json.unmarshal bytes)

unfoldable pub cmd_validate : Codecs → (server : String) → Command (Unit {0})
cmd_validate c server = do
  st ← load_state c
  tok ← cached_token c st.envelope
  env ←
      post_json c server "/v1/validate"
        (("license_key", tok.license_key) ∷ ("device_id", st.device_id) ∷ [])
  save_state c (record st { envelope = env })
  pub_text ← load_pubkey
  print_token c pub_text env

unfoldable pub cmd_deactivate : Codecs → (server : String) → Command (Unit {0})
cmd_deactivate c server = do
  st ← load_state c
  tok ← cached_token c st.envelope
  post_json_ok c server "/v1/deactivate"
      (("license_key", tok.license_key) ∷ ("device_id", st.device_id) ∷ [])
  remove_license
  print deactivated

-- `time.Now().After(tok.ValidUntil)`.
unfoldable pub require_current : Token → ℕ → Command (Unit {0})
require_current tok now =
    if ltb tok.valid_until now then fail (lapsed tok.offline) else print (licensed tok)

unfoldable pub cmd_run : Codecs → Command (Unit {0})
cmd_run c = do
  st ← load_state c
  pub_text ← load_pubkey
  tok ← open_token c pub_text st.envelope
  now ← time_now
  require_current tok now

-- The hint is there only if a key was given.
abbrev pub hint : String → List (String × String)
hint key = if key == "" then [] else ("license_key_hint", key) ∷ []

unfoldable pub cmd_offline_request : (key device name : String) → Command (Unit {0})
cmd_offline_request key device name =
    if device == ""
    then fail missing_flags
    else print (offline_request (("device_id", device) ∷ ("device_name", name) ∷ hint key))

unfoldable pub cmd_offline_activate : Codecs → (file pubkey : String) → Command (Unit {0})
cmd_offline_activate c file pubkey = if file == "" then fail missing_flags else do
  bytes ← read (λ m. m.around.file file)
  env ← or_fail malformed (c.envelope_json.unmarshal bytes)
  pub_text ← if pubkey == "" then load_pubkey else pure pubkey
  tok ← open_token c pub_text env
  write_pubkey pub_text
  save_state c (record { envelope = env; device_id = tok.device_id; server = "" })
  print verified
  print_token c pub_text env

-- The values of a command's flags: those that were given, and else the defaults of the source.
pub record Flags : Type 0 where
  pub server : String
  pub key : String
  pub device : String
  pub name : String
  pub file : String
  pub pubkey : String

-- What the program does: a command, or the usage text with an exit status.
pub data Action : Type 0 where
  runs : Command (Unit {0}) → Action
  shows_usage : (status : ℕ) → Action

-- The `switch` of `main` on the first argument.
unfoldable pub dispatch : Codecs → String → Flags → Action
dispatch c command f =
    if command == "activate"
    then runs (cmd_activate c f.server f.key f.device f.name)
    else if command == "validate"
    then runs (cmd_validate c f.server)
    else if command == "deactivate"
    then runs (cmd_deactivate c f.server)
    else if command == "run"
    then runs (cmd_run c)
    else if command == "offline-request"
    then runs (cmd_offline_request f.key f.device f.name)
    else if command == "offline-activate"
    then runs (cmd_offline_activate c f.file f.pubkey)
    else if command == "-h" || command == "--help" || command == "help"
    then shows_usage 0
    else shows_usage 2
