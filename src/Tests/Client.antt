-- ===== src/Tests/Client.antt =====
-- cmd/democli: a machine of Ann's, and the server of the small shop.
use seatkey.Client.Served.{Transmits, cmd_activate-handle_api_activate}
use seatkey.Web.Api.{decoded, with_request, ActivateRequest, handle_api_pubkey, handle_api_activate}
use seatkey.Web.Http.{write_json, envelope}
use seatkey.World.{ok}
use seatkey.Client.Leave.{cmd_deactivate-Left, Left}
use seatkey.Client.Written.{print_token-Shown}
use seatkey.Client.Session.{SameFiles}
use seatkey.World.{ok}
use seatkey.Tests.License.{activated_shop, activated_ok, the_envelope}
use seatkey.Toys.{
  demo-IsValid, toy_json-laws, toy_ed25519-laws, key_bytes, toy_json, demo_service, toy_ed25519,
  demo,
}
use seatkey.Client.Machine.{posted, got, Surroundings, Machine}
use seatkey.License.{activate}
use seatkey.Client.Run.{cmd_run-Ran, Ran}
use seatkey.Client.Issued.{IsLicensed}
use seatkey.Client.{
  cmd_deactivate, save_state, fetch_pubkey, cmd_offline_activate, cmd_run, post_json, cmd_activate,
  Codecs, CachedState,
}
use seatkey.Client.Import.{cmd_offline_activate-HasImported, HasImported}
use seatkey.Crypto.{IsByte, Bytes, encode_public_key, Json, JsonLaws}
use seatkey.Common.{
  Option, ◌∷◌, sym, All, false, subst, eq_iff, ◌&&◌, [], ◌==◌, arith, ap, true, none, some, Bool,
  ◌+◌, String, ◌≡◌, refl,
}

abbrev pub server_key : String
server_key = encode_public_key (key_bytes 32 [])

-- The state with an envelope that has this signature.
abbrev pub signed : String → CachedState
signed signature = record {
  envelope = record { payload = ""; signature = signature };
  device_id = "laptop";
  server = "http://shop";
}

abbrev is_signed : String → CachedState → Bool
is_signed signature st =
    st.envelope.payload == ""
    && st.envelope.signature == signature
    && st.device_id == "laptop"
    && st.server == "http://shop"

is_signed-eq : (s : String) (st : CachedState) → is_signed s st ≡ true → signed s ≡ st
is_signed-eq s st h =
    let payload : st.envelope.payload ≡ "" = ground (arith, eq_iff st.envelope.payload "") in
    let signature : st.envelope.signature ≡ s = ground (arith, eq_iff st.envelope.signature s) in
    let device : st.device_id ≡ "laptop" = ground (arith, eq_iff st.device_id "laptop") in
    let server : st.server ≡ "http://shop" = ground (arith, eq_iff st.server "http://shop") in cc

-- JSON that knows the state with the signature of the shop and the one with none.
abbrev write_state : Bool → Bool → Option Bytes
write_state true unsigned = some []
write_state false true = some (1 ∷ [])
write_state false false = none

abbrev read_state : Bytes → Option CachedState
read_state [] = some (signed "AA==")
read_state (b ∷ bytes) = some (signed "")

abbrev state_json : Json CachedState
state_json = record {
  marshal = λ st. write_state (is_signed "AA==" st) (is_signed "" st);
  unmarshal = read_state;
}

read_back :
    (st : CachedState) (text : Bytes) (a b : Bool)
    → is_signed "AA==" st ≡ a
    → is_signed "" st ≡ b
    → write_state a b ≡ some text
    → (read_state text ≡ some st) × All IsByte text
read_back st text true b p q h =
    let same : [] ≡ text = ground arith in
    subst (λ t. (read_state t ≡ some st) × All IsByte t) same
      (ap some (is_signed-eq "AA==" st p), tt)
read_back st text false true p q h =
    let same : 1 ∷ [] ≡ text = ground arith in
    subst (λ t. (read_state t ≡ some st) × All IsByte t) same
      (ap some (is_signed-eq "" st q), (omega arith, tt))
read_back st text false false p q h = absurd (cc)

pub state_json-laws : JsonLaws state_json
state_json-laws = record {
  unmarshal-marshal =
      λ st text h. (read_back st text (is_signed "AA==" st) (is_signed "" st) refl refl h).0;
  marshal-bytes =
      λ st text h. (read_back st text (is_signed "AA==" st) (is_signed "" st) refl refl h).1;
}

abbrev pub codecs : Codecs
codecs = record {
  ed25519 = toy_ed25519;
  token_json = toy_json;
  envelope_json = record { marshal = λ env. some []; unmarshal = λ text. some the_envelope };
  state_json = state_json;
  read_message = λ text. none;
  read_public_key = λ text. some server_key;
}

abbrev around : Surroundings
around = record {
  clock = λ n. 2000 + n;
  answer = λ n. some (record { status = 200; body = [] });
  fault = λ n. false;
  torn = λ n. none;
  torn_text = λ n. none;
  file = λ name. some [];
}

abbrev pub laptop : Machine
laptop = record {
  around = around;
  calls = 0;
  license_file = none;
  pubkey_file = none;
  sent = [];
  printed = [];
}

-- The laptop after its activation.
abbrev pub licensed_laptop : Machine
licensed_laptop = record laptop { license_file = some []; pubkey_file = some server_key }

cmd_run-Ran_example : Ran codecs licensed_laptop (cmd_run codecs licensed_laptop)
cmd_run-Ran_example = cmd_run-Ran codecs licensed_laptop

-- The laptop when it prints the token.
abbrev answered : Machine
answered = record licensed_laptop {
  calls = 4;
  sent =
      got "http://shop/v1/pubkey"
      ∷ posted "http://shop/v1/activate"
          (("license_key", "SEAT-1") ∷ ("device_id", "laptop") ∷ ("device_name", "") ∷ [])
      ∷ [];
}

same_files :
    SameFiles (cmd_activate codecs "http://shop" "SEAT-1" "laptop" "" laptop).1 licensed_laptop
unfolding cmd_activate post_json fetch_pubkey save_state
same_files =
    let (same, sent) = print_token-Shown codecs server_key the_envelope answered in
    (sym same.0, sym same.1)

activate_ok : activate demo_service "SEAT-1" "laptop" "" demo ≡ (ok the_envelope, activated_shop)
unfolding activate
activate_ok = activated_ok

abbrev asking : ActivateRequest
asking = record { license_key = "SEAT-1"; device_id = "laptop"; device_name = "" }

served :
    handle_api_activate demo_service (decoded asking) demo
    ≡ (write_json 200 (envelope the_envelope), activated_shop)
unfolding handle_api_activate with_request
served = rw activate_ok refl

key_served :
    Transmits codecs (handle_api_pubkey demo_service demo).0 (record { status = 200; body = [] })
unfolding handle_api_pubkey
key_served = (refl, refl)

cmd_activate-handle_api_activate_example :
    IsLicensed codecs demo "SEAT-1"
      (cmd_activate codecs "http://shop" "SEAT-1" "laptop" "" laptop)
      licensed_laptop
cmd_activate-handle_api_activate_example =
    cmd_activate-handle_api_activate codecs demo_service [] "http://shop" "SEAT-1" "laptop" "" demo
      activated_shop demo the_envelope (record { status = 200; body = [] })
      (record { status = 200; body = [] }) laptop licensed_laptop toy_ed25519-laws toy_json-laws
      state_json-laws (refl, refl) refl refl demo-IsValid refl served refl (refl, refl) refl
      key_served ([], refl) (λ n. refl) (λ n. refl) same_files

cmd_offline_activate-HasImported_example :
    HasImported codecs "laptop.json" server_key laptop
      (cmd_offline_activate codecs "laptop.json" server_key laptop)
cmd_offline_activate-HasImported_example =
    cmd_offline_activate-HasImported codecs "laptop.json" server_key laptop state_json-laws

cmd_deactivate-Left_example :
    Left codecs "http://shop" licensed_laptop (cmd_deactivate codecs "http://shop" licensed_laptop)
cmd_deactivate-Left_example = cmd_deactivate-Left codecs "http://shop" licensed_laptop
