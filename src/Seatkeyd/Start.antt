-- ===== src/Seatkeyd/Start.antt =====
-- cmd/seatkeyd/main.go: what the process is made of when it starts. The environment is a function, with
-- the empty text for a variable that is not set; the packages that the parts call are one record.
use seatkey.Store.Settings.{get_setting}
use seatkey.Seatkeyd.{load_or_create_keypair}
use seatkey.Web.Api.{Decoded}
use seatkey.Web.Http.{Response, Request}
use seatkey.Web.Auth.{OfflineRequest, Bcrypt}
use seatkey.Web.Routes.{Site}
use seatkey.World.{pure, ok, Result, Call}
use seatkey.License.{new_service, Token, Service}
use seatkey.Crypto.{Envelope, Json, Ed25519}
use seatkey.World.{◌>>=◌, attempt, pure}
use seatkey.Common.{some, Bool, Option, ◌==◌, if◌then◌else◌, String}

abbrev pub env_or : (String → String) → (key default : String) → String
env_or environment key default = if environment key == "" then default else environment key

pub record Config : Type 0 where
  pub db_path : String
  pub addr : String
  pub cookie_secure : Bool

abbrev pub config_of : (String → String) → Config
config_of environment = record {
  db_path = env_or environment "SEATKEY_DB_PATH" "seatkey.db";
  addr = env_or environment "SEATKEY_ADDR" ":8080";
  cookie_secure = env_or environment "SEATKEY_COOKIE_SECURE" "false" == "true";
}

-- Ed25519, JSON, bcrypt, the embedded files, and the decoder of an API request.
pub record Packages : Type 0 where
  pub ed25519 : Ed25519
  pub token_json : Json Token
  pub bcrypt : Bcrypt
  pub read_request : String → Option OfflineRequest
  pub write_envelope : Envelope → Option String
  pub static_file : Request → Response
  pub decode : Request → Decoded

-- `NewServer`, whose templates parse: they are embedded in the program.
abbrev pub new_server : Packages → Service → (cookie_secure : Bool) → Site
new_server p licenses cookie_secure = record {
  server = record {
    licenses = licenses;
    bcrypt = p.bcrypt;
    cookie_secure = cookie_secure;
    read_request = p.read_request;
    write_envelope = p.write_envelope;
  };
  static_file = p.static_file;
  decode = p.decode;
}

-- The value and its errors: `url, _, _ := s.GetSetting(…)`.
abbrev pub text_or_empty : Result (Option String) → String
text_or_empty (ok (some text)) = text
text_or_empty _ = ""

-- The lookup that the webhook's sender is given: it reads the settings at each event.
unfoldable pub webhook_target : Call (String × String)
webhook_target = do
  url ← attempt (get_setting "webhook_url")
  secret ← attempt (get_setting "webhook_secret")
  pure (text_or_empty url, text_or_empty secret)

-- `main` from the key pair on, once the database is open.
unfoldable pub start : Packages → Config → Call Site
start p c = do
  keys ← load_or_create_keypair p.ed25519
  pure (new_server p (new_service p.ed25519 p.token_json keys) c.cookie_secure)
