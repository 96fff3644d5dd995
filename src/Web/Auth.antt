-- ===== src/Web/Auth.antt =====
-- internal/web/auth.go: passwords and sessions of the dashboard. bcrypt is a parameter.
use seatkey.World.Rules.{Same}
use seatkey.Crypto.{Envelope, encode_public_key}
use seatkey.Store.Admins.{
  create_session, delete_session, valid_session, admin_password_hash, create_admin, has_admin,
  set_admin_password,
}
use seatkey.Store.Licenses.{symbol_at}
use seatkey.Store.Settings.{get_setting}
use seatkey.License.{hour, Service}
use seatkey.World.{pure, time_now, rand_read, err, World, ok, Call, Result}
use seatkey.Web.Http.{
  until, setup_page, settings_page, login_page, removed, redirect, render, reply, checked,
  with_cookie, Cookie, Handler, Request,
}
use seatkey.Common.{
  zero, ◌%◌, none, true, ◌/◌, ◌==◌, ltb, ◌≡◌, not, some, ◌*◌, Bool, ◌+◌, if◌then◌else◌, suc, String,
  ℕ, Option,
}
pub mod Rules
pub mod Guard
pub mod Setup
pub mod Password
pub mod Login
use Prim.Native.String
use seatkey.World.{◌>>=◌, ◌>>◌}
use seatkey.Web.Http.{get, head, post}
use Prim.Native.Char.{len_utf8}

-- golang.org/x/crypto/bcrypt. Making a hash draws its salt from the random source.
pub record Bcrypt : Type 0 where
  pub generate_from_password : String → Call String
  pub compare_hash_and_password : String → String → Bool

-- What its documentation promises: a hash that was made accepts its password, and making one reaches
-- nothing but the random source.
pub record BcryptLaws (b : Bcrypt) : Type 0 where
  pub accepts :
      (password hash : String) (w w' : World)
      → b.generate_from_password password w ≡ (ok hash, w')
      → b.compare_hash_and_password hash password ≡ true
  pub quiet : (password : String) (w : World) → Same w (b.generate_from_password password w).1

-- The part of an offline request that the dashboard reads.
pub record OfflineRequest : Type 0 where
  pub device_id : String
  pub device_name : String

-- The fields of `Server` that the handlers read, and the packages that they call. The store is a part
-- of the world.
pub record Server : Type 0 where
  pub licenses : Service
  pub bcrypt : Bcrypt
  pub cookie_secure : Bool
  -- `json.Unmarshal` of an offline request, and `json.MarshalIndent` of an envelope.
  pub read_request : String → Option OfflineRequest
  pub write_envelope : Envelope → Option String

abbrev pub session_ttl : ℕ
session_ttl = 30 * 24 * hour

abbrev pub hex_digits : String
hex_digits = "0123456789abcdef"

-- `hex.EncodeToString` of the bytes of a buffer from an index on.
unfoldable pub hex_from : (ℕ → ℕ) → ℕ → ℕ → String
hex_from buf k zero = ""
hex_from buf k (suc left) =
    String.◌++◌ (symbol_at hex_digits (buf k / 16 % 16))
      (String.◌++◌ (symbol_at hex_digits (buf k % 16)) (hex_from buf (suc k) left))

unfoldable pub new_session_token : Call String
unfolding hex_from
new_session_token = do buf ← rand_read; pure (hex_from buf 0 32)

-- `len` of a Go string counts bytes.
unfoldable pub byte_length : String → ℕ
byte_length String.[] = 0
byte_length (String.◌∷◌ c s) = len_utf8 c + byte_length s

-- The text of the error, if the password is refused.
unfoldable pub validate_password : String → Option String
validate_password password =
    if ltb (byte_length password) 8 then some "password must be at least 8 characters" else none

unfoldable pub start_session : Server → Call Cookie
start_session s = do
  token ← new_session_token
  now ← time_now
  create_session token (now + session_ttl)
  pure (record { value = token; secure = s.cookie_secure; life = until (now + session_ttl) })

-- The error of the deletion is dropped.
unfoldable pub end_session : Server → Option String → World → Cookie × World
end_session s none w = (record { value = ""; secure = s.cookie_secure; life = removed }, w)
end_session s (some token) w =
    (record { value = ""; secure = s.cookie_secure; life = removed }, (delete_session token w).1)

unfoldable pub with_session : Option String → Handler → Handler
with_session none next = reply (redirect "/login")
with_session (some token) next =
    checked (valid_session token) λ valid. if valid then next else reply (redirect "/login")

unfoldable pub require_auth : (Request → Handler) → Request → Handler
require_auth next r =
    checked has_admin
      λ has. if has then with_session r.session (next r) else reply (redirect "/setup")

-- A session is started and its cookie goes with the redirection home.
unfoldable pub enter : Server → Handler
enter s = checked (start_session s) λ cookie. reply (with_cookie cookie (redirect "/"))

unfoldable pub first_admin : Server → String → Handler
first_admin s password =
    checked (s.bcrypt.generate_from_password password)
      λ hash. checked (create_admin hash) λ _. enter s

-- The form of the setup, once there is no admin.
unfoldable pub submit_setup : Server → Request → Handler
submit_setup s r =
    if not (r.form "password" == r.form "confirm")
    then reply (render (setup_page (some "Passwords do not match")))
    else elim (validate_password (r.form "password")) [
      | some complaint ↦ reply (render (setup_page (some complaint)))
      | none ↦ first_admin s (r.form "password")
    ]

unfoldable pub handle_setup : Server → Request → Handler
handle_setup s r = checked has_admin λ has.
    if has
    then reply (redirect "/login")
    else elim r.method [ get ↦ reply (render (setup_page none)) | _ ↦ submit_setup s r ]

unfoldable pub submit_login : Server → Request → Handler
submit_login s r = checked admin_password_hash λ hash.
    if s.bcrypt.compare_hash_and_password hash (r.form "password")
    then enter s
    else reply (render (login_page (some "Incorrect password")))

unfoldable pub handle_login : Server → Request → Handler
handle_login s r = checked has_admin λ has.
    if has
    then elim r.method [ get ↦ reply (render (login_page none)) | _ ↦ submit_login s r ]
    else reply (redirect "/setup")

unfoldable pub handle_logout : Server → Request → Handler
handle_logout s r w =
    let (cookie, w') = end_session s r.session w in (with_cookie cookie (redirect "/login"), w')

-- `url, _, _ := s.store.GetSetting(…)`: the zero value when there is none or the query failed.
abbrev pub or_empty : Result (Option String) → String
or_empty (ok (some value)) = value
or_empty (ok none) = ""
or_empty (err e) = ""

unfoldable pub render_settings : Server → String → Handler
render_settings s message w =
    let (url, w1) = get_setting "webhook_url" w in
    let (secret, w2) = get_setting "webhook_secret" w1 in
    (
      render (
          settings_page (or_empty url) (or_empty secret) (encode_public_key s.licenses.public_key)
            message),
      w2,
    )

unfoldable pub replace_password : Server → String → Handler
replace_password s password =
    checked (s.bcrypt.generate_from_password password)
      λ hash. checked (set_admin_password hash) λ _. reply (redirect "/settings")

-- The form of the change, with the hash that is stored.
unfoldable pub submit_change : Server → Request → String → Handler
submit_change s r hash =
    if not (s.bcrypt.compare_hash_and_password hash (r.form "current_password"))
    then render_settings s "Current password is incorrect"
    else if not (r.form "new_password" == r.form "confirm_password")
    then render_settings s "New passwords do not match"
    else elim (validate_password (r.form "new_password")) [
      | some complaint ↦ render_settings s complaint
      | none ↦ replace_password s (r.form "new_password")
    ]

unfoldable pub handle_change_password : Server → Request → Handler
handle_change_password s r = elim r.method [
  | post ↦ checked admin_password_hash (submit_change s r)
  | _ ↦ reply (redirect "/settings")
]
