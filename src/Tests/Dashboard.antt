-- ===== src/Tests/Dashboard.antt =====
-- internal/web/auth.go, internal/store/admin.go and cmd/seatkeyd: their theorems at the small shop.
use seatkey.Crypto.Base64.{
  is_line_end, digit, is_pad, strip, four_digits, three_digits, two_digits, last_group,
  decode_groups, decode,
}
use seatkey.Crypto.{keypair, keypair_from_seed, Bytes}
use seatkey.Store.Admins.Sessions.{create_session-valid_session}
use seatkey.Store.Settings.{get_setting}
use seatkey.Seatkeyd.{seed_key, seed_of, load_or_create_keypair}
use seatkey.Seatkeyd.Restart.{load_or_create_keypair-Loaded, Loaded}
use seatkey.Web.Auth.Login.{handle_login-LoggedIn, LoggedIn}
use seatkey.Web.Auth.Setup.{handle_setup-SetUp, SetUp}
use seatkey.Store.Admins.{live_session, insert_session, create_session, valid_session}
use seatkey.Web.Auth.{
  handle_login, require_auth, handle_setup, handle_change_password, Server, BcryptLaws, Bcrypt,
}
use seatkey.Web.Auth.Guard.{require_auth-Guarded, Guarded}
use seatkey.Common.{
  none, arith, eq_iff, suc, ltb, ◌==◌, some, ◌≡◌, [], if◌then◌else◌, refl, String, ◌∷◌, true,
}
use seatkey.Web.Auth.Password.{handle_change_password-Changed, Changed}
use seatkey.Toys.{key_bytes, demo, demo_db, demo_service}
use seatkey.World.{spend, ok, World}
use seatkey.Web.Http.{redirect, reply, Handler, Request, post}

-- A hash that is the password, and a cookie with a token in the sessions.
abbrev pub toy_bcrypt : Bcrypt
toy_bcrypt = record {
  generate_from_password = λ password w. (ok password, w);
  compare_hash_and_password = λ hash password. hash == password;
}

toy_bcrypt-laws : BcryptLaws toy_bcrypt
toy_bcrypt-laws = record {
  accepts = λ password hash w w' e. (eq_iff hash password).1 (ground (arith, e));
  quiet = λ password w. (refl, refl, refl);
}

abbrev pub dashboard : Server
dashboard = record {
  licenses = demo_service;
  bcrypt = toy_bcrypt;
  cookie_secure = true;
  read_request = λ text. none;
  write_envelope = λ env. none;
}

abbrev pub office : World
office = record demo {
  db = record demo_db {
    admins = record { id = 1; password_hash = "open sesame"; created_at = 2 } ∷ [];
    next_admin = 2;
    sessions = record { token = "3f"; created_at = 2; expires_at = 5000 } ∷ [];
  };
}

abbrev fields : String → String
fields name =
    if name == "new_password"
    then "close sesame"
    else if name == "confirm_password"
    then "close sesame"
    else "open sesame"

abbrev pub visit : Request
visit = record {
  method = post;
  segments = [];
  session = some "3f";
  form = fields;
  path = λ name. "";
  query = λ name. "";
}

abbrev home : Request → Handler
home r = reply (redirect "/products")

require_auth-Guarded_example :
    Guarded home visit
      (office.outside.clock (suc (suc office.calls)))
      office
      (require_auth home visit office)
require_auth-Guarded_example = require_auth-Guarded home visit office

handle_login-LoggedIn_example :
    LoggedIn dashboard visit
      (office.outside.random (suc (suc office.calls)))
      (office.outside.clock (suc (suc (suc office.calls))))
      (office.outside.clock (suc (suc (suc (suc office.calls)))))
      office
      (handle_login dashboard visit office)
handle_login-LoggedIn_example = handle_login-LoggedIn dashboard visit office

handle_change_password-Changed_example :
    Changed dashboard visit office (handle_change_password dashboard visit office)
handle_change_password-Changed_example =
    handle_change_password-Changed dashboard visit toy_bcrypt-laws office

handle_setup-SetUp_example : SetUp dashboard visit demo (handle_setup dashboard visit demo)
handle_setup-SetUp_example = handle_setup-SetUp dashboard visit toy_bcrypt-laws demo

abbrev entered : World
entered = (create_session "7a" 4000 office).1

session_created : create_session "7a" 4000 office ≡ (ok tt, entered)
unfolding create_session insert_session
session_created = refl

session_checked : (valid_session "7a" entered).0 ≡ ok true
unfolding create_session insert_session valid_session live_session
session_checked = refl

create_session-valid_session_example : true ≡ ltb (entered.outside.clock (suc entered.calls)) 4000
create_session-valid_session_example =
    create_session-valid_session "7a" 4000 office entered entered true session_created refl
      session_checked

load_or_create_keypair-Loaded_example :
    Loaded demo_service.ed25519 demo (load_or_create_keypair demo_service.ed25519 demo)
load_or_create_keypair-Loaded_example = load_or_create_keypair-Loaded demo_service.ed25519 demo

-- A database that holds the seed of zeros, and its pair.
abbrev pub seeded : World
seeded = record demo {
  db = record demo_db {
    settings =
        record { key = seed_key; value = "AAAAAAAAAAAAAAAAAAAAAAAAAAAAAAAAAAAAAAAAAAA=" } ∷ [];
  };
}

abbrev pub zeros : Bytes
zeros = key_bytes 32 []

abbrev pub pair : Bytes × Bytes
pair = (zeros, zeros)

pub pair_loaded : load_or_create_keypair demo_service.ed25519 seeded ≡ (ok pair, spend seeded)
unfolding load_or_create_keypair seed_of get_setting keypair_from_seed keypair decode decode_groups
    last_group two_digits three_digits four_digits strip is_pad digit is_line_end key_bytes
pair_loaded = refl
