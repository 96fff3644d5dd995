-- ===== src/Toys.antt =====
-- A small shop, and stand-ins for the packages that the code is given, which the examples run with.
use seatkey.Store.Valid.{IsValid}
use seatkey.Crypto.{JsonLaws, Json, IsByte, Ed25519Laws, Bytes, Ed25519}
use seatkey.Common.{
  subst, if◌then◌else◌, refl, ap, pos, negsuc, ℤ, Bool, ◌&&◌, ◌==◌, not, not, zero, negsuc, ap,
  ◌&&◌, eq_iff, false, some, suc, ◌%◌, ◌==◌, nat_beq, ◌≡◌, ◌+◌, ◌<◌, [], none, arith, Bool, All,
  true, length, ◌∷◌, pos, ℤ, ℕ, Option, String,
}
use seatkey.License.{Service, Token}
use seatkey.Store.Models.{Device}
use seatkey.World.{Outside, World}
use seatkey.Store.Schema.{LicenseRow, Db, empty_db}

-- A clock that ticks with every interaction, a driver that works, and plain random bytes.
abbrev pub calm : Outside
calm = record {
  clock = λ n. 1000 + n;
  fault = λ n. false;
  random = λ n. some (λ k. k);
  uuid = λ n. "8c6f";
}

-- The sum of the bytes, as a byte.
unfoldable pub checksum : Bytes → ℕ
checksum [] = 0
checksum (b ∷ bytes) = (b + checksum bytes) % 256

checksum-IsByte : (bytes : Bytes) → checksum bytes < 256
unfolding checksum
checksum-IsByte [] = omega arith
checksum-IsByte (b ∷ bytes) = omega arith

unfoldable pub is_checksum : Bytes → Bytes → Bool
is_checksum message [] = false
is_checksum message (b ∷ bytes) = nat_beq b (checksum message)

-- The first `n` bytes of a key, with zeros when there are too few.
unfoldable pub key_bytes : ℕ → Bytes → Bytes
key_bytes zero key = []
key_bytes (suc n) [] = 0 ∷ key_bytes n []
key_bytes (suc n) (b ∷ key) = (b % 256) ∷ key_bytes n key

key_bytes-IsByte : (n : ℕ) (key : Bytes) → All IsByte (key_bytes n key)
unfolding key_bytes
key_bytes-IsByte zero key = tt
key_bytes-IsByte (suc n) [] = (omega arith, key_bytes-IsByte n [])
key_bytes-IsByte (suc n) (b ∷ key) = (omega arith, key_bytes-IsByte n key)

length-key_bytes : (n : ℕ) (key : Bytes) → length (key_bytes n key) ≡ n
unfolding key_bytes
length-key_bytes zero key = refl
length-key_bytes (suc n) [] = ap suc (length-key_bytes n [])
length-key_bytes (suc n) (b ∷ key) = ap suc (length-key_bytes n key)

-- A signature that anyone can make, which is enough to run the code with.
abbrev pub toy_ed25519 : Ed25519
toy_ed25519 = record {
  sign = λ key message. checksum message ∷ [];
  verify = λ key message signature. is_checksum message signature;
  new_key_from_seed = λ seed. seed;
  public_key = λ key. key_bytes 32 key;
}

pub toy_ed25519-laws : Ed25519Laws toy_ed25519
unfolding is_checksum
toy_ed25519-laws = record {
  verify-sign = λ seed message. ground arith;
  sign-bytes = λ key message. (checksum-IsByte message, tt);
  public_key-bytes = λ key. key_bytes-IsByte 32 key;
  public_key-length = λ key. length-key_bytes 32 key;
}

unfoldable pub token_with :
    String → String → String → String → ℤ → ℕ → String → ℕ → ℕ → Option ℕ → Bool → Token
token_with key product name device max used status issued until expiry offline = record {
  license_key = key;
  product = product;
  customer_name = name;
  device_id = device;
  seats_max = max;
  seats_used = used;
  status = status;
  issued_at = issued;
  valid_until = until;
  license_exp = expiry;
  offline = offline;
}

-- The token that an activation of the laptop gives.
unfoldable pub demo_token : Token
unfolding token_with
demo_token =
    token_with "SEAT-1" "Editor" "Ann" "laptop" (pos 2) 2 "active" 1001 9000 (some 9000) false

unfoldable pub is_two : ℤ → Bool
is_two (pos n) = nat_beq n 2
is_two (negsuc n) = false

unfoldable pub is_some_9000 : Option ℕ → Bool
is_some_9000 (some n) = nat_beq n 9000
is_some_9000 none = false

unfoldable pub is_demo_token : Token → Bool
is_demo_token t =
    t.license_key == "SEAT-1"
    && t.product == "Editor"
    && t.customer_name == "Ann"
    && t.device_id == "laptop"
    && is_two t.seats_max
    && nat_beq t.seats_used 2
    && t.status == "active"
    && nat_beq t.issued_at 1001
    && nat_beq t.valid_until 9000
    && is_some_9000 t.license_exp
    && not t.offline

is_two-eq : (n : ℤ) → is_two n ≡ true → n ≡ pos 2
unfolding is_two
is_two-eq (pos n) h = ground arith
is_two-eq (negsuc n) h = cc

is_some_9000-eq : (o : Option ℕ) → is_some_9000 o ≡ true → o ≡ some 9000
unfolding is_some_9000
is_some_9000-eq none h = cc
is_some_9000-eq (some n) h = ground arith

is_demo_token-eq : (t : Token) → is_demo_token t ≡ true → demo_token ≡ t
unfolding is_demo_token demo_token token_with
is_demo_token-eq t h =
    let max : t.seats_max ≡ pos 2 = is_two-eq t.seats_max (ground arith) in
    let live : t.status ≡ "active" = ground (arith, eq_iff t.status "active") in
    let expiry : t.license_exp ≡ some 9000 = is_some_9000-eq t.license_exp (ground arith) in
    let key : t.license_key ≡ "SEAT-1" = ground (arith, eq_iff t.license_key "SEAT-1") in
    let product : t.product ≡ "Editor" = ground (arith, eq_iff t.product "Editor") in
    let name : t.customer_name ≡ "Ann" = ground (arith, eq_iff t.customer_name "Ann") in
    let device : t.device_id ≡ "laptop" = ground (arith, eq_iff t.device_id "laptop") in
    let used : t.seats_used ≡ 2 = ground arith in
    let issued : t.issued_at ≡ 1001 = ground arith in
    let until : t.valid_until ≡ 9000 = ground arith in
    let online : t.offline ≡ false = ground arith in cc

-- JSON that knows this token and no other.
abbrev pub toy_json : Json Token
toy_json = record {
  marshal = λ t. if is_demo_token t then some [] else none;
  unmarshal = λ text. some demo_token;
}

the_text : (t : Token) (text : Bytes) → toy_json.marshal t ≡ some text → [] ≡ text
the_text t text h = ground arith

pub toy_json-laws : JsonLaws toy_json
toy_json-laws = record {
  unmarshal-marshal = λ t text h. ap some (is_demo_token-eq t (ground arith));
  marshal-bytes = λ t text h. subst (All IsByte) (the_text t text h) tt;
}

abbrev pub demo_service : Service
demo_service = record {
  ed25519 = toy_ed25519;
  token_json = toy_json;
  priv = [];
  public_key = key_bytes 32 [];
}

abbrev pub desk : Device
desk = record {
  id = 1;
  license_id = "L1";
  device_id = "desk";
  device_name = "";
  activated_at = 5;
  last_seen_at = 5;
  deactivated_at = none;
}

abbrev pub demo_row : LicenseRow
demo_row = record {
  id = "L1";
  product_id = "P1";
  key = "SEAT-1";
  customer_name = "Ann";
  customer_email = "";
  max_devices = pos 2;
  expires_at = some 9000;
  revoked_at = none;
  created_at = 3;
}

abbrev pub demo_db : Db
demo_db = record (empty_db true) {
  products = record { id = "P1"; name = "Editor"; created_at = 1 } ∷ [];
  licenses = demo_row ∷ [];
  devices = desk ∷ [];
  next_device = 2;
}

abbrev pub demo : World
demo = record { outside = calm; calls = 0; db = demo_db; notified = [] }

pub demo-IsValid : IsValid demo_db
demo-IsValid = record {
  ids = (refl, tt);
  keys = (refl, tt);
  rows = (refl, tt);
  limits = λ id. ground (arith, eq_iff "L1" id);
}
