-- ===== src/Seatkeyd/Issued.antt =====
-- cmd/seatkeyd/main.go and internal/license: what was signed before a restart.
use seatkey.Store.Devices.{count_seats}
use seatkey.Store.Settings.{read_setting}
use seatkey.Store.Licenses.{find_license_by_key}
use seatkey.Store.Valid.{IsValid}
use seatkey.Store.Models.{active, license_status, License}
use seatkey.Seatkeyd.Restart.{load_or_create_keypair_again, load_or_create_keypair-Loaded, Loaded}
use seatkey.License.Verified.{activated_token, HasSeed}
use seatkey.License.{token_of, activate_with, new_service}
use seatkey.Seatkeyd.{seed_key, load_or_create_keypair}
use seatkey.Web.Routes.{Site}
use seatkey.Seatkeyd.Start.{new_server, Config, Packages, start}
use seatkey.Crypto.Base64.{decode}
use seatkey.World.{err, pure, resume, Result, World, ok}
use seatkey.Crypto.{JsonLaws, Ed25519Laws, Envelope, Bytes, Ed25519, keypair, keypair_from_seed}
use seatkey.Crypto
use seatkey.Common.{
  suc, sym, ◌∙◌, ap, ℕ, Bool, subst, arith, none, inr, inl, length, nat_beq, Bool-cases, some,
  Option, String, ◌≡◌, refl,
}

keypair-seed :
    (e : Ed25519) (seed : String) (priv key : Bytes)
    → keypair_from_seed e seed ≡ ok (priv, key)
    → (raw : Bytes) × (priv ≡ e.new_key_from_seed raw)
      × (key ≡ e.public_key (e.new_key_from_seed raw))
unfolding keypair_from_seed keypair
keypair-seed e seed priv key h = go (decode seed) h
  where
    go :
        (o : Option Bytes)
        → keypair e o ≡ ok (priv, key)
        → (raw : Bytes) × (priv ≡ e.new_key_from_seed raw)
          × (key ≡ e.public_key (e.new_key_from_seed raw))
    go none q = absurd (cc)
    go (some raw) q = elim (Bool-cases (nat_beq (length raw) 32)) [
      | inl hit ↦ (raw, ground (arith, hit, q), ground (arith, hit, q))
      | inr miss ↦ absurd (ground (arith, miss, q))
    ]

-- A start that succeeds has the key pair that was loaded.
start-pair :
    (p : Packages) (c : Config) (w w' : World) (site : Site)
    → start p c w ≡ (ok site, w')
    → (pair : Bytes × Bytes) × (load_or_create_keypair p.ed25519 w ≡ (ok pair, w'))
      × (site ≡ new_server p (new_service p.ed25519 p.token_json pair) c.cookie_secure)
unfolding start
start-pair p c w w' site h = go (load_or_create_keypair p.ed25519 w) refl h
  where
    go :
        (r : Result (Bytes × Bytes) × World)
        → load_or_create_keypair p.ed25519 w ≡ r
        → resume
            (λ keys. pure (new_server p (new_service p.ed25519 p.token_json keys) c.cookie_secure))
            r
          ≡ (ok site, w')
        → (pair : Bytes × Bytes) × (load_or_create_keypair p.ed25519 w ≡ (ok pair, w'))
          × (site ≡ new_server p (new_service p.ed25519 p.token_json pair) c.cookie_secure)
    go (ok pair, w1) e q = (pair, cc, cc)
    go (err x, w1) e q = absurd (cc)

-- The pair that was loaded is that of a seed.
pair-seed :
    (p : Packages) (w w' : World) (pair : Bytes × Bytes)
    → load_or_create_keypair p.ed25519 w ≡ (ok pair, w')
    → (raw : Bytes) × HasSeed (new_service p.ed25519 p.token_json pair) raw
pair-seed p w w' pair loaded =
    let ((seed, now, made, before), only) =
      subst (Loaded p.ed25519 w) loaded (load_or_create_keypair-Loaded p.ed25519 w) in
    let (raw, priv, key) = keypair-seed p.ed25519 seed pair.0 pair.1 made in (raw, (priv, key))

-- The token of an envelope, verified with the packages of a server and a public key: of a license that
-- was active when the clock was read, the instant of issue.
abbrev pub Verifies : Packages → Bytes → Envelope → String → String → Bool → World → Type 0
Verifies p key env license_key device_id offline w =
    (lic : License) × (seats : ℕ) × (find_license_by_key license_key w.db ≡ some lic)
    × (license_status lic (w.outside.clock (suc w.calls)) ≡ active)
    × (Crypto.verify p.ed25519 p.token_json key env
        ≡ ok (token_of lic device_id seats (w.outside.clock (suc w.calls)) offline))

-- A server starts, and issues an envelope in a later world with valid tables. Whenever a server starts
-- on tables that hold the seed as the first start left it, also with another configuration, the
-- envelope verifies with that server's public key, to the token of the license and the device that it
-- was issued for. Ed25519 and JSON keep their documented laws.
pub start-Verifies :
    (p : Packages) (c c' : Config) (w w' w1 w2 later last : World) (site site' : Site)
    (key device_id device_name : String) (offline : Bool) (env : Envelope)
    → Ed25519Laws p.ed25519
    → JsonLaws p.token_json
    → start p c w ≡ (ok site, w')
    → IsValid w1.db
    → activate_with site.server.licenses key device_id device_name offline w1 ≡ (ok env, w2)
    → read_setting seed_key later.db ≡ read_setting seed_key w'.db
    → start p c' later ≡ (ok site', last)
    → Verifies p site'.server.licenses.public_key env key device_id offline w1
start-Verifies p c c' w w' w1 w2 later last site site' key device_id device_name offline env el jl
      started v issued kept again =
    let (pair, loaded, same) = start-pair p c w w' site started in
    let (pair', loaded', same') = start-pair p c' later last site' again in
    let one : pair' ≡ pair =
      load_or_create_keypair_again p.ed25519 w w' later last pair pair' loaded kept loaded' in
    let key_kept : site'.server.licenses.public_key ≡ pair.1 =
      ap (λ (x : Site). x.server.licenses.public_key) same' ∙ ap (λ x. x.1) one in
    let (raw, hs) = pair-seed p w w' pair loaded in
    let (lic, found, live, opens, limit) =
      activated_token (new_service p.ed25519 p.token_json pair) raw key device_id device_name
        offline w1 w2 env el jl hs v
        (ap (λ (x : Site). activate_with x.server.licenses key device_id device_name offline w1)
            (sym same)
          ∙ issued) in
    subst (λ k. Verifies p k env key device_id offline w1) (sym key_kept)
      (lic, count_seats lic.id w2.db, found, live, opens)
