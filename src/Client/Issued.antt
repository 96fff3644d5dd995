-- ===== src/Client/Issued.antt =====
-- cmd/democli and internal/license together: a client activates against the service, and runs later.
use seatkey.Store.Devices.{count_seats}
use seatkey.Crypto.Keys.{public_key_text}
use seatkey.Store.Valid.{IsValid}
use seatkey.Store.Licenses.{find_license_by_key}
use seatkey.License.Verified.{activated_token, HasSeed}
use seatkey.Store.Models.{active, license_status, License}
use seatkey.Client.Run.{Holds}
use seatkey.World.{ok, World}
use seatkey.Client.Session.{
  cmd_activate-HasActivated, cmd_run-Holds, state_of, ran, IsWritable, IsAnswered, SameFiles,
  IsCalm,
}
use seatkey.Crypto.{decode_public_key, encode_public_key, JsonLaws, Ed25519Laws, Envelope, Bytes}
use seatkey.Client.Machine.{licensed, print, lapsed, fail, done, Outcome, Machine}
use seatkey.License.{hour, token_of, activate, cut, Token, Service}
use seatkey.Client.{cmd_activate, cmd_run, require_current, Codecs}
use seatkey.Common.{
  ◌*◌, true, arith, ◌+◌, if◌then◌else◌, ltb, false, Bool, ◌||◌, ◌==◌, ◌≤◌, some, suc, ◌↔◌, ℕ, ◌∙◌,
  String, ◌≡◌, refl,
}

module _ (c : Codecs) where
  Holds-SameFiles : (m m' : Machine) (tok : Token) → SameFiles m m' → Holds c m tok → Holds c m' tok
  Holds-SameFiles m m' tok (a, b) (st, text, (bytes, lf, js), pf, o) =
      (st, text, (bytes, a ∙ lf, js), b ∙ pf, o)

  -- A run on calm files is done exactly up to the deadline of the token.
  pub cmd_run-deadline :
      (m : Machine) (tok : Token)
      → IsCalm m
      → Holds c m tok
      → ((cmd_run c m).0 ≡ done tt) ↔ (m.around.clock (suc (suc m.calls)) ≤ tok.valid_until)
  unfolding require_current
  cmd_run-deadline m tok calm h =
      rw (cmd_run-Holds c m tok calm h) (go (ltb tok.valid_until now) refl)
    where
      now : ℕ
      now = m.around.clock (suc (suc m.calls))

      go :
          (b : Bool)
          → ltb tok.valid_until now ≡ b
          → (((if b then fail (lapsed tok.offline) else print (licensed tok)) (ran m)).0 ≡ done tt)
            ↔ (now ≤ tok.valid_until)
      go true e = (λ x. absurd (cc), λ x. absurd (ground arith))
      go false e = (λ _. ground arith, λ _. refl)

  -- The license was active on the server when its clock was read, and the client is done; a run on the
  -- files that it left is done exactly up to the deadline counted from that reading.
  abbrev pub IsLicensed : World → String → (Outcome (Unit {0}) × Machine) → Machine → Type 0
  IsLicensed w key (o, m1) m2 =
      (lic : License) × (o ≡ done tt)
      × (find_license_by_key key w.db ≡ some lic)
      × (license_status lic (w.outside.clock (suc w.calls)) ≡ active)
      × (((cmd_run c m2).0 ≡ done tt) ↔ (
          m2.around.clock (suc (suc m2.calls))
          ≤ cut (w.outside.clock (suc w.calls) + 7 * 24 * hour) lic.expires_at))

  module _ (s : Service) (seed : Bytes) where
    -- A client sends a key and a device id, and uses the Ed25519 and the token's JSON of the service. The
    -- service, on a valid database, answers with an envelope, and with its public key to the second
    -- request; the state is writable as JSON and no file access fails. Then `activate` is done, and
    -- `run` on the files that it left, with no access failing, is done exactly when the clock is not
    -- past the deadline: seven days after the instant that the service read during the activation, or the license's expiry if that is sooner.
    pub cmd_activate-IsLicensed :
        (server key device name : String) (w w' : World) (env : Envelope) (m m2 : Machine)
        → Ed25519Laws s.ed25519
        → JsonLaws s.token_json
        → JsonLaws c.state_json
        → HasSeed s seed
        → c.ed25519 ≡ s.ed25519
        → c.token_json ≡ s.token_json
        → IsValid w.db
        → (key == "" || device == "") ≡ false
        → activate s key device name w ≡ (ok env, w')
        → IsAnswered c m env (encode_public_key s.public_key)
        → IsWritable c (state_of c env device server)
        → IsCalm m
        → IsCalm m2
        → SameFiles (cmd_activate c server key device name m).1 m2
        → IsLicensed w key (cmd_activate c server key device name m) m2
    unfolding activate token_of
    cmd_activate-IsLicensed server key device name w w' env m m2 el tl sl hs ce ct v given act
          answered writable calm calm2 same =
        let now = w.outside.clock (suc w.calls) in
        let (lic, found, live, opens, limit) =
          activated_token s seed key device name false w w' env el tl hs v act in
        let tok = token_of lic device (count_seats lic.id w'.db) now false in
        let (finished, holds, printed) =
          cmd_activate-HasActivated c server key device name m env (encode_public_key s.public_key)
            tok sl given calm answered writable (s.public_key, key_text, rw (ce, ct) opens) in
        (
          lic,
          finished,
          found,
          live,
          cmd_run-deadline m2 tok calm2
              (Holds-SameFiles (cmd_activate c server key device name m).1 m2 tok same holds),
        )
      where
        key_text : decode_public_key (encode_public_key s.public_key) ≡ ok s.public_key
        key_text = rw hs.1 (
            public_key_text (s.ed25519.public_key (s.ed25519.new_key_from_seed seed))
              (el.public_key-bytes (s.ed25519.new_key_from_seed seed))
              (el.public_key-length (s.ed25519.new_key_from_seed seed)))
