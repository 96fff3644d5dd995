-- ===== src/Client/Overwrite.antt =====
-- cmd/democli: `validate` writes the answer of the server over the cached license before it verifies it.
use seatkey.Client.Issued.{cmd_run-deadline}
use seatkey.Crypto.Signatures.{verify_iff}
use seatkey.Client.Opened.{Cached}
use seatkey.Crypto.Base64.{decode}
use seatkey.Client.Session.{SameFiles, IsCalm}
use seatkey.License.{Token}
use seatkey.Crypto.{JsonLaws, decode_public_key, verify, Envelope, Bytes}
use seatkey.Client.Machine.{done, crypto, failed, Reply, Machine}
use seatkey.Client.{
  cmd_run, open_token, is_refused, print_token, load_pubkey, save_state, post_json, cached_token,
  load_state, CachedState, cmd_validate, Codecs,
}
use seatkey.World
use seatkey.Common.{◌∙◌, ◌≤◌, false, some, suc, String, ◌≡◌, refl}

module _ (c : Codecs) (server : String) where
  -- The server answers `validate` with this envelope, which is no token for the key.
  abbrev pub IsMisled : Machine → CachedState → Bytes → Envelope → World.Error → Type 0
  IsMisled m st key env e =
      (reply : Reply) × (bytes : Bytes) × (m.around.answer (suc m.calls) ≡ some reply)
      × (is_refused reply ≡ false)
      × (c.envelope_json.unmarshal reply.body ≡ some env)
      × (c.state_json.marshal (record st { envelope = env }) ≡ some bytes)
      × (verify c.ed25519 c.token_json key env ≡ World.err e)

  misled :
      (m : Machine) (st : CachedState) (tok : Token) (file text_bytes key : Bytes) (text : String)
      (env : Envelope) (e : World.Error)
      → IsCalm m
      → m.license_file ≡ some file
      → c.state_json.unmarshal file ≡ some st
      → m.pubkey_file ≡ some text
      → decode_public_key text ≡ World.ok key
      → decode st.envelope.payload ≡ some text_bytes
      → c.token_json.unmarshal text_bytes ≡ some tok
      → (h : IsMisled m st key env e)
      → ((cmd_validate c server m).0 ≡ failed (crypto e))
        × ((cmd_validate c server m).1.license_file ≡ some h.1)
        × ((cmd_validate c server m).1.pubkey_file ≡ some text)
  unfolding cmd_validate load_state cached_token post_json save_state load_pubkey print_token
      open_token
  misled m st tok file text_bytes key text env e calm lf js pf kd dp jt
        (reply, bytes, ans, ok1, je, sj, bad) =
      rw
        (
          calm m.calls,
          lf,
          js,
          dp,
          jt,
          ans,
          ok1,
          je,
          sj,
          calm (suc (suc m.calls)),
          calm (suc (suc (suc m.calls))),
          pf,
          kd,
          bad,
        )
        (refl, refl, refl)

  unopened :
      (m : Machine) (st : CachedState) (file key : Bytes) (text : String) (e : World.Error)
      → IsCalm m
      → m.license_file ≡ some file
      → c.state_json.unmarshal file ≡ some st
      → m.pubkey_file ≡ some text
      → decode_public_key text ≡ World.ok key
      → verify c.ed25519 c.token_json key st.envelope ≡ World.err e
      → (cmd_run c m).0 ≡ failed (crypto e)
  unfolding cmd_run load_state load_pubkey open_token
  unopened m st file key text e calm lf js pf kd bad =
      rw (calm m.calls, lf, js, calm (suc m.calls), pf, kd, bad) refl

  -- A machine holds a license that `run` accepts. Its server answers `validate` with a status below 300
  -- and an envelope that does not verify with the cached key. Then `validate` fails with the failure of
  -- the verification, and from then on `run` fails with it too: the good license has been overwritten.
  -- No access to a file fails, and the state is read back from its JSON.
  pub cmd_validate-cmd_run :
      (m m2 : Machine) (st : CachedState) (tok : Token) (key : Bytes) (text : String)
      (env : Envelope) (e : World.Error)
      → JsonLaws c.state_json
      → IsCalm m
      → IsCalm m2
      → Cached c st m
      → m.pubkey_file ≡ some text
      → decode_public_key text ≡ World.ok key
      → verify c.ed25519 c.token_json key st.envelope ≡ World.ok tok
      → m.around.clock (suc (suc m.calls)) ≤ tok.valid_until
      → IsMisled m st key env e
      → SameFiles (cmd_validate c server m).1 m2
      → ((cmd_run c m).0 ≡ done tt)
        × ((cmd_validate c server m).0 ≡ failed (crypto e))
        × ((cmd_run c m2).0 ≡ failed (crypto e))
  cmd_validate-cmd_run m m2 st tok key text env e laws calm calm2 (file, lf, js) pf kd opens current
        wrong same =
      let (text_bytes, signature, dp, ds, good, jt) =
        (verify_iff c.ed25519 c.token_json key st.envelope tok).0 opens in
      let (fails, overwritten, kept) =
        misled m st tok file text_bytes key text env e calm lf js pf kd dp jt wrong in
      let (reply, bytes, ans, ok1, je, sj, bad) = wrong in
      (
        (cmd_run-deadline c m tok calm (st, text, (file, lf, js), pf, (key, kd, opens))).1 current,
        fails,
        unopened m2 (record st { envelope = env }) bytes key text e calm2 (same.0 ∙ overwritten)
            (laws.unmarshal-marshal (record st { envelope = env }) bytes sj) (same.1 ∙ kept) kd bad,
      )
