-- ===== src/Client/Served.antt =====
-- cmd/democli, internal/web/api.go and internal/license together: the client's requests are answered by
-- the server's handlers, over a network that delivers the answers.
use seatkey.Web.Api.Answers.{handle_api_activate-envelope}
use seatkey.Client.Issued.{cmd_activate-IsLicensed, IsLicensed}
use seatkey.Client.Session.{SameFiles, IsCalm, state_of, IsWritable}
use seatkey.Store.Valid.{IsValid}
use seatkey.License.Verified.{HasSeed}
use seatkey.World.{World}
use seatkey.Web.Api.{decoded, handle_api_activate, handle_api_pubkey}
use seatkey.Client.Machine.{Machine, Reply}
use seatkey.Crypto.{JsonLaws, Ed25519Laws, Envelope, Bytes}
use seatkey.License.{Service}
use seatkey.Web.Http.{write_json, Response, Body}
use seatkey.Client.{cmd_activate, Codecs}
use seatkey.Web.Http.{envelope, public_key}
use seatkey.Common.{suc, false, ◌||◌, ◌==◌, some, String, ◌≡◌, refl}

module _ (c : Codecs) where
  -- The client reads of the bytes what the server wrote.
  abbrev pub Carries : Body → Bytes → Type 0
  Carries (envelope env) bytes = c.envelope_json.unmarshal bytes ≡ some env
  Carries (public_key text algorithm) bytes = c.read_public_key bytes ≡ some text
  Carries _ bytes = Unit

  abbrev pub Transmits : Response → Reply → Type 0
  Transmits response reply = (reply.status ≡ response.status) × Carries response.body reply.body

  module _ (s : Service) (seed : Bytes) where
    -- A client sends a key and a device id, and uses the Ed25519 and the token's JSON of the service. The
    -- server's handler, on valid tables, answers the request by 200 with an envelope, and the request
    -- for the key by its handler for that; the network delivers both answers. The state is writable
    -- as JSON and no file access fails. Then `activate` is done, and `run` on the files that it left,
    -- with no access failing, is done exactly when the clock is not past the deadline: seven days
    -- after the instant that the service read, or the license's expiry if that is sooner; the license was
    -- active at that instant.
    pub cmd_activate-handle_api_activate :
        (server key device name : String) (w w' w1 : World) (env : Envelope) (r1 r2 : Reply)
        (m m2 : Machine)
        → Ed25519Laws s.ed25519
        → JsonLaws s.token_json
        → JsonLaws c.state_json
        → HasSeed s seed
        → c.ed25519 ≡ s.ed25519
        → c.token_json ≡ s.token_json
        → IsValid w.db
        → (key == "" || device == "") ≡ false
        → handle_api_activate s
            (decoded (record { license_key = key; device_id = device; device_name = name }))
            w
          ≡ (write_json 200 (envelope env), w')
        → m.around.answer m.calls ≡ some r1
        → Transmits (write_json 200 (envelope env)) r1
        → m.around.answer (suc m.calls) ≡ some r2
        → Transmits (handle_api_pubkey s w1).0 r2
        → IsWritable c (state_of c env device server)
        → IsCalm m
        → IsCalm m2
        → SameFiles (cmd_activate c server key device name m).1 m2
        → IsLicensed c w key (cmd_activate c server key device name m) m2
    unfolding handle_api_pubkey
    cmd_activate-handle_api_activate server key device name w w' w1 env r1 r2 m m2 el tl sl hs ce ct
          v given served a1 (s1, j1) a2 (s2, j2) writable calm calm2 same =
        cmd_activate-IsLicensed c s seed server key device name w w' env m m2 el tl sl hs ce ct v
          given
          (handle_api_activate-envelope s
            (record { license_key = key; device_id = device; device_name = name }) w w' env given
            served)
          (r1, r2, a1, rw s1 refl, j1, a2, j2) writable calm calm2 same
