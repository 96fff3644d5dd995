-- ===== src/Web/Admin/Offline.antt =====
-- internal/web/admin.go: what the dashboard's offline activation answers and has done.
use Prim.Native.String
use seatkey.World
use seatkey.Web.Forms.{url_escape}
use seatkey.Web.Admin.{or_page_not_found}
use seatkey.License.Outcome.{activate_with-Activation, Activation}
use seatkey.Crypto.{Envelope}
use seatkey.Store.Valid.{IsValid}
use seatkey.License.{offline_activate}
use seatkey.Store.Models.{License}
use seatkey.Store.Licenses.{find_license, get_license}
use seatkey.Common.{
  String, ℕ, suc, false, ◌==◌, refl, if◌then◌else◌, Bool, true, inl, none, inr, some, ◌≡◌, Option,
  ◌⊎◌,
}
use seatkey.World.Rules.{transport_Same, Same}
use seatkey.Web.Admin.Pages.{
  envelope_result, offline_message, offline_answer, show_result, issue_offline,
  handle_license_offline_activate,
}
use seatkey.Web.Http.{redirect, proceed, page_not_found, Handler, Response, Request}
use seatkey.Web.Auth.{OfflineRequest, Server}
use seatkey.World.{device_limit, spend, driver, or_not_found, resume, Error, err, ok, Result, World}

module _ (s : Server) (r : Request) where
  -- The address of the license's page with a text, escaped for the address, to show on it.
  abbrev pub Shows : String → Response → Type 0
  Shows escaped answer =
      answer
      ≡ redirect (
          String.◌++◌ "/licenses/"
            (String.◌++◌ (r.path "id") (String.◌++◌ "?offline_result=" escaped)))

  -- The envelope's text, or a server error where it cannot be written; and for a failure its reason.
  abbrev pub IsShown : Result Envelope → Response → Type 0
  IsShown (ok env) answer =
      ((text : String) × (s.write_envelope env ≡ some text) × Shows (url_escape text) answer)
      ⊎ ((s.write_envelope env ≡ none) × (answer.status ≡ 500))
  IsShown (err device_limit) answer = Shows "device+limit+reached+for+this+license" answer
  IsShown (err (World.license_status status)) answer = Shows "license+is+not+active" answer
  IsShown (err _) answer = Shows "could+not+issue+offline+activation" answer

  -- An activation for the offline horizon was made for the license of the address and the device of the
  -- request, and the answer shows its outcome: the envelope, or why there is none.
  abbrev pub IsMade : ℕ → World → Response × World → Type 0
  IsMade now w (answer, w') =
      (l : License) × (req : OfflineRequest) × (result : Result Envelope) × (find_license
          (r.path "id") w.db
        ≡ some l)
      × (s.read_request (r.form "request_json") ≡ some req)
      × Activation l.key req.device_id s.licenses true now w (result, w')
      × IsShown result answer

  -- The text is no request, or names no device.
  abbrev pub LacksDevice : Type 0
  LacksDevice =
      (s.read_request (r.form "request_json") ≡ none)
      ⊎ ((req : OfflineRequest) × (s.read_request (r.form "request_json") ≡ some req)
          × ((req.device_id == "") ≡ true))

  abbrev pub OfflineIssued : ℕ → World → Response × World → Type 0
  OfflineIssued now w p =
      IsMade now w p
      ⊎ (Shows "invalid+request+file%3A+could+not+find+a+device_id+field" p.0
          × LacksDevice
          × Same w p.1)
      ⊎ ((p.0 ≡ page_not_found) × (find_license (r.path "id") w.db ≡ none) × Same w p.1)
      ⊎ ((p.0.status ≡ 500) × Same w p.1)

  OfflineIssued-Same :
      (now : ℕ) (w w' : World)
      → Same w w'
      → (p : Response × World) → OfflineIssued now w' p
      → OfflineIssued now w p
  OfflineIssued-Same now w w' same p h = transport_Same (λ x. OfflineIssued now x p) w w' same h

  failure-IsShown : (e : Error) → IsShown (err e) (show_result (r.path "id") (offline_message e))
  unfolding offline_message url_escape
  failure-IsShown device_limit = refl
  failure-IsShown (World.license_status status) = refl
  failure-IsShown _ = refl

  envelope-IsShown :
      (env : Envelope) (o : Option String)
      → s.write_envelope env ≡ o
      → IsShown (ok env) (envelope_result (r.path "id") o)
  envelope-IsShown env none e = inr (e, refl)
  envelope-IsShown env (some text) e = inl (text, e, refl)

  issued :
      (w : World) (l : License) (o : Option OfflineRequest)
      → IsValid w.db
      → find_license (r.path "id") w.db ≡ some l
      → s.read_request (r.form "request_json") ≡ o
      → OfflineIssued (w.outside.clock (suc w.calls)) w (issue_offline s (r.path "id") l o w)
  unfolding issue_offline offline_activate url_escape seatkey.Web.Forms.percent
      seatkey.Web.Forms.utf8 seatkey.Store.Licenses.symbol_at
  issued w l none v found read = inr (inl (refl, inl read, (refl, refl, refl)))
  issued w l (some req) v found read = go (req.device_id == "") refl
    where
      made :
          (p : Result Envelope × World)
          → Activation l.key req.device_id s.licenses true (w.outside.clock (suc w.calls)) w p
          → OfflineIssued (w.outside.clock (suc w.calls)) w (offline_answer s (r.path "id") p)
      made (ok env, w') h =
          inl (l, req, ok env, found, read, h, envelope-IsShown env (s.write_envelope env) refl)
      made (err e, w') h = inl (l, req, err e, found, read, h, failure-IsShown e)

      go :
          (b : Bool)
          → (req.device_id == "") ≡ b
          → OfflineIssued (w.outside.clock (suc w.calls)) w (
              if b
              then (
                show_result (r.path "id") "invalid request file: could not find a device_id field",
                w,
              )
              else offline_answer s
                  (r.path "id")
                  (offline_activate s.licenses l.key req.device_id req.device_name w))
      go true e = inr (inl (refl, inr (req, read, e), (refl, refl, refl)))
      go false e =
          made (offline_activate s.licenses l.key req.device_id req.device_name w)
            (activate_with-Activation l.key req.device_id s.licenses true req.device_name w v)

  -- The dashboard's offline activation, on valid tables, makes an activation for the offline horizon,
  -- whose clock is read after the lookups by id and by key, and shows its outcome: the text of the
  -- envelope, or a 500 where that cannot be written; or that the device limit is reached, that the
  -- license is not active, or, for another failure, that none could be issued. Otherwise it says that
  -- the request names no device, which is so, that there is no such license, or that the server failed, and changes
  -- nothing.
  pub handle_license_offline_activate-OfflineIssued :
      (w : World)
      → IsValid w.db
      → OfflineIssued
          (w.outside.clock (suc (suc w.calls)))
          w
          (handle_license_offline_activate s r w)
  unfolding handle_license_offline_activate get_license
  handle_license_offline_activate-OfflineIssued w v =
      go (w.outside.fault w.calls) (find_license (r.path "id") w.db) refl
    where
      rest : License → Handler
      rest l = issue_offline s (r.path "id") l (s.read_request (r.form "request_json"))

      go :
          (b : Bool) (o : Option License)
          → find_license (r.path "id") w.db ≡ o
          → OfflineIssued (w.outside.clock (suc (suc w.calls))) w (
              proceed or_page_not_found
                (resume or_not_found (if b then err driver else ok o, spend w))
                rest)
      go true o e = inr (inr (inr (refl, (refl, refl, refl))))
      go false none e = inr (inr (inl (refl, e, (refl, refl, refl))))
      go false (some l) e =
          OfflineIssued-Same (w.outside.clock (suc (suc w.calls))) w (spend w) (refl, refl, refl)
            (rest l (spend w))
            (issued (spend w) l (s.read_request (r.form "request_json")) v e refl)
