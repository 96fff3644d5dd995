-- ===== src/Web/Api/Answers.antt =====
-- internal/web/api.go: what each status of an answer tells of the tables.
use seatkey.Store.Licenses.{find_license_by_key}
use seatkey.Store.Valid.{IsValid}
use seatkey.Crypto.{Envelope}
use seatkey.Common.{suc, arith, ap, ◌≡◌, refl, ◌⊎◌, none, true, false, inl, inr, ◌==◌, ◌||◌}
use seatkey.World
use seatkey.World.{Error, Result, World, ok, err, not_found, device_limit, driver, marshal}
use seatkey.World.Rules.{Same}
use seatkey.Store.Models.{Status}
use seatkey.License.{Service, activate, activate_with}
use seatkey.License.Outcome.{Activation, activate_with-Activation, Granted, Refused, IsLate}
use seatkey.Web.Http.{Response, Handler, answer_result, write_json, envelope}
use seatkey.Web.Api.{
  handle_api_activate, with_request, map_license_error, Decoded, decoded, malformed,
  ActivateRequest,
}

-- The body is no request, or lacks one of the two fields.
abbrev pub IsIncomplete : Decoded → Type 0
IsIncomplete (malformed complaint) = Unit
IsIncomplete (decoded req) = (req.license_key == "" || req.device_id == "") ≡ true

-- A body that is no request, or that lacks the key or the device, is answered by 400 by any of the
-- handlers that check it, and the handler's call is not made.
pub with_request-incomplete :
    (body : Decoded) (next : ActivateRequest → Handler) (w : World)
    → IsIncomplete body
    → ((with_request body next w).0.status ≡ 400) × ((with_request body next w).1 ≡ w)
unfolding with_request
with_request-incomplete (malformed complaint) next w h = (refl, refl)
with_request-incomplete (decoded req) next w h = rw h (refl, refl)

never_ok : (e : Error) → (map_license_error e).status ≡ 200 → ⊥
unfolding map_license_error
never_ok not_found h = omega arith
never_ok device_limit h = omega arith
never_ok (World.license_status status) h = omega arith
never_ok _ h = omega arith

module _ (s : Service) (req : ActivateRequest) where
  -- What an answer to an activation tells: 200 the token that was granted; 404 that no license has the
  -- key; 403 that the license is revoked or has expired at the clock's reading after the lookup; 409 that its seats are all in use; 500 that
  -- the failure is the server's own. Answers of 403, 404 and 409 have changed nothing.
  abbrev pub Answered : World → Response × World → Type 0
  Answered w (r, w') =
      ((r.status ≡ 200)
        × ((env : Envelope) × (r.body ≡ envelope env)
            × Granted req.license_key req.device_id s false (w.outside.clock (suc w.calls)) w env
                w'))
      ⊎ ((r.status ≡ 404) × (find_license_by_key req.license_key w.db ≡ none) × Same w w')
      ⊎ ((r.status ≡ 403)
          × ((status : Status) × Refused req.license_key req.device_id
                (w.outside.clock (suc w.calls)) w (World.license_status status) w'))
      ⊎ ((r.status ≡ 409)
          × Refused req.license_key req.device_id (w.outside.clock (suc w.calls)) w device_limit w')
      ⊎ ((r.status ≡ 500) × (Same w w' ⊎ IsLate req.license_key req.device_id w w'))

  answered :
      (w : World) (r : Result Envelope × World)
      → Activation req.license_key req.device_id s false (w.outside.clock (suc w.calls)) w r
      → IsValid (answer_result (λ env. write_json 200 (envelope env)) map_license_error r).1.db
        × Answered w (answer_result (λ env. write_json 200 (envelope env)) map_license_error r)
  unfolding map_license_error
  answered w (ok env, w') h = (h.0, inl (refl, (env, refl, h.1)))
  answered w (err not_found, w') h = (h.0, inr (inl (refl, h.1.0, h.1.1)))
  answered w (err (World.license_status status), w') h =
      (h.0, inr (inr (inl (refl, (status, h.1)))))
  answered w (err device_limit, w') h = (h.0, inr (inr (inr (inl (refl, h.1)))))
  answered w (err driver, w') h = (h.0, inr (inr (inr (inr (refl, h.1)))))
  answered w (err marshal, w') h = (h.0, inr (inr (inr (inr (refl, inr h.1)))))
  answered w (err e, w') h = absurd h.1

  -- Every answer of the activation handler to a complete request keeps the tables valid and tells by
  -- its status what has been found and done.
  pub handle_api_activate-Answered :
      (w : World)
      → IsValid w.db
      → (req.license_key == "" || req.device_id == "") ≡ false
      → IsValid (handle_api_activate s (decoded req) w).1.db
        × Answered w (handle_api_activate s (decoded req) w)
  unfolding handle_api_activate with_request activate
  handle_api_activate-Answered w v complete = rw complete (
      answered w (activate_with s req.license_key req.device_id req.device_name false w)
        (activate_with-Activation req.license_key req.device_id s false req.device_name w v))

  -- An answer with status 200 is the envelope of an activation that succeeded.
  pub handle_api_activate-envelope :
      (w w' : World) (env : Envelope)
      → (req.license_key == "" || req.device_id == "") ≡ false
      → handle_api_activate s (decoded req) w ≡ (write_json 200 (envelope env), w')
      → activate s req.license_key req.device_id req.device_name w ≡ (ok env, w')
  unfolding handle_api_activate with_request
  handle_api_activate-envelope w w' env complete h =
      go (activate s req.license_key req.device_id req.device_name w) refl (rw complete at h)
    where
      call : World → Result Envelope × World
      call = activate s req.license_key req.device_id req.device_name

      go :
          (p : Result Envelope × World)
          → call w ≡ p
          → answer_result (λ env. write_json 200 (envelope env)) map_license_error p
            ≡ (write_json 200 (envelope env), w')
          → call w ≡ (ok env, w')
      go (ok env1, w1) e q = cc
      go (err x, w1) e q = absurd (never_ok x (ap (λ (p : Response × World). p.0.status) q))
