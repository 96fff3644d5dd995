-- ===== src/Web/Api/Others.antt =====
-- internal/web/api.go: what the answers to a validation and to a deactivation tell.
use seatkey.Store.Models.{Status}
use seatkey.World.Rules.{Same}
use seatkey.Store.Valid.{IsValid}
use seatkey.License.Renewal.{validate-Renewal, NotRenewed, Renewal}
use seatkey.Web.Http.{envelope}
use seatkey.Crypto.{Envelope}
use seatkey.License.Release.{deactivate-Release, Released, Release}
use seatkey.Web.Http.{write_json, answer_result, flag_ok, Response}
use seatkey.World.{marshal, driver, err, not_found, ok, Result, World}
use seatkey.License.{deactivate, validate, Service}
use seatkey.Web.Api.{
  decoded, with_request, handle_api_deactivate, handle_api_validate, map_license_error,
  ActivateRequest,
}
use seatkey.World
use seatkey.Common.{suc, false, inr, ◌||◌, inl, ◌==◌, ◌⊎◌, ◌≡◌, refl}

module _ (req : ActivateRequest) where
  module _ (s : Service) where
    -- 200 the token of a device that holds its seat; 404 no license or no such device on it; 403 a
    -- license that is revoked or has expired at the clock's reading after the lookup; 500 a failure of the server's own. None moves a seat.
    abbrev pub Validated : World → Response × World → Type 0
    Validated w (r, w') =
        ((r.status ≡ 200)
          × ((env : Envelope) × (r.body ≡ envelope env)
              × Renewal req.license_key req.device_id s (w.outside.clock (suc w.calls)) w
                  (ok env, w')))
        ⊎ ((r.status ≡ 404)
            × NotRenewed req.license_key req.device_id (w.outside.clock (suc w.calls)) w not_found
                w')
        ⊎ ((r.status ≡ 403)
            × ((status : Status) × NotRenewed req.license_key req.device_id
                  (w.outside.clock (suc w.calls)) w (World.license_status status) w'))
        ⊎ ((r.status ≡ 500)
            × (NotRenewed req.license_key req.device_id (w.outside.clock (suc w.calls)) w driver w'
                ⊎ NotRenewed req.license_key req.device_id (w.outside.clock (suc w.calls)) w marshal
                    w'))

    validated :
        (w : World) (p : Result Envelope × World)
        → Renewal req.license_key req.device_id s (w.outside.clock (suc w.calls)) w p
        → Validated w (answer_result (λ env. write_json 200 (envelope env)) map_license_error p)
    unfolding map_license_error
    validated w (ok env, w') h = inl (refl, (env, refl, h))
    validated w (err not_found, w') h = inr (inl (refl, h))
    validated w (err (World.license_status status), w') h = inr (inr (inl (refl, (status, h))))
    validated w (err driver, w') h = inr (inr (inr (refl, inl h)))
    validated w (err marshal, w') h = inr (inr (inr (refl, inr h)))
    validated w (err _, w') h = absurd h

  -- 200 the seat was given up; 404 no license or no active device, and 500 a failure of the driver:
  -- nothing has changed.
  abbrev pub Deactivated : World → Response × World → Type 0
  Deactivated w (r, w') =
      ((r.status ≡ 200) × (r.body ≡ flag_ok) × Released req.license_key req.device_id w w')
      ⊎ (((r.status ≡ 404) ⊎ (r.status ≡ 500)) × Same w w')

  deactivated :
      (w : World) (p : Result (Unit {0}) × World)
      → Release req.license_key req.device_id w p
      → Deactivated w (answer_result (λ _. write_json 200 flag_ok) map_license_error p)
  unfolding map_license_error
  deactivated w (ok u, w') h = inl (refl, refl, h.1)
  deactivated w (err e, w') (same, inl (missing, why)) = inr (inl (rw missing refl), same)
  deactivated w (err e, w') (same, inr broken) = inr (inr (rw broken refl), same)

  module _ (s : Service) where
    -- The answers of the two handlers to a complete request on valid tables tell by their status what was
    -- found and done: a validation the token of a device that holds its seat, or why there is none, and
    -- no seat moves; a deactivation that the seat was given up, or nothing has changed.
    pub handle_api-Validated-Deactivated :
        (w : World)
        → IsValid w.db
        → (req.license_key == "" || req.device_id == "") ≡ false
        → Validated s w (handle_api_validate s (decoded req) w)
          × Deactivated w (handle_api_deactivate (decoded req) w)
    unfolding handle_api_validate handle_api_deactivate with_request
    handle_api-Validated-Deactivated w v complete = rw complete (
      validated s w (validate s req.license_key req.device_id w)
          (validate-Renewal req.license_key req.device_id s w v),
      deactivated w (deactivate req.license_key req.device_id w)
          (deactivate-Release req.license_key req.device_id w v),
    )
