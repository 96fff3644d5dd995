-- ===== src/Seatkeyd/Target.antt =====
-- cmd/seatkeyd/main.go and internal/web/admin.go: where events are sent to.
use seatkey.Web.Admin.WebhookSettings.{handle_webhook_settings-Saved, Saved}
use seatkey.Web.Admin.{handle_webhook_settings}
use seatkey.World.{ok, World}
use seatkey.Web.Http.{redirect, Request}
use seatkey.Store.Settings.{get_setting}
use seatkey.Seatkeyd.Start.{webhook_target}
use seatkey.Common.{subst, inr, inl, suc, false, ◌≡◌, refl}

-- The dashboard has saved the webhook's settings. As long as the driver answers the two queries, the
-- next event goes to the URL that was sent, with the secret that was sent: no restart is needed.
pub webhook_target-handle_webhook_settings :
    (r : Request) (w w' : World)
    → handle_webhook_settings r w ≡ (redirect "/settings", w')
    → w'.outside.fault w'.calls ≡ false
    → w'.outside.fault (suc w'.calls) ≡ false
    → (webhook_target w').0 ≡ ok (r.form "webhook_url", r.form "webhook_secret")
unfolding webhook_target get_setting
webhook_target-handle_webhook_settings r w w' saved up up' =
    go (subst (Saved r w) saved (handle_webhook_settings-Saved r w))
  where
    go :
        Saved r w (redirect "/settings", w')
        → (webhook_target w').0 ≡ ok (r.form "webhook_url", r.form "webhook_secret")
    go (inl (same, url, secret), others, wrote) = rw (up, up', url, secret) refl
    go (inr bad, others, wrote) = absurd (cc)
