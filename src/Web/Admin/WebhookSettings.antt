-- ===== src/Web/Admin/WebhookSettings.antt =====
-- internal/web/admin.go: saving the webhook's address and secret.
use seatkey.Store.Schema.{Db}
use seatkey.World.Rules.{Wrote}
use seatkey.Store.Settings.{read_setting, set_setting}
use seatkey.Store.Settings.Values.{set_setting-Stored, Stored}
use seatkey.Web.Auth.Rules.{checked_rule}
use seatkey.Web.Admin.{handle_webhook_settings}
use seatkey.Web.Http.{server_error, redirect, Response, Request}
use seatkey.Common.{ap, refl, ◌∙◌, inl, ◌⊎◌, some, inr, false, ◌≡◌, ◌==◌, String}
use seatkey.World.{driver, World}

-- A setting of another name than the two.
abbrev pub IsOther : String → Type 0
IsOther key = (("webhook_url" == key) ≡ false) × (("webhook_secret" == key) ≡ false)

abbrev pub Saved : Request → World → Response × World → Type 0
Saved r w (answer, w') =
    (((answer ≡ redirect "/settings")
        × (read_setting "webhook_url" w'.db ≡ some (r.form "webhook_url"))
        × (read_setting "webhook_secret" w'.db ≡ some (r.form "webhook_secret")))
      ⊎ (answer ≡ server_error driver))
    × ((key : String) → IsOther key → read_setting key w'.db ≡ read_setting key w.db)
    × Wrote w (record w.db { settings = w'.db.settings }) w'

settings_twice :
    (w w1 w2 : World)
    → Wrote w (record w.db { settings = w1.db.settings }) w1
    → Wrote w1 (record w1.db { settings = w2.db.settings }) w2
    → Wrote w (record w.db { settings = w2.db.settings }) w2
settings_twice w w1 w2 (a, b, c) (d, e, f) =
    (d ∙ ap (λ (db : Db). record db { settings = w2.db.settings }) a, e ∙ b, f ∙ c)

-- Saving the webhook's settings stores both as they were sent and redirects, or the driver fails; it
-- never touches another setting, such as the seed of the signing key, or another table.
pub handle_webhook_settings-Saved :
    (r : Request) (w : World) → Saved r w (handle_webhook_settings r w)
unfolding handle_webhook_settings
handle_webhook_settings-Saved r w =
    checked_rule (Stored "webhook_url" (r.form "webhook_url") w) (Saved r w)
      (set_setting "webhook_url" (r.form "webhook_url")) _ w
      (set_setting-Stored "webhook_url" (r.form "webhook_url") w)
      (λ e w1 h. (inr refl, (λ key o. rw h.1.0 refl), (rw h.1.0 refl, h.1.1, h.1.2)))
      (λ u w1 h.
        checked_rule (Stored "webhook_secret" (r.form "webhook_secret") w1) (Saved r w)
          (set_setting "webhook_secret" (r.form "webhook_secret")) _ w1
          (set_setting-Stored "webhook_secret" (r.form "webhook_secret") w1)
          (λ e w2 g. (
            inr refl,
            (λ key o. rw g.1.0 (h.1 key o.0)),
            settings_twice w w1 w2 h.2 (rw g.1.0 refl, g.1.1, g.1.2),
          ))
          (λ u' w2 g. (
            inl (refl, g.1 "webhook_url" refl ∙ h.0, g.0),
            (λ key o. g.1 key o.1 ∙ h.1 key o.0),
            settings_twice w w1 w2 h.2 g.2,
          )))
