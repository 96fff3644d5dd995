-- ===== src/Tests/Admin.antt =====
-- internal/web/admin.go: its theorems at the small shop.
use seatkey.Common.{[], ◌==◌, if◌then◌else◌, none}
use seatkey.Web.Admin.{handle_webhook_settings, handle_license_revoke}
use seatkey.Web.Admin.Revocation.{handle_license_revoke-RevocationDone, RevocationDone}
use seatkey.Web.Admin.WebhookSettings.{handle_webhook_settings-Saved, Saved}
use seatkey.Web.Http.{Request, post}
use seatkey.Toys.{demo}

abbrev sent : Request
sent = record {
  method = post;
  segments = [];
  session = none;
  form = λ name. if name == "webhook_url" then "https://shop" else "hush";
  path = λ name. "L1";
  query = λ name. "";
}

handle_license_revoke-RevocationDone_example :
    RevocationDone "L1" demo (handle_license_revoke sent demo)
handle_license_revoke-RevocationDone_example = handle_license_revoke-RevocationDone sent demo

handle_webhook_settings-Saved_example : Saved sent demo (handle_webhook_settings sent demo)
handle_webhook_settings-Saved_example = handle_webhook_settings-Saved sent demo
