-- ===== src/Tests/Web.antt =====
-- internal/web: its theorems at the small shop.
use seatkey.Web.Api.Others.{handle_api-Validated-Deactivated, Deactivated, Validated}
use seatkey.Store.Valid.{IsValid}
use seatkey.Toys.{demo, demo_service, demo-IsValid}
use seatkey.Common.{refl}
use seatkey.Web.Api.{
  handle_api_deactivate, handle_api_validate, decoded, ActivateRequest, handle_api_activate,
}
use seatkey.Web.Api.Answers.{handle_api_activate-Answered, Answered}

abbrev laptop : ActivateRequest
laptop = record { license_key = "SEAT-1"; device_id = "laptop"; device_name = "" }

handle_api_activate-Answered_example :
    IsValid (handle_api_activate demo_service (decoded laptop) demo).1.db
    × Answered demo_service laptop demo (handle_api_activate demo_service (decoded laptop) demo)
handle_api_activate-Answered_example =
    handle_api_activate-Answered demo_service laptop demo demo-IsValid refl

abbrev desktop : ActivateRequest
desktop = record { license_key = "SEAT-1"; device_id = "desk"; device_name = "" }

handle_api-Validated-Deactivated_example :
    Validated desktop demo_service demo (handle_api_validate demo_service (decoded desktop) demo)
    × Deactivated desktop demo (handle_api_deactivate (decoded desktop) demo)
handle_api-Validated-Deactivated_example =
    handle_api-Validated-Deactivated desktop demo_service demo demo-IsValid refl
