-- ===== src/Tests/Webhook.antt =====
-- internal/webhook: its theorem at a receiver that answers at the second time.
use seatkey.Webhook.Delivery.{deliver-Delivered, Delivered}
use seatkey.Crypto.{Bytes}
use seatkey.Common.{◌⊎◌, false, nat_beq, some, none, [], if◌then◌else◌, ◌≡◌, ◌∷◌, true}
use seatkey.Webhook.{Codec, Wire, deliver}
use seatkey.World

abbrev toy_codec : Codec
toy_codec = record {
  hmac_sha256 = λ secret body. 171 ∷ [];
  marshal = λ event. some (123 ∷ 125 ∷ []);
}

abbrev slow : Wire
slow = record {
  network = record {
    is_url = λ url. true;
    respond = λ n. if nat_beq n 0 then some 503 else some 204;
  };
  sent = [];
  slept = 0;
}

abbrev news : seatkey.World.Event
news = record {
  event = "activation";
  license_key = "SEAT-1";
  product = "Editor";
  customer_name = "Ann";
  device_id = "desk";
  timestamp = 7;
}

deliver-Delivered_example :
    ((toy_codec.marshal news ≡ none)
      × (deliver toy_codec "https://shop" "hush" news slow ≡ (false, slow)))
    ⊎ ((body : Bytes) × (toy_codec.marshal news ≡ some body)
        × Delivered toy_codec "https://shop" "hush" body slow
            (deliver toy_codec "https://shop" "hush" news slow))
deliver-Delivered_example = deliver-Delivered toy_codec "https://shop" "hush" news slow
