-- ===== src/Webhook.antt =====
-- internal/webhook: the delivery of events. HMAC-SHA256, the JSON of an event and the network are
-- parameters.
use seatkey.Web.Auth.{hex_digits}
use seatkey.Store.Licenses.{symbol_at}
use seatkey.Common.{
  [], ◌%◌, zero, ◌/◌, ltb, true, none, some, nat_beq, false, length, ◌==◌, if◌then◌else◌, ℕ, ◌∷◌,
  Bool, Option, String, List, suc,
}
use seatkey.Crypto.{Bytes}
pub mod Delivery
use Prim.Native.String
use seatkey.World

-- crypto/hmac with crypto/sha256, and `json.Marshal` of the event's map.
pub record Codec : Type 0 where
  pub hmac_sha256 : String → Bytes → Bytes
  pub marshal : World.Event → Option Bytes

-- One request: its signature header is absent without a secret.
pub record Post : Type 0 where
  pub url : String
  pub body : Bytes
  pub signature : Option String

-- The network's answers: whether `http.NewRequest` takes a URL, and the status of the answer to a
-- request by its number, or none for a failure.
pub record Network : Type 0 where
  pub is_url : String → Bool
  pub respond : ℕ → Option ℕ

-- The requests so far, the latest first, and the seconds slept.
pub record Wire : Type 0 where
  pub network : Network
  pub sent : List Post
  pub slept : ℕ

-- `hex.EncodeToString`.
unfoldable pub hex : Bytes → String
hex [] = ""
hex (b ∷ bytes) =
    String.◌++◌ (symbol_at hex_digits (b / 16))
      (String.◌++◌ (symbol_at hex_digits (b % 16)) (hex bytes))

unfoldable pub sign : Codec → String → Bytes → String
sign c secret body = hex (c.hmac_sha256 secret body)

-- `hmac.Equal` compares the texts in constant time.
unfoldable pub verify : Codec → String → Bytes → String → Bool
verify c secret body signature = sign c secret body == signature

abbrev pub post_of : Codec → String → String → Bytes → Post
post_of c url secret body = record {
  url = url;
  body = body;
  signature = if secret == "" then none else some (sign c secret body);
}

-- No error, and a status below 300.
abbrev pub is_accepted : Option ℕ → Bool
is_accepted none = false
is_accepted (some status) = ltb status 300

-- Whether an attempt returned no error.
unfoldable pub attempt : Codec → String → String → Bytes → Wire → Bool × Wire
attempt c url secret body w =
    if w.network.is_url url
    then (
      is_accepted (w.network.respond (length w.sent)),
      record w { sent = post_of c url secret body ∷ w.sent },
    )
    else (false, w)

abbrev pub sleep_second : Wire → Wire
sleep_second w = record w { slept = suc w.slept }

-- The body of the loop from an attempt on, with the attempts left. Whether it was delivered.
unfoldable pub attempts : Codec → String → String → Bytes → ℕ → ℕ → Wire → Bool × Wire
attempts c url secret body number zero w = (false, w)
attempts c url secret body number (suc left) w =
    let (done, w') = attempt c url secret body (if nat_beq number 0 then w else sleep_second w) in
    let again = attempts c url secret body (suc number) left w' in
    if done then (true, w') else again

-- An event that cannot be marshalled is dropped.
abbrev pub deliver_body : Codec → String → String → Option Bytes → Wire → Bool × Wire
deliver_body c url secret none w = (false, w)
deliver_body c url secret (some body) w = attempts c url secret body 0 2 w

unfoldable pub deliver : Codec → String → String → World.Event → Wire → Bool × Wire
deliver c url secret event w = deliver_body c url secret (c.marshal event) w

-- `Notify`, to the end of what it does in the background. Without a URL it does nothing.
unfoldable pub notify : Codec → String × String → World.Event → Wire → Wire
notify c (url, secret) event w = if url == "" then w else (deliver c url secret event w).1
