-- ===== src/Webhook/Delivery.antt =====
-- internal/webhook: which requests a delivery makes.
use seatkey.Crypto.{Bytes}
use seatkey.Common.{
  refl, eq_refl, Option, eq_iff, inr, suc, ◌∷◌, inl, length, some, false, if◌then◌else◌, ◌⊎◌, none,
  ◌==◌, true, ◌≡◌, Bool, String,
}
use seatkey.Webhook.{
  sleep_second, deliver_body, is_accepted, post_of, Post, deliver, Codec, Wire, sign, verify,
  attempt, attempts,
}
use seatkey.World

-- A receiver that knows the secret and checks the header accepts the request; without a secret there
-- is no header.
abbrev pub IsSigned : Codec → String → Post → Type 0
IsSigned c secret p =
    ((secret ≡ "") × (p.signature ≡ none))
    ⊎ ((signature : String) × (p.signature ≡ some signature)
        × (verify c secret p.body signature ≡ true))

post_of-IsSigned :
    (c : Codec) (url secret : String) (body : Bytes) → IsSigned c secret (post_of c url secret body)
unfolding verify
post_of-IsSigned c url secret body = go (secret == "") refl
  where
    go :
        (b : Bool)
        → (secret == "") ≡ b
        → ((secret ≡ "") × ((if b then none else some (sign c secret body)) ≡ none))
          ⊎ ((signature : String) × ((if b then none else some (sign c secret body))
                ≡ some signature)
              × (verify c secret body signature ≡ true))
    go true e = inl ((eq_iff secret "").0 e, refl)
    go false e = inr (sign c secret body, refl, eq_refl (sign c secret body))

module _ (c : Codec) (url secret : String) where
  -- The first request was accepted; or it was not, and after a second's sleep the same request was
  -- made once more, and that decides; or the URL is none, and no request was made.
  abbrev pub Delivered : Bytes → Wire → Bool × Wire → Type 0
  Delivered body w (done, w') =
      let p = post_of c url secret body in
      ((w.network.is_url url ≡ true)
        × IsSigned c secret p
        × (((done ≡ true)
              × (is_accepted (w.network.respond (length w.sent)) ≡ true)
              × (w' ≡ record w { sent = p ∷ w.sent }))
            ⊎ ((done ≡ is_accepted (w.network.respond (suc (length w.sent))))
                × (is_accepted (w.network.respond (length w.sent)) ≡ false)
                × (w' ≡ record w { sent = p ∷ p ∷ w.sent; slept = suc w.slept }))))
      ⊎ ((w.network.is_url url ≡ false) × (done ≡ false) × (w' ≡ record w { slept = suc w.slept }))

  last_attempt :
      (b : Bool) (w : Wire)
      → let result : Bool × Wire = if b then (true, w) else (false, w) in
        (result.0 ≡ b) × (result.1 ≡ w)
  last_attempt true w = (refl, refl)
  last_attempt false w = (refl, refl)

  attempt_sent :
      (body : Bytes) (w : Wire)
      → w.network.is_url url ≡ true
      → attempt c url secret body w ≡ (
        is_accepted (w.network.respond (length w.sent)),
        record w { sent = post_of c url secret body ∷ w.sent },
      )
  unfolding attempt
  attempt_sent body w u = rw u refl

  attempt_failed :
      (body : Bytes) (w : Wire)
      → w.network.is_url url ≡ false
      → attempt c url secret body w ≡ (false, w)
  unfolding attempt
  attempt_failed body w u = rw u refl

  -- A delivery makes one request, or two of the same with a second between them if the first was not
  -- accepted, and none if the URL is not one. Each carries the event's body, and a signature that a
  -- receiver with the secret accepts, if there is a secret. It reports success exactly if the last
  -- request was accepted. An event that cannot be marshalled is not sent.
  pub deliver-Delivered :
      (event : World.Event) (w : Wire)
      → ((c.marshal event ≡ none) × (deliver c url secret event w ≡ (false, w)))
        ⊎ ((body : Bytes) × (c.marshal event ≡ some body)
            × Delivered body w (deliver c url secret event w))
  unfolding deliver attempts
  deliver-Delivered event w = go (c.marshal event) refl
    where
      made :
          (body : Bytes) (is_url first : Bool)
          → w.network.is_url url ≡ is_url
          → is_accepted (w.network.respond (length w.sent)) ≡ first
          → Delivered body w (attempts c url secret body 0 2 w)
      made body false first u a =
          rw (attempt_failed body w u, attempt_failed body (sleep_second w) u) (inr (u, refl, refl))
      made body true true u a =
          rw (attempt_sent body w u, a)
            (inl (u, post_of-IsSigned c url secret body, inl (refl, refl, refl)))
      made body true false u a =
          let w1 : Wire = record w { sent = post_of c url secret body ∷ w.sent } in
          let w2 : Wire = record w {
            sent = post_of c url secret body ∷ post_of c url secret body ∷ w.sent;
            slept = suc w.slept;
          } in
          let ended = last_attempt (is_accepted (w.network.respond (suc (length w.sent)))) w2 in
          rw (attempt_sent body w u, attempt_sent body (sleep_second w1) u, a)
            (inl (u, post_of-IsSigned c url secret body, inr (ended.0, refl, ended.1)))

      go :
          (o : Option Bytes)
          → c.marshal event ≡ o
          → ((o ≡ none) × (deliver_body c url secret o w ≡ (false, w)))
            ⊎ ((body : Bytes) × (o ≡ some body) × Delivered body w (deliver_body c url secret o w))
      go none e = inl (refl, refl)
      go (some body) e = inr (body, refl, made body (w.network.is_url url) _ refl refl)
