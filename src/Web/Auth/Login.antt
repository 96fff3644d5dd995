-- ===== src/Web/Auth/Login.antt =====
-- internal/web/auth.go: who gets a session.
use seatkey.License.{hour}
use seatkey.Web.Auth.Rules.{checked_rule}
use seatkey.Store.Admins.Outcomes.{
  admin_password_hash-spend, has_admin-spend, has_admin-Queried, admin_password_hash-Fetched,
  has_admins, stored_hash, create_session-Started, Started,
}
use seatkey.World.Rules.{Fetched, Queried, transport_Same, Wrote, bind_rule, Same}
use seatkey.Store.Admins.{has_admin, admin_password_hash, find_session, create_session}
use seatkey.Common.{
  suc, ◌*◌, false, inl, ◌⊎◌, inr, if◌then◌else◌, true, Bool, refl, [], ◌∷◌, ◌++◌, some, none, ◌+◌,
  Option, ◌≡◌, ℕ, String,
}
use seatkey.Web.Auth.{
  enter, handle_login, submit_login, hex_from, session_ttl, start_session, Server,
  new_session_token,
}
use seatkey.World.{◌>>◌, rand_result, pure, resume, err, ◌>>=◌, spend, ok, time_now, Result, World}
use seatkey.Web.Http.{
  other, Handler, login_page, render, reply, Method, redirect, with_cookie, Response, Request,
  until, Cookie, get, head, post,
}

-- The hexadecimal text of 32 bytes of a buffer that the random source filled.
abbrev pub IsDrawn : Option (ℕ → ℕ) → String → Type 0
IsDrawn drawn token = (buf : ℕ → ℕ) × (drawn ≡ some buf) × (token ≡ hex_from buf 0 32)

-- A session was written that lasts thirty days from `now` and was created at `issued`; its token,
-- drawn at random, is the cookie's value, and nothing else is written.
abbrev pub Entered : Server → Option (ℕ → ℕ) → ℕ → ℕ → World → Cookie → World → Type 0
Entered s drawn now issued w c w' =
    IsDrawn drawn c.value
    × (c.life ≡ until (now + 30 * 24 * hour))
    × (c.secure ≡ s.cookie_secure)
    × (find_session c.value w.db ≡ none)
    × Wrote w
        (record w.db {
          sessions =
              w.db.sessions
              ++ record { token = c.value; created_at = issued; expires_at = now + 30 * 24 * hour }
                ∷ [];
        })
        w'

abbrev pub Entering : Server → Option (ℕ → ℕ) → ℕ → ℕ → World → Result Cookie × World → Type 0
Entering s drawn now issued w (ok c, w') = Entered s drawn now issued w c w'
Entering s drawn now issued w (err e, w') = Same w w'

abbrev Drawn : World → Result String × World → Type 0
Drawn w (ok token, w') = IsDrawn (w.outside.random w.calls) token × (w' ≡ spend w)
Drawn w (err e, w') = w' ≡ spend w

new_session_token-Drawn : (w : World) → Drawn w (new_session_token w)
unfolding new_session_token
new_session_token-Drawn w = go (w.outside.random w.calls) refl
  where
    go :
        (o : Option (ℕ → ℕ))
        → w.outside.random w.calls ≡ o
        → Drawn w (resume (λ buf. pure (hex_from buf 0 32)) (rand_result w o))
    go none e = refl
    go (some buf) e = ((buf, e, refl), refl)

Entering-Same :
    (s : Server) (drawn : Option (ℕ → ℕ)) (now issued : ℕ) (w w' : World)
    → Same w w'
    → (p : Result Cookie × World) → Entering s drawn now issued w' p
    → Entering s drawn now issued w p
Entering-Same s drawn now issued w w' same p h =
    transport_Same (λ x. Entering s drawn now issued x p) w w' same h

pub start_session-Entering :
    (s : Server) (w : World)
    → Entering s
        (w.outside.random w.calls)
        (w.outside.clock (suc w.calls))
        (w.outside.clock (suc (suc w.calls)))
        w
        (start_session s w)
unfolding start_session
start_session-Entering s w =
    bind_rule (Drawn w)
      (Entering s (w.outside.random w.calls) (w.outside.clock (suc w.calls))
        (w.outside.clock (suc (suc w.calls))) w)
      new_session_token _ w (new_session_token-Drawn w) (λ e w1 h. rw h (refl, refl, refl))
      (λ token w1 h. rw h.1 (
        Entering-Same s _ _ _ w (spend w) (refl, refl, refl) _
          (after (w.outside.random w.calls) token (spend w) h.0)))
  where
    after :
        (drawn : Option (ℕ → ℕ)) (token : String) (w1 : World)
        → IsDrawn drawn token
        → Entering s drawn (w1.outside.clock w1.calls) (w1.outside.clock (suc w1.calls)) w1 (
            (time_now >>= λ now.
            create_session token (now + session_ttl)
            >> pure (record {
              value = token;
              secure = s.cookie_secure;
              life = until (now + session_ttl);
            }))
              w1)
    after drawn token w1 random =
        let now = w1.outside.clock w1.calls in
        bind_rule (Started token (now + session_ttl) (spend w1))
          (Entering s drawn now (w1.outside.clock (suc w1.calls)) w1)
          (create_session token (now + session_ttl)) _ (spend w1)
          (create_session-Started token (now + session_ttl) (spend w1)) (λ e w2 h. h)
          (λ u w2 h. (random, refl, refl, h.0, h.1))

-- What a submitted login does: it starts a session for who has the stored password, or changes nothing
-- and sets no cookie.
module _ (s : Server) (r : Request) where
  abbrev pub IsPassword : World → Type 0
  IsPassword w =
      (hash : String) × (stored_hash w.db ≡ some hash)
      × (s.bcrypt.compare_hash_and_password hash (r.form "password") ≡ true)

  abbrev pub LoggedIn : Option (ℕ → ℕ) → ℕ → ℕ → World → Response × World → Type 0
  LoggedIn drawn now issued w (answer, w') =
      (IsPassword w
        × ((c : Cookie) × (answer ≡ with_cookie c (redirect "/"))
            × Entered s drawn now issued w c w'))
      ⊎ ((answer.cookie ≡ none) × Same w w')

  LoggedIn-Same :
      (drawn : Option (ℕ → ℕ)) (now issued : ℕ) (w w' : World)
      → Same w w'
      → (p : Response × World) → LoggedIn drawn now issued w' p
      → LoggedIn drawn now issued w p
  LoggedIn-Same drawn now issued w w' same p h =
      transport_Same (λ x. LoggedIn drawn now issued x p) w w' same h

  -- A login whose token is drawn as the interaction `n`, and whose clock is read at the next two.
  abbrev LoggedInAt : ℕ → World → Response × World → Type 0
  LoggedInAt n w p =
      LoggedIn (w.outside.random n) (w.outside.clock (suc n)) (w.outside.clock (suc (suc n))) w p

  enter-LoggedIn : (w : World) → IsPassword w → LoggedInAt w.calls w (enter s w)
  unfolding enter
  enter-LoggedIn w known =
      checked_rule
        (Entering s (w.outside.random w.calls) (w.outside.clock (suc w.calls))
          (w.outside.clock (suc (suc w.calls))) w)
        (LoggedInAt w.calls w) (start_session s) _ w (start_session-Entering s w)
        (λ e w' h. inr (refl, h)) (λ c w' h. inl (known, (c, refl, h)))

  submit_login-LoggedIn : (w : World) → LoggedInAt (suc w.calls) w (submit_login s r w)
  unfolding submit_login
  submit_login-LoggedIn w =
      checked_rule (λ p. Fetched w stored_hash p × (p.1 ≡ spend w)) (LoggedInAt (suc w.calls) w)
        admin_password_hash _ w (admin_password_hash-Fetched w, admin_password_hash-spend w)
        (λ e w' h. inr (refl, h.0.1))
        (λ hash w' h.
          let accepted : Bool = s.bcrypt.compare_hash_and_password hash (r.form "password") in
          rw h.1 (
            LoggedIn-Same _ _ _ w (spend w) (refl, refl, refl)
              ((if accepted
                  then enter s
                  else reply (render (login_page (some "Incorrect password"))))
                (spend w))
              (go hash (spend w) accepted refl h.0.0)))
    where
      go :
          (hash : String) (w : World) (b : Bool)
          → s.bcrypt.compare_hash_and_password hash (r.form "password") ≡ b
          → stored_hash w.db ≡ some hash
          → LoggedInAt w.calls w
              ((if b then enter s else reply (render (login_page (some "Incorrect password")))) w)
      go hash w true e stored = enter-LoggedIn w (hash, stored, e)
      go hash w false e stored = inr (refl, (refl, refl, refl))

  -- The login sets a cookie only for who gives the password whose hash is stored; the cookie's value is
  -- then the token of a new session, the text of 32 bytes that the random source gave after the two
  -- queries. It lasts thirty days from the clock's first reading, which comes next, and is created at
  -- the reading after that; nothing else is written. Any other answer, errors included, sets no cookie
  -- and changes nothing.
  pub handle_login-LoggedIn :
      (w : World)
      → LoggedIn
          (w.outside.random (suc (suc w.calls)))
          (w.outside.clock (suc (suc (suc w.calls))))
          (w.outside.clock (suc (suc (suc (suc w.calls)))))
          w
          (handle_login s r w)
  unfolding handle_login
  handle_login-LoggedIn w =
      checked_rule (λ p. Queried w has_admins p × (p.1 ≡ spend w))
        (LoggedInAt (suc (suc w.calls)) w) has_admin _ w (has_admin-Queried w, has_admin-spend w)
        (λ e w' h. inr (refl, h.0.1))
        (λ has w' h. rw h.1 (
          LoggedIn-Same _ _ _ w (spend w) (refl, refl, refl) (arrived has r.method (spend w))
            (go has r.method (spend w))))
    where
      arrived : Bool → Method → Handler
      arrived has m =
          if has
          then elim m [ get ↦ reply (render (login_page none)) | _ ↦ submit_login s r ]
          else reply (redirect "/setup")

      go : (has : Bool) (m : Method) (w : World) → LoggedInAt (suc w.calls) w (arrived has m w)
      go false m w = inr (refl, (refl, refl, refl))
      go true get w = inr (refl, (refl, refl, refl))
      go true head w = submit_login-LoggedIn w
      go true post w = submit_login-LoggedIn w
      go true other w = submit_login-LoggedIn w
