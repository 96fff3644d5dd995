-- ===== src/Web/Auth/Setup.antt =====
-- internal/web/auth.go: the first admin.
use seatkey.Common.Rows.{find_where}
use seatkey.Web.Auth.Password.{validate_password-none, generate-Hashed, Hashed}
use seatkey.Store.Schema.{Session, Db}
use seatkey.Web.Auth.Login.{start_session-Entering, Entering}
use seatkey.Web.Auth.Rules.{checked_rule}
use seatkey.Store.Admins.Outcomes.{has_admin-Queried, stored_hash, has_admins}
use seatkey.Store.Admins.Hashes.{create_admin-Added, stored_hash-Added, Added}
use seatkey.Common.{
  suc, sym, eq_iff, refl, List, ◌==◌, subst, inr, inl, not, if◌then◌else◌, Option, Bool, ap, some,
  true, ◌≤◌, none, false, String, ◌≡◌, ◌⊎◌,
}
use seatkey.World.Rules.{Queried, transport_Same, Same}
use seatkey.Web.Auth.{
  validate_password, handle_setup, submit_setup, first_admin, start_session, byte_length, enter,
  BcryptLaws, Server,
}
use seatkey.World.{ok, World}
use seatkey.Web.Http.{
  other, setup_page, render, reply, Method, checked, Handler, redirect, with_cookie, Cookie,
  Response, Request, get, head, post,
}
use seatkey.Store.Admins.{has_admin, create_admin, find_session}

module _ (s : Server) (r : Request) where
  -- The form's password, given twice and long enough, is the one that the stored hash accepts. The
  -- answer then carries the cookie of a new session, or says that this has failed.
  abbrev pub IsFirst : World → Response × World → Type 0
  IsFirst w (answer, w') =
      (has_admins w.db ≡ false)
      × (r.form "password" ≡ r.form "confirm")
      × (8 ≤ byte_length (r.form "password"))
      × ((hash : String) × (stored_hash w'.db ≡ some hash)
          × (s.bcrypt.compare_hash_and_password hash (r.form "password") ≡ true))
      × (((c : Cookie) × (answer ≡ with_cookie c (redirect "/"))
            × (find_session c.value w.db ≡ none))
          ⊎ ((answer.status ≡ 500) × (answer.cookie ≡ none) × (w'.db.sessions ≡ w.db.sessions)))

  abbrev pub SetUp : World → Response × World → Type 0
  SetUp w p = IsFirst w p ⊎ ((p.0.cookie ≡ none) × Same w p.1)

  SetUp-Same : (w w' : World) → Same w w' → (p : Response × World) → SetUp w' p → SetUp w p
  SetUp-Same w w' same p h = transport_Same (λ x. SetUp x p) w w' same h

  module _ (laws : BcryptLaws s.bcrypt) where
    entered :
        (w w1 : World) (hash : String)
        → has_admins w.db ≡ false
        → r.form "password" ≡ r.form "confirm"
        → 8 ≤ byte_length (r.form "password")
        → s.bcrypt.compare_hash_and_password hash (r.form "password") ≡ true
        → Added hash w (ok tt, w1)
        → SetUp w (enter s w1)
    unfolding enter
    entered w w1 hash none_yet twice long good added =
        let stored : stored_hash w1.db ≡ some hash = stored_hash-Added hash w w1 none_yet added in
        let sessions : w1.db.sessions ≡ w.db.sessions = ap (λ (db : Db). db.sessions) added.1.0 in
        checked_rule
          (Entering s (w1.outside.random w1.calls) (w1.outside.clock (suc w1.calls))
            (w1.outside.clock (suc (suc w1.calls))) w1)
          (SetUp w) (start_session s) _ w1 (start_session-Entering s w1)
          (λ e w2 h.
            inl (
              none_yet,
              twice,
              long,
              (hash, rw h.0 stored, good),
              inr (refl, refl, rw h.0 sessions),
            ))
          (λ c w2 h.
            let (random, life, secure, fresh, wrote) = h in
            inl (
              none_yet,
              twice,
              long,
              (hash, rw wrote.0 stored, good),
              inl (
                c,
                refl,
                subst (λ (l : List Session). find_where (λ x. x.token == c.value) l ≡ none) sessions
                    fresh,
              ),
            ))

    first_admin-SetUp :
        (w : World)
        → has_admins w.db ≡ false
        → r.form "password" ≡ r.form "confirm"
        → 8 ≤ byte_length (r.form "password")
        → SetUp w (first_admin s (r.form "password") w)
    unfolding first_admin
    first_admin-SetUp w none_yet twice long =
        checked_rule (Hashed s.bcrypt (r.form "password") w) (SetUp w)
          (s.bcrypt.generate_from_password (r.form "password")) _ w
          (generate-Hashed s.bcrypt laws (r.form "password") w) (λ e w1 h. inr (refl, h))
          (λ hash w1 h.
            let none_then : has_admins w1.db ≡ false = rw h.1.0 none_yet in
            SetUp-Same w w1 h.1 (appoint hash w1) (appointed hash w1 none_then h.0))
      where
        appoint : String → Handler
        appoint hash = checked (create_admin hash) λ _. enter s

        appointed :
            (hash : String) (w : World)
            → has_admins w.db ≡ false
            → s.bcrypt.compare_hash_and_password hash (r.form "password") ≡ true
            → SetUp w (appoint hash w)
        appointed hash w none_yet good =
            checked_rule (Added hash w) (SetUp w) (create_admin hash) _ w
              (create_admin-Added hash w) (λ e w1 h. inr (refl, h))
              (λ u w1 h. entered w w1 hash none_yet twice long good h)

    submit_setup-SetUp : (w : World) → has_admins w.db ≡ false → SetUp w (submit_setup s r w)
    unfolding submit_setup
    submit_setup-SetUp w none_yet =
        go (r.form "password" == r.form "confirm") (validate_password (r.form "password")) refl refl
      where
        judged : Bool → Option String → Handler
        judged twice complaint =
            if not twice
            then reply (render (setup_page (some "Passwords do not match")))
            else elim complaint [
              | some text ↦ reply (render (setup_page (some text)))
              | none ↦ first_admin s (r.form "password")
            ]

        go :
            (twice : Bool) (complaint : Option String)
            → (r.form "password" == r.form "confirm") ≡ twice
            → validate_password (r.form "password") ≡ complaint
            → SetUp w (judged twice complaint w)
        go false c et ec = inr (refl, (refl, refl, refl))
        go true (some text) et ec = inr (refl, (refl, refl, refl))
        go true none et ec =
            first_admin-SetUp w none_yet ((eq_iff _ _).0 et) (validate_password-none _ ec)

    -- The setup makes an admin only if there is none: then the stored hash accepts the form's password,
    -- which was given twice and has at least eight bytes, and the answer carries the cookie of a new
    -- session or a server error. Any other answer sets no cookie and changes nothing. bcrypt keeps its
    -- documented laws.
    pub handle_setup-SetUp : (w : World) → SetUp w (handle_setup s r w)
    unfolding handle_setup
    handle_setup-SetUp w =
        checked_rule (Queried w has_admins) (SetUp w) has_admin _ w (has_admin-Queried w)
          (λ e w' h. inr (refl, h.1))
          (λ has w' h.
            let seen : has_admins w'.db ≡ has = rw h.1.0 (sym h.0) in
            SetUp-Same w w' h.1 (arrived has r.method w') (go has r.method w' seen))
      where
        arrived : Bool → Method → Handler
        arrived has m =
            if has
            then reply (redirect "/login")
            else elim m [ get ↦ reply (render (setup_page none)) | _ ↦ submit_setup s r ]

        go :
            (has : Bool) (m : Method) (w : World)
            → has_admins w.db ≡ has
            → SetUp w (arrived has m w)
        go true m w e = inr (refl, (refl, refl, refl))
        go false get w e = inr (refl, (refl, refl, refl))
        go false head w e = submit_setup-SetUp w e
        go false post w e = submit_setup-SetUp w e
        go false other w e = submit_setup-SetUp w e
