-- ===== src/Web/Auth/Password.antt =====
-- internal/web/auth.go: changing the password.
use seatkey.Web.Auth.Rules.{checked_rule}
use seatkey.Store.Admins.{admin_password_hash, set_admin_password}
use seatkey.Store.Admins.Outcomes.{admin_password_hash-Fetched, stored_hash}
use seatkey.Store.Admins.Hashes.{set_admin_password-Replaced, Replaced}
use seatkey.World.Rules.{Fetched, transport_Same, Same}
use seatkey.Store.Settings.{get_setting}
use seatkey.Common.{
  inl, false, eq_iff, inr, ◌==◌, not, arith, if◌then◌else◌, Option, true, ◌⊎◌, ◌≤◌, Bool, some,
  none, refl, ◌≡◌, String,
}
use seatkey.Web.Auth.{
  byte_length, handle_change_password, submit_change, replace_password, BcryptLaws,
  validate_password, render_settings, Bcrypt, Server,
}
use seatkey.World.{err, ok, Result, World}
use seatkey.Web.Http.{
  other, reply, checked, Handler, redirect, Method, Response, Request, get, head, post,
}

render_settings-Same :
    (s : Server) (message : String) (w : World) → Same w (render_settings s message w).1
unfolding render_settings get_setting
render_settings-Same s message w = (refl, refl, refl)

-- What bcrypt's call hands on.
abbrev pub Hashed : Bcrypt → String → World → Result String × World → Type 0
Hashed b password w (ok hash, w') = (b.compare_hash_and_password hash password ≡ true) × Same w w'
Hashed b password w (err e, w') = Same w w'

pub generate-Hashed :
    (b : Bcrypt)
    → BcryptLaws b
    → (password : String) (w : World) → Hashed b password w (b.generate_from_password password w)
generate-Hashed b laws password w =
    go (b.generate_from_password password w) (laws.quiet password w)
      (λ hash w' e. laws.accepts password hash w w' e)
  where
    go :
        (p : Result String × World)
        → Same w p.1
        → ((hash : String) (w' : World)
            → p ≡ (ok hash, w')
            → b.compare_hash_and_password hash password ≡ true)
        → Hashed b password w p
    go (ok hash, w') same h = (h hash w' refl, same)
    go (err e, w') same h = same

-- No complaint about a password.
pub validate_password-none :
    (password : String) → validate_password password ≡ none → 8 ≤ byte_length password
unfolding validate_password
validate_password-none password h = ground arith

module _ (s : Server) (r : Request) where
  -- The current password was given and the new one, given twice and long enough, is now the one that
  -- the stored hash accepts; the sessions are as they were.
  abbrev pub IsReplaced : World → World → Type 0
  IsReplaced w w' =
      ((hash : String) × (stored_hash w.db ≡ some hash)
        × (s.bcrypt.compare_hash_and_password hash (r.form "current_password") ≡ true))
      × (r.form "new_password" ≡ r.form "confirm_password")
      × (8 ≤ byte_length (r.form "new_password"))
      × ((hash : String) × (stored_hash w'.db ≡ some hash)
          × (s.bcrypt.compare_hash_and_password hash (r.form "new_password") ≡ true))
      × (w'.db.sessions ≡ w.db.sessions)

  abbrev pub Changed : World → Response × World → Type 0
  Changed w (answer, w') = ((answer ≡ redirect "/settings") × IsReplaced w w') ⊎ Same w w'

  Changed-Same : (w w' : World) → Same w w' → (p : Response × World) → Changed w' p → Changed w p
  Changed-Same w w' same p h = transport_Same (λ x. Changed x p) w w' same h

  module _ (laws : BcryptLaws s.bcrypt) where
    -- The two last steps, for a password that was accepted.
    replace_password-Changed :
        (w : World) (old : String)
        → stored_hash w.db ≡ some old
        → s.bcrypt.compare_hash_and_password old (r.form "current_password") ≡ true
        → r.form "new_password" ≡ r.form "confirm_password"
        → 8 ≤ byte_length (r.form "new_password")
        → Changed w (replace_password s (r.form "new_password") w)
    unfolding replace_password
    replace_password-Changed w old stored known twice long =
        checked_rule (Hashed s.bcrypt (r.form "new_password") w) (Changed w)
          (s.bcrypt.generate_from_password (r.form "new_password")) _ w
          (generate-Hashed s.bcrypt laws (r.form "new_password") w) (λ e w1 h. inr h)
          (λ hash w1 h.
            let stored1 : stored_hash w1.db ≡ some old = rw h.1.0 stored in
            Changed-Same w w1 h.1 (write hash w1) (store hash w1 stored1 h.0))
      where
        write : String → Handler
        write hash = checked (set_admin_password hash) λ _. reply (redirect "/settings")

        store :
            (hash : String) (w : World)
            → stored_hash w.db ≡ some old
            → s.bcrypt.compare_hash_and_password hash (r.form "new_password") ≡ true
            → Changed w (write hash w)
        store hash w stored good =
            checked_rule (Replaced hash w) (Changed w) (set_admin_password hash) _ w
              (set_admin_password-Replaced hash w) (λ e w' h. inr h)
              (λ u w' h. elim h.1 [
                | inl missing ↦ absurd (cc (stored, missing))
                | inr now ↦ inl (refl, ((old, stored, known), twice, long, (hash, now, good), h.0))
              ])

    submit_change-Changed :
        (w : World) (old : String)
        → stored_hash w.db ≡ some old
        → Changed w (submit_change s r old w)
    unfolding submit_change
    submit_change-Changed w old stored =
        go (s.bcrypt.compare_hash_and_password old (r.form "current_password"))
          (r.form "new_password" == r.form "confirm_password")
          (validate_password (r.form "new_password")) refl refl refl
      where
        judged : Bool → Bool → Option String → Handler
        judged known twice complaint =
            if not known
            then render_settings s "Current password is incorrect"
            else if not twice
            then render_settings s "New passwords do not match"
            else elim complaint [
              | some text ↦ render_settings s text
              | none ↦ replace_password s (r.form "new_password")
            ]

        go :
            (known twice : Bool) (complaint : Option String)
            → s.bcrypt.compare_hash_and_password old (r.form "current_password") ≡ known
            → (r.form "new_password" == r.form "confirm_password") ≡ twice
            → validate_password (r.form "new_password") ≡ complaint
            → Changed w (judged known twice complaint w)
        go false t c ek et ec = inr (render_settings-Same s _ w)
        go true false c ek et ec = inr (render_settings-Same s _ w)
        go true true (some text) ek et ec = inr (render_settings-Same s text w)
        go true true none ek et ec =
            replace_password-Changed w old stored ek ((eq_iff _ _).0 et)
              (validate_password-none _ ec)

    -- A change of the password that writes anything was asked for with the stored password, and with a
    -- new one given twice, of at least eight bytes; after it the stored hash accepts the new password,
    -- and the sessions are as before. bcrypt keeps its documented laws.
    pub handle_change_password-Changed : (w : World) → Changed w (handle_change_password s r w)
    unfolding handle_change_password
    handle_change_password-Changed w = go r.method
      where
        chosen : Method → Handler
        chosen m = elim m [
          | post ↦ checked admin_password_hash (submit_change s r)
          | _ ↦ reply (redirect "/settings")
        ]

        go : (m : Method) → Changed w (chosen m w)
        go get = inr (refl, refl, refl)
        go head = inr (refl, refl, refl)
        go other = inr (refl, refl, refl)
        go post =
            checked_rule (Fetched w stored_hash) (Changed w) admin_password_hash (submit_change s r)
              w (admin_password_hash-Fetched w) (λ e w' h. inr h.1)
              (λ hash w' h.
                let stored : stored_hash w'.db ≡ some hash = rw h.1.0 h.0 in
                Changed-Same w w' h.1 (submit_change s r hash w')
                  (submit_change-Changed w' hash stored))
