-- ===== src/Web/Auth/Guard.antt =====
-- internal/web/auth.go: what stands before every page of the dashboard.
use seatkey.Store.Admins.{has_admin, valid_session}
use seatkey.Web.Auth.Rules.{checked_rule}
use seatkey.Store.Admins.Outcomes.{
  has_admin-spend, has_admin-Queried, valid_session-Checked, Checked, IsOver, IsLive, has_admins,
}
use seatkey.Web.Auth.{with_session, require_auth}
use seatkey.Common.{
  suc, ℕ, refl, sym, inl, if◌then◌else◌, false, inr, ◌⊎◌, true, Option, Bool, none, some, ◌≡◌,
  String,
}
use seatkey.World.Rules.{Queried, transport_Same, Same}
use seatkey.Web.Http.{reply, server_error, redirect, Response, Handler, Request}
use seatkey.World.{spend, driver, ok, World}

module _ (next : Request → Handler) (r : Request) where
  -- The cookie names a session that has not expired at an instant.
  abbrev pub HasSession : ℕ → World → Type 0
  HasSession now w = (token : String) × (r.session ≡ some token) × IsLive now token w

  abbrev pub LacksSession : ℕ → World → Type 0
  LacksSession now w =
      (r.session ≡ none) ⊎ ((token : String) × (r.session ≡ some token) × IsOver now token w)

  -- The page's handler has run, or it has not and the answer says why; the guard writes nothing.
  abbrev pub Guarded : ℕ → World → Response × World → Type 0
  Guarded now w p =
      ((w1 : World) × Same w w1 × (has_admins w.db ≡ true) × HasSession now w × (p ≡ next r w1))
      ⊎ (Same w p.1
          × (((p.0 ≡ redirect "/setup") × (has_admins w.db ≡ false))
              ⊎ ((p.0 ≡ redirect "/login") × LacksSession now w)
              ⊎ (p.0 ≡ server_error driver)))

  Guarded-Same :
      (now : ℕ) (w w' : World)
      → Same w w'
      → (p : Response × World) → Guarded now w' p
      → Guarded now w p
  Guarded-Same now w w' same p h = transport_Same (λ x. Guarded now x p) w w' same h

  with_session-Guarded :
      (w : World) (o : Option String)
      → r.session ≡ o
      → has_admins w.db ≡ true
      → Guarded (w.outside.clock (suc w.calls)) w (with_session o (next r) w)
  unfolding with_session
  with_session-Guarded w none e admin = inr ((refl, refl, refl), inr (inl (refl, inl e)))
  with_session-Guarded w (some token) e admin =
      checked_rule (Checked now token w) (Guarded now w) (valid_session token) _ w
        (valid_session-Checked token w) (λ x w' h. inr (h.1, inr (inr refl))) go
    where
      now : ℕ
      now = w.outside.clock (suc w.calls)

      go :
          (valid : Bool) (w' : World)
          → Checked now token w (ok valid, w')
          → Guarded now w ((if valid then next r else reply (redirect "/login")) w')
      go true w' (live, same) = inl (w', same, admin, (token, e, live), refl)
      go false w' (over, same) = inr (same, inr (inl (refl, inr (token, e, over))))

  -- A page of the dashboard is served only if there is an admin and the cookie names a session that
  -- has not expired, in the tables as they were, at the instant the clock is read: after the query for
  -- an admin and the one for the session. Otherwise the answer is a redirection to the setup (there is
  -- no admin) or to the login (there is no such session, or it has expired then), or the driver failed.
  pub require_auth-Guarded :
      (w : World) → Guarded (w.outside.clock (suc (suc w.calls))) w (require_auth next r w)
  unfolding require_auth
  require_auth-Guarded w =
      checked_rule (λ p. Queried w has_admins p × (p.1 ≡ spend w)) (Guarded now w) has_admin _ w
        (has_admin-Queried w, has_admin-spend w) (λ e w' h. inr (h.0.1, inr (inr refl))) go
    where
      now : ℕ
      now = w.outside.clock (suc (suc w.calls))

      go :
          (has : Bool) (w' : World)
          → Queried w has_admins (ok has, w') × (w' ≡ spend w)
          → Guarded now w
              ((if has then with_session r.session (next r) else reply (redirect "/setup")) w')
      go true w' ((e, same), at) = rw at (
          Guarded-Same now w (spend w) (refl, refl, refl) _
            (with_session-Guarded (spend w) r.session refl (sym e)))
      go false w' ((e, same), at) = inr (same, inl (refl, sym e))
