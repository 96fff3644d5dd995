-- ===== src/Web/Routes/Sessions.antt =====
-- internal/web/server.go: which requests can do anything without a session.
use seatkey.Web.Auth.Guard.{require_auth-Guarded}
use seatkey.Web.Auth.{require_auth}
use seatkey.World.Rules.{Same}
use seatkey.Store.Admins.Outcomes.{IsLive, has_admins}
use seatkey.Web.Http.{Handler, Response, Request}
use seatkey.Common.{
  suc, ◌∙◌, ap, Option, sym, eq_iff, inl, Bool-cases, refl, subst, ◌||◌, inr, some, none, ◌++◌,
  true, ◌==◌, ◌≡◌, ◌⊎◌, false, map, [], ◌∷◌, Bool, String, List,
}
use seatkey.Web.Routes.{
  take, dashboard_routes, below, Site, literal, guarded, wildcard, public_routes, Route,
  match_segments, routes, exact, serve_from, match_pattern, Pattern, serve_http,
}
use seatkey.World.{World}

-- The first part of a public path.
abbrev pub is_public : List String → Bool
is_public [] = false
is_public (part ∷ parts) =
    part == "v1"
    || part == "healthz"
    || part == "setup"
    || part == "login"
    || part == "logout"
    || part == "static"

-- The pattern begins with one of those.
abbrev pub BeginsPublic : Pattern → Type 0
BeginsPublic (exact []) = ⊥
BeginsPublic (exact (wildcard name ∷ segments)) = ⊥
BeginsPublic (exact (literal name ∷ segments)) = is_public (name ∷ []) ≡ true
BeginsPublic (below first) = is_public (first ∷ []) ≡ true

first_part :
    (name part : String) (parts : List String)
    → is_public (name ∷ []) ≡ true
    → (name == part) ≡ true
    → is_public (part ∷ parts) ≡ true
first_part name part parts h e =
    subst (λ x. is_public (x ∷ parts) ≡ true) ((eq_iff name part).0 e) h

private_misses :
    (p : Pattern) (segments : List String) (path : String → String)
    → BeginsPublic p
    → is_public segments ≡ false
    → match_pattern p segments path ≡ none
unfolding match_pattern match_segments
private_misses (exact []) segments path b h = absurd b
private_misses (exact (wildcard name ∷ rest)) segments path b h = absurd b
private_misses (exact (literal name ∷ rest)) [] path b h = refl
private_misses (exact (literal name ∷ rest)) (part ∷ parts) path b h =
    elim (Bool-cases (name == part)) [
      | inl hit ↦ absurd (cc (first_part name part parts b hit, h))
      | inr miss ↦ rw miss refl
    ]
private_misses (below first) [] path b h = refl
private_misses (below first) (part ∷ []) path b h = refl
private_misses (below first) (part ∷ next ∷ parts) path b h = elim (Bool-cases (first == part)) [
  | inl hit ↦ absurd (cc (first_part first part (next ∷ parts) b hit, h))
  | inr miss ↦ rw miss refl
]

-- There is an admin, and the request has a session that has not expired when the clock is read, after
-- the queries for the admin and for the session.
abbrev pub HasCredentials : Request → World → Type 0
HasCredentials r w =
    (has_admins w.db ≡ true)
    × ((token : String) × (r.session ≡ some token)
        × IsLive (w.outside.clock (suc (suc w.calls))) token w)

abbrev pub Protected : Request → World → Response × World → Type 0
Protected r w p = HasCredentials r w ⊎ Same w p.1

dashboard-Protected :
    (table : List Route) (seen : Bool) (r : Request) (w : World)
    → Protected r w (serve_from (map guarded table) seen r w)
unfolding serve_from
dashboard-Protected [] seen r w = inr (refl, refl, refl)
dashboard-Protected (route ∷ table) seen r w =
    go (match_pattern route.pattern r.segments r.path) (route.allows r.method)
      (λ b. dashboard-Protected table b r w)
  where
    guard :
        (path : String → String)
        → Protected r w (require_auth route.handler (record r { path = path }) w)
    guard path = elim (require_auth-Guarded route.handler (record r { path = path }) w) [
      | inl (w1, same, admin, session, e) ↦ inl (admin, session)
      | inr h ↦ inr h.0
    ]

    go :
        (o : Option (String → String)) (allowed : Bool)
        → ((b : Bool) → Protected r w (serve_from (map guarded table) b r w))
        → Protected r w (
            take o allowed seen
              (λ b. serve_from (map guarded table) b r)
              (λ path. require_auth route.handler (record r { path = path }))
              w)
    go none allowed ih = ih seen
    go (some path) true ih = guard path
    go (some path) false ih = ih true

abbrev AllPublic : List Route → Type 0
AllPublic [] = Unit
AllPublic (route ∷ table) = BeginsPublic route.pattern × AllPublic table

-- The public routes take no other path.
skip_public :
    (table rest : List Route) (seen : Bool) (r : Request)
    → AllPublic table
    → is_public r.segments ≡ false
    → serve_from (table ++ rest) seen r ≡ serve_from rest seen r
unfolding serve_from
skip_public [] rest seen r b h = refl
skip_public (route ∷ table) rest seen r b h =
    ap
      (λ o.
        take o (route.allows r.method) seen (λ x. serve_from (table ++ rest) x r)
          (λ path. route.handler (record r { path = path })))
      (private_misses route.pattern r.segments r.path b.0 h)
    ∙ skip_public table rest seen r b.1 h

all_public : (s : Site) → AllPublic (public_routes s)
unfolding public_routes
all_public s = (
  refl,
  (refl, (refl, (refl, (refl, (refl, (refl, (refl, (refl, (refl, (refl, (refl, tt))))))))))),
)

-- A request whose path begins with none of v1, healthz, setup, login, logout and static changes nothing
-- unless there is an admin and its cookie names a session that has not expired at the instant that the
-- clock is read, after the queries for the admin and for the session.
pub serve_http-Protected :
    (s : Site) (r : Request) (w : World)
    → is_public r.segments ≡ false
    → Protected r w (serve_http s r w)
unfolding serve_http routes public_routes
serve_http-Protected s r w h =
    subst (λ (f : Handler). Protected r w (f w))
      (sym (
        skip_public (public_routes s) (map guarded (dashboard_routes s.server)) false r
          (all_public s) h))
      (dashboard-Protected (dashboard_routes s.server) false r w)
