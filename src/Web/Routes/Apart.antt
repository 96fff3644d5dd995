-- ===== src/Web/Routes/Apart.antt =====
-- internal/web/server.go: the order of the routing table does not matter.
use seatkey.Web.Http.{Request, other, post, head, Method, get}
use mathlib.Core.List.{Memᴰ}
use seatkey.Web.Routes.{
  dashboard_routes, take, Site, public_routes, serve_http, serve_from, routes, bind, Segment,
  Pattern, Route, literal, wildcard, exact, below, match_segments, match_pattern,
}
use seatkey.Common.{
  sym, subst, ◌||◌, eq_iff, arith, ◌≡◌, refl, List, [], ◌∷◌, Bool, true, false, ◌==◌, ◌&&◌, not,
  String, Option, some, none,
}

-- Whether some part of a path is taken by both.
meet : Segment → Segment → Bool
meet (literal a) (literal b) = a == b
meet (literal a) (wildcard name) = not (a == "")
meet (wildcard name) (literal b) = not (b == "")
meet (wildcard name) (wildcard past) = true

-- Whether some path is.
overlap_segments : List Segment → List Segment → Bool
unfolding meet
overlap_segments [] [] = true
overlap_segments [] (t ∷ q) = false
overlap_segments (s ∷ p) [] = false
overlap_segments (s ∷ p) (t ∷ q) = meet s t && overlap_segments p q

-- Whether a pattern takes a path of more than one part that begins with a text.
begins : String → List Segment → Bool
begins first [] = false
begins first (s ∷ []) = false
begins first (literal a ∷ t ∷ p) = a == first
begins first (wildcard name ∷ t ∷ p) = true

overlap : Pattern → Pattern → Bool
unfolding overlap_segments begins
overlap (exact p) (exact q) = overlap_segments p q
overlap (exact p) (below first) = begins first p
overlap (below first) (exact q) = begins first q
overlap (below first) (below past) = first == past

overlap_segments-taken :
    (p q : List Segment) (parts : List String) (path past x y : String → String)
    → match_segments p parts path ≡ some x
    → match_segments q parts past ≡ some y
    → overlap_segments p q ≡ true
unfolding overlap_segments match_segments meet
overlap_segments-taken [] [] parts path past x y h k = refl
overlap_segments-taken [] (literal b ∷ q) [] path past x y h k = cc
overlap_segments-taken [] (wildcard n ∷ q) [] path past x y h k = cc
overlap_segments-taken [] (t ∷ q) (part ∷ parts) path past x y h k = cc
overlap_segments-taken (s ∷ p) [] [] path past x y h k = cc
overlap_segments-taken (s ∷ p) [] (part ∷ parts) path past x y h k = cc
overlap_segments-taken (s ∷ p) (t ∷ q) [] path past x y h k = cc
overlap_segments-taken (literal a ∷ p) (literal b ∷ q) (part ∷ parts) path past x y h k = ground (
  arith,
  h,
  k,
  eq_iff a part,
  eq_iff b part,
  eq_iff a b,
  overlap_segments-taken p q parts path past x y,
)
overlap_segments-taken (literal a ∷ p) (wildcard n ∷ q) (part ∷ parts) path past x y h k = ground (
  arith,
  h,
  k,
  eq_iff a part,
  eq_iff part "",
  eq_iff a "",
  overlap_segments-taken p q parts path (bind n part past) x y,
)
overlap_segments-taken (wildcard n ∷ p) (literal b ∷ q) (part ∷ parts) path past x y h k = ground (
  arith,
  h,
  k,
  eq_iff b part,
  eq_iff part "",
  eq_iff b "",
  overlap_segments-taken p q parts (bind n part path) past x y,
)
overlap_segments-taken (wildcard n ∷ p) (wildcard o ∷ q) (part ∷ parts) path past x y h k =
    ground (arith, h, k, overlap_segments-taken p q parts (bind n part path) (bind o part past) x y)

begins-taken :
    (p : List Segment) (part next : String) (parts : List String) (path x : String → String)
    (first : String)
    → match_segments p (part ∷ next ∷ parts) path ≡ some x
    → (first == part) ≡ true
    → begins first p ≡ true
unfolding match_segments begins
begins-taken [] part next parts path x first h k = cc
begins-taken (literal a ∷ []) part next parts path x first h k = ground (arith, h)
begins-taken (wildcard n ∷ []) part next parts path x first h k = ground (arith, h)
begins-taken (literal a ∷ t ∷ p) part next parts path x first h k =
    ground (arith, h, k, eq_iff a part, eq_iff first part, eq_iff a first)
begins-taken (wildcard n ∷ t ∷ p) part next parts path x first h k = refl

overlap-taken :
    (p q : Pattern) (parts : List String) (path past x y : String → String)
    → match_pattern p parts path ≡ some x
    → match_pattern q parts past ≡ some y
    → overlap p q ≡ true
unfolding overlap match_pattern begins match_segments
overlap-taken (exact p) (exact q) parts path past x y h k =
    overlap_segments-taken p q parts path past x y h k
overlap-taken (exact p) (below g) [] path past x y h k = cc
overlap-taken (exact p) (below g) (part ∷ []) path past x y h k = cc
overlap-taken (exact p) (below g) (part ∷ next ∷ parts) path past x y h k =
    begins-taken p part next parts path x g h (ground (arith, k))
overlap-taken (below f) (exact q) [] path past x y h k = cc
overlap-taken (below f) (exact q) (part ∷ []) path past x y h k = cc
overlap-taken (below f) (exact q) (part ∷ next ∷ parts) path past x y h k =
    begins-taken q part next parts past y f k (ground (arith, h))
overlap-taken (below f) (below g) [] path past x y h k = cc
overlap-taken (below f) (below g) (part ∷ []) path past x y h k = cc
overlap-taken (below f) (below g) (part ∷ next ∷ parts) path past x y h k =
    ground (arith, h, k, eq_iff f part, eq_iff g part, eq_iff f g)

-- Whether two routes may both take a request.
common : Route → Route → Bool
common a b =
    (a.allows get && b.allows get)
    || (a.allows head && b.allows head)
    || (a.allows post && b.allows post)
    || (a.allows other && b.allows other)

common-allows :
    (a b : Route) (m : Method) → a.allows m ≡ true → b.allows m ≡ true → common a b ≡ true
unfolding common
common-allows a b get h k = ground (arith, h, k)
common-allows a b head h k = ground (arith, h, k)
common-allows a b post h k = ground (arith, h, k)
common-allows a b other h k = ground (arith, h, k)

clash : Route → Route → Bool
clash a b = common a b && overlap a.pattern b.pattern

clash-taken :
    (a b : Route) (m : Method) (parts : List String) (path x y : String → String)
    → a.allows m ≡ true
    → b.allows m ≡ true
    → match_pattern a.pattern parts path ≡ some x
    → match_pattern b.pattern parts path ≡ some y
    → clash a b ≡ true
unfolding clash
clash-taken a b m parts path x y f g h k =
    rw (common-allows a b m f g, overlap-taken a.pattern b.pattern parts path path x y h k) refl

no_clash : Route → List Route → Bool
no_clash a [] = true
no_clash a (b ∷ table) = not (clash a b) && no_clash a table

all_apart : List Route → Bool
unfolding no_clash clash common overlap
all_apart [] = true
all_apart (a ∷ table) = no_clash a table && all_apart table

no_clash-member :
    (a b : Route) (table : List Route) → no_clash a table ≡ true → Memᴰ b table → clash a b ≡ false
unfolding no_clash
no_clash-member a b [] h m = elim m [ ]
no_clash-member a b (c ∷ table) h (Memᴰ.head e) =
    subst (λ x. clash a x ≡ false) (sym e) (ground (arith, h))
no_clash-member a b (c ∷ table) h (Memᴰ.tail m) = ground (arith, h, no_clash-member a b table)

-- What a table without clashes does with a request that one of its routes takes.
serve_from-member :
    (table : List Route) (seen : Bool) (r : Request) (route : Route) (path : String → String)
    → all_apart table ≡ true
    → Memᴰ route table
    → route.allows r.method ≡ true
    → match_pattern route.pattern r.segments r.path ≡ some path
    → serve_from table seen r ≡ route.handler (record r { path = path })
unfolding serve_from all_apart
serve_from-member [] seen r route path apart m a h = elim m [ ]
serve_from-member (x ∷ table) seen r route path apart (Memᴰ.head e) a h =
    subst
      (λ x.
        take (match_pattern x.pattern r.segments r.path) (x.allows r.method) seen
          (λ b. serve_from table b r) (λ p. x.handler (record r { path = p }))
        ≡ route.handler (record r { path = path }))
      e (rw (h, a) refl)
serve_from-member (x ∷ table) seen r route path apart (Memᴰ.tail m) a h =
    go (match_pattern x.pattern r.segments r.path) (x.allows r.method) refl refl
      (λ b. serve_from-member table b r route path (ground (arith, apart)) m a h)
  where
    go :
        (o : Option (String → String)) (allowed : Bool)
        → match_pattern x.pattern r.segments r.path ≡ o
        → x.allows r.method ≡ allowed
        → ((b : Bool) → serve_from table b r ≡ route.handler (record r { path = path }))
        → take o allowed seen (λ b. serve_from table b r) (λ p. x.handler (record r { path = p }))
          ≡ route.handler (record r { path = path })
    go none allowed e f ih = ih seen
    go (some p) false e f ih = ih true
    go (some p) true e f ih = absurd (
        ground (
          arith,
          clash-taken x route r.method r.segments r.path p path f a e h,
          no_clash-member x route table (ground (arith, apart)) m,
        ))

routes-apart : (s : Site) → all_apart (routes s) ≡ true
unfolding all_apart routes public_routes dashboard_routes
routes-apart s = refl

-- The order of the routing table does not matter: a request that a route of the table takes, by its
-- pattern and its method, is answered by the handler of that route, with the values of the pattern's
-- wildcards. The routes of the dashboard stand in the table with the session's guard.
pub serve_http-member :
    (s : Site) (r : Request) (route : Route) (path : String → String)
    → Memᴰ route (routes s)
    → route.allows r.method ≡ true
    → match_pattern route.pattern r.segments r.path ≡ some path
    → serve_http s r ≡ route.handler (record r { path = path })
unfolding serve_http
serve_http-member s r route path m a h =
    serve_from-member (routes s) false r route path (routes-apart s) m a h
