-- ===== src/Store/Admins/Sessions.antt =====
-- internal/store/admin.go: how long a session lasts.
use seatkey.World.Rules.{exec-Executed, Executed}
use seatkey.Store.Admins.Outcomes.{create_session-Started, Started}
use seatkey.Common.Rows.{delete_where, find_where-append_none, find_where}
use seatkey.Store.Schema.{Session}
use seatkey.World.{spend, driver, err, resume, ok, Result, World}
use seatkey.Common.{
  false, sym, [], arith, inr, inl, if◌then◌else◌, refl, Bool-cases, Option, ◌∷◌, subst, eq_refl,
  true, ◌∙◌, suc, ◌==◌, ltb, ◌≢◌, some, none, ◌≡◌, Bool, ℕ, List, String,
}
use seatkey.Store.Admins.{
  create_session, find_session, valid_session, delete_session, live_session, remove_session,
}

-- The answer for a token that has a session: whether it is before the expiry.
valid_session_found :
    (token : String) (w : World) (s : Session) (b : Bool)
    → find_session token w.db ≡ some s
    → (valid_session token w).0 ≡ ok b
    → b ≡ ltb (w.outside.clock (suc w.calls)) s.expires_at
unfolding valid_session live_session
valid_session_found token w s b found = go (w.outside.fault w.calls) (find_session token w.db) found
  where
    go :
        (t : Bool) (o : Option Session)
        → o ≡ some s
        → (resume live_session (if t then err driver else ok o, spend w)).0 ≡ ok b
        → b ≡ ltb (w.outside.clock (suc w.calls)) s.expires_at
    go true o e h = cc
    go false none e h = cc
    go false (some x) e h =
        let same : x ≡ s = ground (arith, e) in
        subst (λ (y : Session). b ≡ ltb (w.outside.clock (suc w.calls)) y.expires_at) same
          (sym (ground (arith, h)))

valid_session_missing :
    (token : String) (w : World)
    → find_session token w.db ≡ none
    → (valid_session token w).0 ≢ ok true
unfolding valid_session live_session
valid_session_missing token w missing =
    go (w.outside.fault w.calls) (find_session token w.db) missing
  where
    go :
        (t : Bool) (o : Option Session)
        → o ≡ none
        → (resume live_session (if t then err driver else ok o, spend w)).0 ≢ ok true
    go true o e = λ h. cc
    go false none e = λ h. cc
    go false (some x) e = absurd (cc)

-- A session that was started is in the table.
session_found :
    (token : String) (expires_at : ℕ) (w : World) (r : Result (Unit {0}) × World)
    → Started token expires_at w r
    → r.0 ≡ ok tt
    → (s : Session) × (find_session token r.1.db ≡ some s) × (s.expires_at ≡ expires_at)
session_found token expires_at w (ok u, w') (fresh, (wrote, quiet, still)) e =
    let row : Session = record {
      token = token;
      created_at = w.outside.clock w.calls;
      expires_at = expires_at;
    } in
    (
      row,
      rw wrote (
          find_where-append_none (λ (s : Session). s.token == token) w.db.sessions row fresh
          ∙ rw (eq_refl token) refl),
      refl,
    )
session_found token expires_at w (err x, w') h e = absurd (cc)

-- A session that was started is, while the sessions are as they were then, valid exactly if the clock
-- that is read is before its expiry, whatever else has changed and unless the driver fails.
pub create_session-valid_session :
    (token : String) (expires_at : ℕ) (w w' later : World) (b : Bool)
    → create_session token expires_at w ≡ (ok tt, w')
    → later.db.sessions ≡ w'.db.sessions
    → (valid_session token later).0 ≡ ok b
    → b ≡ ltb (later.outside.clock (suc later.calls)) expires_at
create_session-valid_session token expires_at w w' later b e same h =
    let (s, found, expiry) =
      session_found token expires_at w (ok tt, w')
        (subst (Started token expires_at w) e (create_session-Started token expires_at w)) refl in
    valid_session_found token later s b (rw same found) h ∙ rw expiry refl

find_where-delete_where :
    (token : String) (xs : List Session)
    → find_where
        (λ (s : Session). s.token == token)
        (delete_where (λ (s : Session). s.token == token) xs)
      ≡ none
find_where-delete_where token [] = refl
find_where-delete_where token (x ∷ xs) = elim (Bool-cases (x.token == token)) [
  | inl hit ↦ rw hit (find_where-delete_where token xs)
  | inr miss ↦ rw miss (rw miss (find_where-delete_where token xs))
]

-- A session whose token was deleted is not valid, while the sessions are as they were then.
pub delete_session-valid_session :
    (token : String) (w w' later : World)
    → delete_session token w ≡ (ok tt, w')
    → later.db.sessions ≡ w'.db.sessions
    → (valid_session token later).0 ≢ ok true
unfolding delete_session remove_session
delete_session-valid_session token w w' later e same =
    let done =
      subst (Executed w (remove_session token)) e (exec-Executed (remove_session token) w) in
    let wrote : w'.db ≡ record w.db {
      sessions = delete_where (λ (s : Session). s.token == token) w.db.sessions;
    } =
      ground (arith, done.0) in
    valid_session_missing token later
      (rw (same, wrote) (find_where-delete_where token w.db.sessions))
