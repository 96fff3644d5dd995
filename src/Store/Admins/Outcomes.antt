-- ===== src/Store/Admins/Outcomes.antt =====
-- internal/store/admin.go: what each call on the admin account and on a session returns and has done.
use seatkey.World.Rules.{
  query_rule, exec-Executed, Wrote, Same, query_row-Fetched, Executed, query-Queried, Queried,
  Fetched,
}
use seatkey.World.{or_not_found, driver, exec, err, spend, ok, Result, World}
use seatkey.Store.Schema.{Session, Db}
use seatkey.Common.{
  suc, refl, [], false, inl, ◌∷◌, true, ◌++◌, ◌≤◌, inr, ◌⊎◌, arith, ◌<◌, none, some, ◌≡◌, length,
  ltb, Option, ℕ, Bool, String,
}
use seatkey.Common.{refl}
use seatkey.Store.Admins.{
  admin_hash, find_session, valid_session, create_session, admin_password_hash, has_admin,
  insert_session, live_session, least_admin,
}

-- The password's hash that counts.
abbrev pub stored_hash : Db → Option String
stored_hash db = admin_hash (least_admin db.admins)

abbrev pub has_admins : Db → Bool
has_admins db = ltb 0 (length db.admins)

pub has_admin-Queried : (w : World) → Queried w has_admins (has_admin w)
unfolding has_admin
has_admin-Queried w = query-Queried has_admins w

pub admin_password_hash-Fetched : (w : World) → Fetched w stored_hash (admin_password_hash w)
unfolding admin_password_hash least_admin
admin_password_hash-Fetched w = query_row-Fetched stored_hash w

-- Both are one statement.
pub has_admin-spend : (w : World) → (has_admin w).1 ≡ spend w
unfolding has_admin
has_admin-spend w = refl

pub admin_password_hash-spend : (w : World) → (admin_password_hash w).1 ≡ spend w
unfolding admin_password_hash least_admin
admin_password_hash-spend w =
    query_rule (λ p. p.1 ≡ spend w) stored_hash or_not_found w refl (go (stored_hash w.db))
  where
    go : (o : Option String) → (or_not_found o (spend w)).1 ≡ spend w
    go none = refl
    go (some hash) = refl

-- The session of a token, unexpired at an instant.
abbrev pub IsLive : ℕ → String → World → Type 0
IsLive now token w = (s : Session) × (find_session token w.db ≡ some s) × (now < s.expires_at)

abbrev pub IsOver : ℕ → String → World → Type 0
IsOver now token w =
    (find_session token w.db ≡ none)
    ⊎ ((s : Session) × (find_session token w.db ≡ some s) × (s.expires_at ≤ now))

abbrev pub Checked : ℕ → String → World → Result Bool × World → Type 0
Checked now token w (ok true, w') = IsLive now token w × Same w w'
Checked now token w (ok false, w') = IsOver now token w × Same w w'
Checked now token w (err e, w') = (e ≡ driver) × Same w w'

-- The instant is the clock's reading after the session was looked up.
pub valid_session-Checked :
    (token : String) (w : World)
    → Checked (w.outside.clock (suc w.calls)) token w (valid_session token w)
unfolding valid_session live_session
valid_session-Checked token w =
    query_rule (Checked now token w) (find_session token) live_session w (refl, (refl, refl, refl))
      (go (find_session token w.db) refl)
  where
    now : ℕ
    now = w.outside.clock (suc w.calls)

    at :
        (s : Session) (b : Bool)
        → find_session token w.db ≡ some s
        → ltb now s.expires_at ≡ b
        → Checked now token w (ok b, spend (spend w))
    at s true found e = ((s, found, ground (arith, e)), (refl, refl, refl))
    at s false found e = (inr (s, found, ground (arith, e)), (refl, refl, refl))

    go :
        (o : Option Session)
        → find_session token w.db ≡ o
        → Checked now token w (live_session o (spend w))
    go none e = (inl e, (refl, refl, refl))
    go (some s) e = at s (ltb now s.expires_at) e refl

-- The rows of a session that was started, created at the clock's reading, and nothing else written.
abbrev pub Started : String → ℕ → World → Result (Unit {0}) × World → Type 0
Started token expires_at w (ok _, w') =
    (find_session token w.db ≡ none)
    × Wrote w
        (record w.db {
          sessions =
              w.db.sessions
              ++ record {
                token = token;
                created_at = w.outside.clock w.calls;
                expires_at = expires_at;
              }
                ∷ [];
        })
        w'
Started token expires_at w (err e, w') = Same w w'

pub create_session-Started :
    (token : String) (expires_at : ℕ) (w : World)
    → Started token expires_at w (create_session token expires_at w)
unfolding create_session insert_session
create_session-Started token expires_at w =
    let now = w.outside.clock w.calls in
    go (exec (insert_session token now expires_at) (spend w))
      (exec-Executed (insert_session token now expires_at) (spend w))
  where
    inserted :
        (now : ℕ) (db' : Db) (o : Option Session)
        → find_session token w.db ≡ o
        → insert_session token now expires_at w.db ≡ ok (tt, db')
        → (o ≡ none)
          × (db' ≡ record w.db {
            sessions =
                w.db.sessions
                ++ record { token = token; created_at = now; expires_at = expires_at } ∷ [];
          })
    inserted now db' none e h = (refl, ground arith)
    inserted now db' (some s) e h = absurd (ground arith)

    go :
        (r : Result (Unit {0}) × World)
        → Executed (spend w) (insert_session token (w.outside.clock w.calls) expires_at) r
        → Started token expires_at w r
    go (ok u, w') h =
        let (fresh, wrote) =
          inserted (w.outside.clock w.calls) w'.db (find_session token w.db) refl h.0 in
        (fresh, (wrote, h.1.1, h.1.2))
    go (err e, w') h = h.1
