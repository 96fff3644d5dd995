-- ===== src/Store/Admins.antt =====
-- internal/store/admin.go: the admin account and the dashboard's sessions.
pub mod Outcomes
pub mod Hashes
pub mod Sessions
use seatkey.Common.{
  ℕ, suc, Bool, false, Option, none, some, List, [], ◌∷◌, ◌++◌, String, ltb, leb, nat_beq, is_none,
  length, if◌then◌else◌, ◌==◌,
}
use seatkey.Common.Rows.{find_where, update_where, delete_where}
use seatkey.Store.Schema.{Db, Admin, Session}
use seatkey.World.{
  Call, Result, ok, err, constraint, pure, query, exec, or_not_found, time_now, ◌>>=◌,
}

pub has_admin : Call Bool
has_admin = query (λ db. ltb 0 (length db.admins))

insert_admin : String → ℕ → Db → Result (Unit {0} × Db)
insert_admin hash now db =
    ok (tt, record db { admins = db.admins ++ row ∷ []; next_admin = suc db.next_admin })
  where
    row : Admin
    row = record { id = db.next_admin; password_hash = hash; created_at = now }

pub create_admin : String → Call (Unit {0})
unfolding insert_admin
create_admin hash = do now ← time_now; exec (insert_admin hash now)

-- ORDER BY id LIMIT 1: the row with the least id, the first of those.
pub least_admin : List Admin → Option Admin
least_admin [] = none
least_admin (a ∷ rest) = elim (least_admin rest) [
  | none ↦ some a
  | some b ↦ if leb a.id b.id then some a else some b
]

abbrev pub admin_hash : Option Admin → Option String
admin_hash none = none
admin_hash (some a) = some a.password_hash

pub admin_password_hash : Call String
unfolding least_admin
admin_password_hash = do hash ← query (λ db. admin_hash (least_admin db.admins)); or_not_found hash

-- UPDATE … WHERE id = (SELECT id …): no row is meant when the table is empty.
abbrev pub is_least : Option Admin → Admin → Bool
is_least none a = false
is_least (some b) a = nat_beq a.id b.id

update_hash : String → Db → Result (Unit {0} × Db)
update_hash hash db = ok (
  tt,
  record db {
    admins =
        update_where (is_least (least_admin db.admins)) (λ a. record a { password_hash = hash })
          db.admins;
  },
)

pub set_admin_password : String → Call (Unit {0})
unfolding update_hash least_admin
set_admin_password hash = exec (update_hash hash)

abbrev pub find_session : String → Db → Option Session
find_session token db = find_where (λ s. s.token == token) db.sessions

unfoldable pub insert_session : String → ℕ → ℕ → Db → Result (Unit {0} × Db)
insert_session token now expires_at db =
    if is_none (find_session token db)
    then ok (tt, record db { sessions = db.sessions ++ row ∷ [] })
    else err (constraint "sessions.token")
  where
    row : Session
    row = record { token = token; created_at = now; expires_at = expires_at }

unfoldable pub create_session : String → ℕ → Call (Unit {0})
unfolding insert_session
create_session token expires_at = do now ← time_now; exec (insert_session token now expires_at)

-- The clock is read only when the token was found.
unfoldable pub live_session : Option Session → Call Bool
live_session none = pure false
live_session (some s) = do now ← time_now; pure (ltb now s.expires_at)

unfoldable pub valid_session : String → Call Bool
unfolding live_session
valid_session token = do found ← query (find_session token); live_session found

unfoldable pub remove_session : String → Db → Result (Unit {0} × Db)
remove_session token db =
    ok (tt, record db { sessions = delete_where (λ s. s.token == token) db.sessions })

unfoldable pub delete_session : String → Call (Unit {0})
unfolding remove_session
delete_session token = exec (remove_session token)
