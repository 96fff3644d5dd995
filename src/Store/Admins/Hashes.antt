-- ===== src/Store/Admins/Hashes.antt =====
-- internal/store/admin.go: the admin's hash, stored and replaced.
use seatkey.Common.Rows.{update_where}
use seatkey.World.Rules.{exec-Executed, Wrote, Same, Executed}
use seatkey.World.{exec, err, spend, ok, Result, World}
use seatkey.Store.Schema.{Admin, Db}
use seatkey.Common.{
  suc, leb, if◌then◌else◌, Bool-cases, nat_beq, List, refl, [], false, inl, ◌∷◌, true, ◌++◌, inr,
  ◌⊎◌, arith, none, some, ◌≡◌, length, ltb, Option, ℕ, Bool, String,
}
use seatkey.Common.{refl}
use seatkey.Store.Admins.{
  create_admin, is_least, set_admin_password, admin_hash, insert_admin, update_hash, least_admin,
}
use seatkey.Store.Admins.Outcomes.{stored_hash, has_admins}

-- A hash was stored for the admin that counts, if there is one.
abbrev pub Replaced : String → World → Result (Unit {0}) × World → Type 0
Replaced hash w (ok _, w') =
    (w'.db.sessions ≡ w.db.sessions) × ((stored_hash w.db ≡ none) ⊎ (stored_hash w'.db ≡ some hash))
Replaced hash w (err e, w') = Same w w'

-- What the update does to one row.
abbrev with_hash : ℕ → String → Admin → Admin
with_hash k hash a = if nat_beq a.id k then record a { password_hash = hash } else a

abbrev map_admin : (Admin → Admin) → Option Admin → Option Admin
map_admin f none = none
map_admin f (some a) = some (f a)

with_hash-id : (k : ℕ) (hash : String) (a : Admin) → (with_hash k hash a).id ≡ a.id
with_hash-id k hash a = elim (Bool-cases (nat_beq a.id k)) [
  | inl hit ↦ rw hit refl
  | inr miss ↦ rw miss refl
]

update-least_admin :
    (k : ℕ) (hash : String) (admins : List Admin)
    → least_admin
        (update_where (λ x. nat_beq x.id k) (λ x. record x { password_hash = hash }) admins)
      ≡ map_admin (with_hash k hash) (least_admin admins)
unfolding least_admin
update-least_admin k hash [] = refl
update-least_admin k hash (x ∷ xs) = rw (update-least_admin k hash xs) (go (least_admin xs))
  where
    go :
        (o : Option Admin)
        → elim (map_admin (with_hash k hash) o) [
          | none ↦ some (with_hash k hash x)
          | some b ↦ if leb (with_hash k hash x).id b.id then some (with_hash k hash x) else some b
        ]
          ≡ map_admin
              (with_hash k hash)
              (elim o [ none ↦ some x | some b ↦ if leb x.id b.id then some x else some b ])
    go none = refl
    go (some b) = rw (with_hash-id k hash x, with_hash-id k hash b) (pick (leb x.id b.id))
      where
        pick :
            (t : Bool)
            → (if t then some (with_hash k hash x) else some (with_hash k hash b))
              ≡ map_admin (with_hash k hash) (if t then some x else some b)
        pick true = refl
        pick false = refl

hash_stored :
    (hash : String) (admins : List Admin) (o : Option Admin)
    → least_admin admins ≡ o
    → (admin_hash o ≡ none)
      ⊎ (admin_hash (
            least_admin (update_where (is_least o) (λ x. record x { password_hash = hash }) admins))
          ≡ some hash)
hash_stored hash admins none e = inl refl
hash_stored hash admins (some a) e =
    inr (rw (update-least_admin a.id hash admins, e) (ground arith))

pub set_admin_password-Replaced :
    (hash : String) (w : World) → Replaced hash w (set_admin_password hash w)
unfolding set_admin_password update_hash least_admin
set_admin_password-Replaced hash w =
    go (set_admin_password hash w) (exec-Executed (update_hash hash) w)
  where
    go : (r : Result (Unit {0}) × World) → Executed w (update_hash hash) r → Replaced hash w r
    go (ok u, w') h =
        let wrote : w'.db ≡ record w.db {
          admins =
              update_where (is_least (least_admin w.db.admins))
                (λ a. record a { password_hash = hash }) w.db.admins;
        } =
          ground (arith, h.0) in
        rw wrote (refl, hash_stored hash w.db.admins (least_admin w.db.admins) refl)
    go (err e, w') h = h.1

-- A row with the hash was added.
abbrev pub Added : String → World → Result (Unit {0}) × World → Type 0
Added hash w (ok _, w') =
    (now : ℕ) × Wrote w
      (record w.db {
        admins =
            w.db.admins
            ++ record { id = w.db.next_admin; password_hash = hash; created_at = now } ∷ [];
        next_admin = suc w.db.next_admin;
      })
      w'
Added hash w (err e, w') = Same w w'

pub create_admin-Added : (hash : String) (w : World) → Added hash w (create_admin hash w)
unfolding create_admin insert_admin
create_admin-Added hash w =
    let now = w.outside.clock w.calls in
    go now (exec (insert_admin hash now) (spend w))
      (exec-Executed (insert_admin hash now) (spend w))
  where
    go :
        (now : ℕ) (r : Result (Unit {0}) × World)
        → Executed (spend w) (insert_admin hash now) r
        → Added hash w r
    go now (ok u, w') h = (now, (ground (arith, h.0), h.1.1, h.1.2))
    go now (err e, w') h = h.1

pub no_admins : (db : Db) → has_admins db ≡ false → db.admins ≡ []
no_admins db h = go db.admins h
  where
    go : (admins : List Admin) → ltb 0 (length admins) ≡ false → admins ≡ []
    go [] e = refl
    go (a ∷ rest) e = ground arith

-- The first admin's hash is the one that counts.
pub stored_hash-Added :
    (hash : String) (w w' : World)
    → has_admins w.db ≡ false
    → Added hash w (ok tt, w')
    → stored_hash w'.db ≡ some hash
unfolding least_admin
stored_hash-Added hash w w' none_yet (now, (wrote, quiet, still)) =
    rw (wrote, no_admins w.db none_yet) refl
