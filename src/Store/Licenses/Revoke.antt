-- ===== src/Store/Licenses/Revoke.antt =====
-- internal/store/licenses.go: a revocation. It keeps the tables valid, and it is for good.
use seatkey.World.Rules.{only_driver, exec-Executed, Same, bind_rule, Executed}
use seatkey.Common.Rows.{update_where-none, count_where, find_where, update_where}
use seatkey.Store.Schema.{LicenseRow, Db}
use seatkey.Common.{
  zero, nat_beq-suc_zero, suc, ◌⊎◌, nat_beq, if◌then◌else◌, false, is_none, Bool-cases, ◌==◌, arith,
  List, ℕ, String, refl, ◌≡◌, ◌++◌, ◌∷◌, [], inl, inr, none, some, ◌≤◌,
}
use seatkey.World.{driver, pure, not_found, exec, fail_if, spend, Result, World, ok, err}
use seatkey.Store.Licenses.{write_revoked, revoke_license, is_unrevoked}
use seatkey.Store.Valid.{IsValid, DistinctIds, DistinctKeys, allowance}

abbrev pub revoke_rows : String → ℕ → List LicenseRow → List LicenseRow
revoke_rows id now = update_where (is_unrevoked id) (λ l. record l { revoked_at = some now })

find_id-revoke :
    (other id : String) (now : ℕ) (ls : List LicenseRow)
    → find_where (λ x. x.id == other) ls ≡ none
    → find_where (λ x. x.id == other) (revoke_rows id now ls) ≡ none
find_id-revoke other id now [] e = refl
find_id-revoke other id now (x ∷ ls) e = ground (arith, find_id-revoke other id now ls)

find_key-revoke :
    (key id : String) (now : ℕ) (ls : List LicenseRow)
    → find_where (λ x. x.key == key) ls ≡ none
    → find_where (λ x. x.key == key) (revoke_rows id now ls) ≡ none
find_key-revoke key id now [] e = refl
find_key-revoke key id now (x ∷ ls) e = ground (arith, find_key-revoke key id now ls)

revoke-DistinctIds :
    (id : String) (now : ℕ) (ls : List LicenseRow)
    → DistinctIds ls
    → DistinctIds (revoke_rows id now ls)
revoke-DistinctIds id now [] h = tt
revoke-DistinctIds id now (x ∷ ls) h =
    ground (arith, find_id-revoke x.id id now ls h.0, revoke-DistinctIds id now ls h.1)

revoke-DistinctKeys :
    (id : String) (now : ℕ) (ls : List LicenseRow)
    → DistinctKeys ls
    → DistinctKeys (revoke_rows id now ls)
revoke-DistinctKeys id now [] h = tt
revoke-DistinctKeys id now (x ∷ ls) h =
    ground (arith, find_key-revoke x.key id now ls h.0, revoke-DistinctKeys id now ls h.1)

allowance-revoke :
    (other id : String) (now : ℕ) (ls : List LicenseRow)
    → allowance (find_where (λ x. x.id == other) (revoke_rows id now ls))
      ≡ allowance (find_where (λ x. x.id == other) ls)
allowance-revoke other id now [] = refl
allowance-revoke other id now (x ∷ ls) = ground (arith, allowance-revoke other id now ls)

pub revoke-IsValid :
    (id : String) (now : ℕ) (db : Db)
    → IsValid db
    → IsValid (record db { licenses = revoke_rows id now db.licenses })
revoke-IsValid id now db v = record {
  ids = revoke-DistinctIds id now db.licenses v.ids;
  keys = revoke-DistinctKeys id now db.licenses v.keys;
  rows = v.rows;
  limits = λ other. omega (arith, v.limits other, allowance-revoke other id now db.licenses);
}

-- The key names a row that is revoked.
abbrev pub RevokedKey : String → List LicenseRow → Type 0
RevokedKey key ls =
    (r : LicenseRow) × (find_where (λ x. x.key == key) ls ≡ some r) × (is_none r.revoked_at ≡ false)

pub append-RevokedKey :
    (key : String) (ls : List LicenseRow) (l : LicenseRow)
    → RevokedKey key ls
    → RevokedKey key (ls ++ l ∷ [])
append-RevokedKey key [] l (r, found, h) = absurd (cc)
append-RevokedKey key (x ∷ ls) l (r, found, h) = elim (Bool-cases (x.key == key)) [
  | inl hit ↦ (r, ground (arith, hit, found), h)
  | inr miss ↦
      let (r', found', h') = append-RevokedKey key ls l (r, ground (arith, miss, found), h) in
      (r', ground (arith, miss, found'), h')
]

revoke_row-IsRevoked :
    (id : String) (now : ℕ) (x : LicenseRow)
    → is_none x.revoked_at ≡ false
    → (if is_unrevoked id x then record x { revoked_at = some now } else x) ≡ x
revoke_row-IsRevoked id now x h = ground arith

pub revoke-RevokedKey :
    (key id : String) (now : ℕ) (ls : List LicenseRow)
    → RevokedKey key ls
    → RevokedKey key (revoke_rows id now ls)
revoke-RevokedKey key id now [] (r, found, h) = absurd (cc)
revoke-RevokedKey key id now (x ∷ ls) (r, found, h) = elim (Bool-cases (x.key == key)) [
  | inl hit ↦ (
    r,
    rw (revoke_row-IsRevoked id now x (ground (arith, hit, found, h))) (ground (arith, hit, found)),
    h,
  )
  | inr miss ↦
      let (r', found', h') = revoke-RevokedKey key id now ls (r, ground (arith, miss, found), h) in
      (r', ground (arith, miss, found'), h')
]

-- What `RevokeLicense` has done: it marked the row of that id, if that was not marked before.
abbrev pub Revoked : String → World → Result (Unit {0}) × World → Type 0
Revoked id w (ok _, w') =
    ((now : ℕ) × (w'.db ≡ record w.db { licenses = revoke_rows id now w.db.licenses }))
    × (1 ≤ count_where (is_unrevoked id) w.db.licenses)
    × (w'.notified ≡ w.notified)
Revoked id w (err e, w') =
    Same w w'
    × (((e ≡ not_found) × (count_where (is_unrevoked id) w.db.licenses ≡ 0)) ⊎ (e ≡ driver))

rows_marked :
    (id : String) (now n : ℕ) (w w' : World)
    → Executed w (write_revoked id now) (ok n, w')
    → Revoked id w (fail_if (nat_beq n 0) not_found (pure tt) w')
unfolding write_revoked
rows_marked id now zero w w' h = (
  (
    ground (
      arith,
      h.0,
      update_where-none (is_unrevoked id) (λ (l : LicenseRow). record l { revoked_at = some now })
          w.db.licenses,
    ),
    h.1.1,
    h.1.2,
  ),
  inl (refl, ground (arith, h.0)),
)
rows_marked id now (suc n) w w' h =
    rw (nat_beq-suc_zero n) ((now, ground (arith, h.0)), ground (arith, h.0), h.1.1)

-- Revoking marks the rows of the id that were not marked, of which there is at least one, and nothing
-- else. A refusal changes nothing: there is no such row, or the driver failed.
pub revoke_license-Revoked : (id : String) (w : World) → Revoked id w (revoke_license id w)
unfolding revoke_license
revoke_license-Revoked id w =
    let now = w.outside.clock w.calls in
    bind_rule (Executed (spend w) (write_revoked id now)) (Revoked id w)
      (exec (write_revoked id now)) (λ n. fail_if (nat_beq n 0) not_found (pure tt)) (spend w)
      (exec-Executed (write_revoked id now) (spend w)) (λ e w' h. (h.1, inr (only_driver h.0)))
      (λ n w' h. rows_marked id now n (spend w) w' h)
