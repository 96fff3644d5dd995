-- ===== src/Store/Licenses/Insert.antt =====
-- internal/store/licenses.go: a new license. Its statement keeps the tables valid, and the license
-- is then found by its key.
use seatkey.Common.Rows.{find_where, find_where-append_miss}
use seatkey.Store.Schema.{Db, LicenseRow}
use seatkey.Common.{◌∙◌, eq_iff, ◌==◌, arith, String, List, refl, ◌≡◌, ◌++◌, ◌∷◌, [], none, ◌≤◌}
use seatkey.World.{ok}
use seatkey.Store.Licenses.{insert_license, find_row, find_key}
use seatkey.Store.Valid.{IsValid, DistinctIds, DistinctKeys, allowance}

append-DistinctIds :
    (ls : List LicenseRow) (l : LicenseRow)
    → find_where (λ x. x.id == l.id) ls ≡ none
    → DistinctIds ls
    → DistinctIds (ls ++ l ∷ [])
append-DistinctIds [] l e h = (refl, tt)
append-DistinctIds (x ∷ ls) l e h =
    let p = λ (y : LicenseRow). y.id == x.id in
    (
      find_where-append_miss p ls l (ground (arith, eq_iff x.id l.id, eq_iff l.id x.id)) ∙ h.0,
      append-DistinctIds ls l (ground arith) h.1,
    )

append-DistinctKeys :
    (ls : List LicenseRow) (l : LicenseRow)
    → find_where (λ x. x.key == l.key) ls ≡ none
    → DistinctKeys ls
    → DistinctKeys (ls ++ l ∷ [])
append-DistinctKeys [] l e h = (refl, tt)
append-DistinctKeys (x ∷ ls) l e h =
    let p = λ (y : LicenseRow). y.key == x.key in
    (
      find_where-append_miss p ls l (ground (arith, eq_iff x.key l.key, eq_iff l.key x.key)) ∙ h.0,
      append-DistinctKeys ls l (ground arith) h.1,
    )

-- A row more allows no license less.
allowance-append :
    (id : String) (ls : List LicenseRow) (l : LicenseRow)
    → allowance (find_where (λ x. x.id == id) ls)
      ≤ allowance (find_where (λ x. x.id == id) (ls ++ l ∷ []))
allowance-append id [] l = omega arith
allowance-append id (x ∷ ls) l = ground (arith, allowance-append id ls l)

-- What an insertion that succeeds has found, and its tables.
pub insert_license-ok :
    (l : LicenseRow) (db db' : Db)
    → insert_license l db ≡ ok (tt, db')
    → (find_row l.id db ≡ none)
      × (find_key l.key db ≡ none)
      × (db' ≡ record db { licenses = db.licenses ++ l ∷ [] })
unfolding insert_license
insert_license-ok l db db' e = ground (arith, e)

pub insert_license-IsValid :
    (l : LicenseRow) (db db' : Db) → IsValid db → insert_license l db ≡ ok (tt, db') → IsValid db'
insert_license-IsValid l db db' v e =
    let (new_id, new_key, wrote) = insert_license-ok l db db' e in
    rw wrote (record {
      ids = append-DistinctIds db.licenses l new_id v.ids;
      keys = append-DistinctKeys db.licenses l new_key v.keys;
      rows = v.rows;
      limits = λ id. omega (arith, v.limits id, allowance-append id db.licenses l);
    })
