-- ===== src/Store/Valid.antt =====
-- internal/store: the well-formedness of the tables. Ids and keys of licenses are distinct, a
-- device has one row for a license, and no license has more seats in use than it allows; nor has one that does not exist.
use seatkey.Common.{
  subst₂, sym, ap, ℕ, ◌≤◌, ◌≡◌, refl, subst, inl, inr, Bool, Option, none, some, List, [], ◌∷◌,
  String, arith, to_nat, eq_iff, eq_refl, ◌==◌, Bool-cases,
}
use seatkey.Common.Rows.{count_where, find_where}
use seatkey.Store.Models.{Device, Product, License}
use seatkey.Store.Schema.{Db, LicenseRow}
use seatkey.Store.Licenses.{license_of, license_select, find_row, join_row}
use seatkey.Store.Devices.{holds_seat, is_device, count_seats}

abbrev pub DistinctIds : List LicenseRow → Type 0
DistinctIds [] = Unit
DistinctIds (l ∷ ls) = (find_where (λ x. x.id == l.id) ls ≡ none) × DistinctIds ls

abbrev pub DistinctKeys : List LicenseRow → Type 0
DistinctKeys [] = Unit
DistinctKeys (l ∷ ls) = (find_where (λ x. x.key == l.key) ls ≡ none) × DistinctKeys ls

-- UNIQUE(license_id, device_id).
abbrev pub DistinctDevices : List Device → Type 0
DistinctDevices [] = Unit
DistinctDevices (d ∷ ds) =
    (find_where (is_device d.license_id d.device_id) ds ≡ none) × DistinctDevices ds

-- The seats that a license allows; none where there is no license.
abbrev pub allowance : Option LicenseRow → ℕ
allowance none = 0
allowance (some l) = to_nat l.max_devices

abbrev pub WithinLimits : Db → Type 0
WithinLimits db = (id : String) → count_seats id db ≤ allowance (find_row id db)

pub record IsValid (db : Db) : Type 0 where
  pub ids : DistinctIds db.licenses
  pub keys : DistinctKeys db.licenses
  pub rows : DistinctDevices db.devices
  pub limits : WithinLimits db

-- A license that a query reads is the row of its id, with its product's name.
abbrev pub IsRow : List LicenseRow → License → Type 0
IsRow ls l =
    (r : LicenseRow) × (find_where (λ x. x.id == l.id) ls ≡ some r)
    × ((name : String) × (l ≡ license_of r name))

IsRow-cons :
    (x : LicenseRow) (ls : List LicenseRow) (l : License)
    → find_where (λ y. y.id == x.id) ls ≡ none
    → IsRow ls l
    → IsRow (x ∷ ls) l
IsRow-cons x ls l fresh (r, found, same) = elim (Bool-cases (x.id == l.id)) [
  | inl hit ↦ absurd (ground (arith, hit, found, fresh, (eq_iff x.id l.id).0 hit))
  | inr miss ↦ (r, rw miss found, same)
]

IsRow-head :
    (x : LicenseRow) (ls : List LicenseRow) (name : String) → IsRow (x ∷ ls) (license_of x name)
IsRow-head x ls name = (x, rw (eq_refl x.id), (name, refl))

pub license_select-IsRow :
    (p : License → Bool) (products : List Product) (ls : List LicenseRow) (l : License)
    → DistinctIds ls
    → find_where p (license_select products ls) ≡ some l
    → IsRow ls l
unfolding license_select
license_select-IsRow p products [] l d e = cc
license_select-IsRow p products (x ∷ ls) l d e =
    go (find_where (λ q. q.id == x.product_id) products) (license_select-IsRow p products ls l d.1)
      e
  where
    rest : List License
    rest = license_select products ls

    go :
        (o : Option Product)
        → (find_where p rest ≡ some l → IsRow ls l)
        → find_where p (join_row o x rest) ≡ some l
        → IsRow (x ∷ ls) l
    go none ih found = IsRow-cons x ls l d.0 (ih found)
    go (some q) ih found = elim (Bool-cases (p (license_of x q.name))) [
      | inl hit ↦ subst (IsRow (x ∷ ls)) (ground (arith, found, hit)) (IsRow-head x ls q.name)
      | inr miss ↦ IsRow-cons x ls l d.0 (ih (ground (arith, found, miss)))
    ]

-- A license that does not exist has no seat in use.
pub no_seats : (id : String) (db : Db) → IsValid db → find_row id db ≡ none → count_seats id db ≡ 0
no_seats id db v e =
    let bound : count_seats id db ≤ 0 =
      subst (λ o. count_seats id db ≤ allowance o) e (v.limits id) in
    omega arith

-- The part of the tables that this is about.
abbrev pub seating : Db → List LicenseRow × List Device
seating db = (db.licenses, db.devices)

pub seating-IsValid : (db db' : Db) → seating db' ≡ seating db → IsValid db → IsValid db'
seating-IsValid db db' e v =
    let ls = ap (λ (p : List LicenseRow × List Device). p.0) e in
    let ds = ap (λ (p : List LicenseRow × List Device). p.1) e in
    record {
      ids = subst DistinctIds (sym ls) v.ids;
      keys = subst DistinctKeys (sym ls) v.keys;
      rows = subst DistinctDevices (sym ds) v.rows;
      limits = λ id.
          subst₂
            (λ (rows : List LicenseRow) (devices : List Device).
              count_where (holds_seat id) devices ≤ allowance (find_where (λ l. l.id == id) rows))
            (sym ls) (sym ds) (v.limits id);
    }
