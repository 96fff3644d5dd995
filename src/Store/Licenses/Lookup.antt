-- ===== src/Store/Licenses/Lookup.antt =====
-- internal/store/licenses.go: what a key finds, before and after a license is created.
use seatkey.Common.Rows.{find_where}
use seatkey.Store.Devices.{count_seats}
use seatkey.Store.Schema.{LicenseRow}
use seatkey.Store.Products.{find_product}
use seatkey.Store.Models.{License, Product}
use seatkey.Common.{
  eq_iff, Bool-cases, false, eq_refl, true, subst, arith, Option, List, String, refl, ◌≡◌, ◌++◌,
  ◌∷◌, [], inl, inr, none, some, ◌==◌,
}
use seatkey.World.{ok, World}
use seatkey.Store.Licenses.{
  new_row, CreateLicenseParams, license_select, license_of, join_row, find_license_by_key,
  create_license,
}
use seatkey.Store.Licenses.Insert.{insert_license-ok, insert_license-IsValid}
use seatkey.Store.Licenses.Create.{Created, create_license-Created}
use seatkey.Store.Valid.{IsValid, DistinctKeys, no_seats}

-- A key that no row has finds no license.
pub license_select-none :
    (key : String) (products : List Product) (ls : List LicenseRow)
    → find_where (λ x. x.key == key) ls ≡ none
    → find_where (λ l. l.key == key) (license_select products ls) ≡ none
unfolding license_select
license_select-none key products [] e = refl
license_select-none key products (x ∷ ls) e =
    go (find_where (λ p. p.id == x.product_id) products)
      (license_select-none key products ls (ground arith))
  where
    go :
        (o : Option Product)
        → find_where (λ l. l.key == key) (license_select products ls) ≡ none
        → find_where (λ l. l.key == key) (join_row o x (license_select products ls)) ≡ none
    go none rest = rest
    go (some p) rest = ground (arith, rest)

-- The license that a key finds is the row of that key.
pub license_select-key :
    (key : String) (products : List Product) (ls : List LicenseRow) (l : License)
    → DistinctKeys ls
    → find_where (λ x. x.key == key) (license_select products ls) ≡ some l
    → (r : LicenseRow) × (find_where (λ x. x.key == key) ls ≡ some r)
      × ((name : String) × (l ≡ license_of r name))
unfolding license_select
license_select-key key products [] l d e = cc
license_select-key key products (x ∷ ls) l d e = elim (Bool-cases (x.key == key)) [
  | inl hit ↦
      go (find_where (λ p. p.id == x.product_id) products)
        (license_select-none key products ls
          (subst (λ k. find_where (λ y. y.key == k) ls ≡ none) ((eq_iff x.key key).0 hit) d.0))
        hit e
  | inr miss ↦
      let (r, found, named) =
        license_select-key key products ls l d.1
          (skip (find_where (λ p. p.id == x.product_id) products) miss e) in
      (r, rw miss found, named)
]
  where
    rest : List License
    rest = license_select products ls

    go :
        (o : Option Product)
        → find_where (λ y. y.key == key) rest ≡ none
        → (x.key == key) ≡ true
        → find_where (λ y. y.key == key) (join_row o x rest) ≡ some l
        → (r : LicenseRow) × (find_where (λ y. y.key == key) (x ∷ ls) ≡ some r)
          × ((name : String) × (l ≡ license_of r name))
    go none empty hit found = absurd (ground (arith, found, empty))
    go (some p) empty hit found = (x, ground (arith, hit), (p.name, ground (arith, hit, found)))

    skip :
        (o : Option Product)
        → (x.key == key) ≡ false
        → find_where (λ y. y.key == key) (join_row o x rest) ≡ some l
        → find_where (λ y. y.key == key) rest ≡ some l
    skip none miss found = found
    skip (some p) miss found = ground (arith, miss, found)

-- A row under a new key is what the key then finds.
find_license_by_key-append :
    (products : List Product) (ls : List LicenseRow) (r : LicenseRow) (p : Product)
    → find_where (λ x. x.key == r.key) ls ≡ none
    → find_where (λ q. q.id == r.product_id) products ≡ some p
    → find_where (λ l. l.key == r.key) (license_select products (ls ++ r ∷ []))
      ≡ some (license_of r p.name)
unfolding license_select
find_license_by_key-append products [] r p e found = ground (arith, found, eq_refl r.key)
find_license_by_key-append products (x ∷ ls) r p e found =
    go (find_where (λ q. q.id == x.product_id) products)
      (find_license_by_key-append products ls r p (ground arith) found)
  where
    go :
        (o : Option Product)
        → find_where (λ l. l.key == r.key) (license_select products (ls ++ r ∷ []))
          ≡ some (license_of r p.name)
        → find_where (λ l. l.key == r.key) (join_row o x (license_select products (ls ++ r ∷ [])))
          ≡ some (license_of r p.name)
    go none rest = rest
    go (some q) rest = ground (arith, rest)

-- A license that was created for a known product is found by its key, with the product's name and what
-- was asked for: the product's id, the customer's name and email, the number of devices and the expiry.
-- It is not revoked, no seat of it is in use, and the tables are valid.
pub create_license-get_license :
    (p : CreateLicenseParams) (w w' : World) (l : License) (product : Product)
    → IsValid w.db
    → find_product p.product_id w.db ≡ some product
    → create_license p w ≡ (ok l, w')
    → (find_license_by_key l.key w'.db ≡ some (record l { product_name = product.name }))
      × (l.max_devices ≡ p.max_devices)
      × (l.expires_at ≡ p.expires_at)
      × (l.customer_name ≡ p.customer_name)
      × (l.customer_email ≡ p.customer_email)
      × (l.product_id ≡ p.product_id)
      × (l.revoked_at ≡ none)
      × (count_seats l.id w'.db ≡ 0)
      × IsValid w'.db
create_license-get_license p w w' l product v known e =
    let (key, id, now, same, inserted, made, quiet) =
      subst (Created p w) e (create_license-Created p w) in
    let row = new_row p key id now in
    let (new_id, new_key, wrote) = insert_license-ok row w.db w'.db inserted in
    rw (same, wrote)
      (
        find_license_by_key-append w.db.products w.db.licenses row product new_key known,
        refl,
        refl,
        refl,
        refl,
        refl,
        refl,
        no_seats id w.db v new_id,
        subst IsValid wrote (insert_license-IsValid row w.db w'.db v inserted),
      )
