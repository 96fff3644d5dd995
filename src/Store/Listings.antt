-- ===== src/Store/Listings.antt =====
-- internal/store: the listings of products and licenses.
use seatkey.World.Rules.{query-Queried, Same, Queried}
use seatkey.Common.Rows.{
  select_where, order_by_desc-IsDescending, order_by_desc-perm, IsDescending, order_by_desc,
}
use seatkey.Store.Models.{License, Product}
use seatkey.Store.Schema.{Db}
use seatkey.Store.Licenses.{licenses_of, list_licenses}
use seatkey.Common.{◌≡◌, ◌==◌, if◌then◌else◌, List, ℕ, String}
use seatkey.Store.Products.{list_products}
use seatkey.World.{driver, err, ok, query, Result, World}
use mathlib.Core.List.{Perm}

-- A listing that succeeds has every row that is meant, each as often as the tables have it, the newest
-- first; a failure is the driver's. Nothing is changed.
abbrev pub Listed :
    {A : Type 0} → (A → ℕ) → (Db → List A) → World → Result (List A) × World → Type 0
Listed age rows w (ok found, w') = Perm found (rows w.db) × IsDescending age found × Same w w'
Listed age rows w (err e, w') = (e ≡ driver) × Same w w'

ordered-Listed :
    {A : Type 0} (age : A → ℕ) (rows : Db → List A) (w : World)
    → Listed age rows w (query (λ db. order_by_desc age (rows db)) w)
ordered-Listed {A} age rows w =
    go (query (λ db. order_by_desc age (rows db)) w)
      (query-Queried (λ db. order_by_desc age (rows db)) w)
  where
    go :
        (p : Result (List A) × World)
        → Queried w (λ db. order_by_desc age (rows db)) p
        → Listed age rows w p
    go (ok found, w') (e, same) =
        rw e (order_by_desc-perm age (rows w.db), order_by_desc-IsDescending age (rows w.db), same)
    go (err e, w') h = h

-- The licenses of a product, or all of them for the empty id.
abbrev pub licenses_in : String → Db → List License
licenses_in product_id db =
    if product_id == ""
    then licenses_of db
    else select_where (λ l. l.product_id == product_id) (licenses_of db)

-- The listings of the products and of the licenses, of one product or of all, have every row that is
-- meant, each as often as the tables have it, the newest first; or the driver fails. They change
-- nothing.
pub list_products-Listed :
    (product_id : String) (w : World)
    → Listed (λ (p : Product). p.created_at) (λ db. db.products) w (list_products w)
      × Listed
          (λ (l : License). l.created_at)
          (licenses_in product_id)
          w
          (list_licenses product_id w)
unfolding list_products list_licenses
list_products-Listed product_id w = (
  ordered-Listed (λ (p : Product). p.created_at) (λ db. db.products) w,
  ordered-Listed (λ (l : License). l.created_at) (licenses_in product_id) w,
)
