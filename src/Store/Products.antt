-- ===== src/Store/Products.antt =====
-- internal/store/products.go.
pub mod Frame
use seatkey.Common.{Option, List, [], ◌∷◌, ◌++◌, String, is_none, if◌then◌else◌, ◌==◌}
use seatkey.Common.Rows.{find_where, order_by_desc}
use seatkey.Store.Models.{Product}
use seatkey.Store.Schema.{Db}
use seatkey.World.{
  Call, Result, ok, err, constraint, pure, query, exec, query_row, time_now, new_uuid, ◌>>=◌, ◌>>◌,
}

abbrev pub find_product : String → Db → Option Product
find_product id db = find_where (λ p. p.id == id) db.products

pub insert_product : Product → Db → Result (Unit {0} × Db)
insert_product p db =
    if is_none (find_product p.id db)
    then ok (tt, record db { products = db.products ++ p ∷ [] })
    else err (constraint "products.id")

unfoldable pub create_product : String → Call Product
unfolding insert_product
create_product name = do
  id ← new_uuid
  now ← time_now
  let p : Product = record { id = id; name = name; created_at = now }
  exec (insert_product p)
  pure p

unfoldable pub get_product : String → Call Product
get_product id = query_row (find_product id)

unfoldable pub list_products : Call (List Product)
list_products = query (λ db. order_by_desc (λ p. p.created_at) db.products)
