-- ===== src/Store/Products/Frame.antt =====
-- internal/store/products.go: a new product touches neither licenses nor devices.
use seatkey.Store.Schema.{Db}
use seatkey.Store.Models.{Product}
use seatkey.Common.{arith, suc, String, ◌≡◌, refl}
use seatkey.World.{spend, pure, exec, ok}
use seatkey.World.Leaves.{Leaves, Leaves-bind, Leaves-exec}
use seatkey.Store.Valid.{seating}
use seatkey.Store.Products.{create_product, insert_product}

insert_product-seating :
    (p : Product) (db db' : Db) → insert_product p db ≡ ok (tt, db') → seating db' ≡ seating db
unfolding insert_product
insert_product-seating p db db' e = ground (arith, e)

pub create_product-Leaves : (name : String) → Leaves seating (create_product name)
unfolding create_product
create_product-Leaves name w =
    let p : Product = record {
      id = w.outside.uuid w.calls;
      name = name;
      created_at = w.outside.clock (suc w.calls);
    } in
    Leaves-bind seating (exec (insert_product p)) (λ _. pure p)
      (Leaves-exec seating (insert_product p) (λ db db' u e. insert_product-seating p db db' e))
      (λ u w'. refl) (spend (spend w))
