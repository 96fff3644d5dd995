-- ===== src/Web/Admin/Creation.antt =====
-- internal/web/admin.go: what the dashboard's form creates.
use seatkey.Store.Licenses.Lookup.{create_license-get_license}
use seatkey.Store.Licenses.Create.{create_license-Created, Created}
use seatkey.Store.Devices.{count_seats}
use seatkey.Store.Licenses.{create_license, find_license_by_key}
use seatkey.Web.Forms.{atoi}
use seatkey.Web.Admin.{or_page_not_found, license_address}
use seatkey.Store.Products.{find_product, get_product}
use seatkey.Store.Valid.{IsValid}
use seatkey.World.Rules.{query_row-Fetched, Fetched, transport_Same, Same}
use seatkey.Store.Models.{Product, License}
use seatkey.Common.{
  refl, inr, sym, subst, inl, zero, negsuc, suc, none, pos, arith, ◌⊎◌, some, to_nat, ◌≡◌, ◌≤◌,
  String, ℤ, Option,
}
use seatkey.Web.Http.{server_error, proceed, reply, page_not_found, checked, Response, Request}
use seatkey.World.{err, ok, Result, World}
use seatkey.Web.Admin.Pages.{
  params_of, expires_at_of, handle_license_create, max_devices_of, at_least_one,
}

at_least_one_bounds : (o : Option ℤ) → 1 ≤ to_nat (at_least_one o)
unfolding at_least_one
at_least_one_bounds none = omega arith
at_least_one_bounds (some (pos zero)) = omega arith
at_least_one_bounds (some (pos (suc n))) = omega arith
at_least_one_bounds (some (negsuc n)) = omega arith

max_devices_of_bounds : (raw : String) → 1 ≤ to_nat (max_devices_of raw)
unfolding max_devices_of
max_devices_of_bounds raw = at_least_one_bounds (atoi raw)

module _ (r : Request) where
  -- The new license is found by its key, for the product of the address, with what the form says.
  abbrev pub IsFound : World → License → World → Type 0
  IsFound w l w' =
      (product : Product) × (find_product (r.path "id") w.db ≡ some product)
      × (find_license_by_key l.key w'.db ≡ some (record l { product_name = product.name }))
      × (l.customer_name ≡ r.form "customer_name")
      × (l.customer_email ≡ r.form "customer_email")
      × (l.max_devices ≡ max_devices_of (r.form "max_devices"))
      × (1 ≤ to_nat l.max_devices)
      × (l.expires_at ≡ expires_at_of (r.form "expires_at"))
      × (l.revoked_at ≡ none)
      × (count_seats l.id w'.db ≡ 0)
      × IsValid w'.db

  abbrev pub Issued : World → Response × World → Type 0
  Issued w (answer, w') =
      ((l : License) × (answer ≡ license_address l.id) × IsFound w l w')
      ⊎ ((answer ≡ page_not_found) × (find_product (r.path "id") w.db ≡ none) × Same w w')
      ⊎ ((answer.status ≡ 500) × Same w w')

  Issued-Same : (w w' : World) → Same w w' → (p : Response × World) → Issued w' p → Issued w p
  Issued-Same w w' same p h = transport_Same (λ x. Issued x p) w w' same h

  created :
      (w : World) (product : Product)
      → IsValid w.db
      → find_product (r.path "id") w.db ≡ some product
      → Issued w (checked (create_license (params_of r)) (λ l. reply (license_address l.id)) w)
  created w product v known =
      go (create_license (params_of r) w) refl (create_license-Created (params_of r) w)
    where
      go :
          (p : Result License × World)
          → create_license (params_of r) w ≡ p
          → Created (params_of r) w p
          → Issued w (proceed server_error p (λ l. reply (license_address l.id)))
      go (ok l, w') e h =
          let (found, max, expiry, name, email, asked, unrevoked, free, valid) =
            create_license-get_license (params_of r) w w' l product v known e in
          inl (
            l,
            refl,
            (
              product,
              known,
              found,
              name,
              email,
              max,
              subst (λ m. 1 ≤ to_nat m) (sym max) (max_devices_of_bounds (r.form "max_devices")),
              expiry,
              unrevoked,
              free,
              valid,
            ),
          )
      go (err e, w') _ h = inr (inr (refl, h))

  -- The form for a new license, on valid tables, ends in one of three ways: the redirection to the page
  -- of a license of the product, which is found by its key, has the customer and email of the form, at
  -- least one seat and none in use, and the expiry that the form's date says; a page that is not found, for a product that does not exist;
  -- or a server error. The last two change nothing.
  pub handle_license_create-Issued :
      (w : World) → IsValid w.db → Issued w (handle_license_create r w)
  unfolding handle_license_create get_product
  handle_license_create-Issued w v =
      go (get_product (r.path "id") w) (query_row-Fetched (find_product (r.path "id")) w)
    where
      go :
          (p : Result Product × World)
          → Fetched w (find_product (r.path "id")) p
          → Issued w (
              proceed or_page_not_found p (λ product.
                checked (create_license (params_of r)) (λ l. reply (license_address l.id))))
      go (ok product, w') h =
          let v' : IsValid w'.db = rw h.1.0 v in
          let known : find_product (r.path "id") w'.db ≡ some product = rw h.1.0 h.0 in
          Issued-Same w w' h.1
            (checked (create_license (params_of r)) (λ l. reply (license_address l.id)) w')
            (created w' product v' known)
      go (err e, w') (inl (missing, none_found), same) =
          rw missing (inr (inl (refl, none_found, same)))
      go (err e, w') (inr broken, same) = rw broken (inr (inr (refl, same)))
