-- ===== src/Store/Licenses/Create.antt =====
-- internal/store/licenses.go: what `CreateLicense` and `RevokeLicense` guarantee.
use seatkey.Store.Schema.{LicenseRow}
use seatkey.Store.Models.{License}
use seatkey.Common.{Option, suc, ℕ, String, refl, ◌≡◌, none, some}
use seatkey.World.{
  rand_result, map_error_result, resume, pure, exec, map_error, spend, ok, err, entropy, World,
  Result, ◌>>◌,
}
use seatkey.World.Rules.{transport_Same, Same, bind_rule, Executed, exec-Executed}
use seatkey.Store.Licenses.{
  key_collision, CreateLicenseParams, create_license, generate_license_key, write_groups, groups,
  insert_license, new_row, license_of,
}

abbrev pub Generated : World → Result String × World → Type 0
Generated w (ok key, w') = ((buf : ℕ → ℕ) × (key ≡ write_groups buf 0 groups "SEAT")) × Same w w'
Generated w (err e, w') = (e ≡ entropy) × Same w w'

pub generate_license_key-Generated : (w : World) → Generated w (generate_license_key w)
unfolding generate_license_key
generate_license_key-Generated w = go (w.outside.random w.calls)
  where
    go :
        (o : Option (ℕ → ℕ))
        → Generated w (resume (λ buf. pure (write_groups buf 0 groups "SEAT")) (rand_result w o))
    go none = (refl, (refl, refl, refl))
    go (some buf) = ((buf, refl), (refl, refl, refl))

-- A key that was not in use names a row with what was asked for, added to the licenses. A failure
-- changes nothing.
abbrev pub Created : CreateLicenseParams → World → Result License × World → Type 0
Created p w (ok l, w') =
    (key id : String) × (now : ℕ) × (l ≡ license_of (new_row p key id now) "")
    × (insert_license (new_row p key id now) w.db ≡ ok (tt, w'.db))
    × ((buf : ℕ → ℕ) × (key ≡ write_groups buf 0 groups "SEAT"))
    × (w'.notified ≡ w.notified)
Created p w (err e, w') = Same w w'

Created-Same :
    (p : CreateLicenseParams) (w w' : World)
    → Same w w'
    → (r : Result License × World) → Created p w' r
    → Created p w r
Created-Same p w w' same r h = transport_Same (λ x. Created p x r) w w' same h

insert_step :
    (p : CreateLicenseParams) (buf : ℕ → ℕ) (id : String) (now : ℕ) (w : World)
    → let l = new_row p (write_groups buf 0 groups "SEAT") id now in
      Created p w ((map_error key_collision (exec (insert_license l)) >> pure (license_of l "")) w)
insert_step p buf id now w = go (exec (insert_license l) w) (exec-Executed (insert_license l) w)
  where
    l : LicenseRow
    l = new_row p (write_groups buf 0 groups "SEAT") id now

    go :
        (r : Result (Unit {0}) × World)
        → Executed w (insert_license l) r
        → Created p w (resume (λ _. pure (license_of l "")) (map_error_result key_collision r))
    go (ok u, w') h = (l.key, id, now, refl, h.0, (buf, refl), h.1.1)
    go (err e, w') h = h.1

pub create_license-Created :
    (p : CreateLicenseParams) (w : World) → Created p w (create_license p w)
unfolding create_license
create_license-Created p w =
    bind_rule (Generated w) (Created p w) generate_license_key _ w
      (generate_license_key-Generated w) (λ e w1 h. h.1)
      (λ key w1 h. Created-Same p w (spend (spend w1)) h.1 _ (
        rw h.0.1 (
          insert_step p h.0.0 (w1.outside.uuid w1.calls) (w1.outside.clock (suc w1.calls))
            (spend (spend w1)))))
