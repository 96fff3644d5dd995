-- ===== src/Store/Devices/Seats.antt =====
-- internal/store/devices.go: how many seats a license has in use, under each statement.
use seatkey.Common.{
  ℕ, suc, ◌+◌, ◌≤◌, ◌≡◌, ◌≢◌, refl, inl, inr, none, some, List, [], ◌∷◌, String, arith, Bool-cases,
  nat_beq, eq_iff, eq_refl,
}
use seatkey.Common.Rows.{find_where, count_where, update_where, count_where-update_where}
use seatkey.Store.Models.{Device}
use seatkey.Store.Devices.{holds_seat, is_active_device, is_device, upsert_device, revive}

-- A device that held no seat takes one.
pub count_seats-upsert_self :
    (fresh : ℕ) (d : Device) (ds : List Device)
    → d.deactivated_at ≡ none
    → find_where (is_active_device d.license_id d.device_id) ds ≡ none
    → count_where (holds_seat d.license_id) (upsert_device fresh d ds)
      ≡ suc (count_where (holds_seat d.license_id) ds)
unfolding upsert_device
count_seats-upsert_self fresh d [] a e = ground (arith, eq_refl d.license_id)
count_seats-upsert_self fresh d (x ∷ ds) a e = ground (arith, count_seats-upsert_self fresh d ds a)

-- The other licenses keep theirs.
pub count_seats-upsert_ne :
    (license_id : String) (fresh : ℕ) (d : Device) (ds : List Device)
    → license_id ≢ d.license_id
    → count_where (holds_seat license_id) (upsert_device fresh d ds)
      ≡ count_where (holds_seat license_id) ds
unfolding upsert_device
count_seats-upsert_ne license_id fresh d [] ne = ground (arith, eq_iff d.license_id license_id)
count_seats-upsert_ne license_id fresh d (x ∷ ds) ne = ground (
  arith,
  eq_iff x.license_id license_id,
  eq_iff x.license_id d.license_id,
  count_seats-upsert_ne license_id fresh d ds ne,
)

-- A device that is activated is found.
pub find_active-upsert :
    (fresh : ℕ) (d : Device) (ds : List Device)
    → d.deactivated_at ≡ none
    → find_where (is_active_device d.license_id d.device_id) ds ≡ none
    → (x : Device) × (find_where
          (is_active_device d.license_id d.device_id)
          (upsert_device fresh d ds)
        ≡ some x)
unfolding upsert_device
find_active-upsert fresh d [] a e =
    (record d { id = fresh }, ground (arith, eq_refl d.license_id, eq_refl d.device_id))
find_active-upsert fresh d (x ∷ ds) a e = elim (Bool-cases (is_device d.license_id d.device_id x)) [
  | inl hit ↦ (revive d x, ground (arith, hit))
  | inr miss ↦
      let (y, found) = find_active-upsert fresh d ds a (ground arith) in
      (y, ground (arith, found, miss))
]

-- A contact moves no seat.
pub count_seats-touch :
    (license_id : String) (id now : ℕ) (ds : List Device)
    → count_where
        (holds_seat license_id)
        (update_where (λ d. nat_beq d.id id) (λ d. record d { last_seen_at = now }) ds)
      ≡ count_where (holds_seat license_id) ds
count_seats-touch license_id id now ds =
    count_where-update_where (holds_seat license_id) (λ d. nat_beq d.id id)
      (λ d. record d { last_seen_at = now }) ds (λ d. refl)

-- A seat that is freed leaves no license with more.
pub count_seats-free-le :
    (other license_id device_id : String) (now : ℕ) (ds : List Device)
    → count_where (holds_seat other) (
        update_where
          (is_active_device license_id device_id)
          (λ d. record d { deactivated_at = some now })
          ds)
      ≤ count_where (holds_seat other) ds
count_seats-free-le other license_id device_id now [] = omega arith
count_seats-free-le other license_id device_id now (x ∷ ds) =
    ground (arith, count_seats-free-le other license_id device_id now ds)

-- Every row that is freed was counted once.
pub count_seats-free :
    (license_id device_id : String) (now : ℕ) (ds : List Device)
    → count_where (holds_seat license_id) (
          update_where
            (is_active_device license_id device_id)
            (λ d. record d { deactivated_at = some now })
            ds)
        + count_where (is_active_device license_id device_id) ds
      ≡ count_where (holds_seat license_id) ds
count_seats-free license_id device_id now [] = omega arith
count_seats-free license_id device_id now (x ∷ ds) =
    ground (arith, count_seats-free license_id device_id now ds)

-- Nor does the device keep an active row.
pub find_active-free :
    (license_id device_id : String) (now : ℕ) (ds : List Device)
    → find_where (is_active_device license_id device_id) (
        update_where
          (is_active_device license_id device_id)
          (λ d. record d { deactivated_at = some now })
          ds)
      ≡ none
find_active-free license_id device_id now [] = refl
find_active-free license_id device_id now (x ∷ ds) =
    ground (arith, find_active-free license_id device_id now ds)
