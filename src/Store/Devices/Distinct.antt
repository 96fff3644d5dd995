-- ===== src/Store/Devices/Distinct.antt =====
-- internal/store/devices.go: every statement keeps UNIQUE(license_id, device_id).
use seatkey.Common.Rows.{count_where, find_where, update_where}
use seatkey.Common.{
  ◌==◌, ◌&&◌, if◌then◌else◌, true, false, eq_iff, arith, Bool, String, Bool-cases, ◌≡◌, ◌≤◌, refl,
  inl, inr, ℕ, none, List, ◌∷◌, [],
}
use seatkey.Store.Models.{Device}
use seatkey.Store.Valid.{DistinctDevices}
use seatkey.Store.Devices.{is_device, is_active_device, upsert_device}

-- A change that leaves the two columns alone.
abbrev pub KeepsIdentity : (Device → Device) → Type 0
KeepsIdentity f = (d : Device) → ((f d).license_id ≡ d.license_id) × ((f d).device_id ≡ d.device_id)

find_device-update_where :
    (license_id device_id : String) (p : Device → Bool) (f : Device → Device) (ds : List Device)
    → KeepsIdentity f
    → find_where (is_device license_id device_id) ds ≡ none
    → find_where (is_device license_id device_id) (update_where p f ds) ≡ none
find_device-update_where license_id device_id p f [] keeps e = refl
find_device-update_where license_id device_id p f (x ∷ ds) keeps e =
    ground (arith, keeps x, find_device-update_where license_id device_id p f ds keeps)

set_if-identity :
    (b : Bool) (f : Device → Device) (x : Device)
    → KeepsIdentity f
    → ((if b then f x else x).license_id ≡ x.license_id)
      × ((if b then f x else x).device_id ≡ x.device_id)
set_if-identity true f x keeps = keeps x
set_if-identity false f x keeps = (refl, refl)

pub update_where-DistinctDevices :
    (p : Device → Bool) (f : Device → Device) (ds : List Device)
    → KeepsIdentity f
    → DistinctDevices ds
    → DistinctDevices (update_where p f ds)
update_where-DistinctDevices p f [] keeps h = tt
update_where-DistinctDevices p f (x ∷ ds) keeps h = (
  rw ((set_if-identity (p x) f x keeps).0, (set_if-identity (p x) f x keeps).1)
      (find_device-update_where x.license_id x.device_id p f ds keeps h.0),
  update_where-DistinctDevices p f ds keeps h.1,
)

find_device-upsert :
    (license_id device_id : String) (fresh : ℕ) (d : Device) (ds : List Device)
    → (d.license_id == license_id && d.device_id == device_id) ≡ false
    → find_where (is_device license_id device_id) ds ≡ none
    → find_where (is_device license_id device_id) (upsert_device fresh d ds) ≡ none
unfolding upsert_device
find_device-upsert license_id device_id fresh d [] ne e = ground arith
find_device-upsert license_id device_id fresh d (x ∷ ds) ne e =
    ground (arith, find_device-upsert license_id device_id fresh d ds ne)

pub upsert-DistinctDevices :
    (fresh : ℕ) (d : Device) (ds : List Device)
    → DistinctDevices ds
    → DistinctDevices (upsert_device fresh d ds)
unfolding upsert_device
upsert-DistinctDevices fresh d [] h = (refl, tt)
upsert-DistinctDevices fresh d (x ∷ ds) h =
    elim (Bool-cases (is_device d.license_id d.device_id x)) [
      | inl hit ↦ rw hit h
      | inr miss ↦ rw miss (
        find_device-upsert x.license_id x.device_id fresh d ds
            (ground (
              arith,
              miss,
              eq_iff d.license_id x.license_id,
              eq_iff x.license_id d.license_id,
              eq_iff d.device_id x.device_id,
              eq_iff x.device_id d.device_id,
            ))
            h.0,
        upsert-DistinctDevices fresh d ds h.1,
      )
    ]

-- So a device has one active row on a license at most.
count_active-of_none :
    (license_id device_id : String) (ds : List Device)
    → find_where (is_device license_id device_id) ds ≡ none
    → count_where (is_active_device license_id device_id) ds ≡ 0
count_active-of_none license_id device_id [] e = refl
count_active-of_none license_id device_id (x ∷ ds) e =
    ground (arith, count_active-of_none license_id device_id ds)

pub count_active-le-one :
    (license_id device_id : String) (ds : List Device)
    → DistinctDevices ds
    → count_where (is_active_device license_id device_id) ds ≤ 1
count_active-le-one license_id device_id [] h = omega arith
count_active-le-one license_id device_id (x ∷ ds) h =
    elim (Bool-cases (is_device license_id device_id x)) [
      | inl hit ↦ ground (
        arith,
        hit,
        count_active-of_none license_id device_id ds,
        eq_iff x.license_id license_id,
        eq_iff x.device_id device_id,
        h.0,
      )
      | inr miss ↦ ground (arith, miss, count_active-le-one license_id device_id ds h.1)
    ]
