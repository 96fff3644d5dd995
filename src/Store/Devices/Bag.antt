-- ===== src/Store/Devices/Bag.antt =====
-- internal/store/devices.go: who holds a seat on what license, as a bag of pairs that forgets the ids
-- of the rows, their order, the rows that are deactivated, the names and the instants.
use seatkey.Common.Rows.{
  count_where-delete_other, count_where-delete_self, count_where-update_where, find_where,
  update_where, count_where, delete_where,
}
use seatkey.Store.Devices.{find_active, is_active_device, new_device, upsert_device}
use seatkey.Store.Schema.{Db}
use seatkey.Store.Models.{Device}
use mathlib.Core.Quot
use mathlib.Core.Quot.{Quot, Quot-set}
use native.Mathlib.Nat.{ℕ_set}
use seatkey.Common.{
  some, subst₂, inr, inl, Bool-cases, [], ◌&&◌, eq_iff, ◌==◌, arith, nat_beq, none, ◌∷◌,
  if◌then◌else◌, ℕ, String, List, ◌≡◌, refl,
}

-- The tables hold the same active rows, as often.
abbrev pub SameSeats : List Device → List Device → Type 0
SameSeats ds es =
    (license_id device_id : String)
    → count_where (is_active_device license_id device_id) ds
      ≡ count_where (is_active_device license_id device_id) es

abbrev pub SeatBag : Type 0
SeatBag = Quot SameSeats

unfoldable pub seats : Db → SeatBag
seats db = Quot.mk db.devices

pub seats-devices : (db db' : Db) → db'.devices ≡ db.devices → seats db' ≡ seats db
unfolding seats
seats-devices db db' e = rw e refl

-- How often a device holds a seat.
unfoldable pub held : (license_id device_id : String) → SeatBag → ℕ
held license_id device_id =
    Quot.lift ℕ_set (λ ds. count_where (is_active_device license_id device_id) ds)
      (λ ds es h. h license_id device_id)

pub SameSeats-cons :
    (d : Device) (ds es : List Device) → SameSeats ds es → SameSeats (d ∷ ds) (d ∷ es)
SameSeats-cons d ds es h license_id device_id = ground (arith, h license_id device_id)

unfoldable pub put : (license_id device_id : String) → SeatBag → SeatBag
put license_id device_id =
    Quot.lift Quot-set (λ ds. Quot.mk (new_device license_id device_id "" 0 ∷ ds))
      (λ ds es h. Quot.sound (SameSeats-cons (new_device license_id device_id "" 0) ds es h))

-- Without the active rows of a device.
abbrev pub without : (license_id device_id : String) → List Device → List Device
without license_id device_id ds = delete_where (is_active_device license_id device_id) ds

count-without :
    (l d license_id device_id : String) (ds : List Device)
    → count_where (is_active_device l d) (without license_id device_id ds)
      ≡ (if license_id == l && device_id == d then 0 else count_where (is_active_device l d) ds)
count-without l d license_id device_id ds = elim (Bool-cases (license_id == l && device_id == d)) [
  | inl hit ↦ rw hit (
      subst₂ (λ x y. count_where (is_active_device x y) (without license_id device_id ds) ≡ 0)
        ((eq_iff license_id l).0 (ground (arith, hit)))
        ((eq_iff device_id d).0 (ground (arith, hit)))
        (count_where-delete_self (is_active_device license_id device_id) ds))
  | inr miss ↦ rw miss (
      count_where-delete_other (is_active_device l d) (is_active_device license_id device_id) ds
        (λ a h. ground (
          arith,
          miss,
          h,
          eq_iff a.license_id l,
          eq_iff a.device_id d,
          eq_iff a.license_id license_id,
          eq_iff a.device_id device_id,
        )))
]

pub SameSeats-without :
    (license_id device_id : String) (ds es : List Device)
    → SameSeats ds es
    → SameSeats (without license_id device_id ds) (without license_id device_id es)
SameSeats-without license_id device_id ds es h l d =
    rw (count-without l d license_id device_id ds, count-without l d license_id device_id es, h l d)
      refl

unfoldable pub remove : (license_id device_id : String) → SeatBag → SeatBag
remove license_id device_id =
    Quot.lift Quot-set (λ ds. Quot.mk (without license_id device_id ds))
      (λ ds es h. Quot.sound (SameSeats-without license_id device_id ds es h))

count-remove_put :
    (license_id device_id : String) (ds : List Device)
    → count_where (is_active_device license_id device_id) ds ≡ 0
    → SameSeats (without license_id device_id (new_device license_id device_id "" 0 ∷ ds)) ds
count-remove_put license_id device_id ds e l d =
    rw (count-without l d license_id device_id (new_device license_id device_id "" 0 ∷ ds))
      (elim (Bool-cases (license_id == l && device_id == d)) [
        | inl hit ↦ ground (arith, hit, e, eq_iff license_id l, eq_iff device_id d)
        | inr miss ↦ ground (arith, miss, eq_iff license_id l, eq_iff device_id d)
      ])

pub remove-put :
    (license_id device_id : String) (b : SeatBag)
    → held license_id device_id b ≡ 0
    → remove license_id device_id (put license_id device_id b) ≡ b
unfolding held remove put
remove-put license_id device_id =
    Quot.ind (λ b. hlevel (Quot-set))
      (λ ds e. Quot.sound (count-remove_put license_id device_id ds e))

-- Abstractly, a device takes a seat once, and gives it up.
unfoldable pub occupy : (license_id device_id : String) → SeatBag → SeatBag
occupy license_id device_id b =
    if nat_beq (held license_id device_id b) 0 then put license_id device_id b else b

pub occupy-free :
    (license_id device_id : String) (b : SeatBag)
    → held license_id device_id b ≡ 0
    → occupy license_id device_id b ≡ put license_id device_id b
unfolding occupy
occupy-free license_id device_id b e = rw e refl

-- The statements.
pub seats-touch :
    (id now : ℕ) (db : Db)
    → seats (record db {
      devices =
          update_where (λ d. nat_beq d.id id) (λ d. record d { last_seen_at = now }) db.devices;
    })
      ≡ seats db
unfolding seats
seats-touch id now db = Quot.sound λ l d.
    count_where-update_where (is_active_device l d) (λ d. nat_beq d.id id)
      (λ d. record d { last_seen_at = now }) db.devices (λ d. refl)

count-upsert :
    (l d : String) (fresh : ℕ) (x : Device) (ds : List Device)
    → x.deactivated_at ≡ none
    → find_where (is_active_device x.license_id x.device_id) ds ≡ none
    → count_where (is_active_device l d) (upsert_device fresh x ds)
      ≡ count_where (is_active_device l d) (x ∷ ds)
unfolding upsert_device
count-upsert l d fresh x [] a e = ground (arith)
count-upsert l d fresh x (y ∷ ds) a e = ground (
  arith,
  eq_iff y.license_id x.license_id,
  eq_iff y.device_id x.device_id,
  count-upsert l d fresh x ds a,
)

pub seats-upsert :
    (license_id device_id device_name : String) (now next : ℕ) (db : Db)
    → find_active license_id device_id db ≡ none
    → seats (record db {
      devices =
          upsert_device db.next_device (new_device license_id device_id device_name now) db.devices;
      next_device = next;
    })
      ≡ put license_id device_id (seats db)
unfolding seats put
seats-upsert license_id device_id device_name now next db free = Quot.sound λ l d.
    count-upsert l d db.next_device (new_device license_id device_id device_name now) db.devices
      refl free

count-free :
    (l d license_id device_id : String) (now : ℕ) (ds : List Device)
    → count_where (is_active_device l d) (
        update_where
          (is_active_device license_id device_id)
          (λ x. record x { deactivated_at = some now })
          ds)
      ≡ count_where (is_active_device l d) (without license_id device_id ds)
count-free l d license_id device_id now [] = refl
count-free l d license_id device_id now (x ∷ ds) =
    elim (Bool-cases (is_active_device license_id device_id x)) [
      | inl hit ↦ ground (arith, hit, count-free l d license_id device_id now ds)
      | inr miss ↦ ground (arith, miss, count-free l d license_id device_id now ds)
    ]

pub seats-free :
    (license_id device_id : String) (now : ℕ) (db : Db)
    → seats (record db {
      devices =
          update_where
            (is_active_device license_id device_id)
            (λ d. record d { deactivated_at = some now })
            db.devices;
    })
      ≡ remove license_id device_id (seats db)
unfolding seats remove
seats-free license_id device_id now db =
    Quot.sound λ l d. count-free l d license_id device_id now db.devices
