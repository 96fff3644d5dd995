-- ===== src/License/Race/Steps.antt =====
-- internal/license/service.go: what one step of an activation does to the seats in use and to come.
use seatkey.Store.Devices.Seats.{count_seats-touch}
use seatkey.Store.Devices.Outcomes.{
  active_device_count-Counted, get_active_device-Looked, activate_device-Activated, Counted,
  touch_device-Touched, Looked, Activated, Touched,
}
use seatkey.License.{is_not_found, notify, add_seat}
use seatkey.Common.Rows.{count_where}
use seatkey.World.Rules.{Same}
use seatkey.Common.{
  zero, refl, sym, false, ◌∙◌, true, geb_ℤ-false, inr, to_nat, suc, inl, if◌then◌else◌, ◌<◌, geb_ℤ,
  Bool, [], ◌⊎◌, ap, length, ◌∷◌, ◌+◌, ◌≡◌, arith, ◌≤◌, String, ℕ, List,
}
use seatkey.Store.Models.{Device, License}
use seatkey.Store.Devices.{
  active_device_count, get_active_device, activate_device, touch_device, new_device, holds_seat,
  count_seats, upsert_device,
}
use seatkey.World.{device_limit, ok, resume, err, Result, Error, World}
use seatkey.License.Race.{
  step, after_count, after_look, ended, finished, counting, touching, adding, advance, Racer, Phase,
  looking,
}

count_seats-upsert_le :
    (license_id : String) (fresh : ℕ) (d : Device) (ds : List Device)
    → count_where (holds_seat license_id) (upsert_device fresh d ds)
      ≤ suc (count_where (holds_seat license_id) ds)
unfolding upsert_device
count_seats-upsert_le license_id fresh d [] = ground arith
count_seats-upsert_le license_id fresh d (x ∷ ds) =
    ground (arith, count_seats-upsert_le license_id fresh d ds)

-- Whether a call is about to add a seat.
abbrev pub pending : Phase → ℕ
pending adding = 1
pending _ = 0

abbrev pub all_pending : List Racer → ℕ
all_pending [] = 0
all_pending (r ∷ rs) = pending r.phase + all_pending rs

pending_le : (p : Phase) → pending p ≤ 1
pending_le looking = omega arith
pending_le (touching id) = omega arith
pending_le counting = omega arith
pending_le adding = omega arith
pending_le (finished r) = omega arith

pub all_pending_le : (rs : List Racer) → all_pending rs ≤ length rs
all_pending_le [] = omega arith
all_pending_le (r ∷ rs) = omega (arith, pending_le r.phase, all_pending_le rs)

module _ (lic : License) where
  abbrev pub seats : World → ℕ
  seats w = count_seats lic.id w.db

  -- The seats in use and about to be rise only where the limit was not reached.
  abbrev pub Moved : World → ℕ → World → ℕ → Type 0
  Moved w n w' n' = (seats w' + n' ≤ seats w + n) ⊎ (seats w' < to_nat lic.max_devices)

  pub seats_kept : (w w' : World) → Same w w' → seats w' ≡ seats w
  seats_kept w w' same = ap (count_seats lic.id) same.0

  module _ (device_id device_name : String) where
    looking-Moved :
        (w : World)
        → let (p, w') = advance lic device_id device_name looking w in Moved w 0 w' (pending p)
    unfolding advance
    looking-Moved w =
        go (get_active_device lic.id device_id w) (get_active_device-Looked lic.id device_id w)
      where
        pick : (b : Bool) (e : Error) → pending (if b then counting else finished (err e)) ≡ 0
        pick true e = refl
        pick false e = refl

        go :
            (p : Result Device × World)
            → Looked lic.id device_id w p
            → Moved w 0 (after_look p).1 (pending (after_look p).0)
        go (ok d, w') h = inl (omega (arith, seats_kept w w' h.1))
        go (err e, w') h = inl (omega (arith, seats_kept w w' h.1, pick (is_not_found e) e))

    touching-Moved :
        (id : ℕ) (w : World)
        → let (p, w') = advance lic device_id device_name (touching id) w in
          Moved w 0 w' (pending p)
    unfolding advance
    touching-Moved id w = go (touch_device id w) (touch_device-Touched id w)
      where
        go :
            (p : Result (Unit {0}) × World)
            → Touched id w p
            → Moved w 0 (ended p).1 (pending (ended p).0)
        go (ok u, w') ((now, same), quiet) =
            inl (rw same (omega (arith, count_seats-touch lic.id id now w.db.devices)))
        go (err e, w') h = inl (omega (arith, seats_kept w w' h.1))

    counting-Moved :
        (w : World)
        → let (p, w') = advance lic device_id device_name counting w in Moved w 0 w' (pending p)
    unfolding advance
    counting-Moved w = go (active_device_count lic.id w) (active_device_count-Counted lic.id w)
      where
        pick :
            (b : Bool) (n : ℕ) (w' : World)
            → geb_ℤ n lic.max_devices ≡ b
            → n ≡ seats w'
            → seats w' ≡ seats w
            → Moved w 0 w' (pending (if b then finished (err device_limit) else adding))
        pick true n w' e c same = inl (omega arith)
        pick false n w' e c same = inr (omega (arith, geb_ℤ-false n lic.max_devices e))

        go :
            (p : Result ℕ × World)
            → Counted lic.id w p
            → Moved w 0 (after_count lic p).1 (pending (after_count lic p).0)
        go (ok n, w') h =
            pick (geb_ℤ n lic.max_devices) n w' refl (h.0 ∙ sym (seats_kept w w' h.1))
              (seats_kept w w' h.1)
        go (err e, w') h = inl (omega (arith, seats_kept w w' h.1))

    adding-Moved :
        (w : World)
        → let (p, w') = advance lic device_id device_name adding w in Moved w 1 w' (pending p)
    unfolding advance add_seat notify
    adding-Moved w =
        go (activate_device lic.id device_id device_name w)
          (activate_device-Activated lic.id device_id device_name w)
      where
        go :
            (p : Result Device × World)
            → Activated lic.id device_id device_name w p
            → let (q, w') = ended (resume (notify "activation" lic) p) in Moved w 1 w' (pending q)
        go (ok d, w') (named, (now, (next, same)), quiet) = inl (
            rw same (
              omega (
                arith,
                count_seats-upsert_le lic.id w.db.next_device
                    (new_device lic.id device_id device_name now) w.db.devices,
              )))
        go (err e, w') h = inl (omega (arith, seats_kept w w' h.1))

    finished-Moved :
        (r : Result (Unit {0})) (w : World)
        → let (p, w') = advance lic device_id device_name (finished r) w in Moved w 0 w' (pending p)
    unfolding advance
    finished-Moved r w = inl (omega arith)

    advance-Moved :
        (p : Phase) (w : World)
        → let (p', w') = advance lic device_id device_name p w in
          Moved w (pending p) w' (pending p')
    advance-Moved looking w = looking-Moved w
    advance-Moved (touching id) w = touching-Moved id w
    advance-Moved counting w = counting-Moved w
    advance-Moved adding w = adding-Moved w
    advance-Moved (finished r) w = finished-Moved r w

  pub step-Moved :
      (i : ℕ) (rs : List Racer) (w : World)
      → let (rs', w') = step lic i rs w in
        Moved w (all_pending rs) w' (all_pending rs') × (length rs' ≡ length rs)
  unfolding step
  step-Moved i [] w = (inl (omega arith), refl)
  step-Moved zero (r ∷ rs) w = (
    elim (advance-Moved r.device_id r.device_name r.phase w) [
      | inl h ↦ inl (omega (arith, h))
      | inr h ↦ inr h
    ],
    refl,
  )
  step-Moved (suc i) (r ∷ rs) w =
      let (moved, len) = step-Moved i rs w in
      (elim moved [ inl h ↦ inl (omega (arith, h)) | inr h ↦ inr h ], ap suc len)
