-- ===== src/License/Race/Alone.antt =====
-- internal/license/service.go: a call whose statements nothing comes between.
use seatkey.Common.{refl}
use seatkey.Store.Devices.{get_active_device, active_device_count}
use seatkey.Common.{false, true, if◌then◌else◌, Bool, geb_ℤ, ℕ, ◌≡◌, String}
use seatkey.License.{is_not_found, add_seat, new_seat, seat_for, take_seat}
use seatkey.Store.Models.{Device, License}
use seatkey.World.{fail, ok, err, device_limit, fail_if, resume, Result, World}
use seatkey.License.Race.{
  counting, after_look, adding, finished, after_count, ended, Phase, advance, looking,
}

abbrev pub advance_on : License → String → String → Phase × World → Phase × World
advance_on lic device_id device_name (p, w) = advance lic device_id device_name p w

-- Three steps of a call with no other between them are the whole of the service's `switch`.
pub advance-take_seat :
    (lic : License) (device_id device_name : String) (w : World)
    → advance_on lic device_id device_name
        (advance_on lic device_id device_name (advance lic device_id device_name looking w))
      ≡ ended (take_seat lic device_id device_name w)
unfolding advance take_seat seat_for new_seat
advance-take_seat lic device_id device_name w = go (get_active_device lic.id device_id w)
  where
    counted :
        (p : Result ℕ × World)
        → advance_on lic device_id device_name (after_count lic p)
          ≡ ended (
              resume
                (λ count.
                  fail_if
                    (geb_ℤ count lic.max_devices)
                    device_limit
                    (add_seat lic device_id device_name))
                p)
    counted (err e, w') = refl
    counted (ok n, w') = pick (geb_ℤ n lic.max_devices)
      where
        pick :
            (b : Bool)
            → advance_on lic device_id device_name
                ((if b then finished (err device_limit) else adding), w')
              ≡ ended (fail_if b device_limit (add_seat lic device_id device_name) w')
        pick true = refl
        pick false = refl

    go :
        (p : Result Device × World)
        → advance_on lic device_id device_name (advance_on lic device_id device_name (after_look p))
          ≡ ended (seat_for lic device_id device_name p.0 p.1)
    go (ok dev, w') = refl
    go (err e, w') = pick (is_not_found e)
      where
        pick :
            (b : Bool)
            → advance_on lic device_id device_name (
                advance_on lic device_id device_name
                  ((if b then counting else finished (err e)), w'))
              ≡ ended ((if b then new_seat lic device_id device_name else fail e) w')
        pick true = counted (active_device_count lic.id w')
        pick false = refl
