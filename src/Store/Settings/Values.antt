-- ===== src/Store/Settings/Values.antt =====
-- internal/store/settings.go: what is read after a write.
use seatkey.Common.Rows.{find_where}
use seatkey.World.Rules.{exec-Executed, Same, only_driver, Wrote, Executed}
use seatkey.Store.Schema.{Setting}
use seatkey.World.{driver, err, ok, Result, World}
use seatkey.Common.{
  refl, if◌then◌else◌, [], inr, eq_iff, inl, Bool-cases, ◌∷◌, ap, eq_refl, arith, false, some, ◌≡◌,
  ◌==◌, List, String,
}
use seatkey.Store.Settings.{read_setting, setting_value, set_setting, upsert_setting, write_setting}

read-upsert_setting :
    (key value : String) (rows : List Setting)
    → setting_value (find_where (λ s. s.key == key) (upsert_setting key value rows)) ≡ some value
unfolding upsert_setting
read-upsert_setting key value [] = rw (eq_refl key) refl
read-upsert_setting key value (s ∷ rest) = elim (Bool-cases (s.key == key)) [
  | inl hit ↦ rw hit (rw hit refl)
  | inr miss ↦ rw miss (rw miss (read-upsert_setting key value rest))
]

read_other-upsert_setting :
    (key value other : String) (rows : List Setting)
    → (key == other) ≡ false
    → find_where (λ s. s.key == other) (upsert_setting key value rows)
      ≡ find_where (λ (s : Setting). s.key == other) rows
unfolding upsert_setting
read_other-upsert_setting key value other [] apart = rw apart refl
read_other-upsert_setting key value other (s ∷ rest) apart = elim (Bool-cases (s.key == key)) [
  | inl hit ↦
      let miss : (s.key == other) ≡ false = ground (arith, hit, apart, eq_iff s.key key) in
      rw hit (rw miss refl)
  | inr miss ↦ rw miss (
      ap (λ o. if s.key == other then some s else o)
        (read_other-upsert_setting key value other rest apart))
]

-- What a write of a setting has done: the key has the value, any other key what it had, and nothing
-- else of the tables has changed.
abbrev pub Stored : String → String → World → Result (Unit {0}) × World → Type 0
Stored key value w (ok _, w') =
    (read_setting key w'.db ≡ some value)
    × ((other : String)
        → (key == other) ≡ false
        → read_setting other w'.db ≡ read_setting other w.db)
    × Wrote w (record w.db { settings = w'.db.settings }) w'
Stored key value w (err e, w') = (e ≡ driver) × Same w w'

-- A write of a setting that succeeds gives the key the value and leaves every other key and everything
-- else of the tables as it was; one that fails does so in the driver and changes nothing.
pub set_setting-Stored :
    (key value : String) (w : World) → Stored key value w (set_setting key value w)
unfolding set_setting write_setting
set_setting-Stored key value w =
    go (set_setting key value w) (exec-Executed (write_setting key value) w)
  where
    go :
        (r : Result (Unit {0}) × World)
        → Executed w (write_setting key value) r
        → Stored key value w r
    go (ok u, w') h =
        let wrote : w'.db ≡ record w.db { settings = upsert_setting key value w.db.settings } =
          ground (arith, h.0) in
        (
          rw wrote (read-upsert_setting key value w.db.settings),
          (λ other apart.
              rw wrote
                (ap setting_value (read_other-upsert_setting key value other w.db.settings apart))),
          (rw wrote refl, h.1.1, h.1.2),
        )
    go (err e, w') h = (only_driver h.0, h.1)
