-- ===== src/Store/Settings.antt =====
-- internal/store/settings.go.
pub mod Values
use seatkey.Common.{Option, none, some, List, [], ◌∷◌, String, ◌==◌, if◌then◌else◌}
use seatkey.Common.Rows.{find_where}
use seatkey.Store.Schema.{Db, Setting}
use seatkey.World.{Call, Result, ok, query, exec}

abbrev pub setting_value : Option Setting → Option String
setting_value none = none
setting_value (some s) = some s.value

abbrev pub read_setting : String → Db → Option String
read_setting key db = setting_value (find_where (λ s. s.key == key) db.settings)

-- The value and the flag that says whether it was found are one `Option`.
unfoldable pub get_setting : String → Call (Option String)
get_setting key = query (read_setting key)

-- INSERT … ON CONFLICT(key) DO UPDATE SET value = excluded.value.
pub upsert_setting : String → String → List Setting → List Setting
upsert_setting key value [] = record { key = key; value = value } ∷ []
upsert_setting key value (s ∷ rest) =
    if s.key == key then record s { value = value } ∷ rest else s ∷ upsert_setting key value rest

write_setting : String → String → Db → Result (Unit {0} × Db)
write_setting key value db = ok (tt, record db { settings = upsert_setting key value db.settings })

unfoldable pub set_setting : String → String → Call (Unit {0})
unfolding write_setting upsert_setting
set_setting key value = exec (write_setting key value)
