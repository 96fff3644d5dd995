-- ===== src/Store/Open.antt =====
-- internal/store/store.go: `Open`. The database file is the tables that it held when it was closed,
-- or none; an in-memory database has no pragma and no file.
use seatkey.Common.{not, Option, none, some, String, ◌==◌}
use seatkey.Store.Schema.{Db, empty_db}

-- CREATE TABLE IF NOT EXISTS leaves the tables of a file as they are.
unfoldable pub open_db : String → Option Db → Db
open_db path none = empty_db (not (path == ":memory:"))
open_db path (some file) = record file { foreign_keys = not (path == ":memory:") }
