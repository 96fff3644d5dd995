-- ===== src/Seatkeyd.antt =====
-- cmd/seatkeyd/main.go: the server's key pair, which the database keeps.
use seatkey.Store.Settings.{set_setting, get_setting}
use seatkey.Common.{none, some, Option, String}
use seatkey.Crypto.{keypair_from_seed, Bytes, generate_seed, Ed25519}
pub mod Restart
pub mod Start
pub mod Target
pub mod Issued
use seatkey.World.{lift, pure, Call, ◌>>=◌, ◌>>◌}

abbrev pub seed_key : String
seed_key = "signing_key_seed"

-- The branch that generates a seed and keeps it.
unfoldable pub new_seed : Call String
new_seed = do seed ← generate_seed; set_setting seed_key seed; pure seed

-- The seed, read or new.
unfoldable pub seed_of : Option String → Call String
seed_of none = new_seed
seed_of (some seed) = pure seed

unfoldable pub load_or_create_keypair : Ed25519 → Call (Bytes × Bytes)
load_or_create_keypair e = do
  stored ← get_setting seed_key
  seed ← seed_of stored
  lift (keypair_from_seed e seed)
