-- ===== src/Store/Licenses/Key.antt =====
-- internal/store/licenses.go: the license keys, SEAT-XXXX-XXXX-XXXX-XXXX.
use Prim.Native.String.{count}
use Prim.Native.String
use seatkey.Common.{ℕ, zero, suc, ◌*◌, ◌%◌, String}
use seatkey.World.{Call, pure, rand_read, ◌>>=◌}

abbrev pub crockford : String
crockford = "0123456789ABCDEFGHJKMNPQRSTVWXYZ"

-- `s[i]` as a text. An index out of range would panic; the remainder below rules it out.
unfoldable pub symbol_at : String → ℕ → String
symbol_at String.[] i = ""
symbol_at (String.◌∷◌ c s) zero = String.◌∷◌ c ""
symbol_at (String.◌∷◌ c s) (suc i) = symbol_at s i

abbrev pub groups : ℕ
groups = 4

abbrev pub group_len : ℕ
group_len = 4

-- The inner loop, with the index into the buffer and the rounds left.
unfoldable pub write_symbols : (ℕ → ℕ) → ℕ → ℕ → String → String
write_symbols buf k zero b = b
write_symbols buf k (suc left) b =
    write_symbols buf (suc k) left (String.◌++◌ b (symbol_at crockford (buf k % count crockford)))

-- The outer loop over the groups.
unfoldable pub write_groups : (ℕ → ℕ) → ℕ → ℕ → String → String
write_groups buf g zero b = b
write_groups buf g (suc left) b =
    write_groups buf (suc g) left (write_symbols buf (g * group_len) group_len (String.◌++◌ b "-"))

unfoldable pub generate_license_key : Call String
unfolding write_groups write_symbols symbol_at
generate_license_key = do buf ← rand_read; pure (write_groups buf 0 groups "SEAT")
