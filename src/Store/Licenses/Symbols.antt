-- ===== src/Store/Licenses/Symbols.antt =====
-- internal/store/licenses.go: what a license key says of the random bytes that it was made from.
use seatkey.World.{ok, World}
use text.Mathlib.TextLemmas.{nil-append, cons-append}
use mathlib.Core.List.{append-nil, append_assoc, append_cancel_left}
use seatkey.Store.Licenses.Key.{crockford}
use seatkey.Store.Licenses.{generate_license_key, symbol_at, write_groups, write_symbols}
use Prim.Native.String
use Prim.Native.Char.{Char, code}
use seatkey.Common.{
  ◌↔◌, subst, ◌+◌, ◌∙◌, sym, ◌*◌, none, ◌%◌, ◌&&◌, arith, false, zero, ap, nat_beq, suc, ◌∷◌, some,
  Bool, true, if◌then◌else◌, ◌++◌, ◌<◌, [], List, ℕ, String, Option, ◌≡◌, refl,
}

-- The place of a character's code in a text, or the length of the text.
index_of : ℕ → String → ℕ
index_of n String.[] = 0
index_of n (String.◌∷◌ c s) = if nat_beq (code c) n then 0 else suc (index_of n s)

-- A dash, or a symbol by its place in the alphabet.
mark : Char → Option ℕ
unfolding index_of
mark c = if nat_beq (code c) 45 then none else some (index_of (code c) crockford)

-- A text, character by character.
unfoldable pub marks : String → List (Option ℕ)
unfolding mark
marks String.[] = []
marks (String.◌∷◌ c s) = mark c ∷ marks s

marks-append : (s t : String) → marks (String.◌++◌ s t) ≡ marks s ++ marks t
unfolding marks
marks-append String.[] t = ap marks (nil-append t)
marks-append (String.◌∷◌ c s) t =
    ap marks (cons-append c s t) ∙ ap (λ ms. mark c ∷ ms) (marks-append s t)

is_mark : List (Option ℕ) → ℕ → Bool
is_mark (some k ∷ []) i = nat_beq k i
is_mark _ i = false

is_mark-eq : (ms : List (Option ℕ)) (i : ℕ) → is_mark ms i ≡ true → ms ≡ some i ∷ []
unfolding is_mark
is_mark-eq [] i h = absurd (cc)
is_mark-eq (none ∷ ms) i h = absurd (cc)
is_mark-eq (some k ∷ []) i h = ground arith
is_mark-eq (some k ∷ m ∷ ms) i h = absurd (cc)

-- The first symbols of the alphabet are read as their places.
are_read : ℕ → Bool
unfolding is_mark marks symbol_at
are_read zero = true
are_read (suc n) = are_read n && is_mark (marks (symbol_at crockford n)) n

are_read-below :
    (i n : ℕ) → i < n → are_read n ≡ true → is_mark (marks (symbol_at crockford i)) i ≡ true
unfolding are_read
are_read-below i zero below h = absurd (omega arith)
are_read-below i (suc n) below h = ground (arith, are_read-below i n)

marks-symbol_at : (i : ℕ) → i < 32 → marks (symbol_at crockford i) ≡ some i ∷ []
unfolding are_read
marks-symbol_at i below =
    is_mark-eq (marks (symbol_at crockford i)) i (are_read-below i 32 below refl)

-- The symbols of a part of the buffer, and groups of them after dashes.
abbrev pub symbol_marks : (ℕ → ℕ) → ℕ → ℕ → List (Option ℕ)
symbol_marks buf k zero = []
symbol_marks buf k (suc left) = some (buf k % 32) ∷ symbol_marks buf (suc k) left

abbrev pub group_marks : (ℕ → ℕ) → ℕ → ℕ → List (Option ℕ)
group_marks buf g zero = []
group_marks buf g (suc left) = none ∷ symbol_marks buf (g * 4) 4 ++ group_marks buf (suc g) left

marks-write_symbols :
    (buf : ℕ → ℕ) (k n : ℕ) (b : String)
    → marks (write_symbols buf k n b) ≡ marks b ++ symbol_marks buf k n
unfolding write_symbols
marks-write_symbols buf k zero b = sym (append-nil (marks b))
marks-write_symbols buf k (suc n) b =
    marks-write_symbols buf (suc k) n (String.◌++◌ b (symbol_at crockford (buf k % 32)))
    ∙ ap (λ ms. ms ++ symbol_marks buf (suc k) n)
        (marks-append b (symbol_at crockford (buf k % 32))
          ∙ ap (λ ms. marks b ++ ms) (marks-symbol_at (buf k % 32) (omega arith)))
    ∙ append_assoc (marks b) (some (buf k % 32) ∷ []) (symbol_marks buf (suc k) n)

pub marks-write_groups :
    (buf : ℕ → ℕ) (g n : ℕ) (b : String)
    → marks (write_groups buf g n b) ≡ marks b ++ group_marks buf g n
unfolding write_groups marks
marks-write_groups buf g zero b = sym (append-nil (marks b))
marks-write_groups buf g (suc n) b =
    marks-write_groups buf (suc g) n (write_symbols buf (g * 4) 4 (String.◌++◌ b "-"))
    ∙ ap (λ ms. ms ++ group_marks buf (suc g) n)
        (marks-write_symbols buf (g * 4) 4 (String.◌++◌ b "-")
          ∙ ap (λ ms. ms ++ symbol_marks buf (g * 4) 4) (marks-append b "-")
          ∙ append_assoc (marks b) (none ∷ []) (symbol_marks buf (g * 4) 4))
    ∙ append_assoc (marks b) (none ∷ symbol_marks buf (g * 4) 4) (group_marks buf (suc g) n)

-- The marks of a part of the buffer tell its bytes modulo 32.
symbol_marks-inj :
    (buf buf' : ℕ → ℕ) (k n i : ℕ)
    → symbol_marks buf k n ≡ symbol_marks buf' k n
    → i < n
    → buf (k + i) % 32 ≡ buf' (k + i) % 32
symbol_marks-inj buf buf' k zero i e below = absurd (omega arith)
symbol_marks-inj buf buf' k (suc n) zero e below =
    let first : buf k % 32 ≡ buf' k % 32 = cc in
    subst (λ x. buf x % 32 ≡ buf' x % 32) (omega arith) first
symbol_marks-inj buf buf' k (suc n) (suc i) e below =
    subst (λ x. buf x % 32 ≡ buf' x % 32) (omega arith)
      (symbol_marks-inj buf buf' (suc k) n i (cc) (omega arith))

group_marks-inj :
    (buf buf' : ℕ → ℕ) (g n j i : ℕ)
    → group_marks buf g n ≡ group_marks buf' g n
    → j < n
    → i < 4
    → buf ((g + j) * 4 + i) % 32 ≡ buf' ((g + j) * 4 + i) % 32
group_marks-inj buf buf' g zero j i e below small = absurd (omega arith)
group_marks-inj buf buf' g (suc n) zero i e below small =
    subst (λ x. buf x % 32 ≡ buf' x % 32) (omega arith)
      (symbol_marks-inj buf buf' (g * 4) 4 i (cc) small)
group_marks-inj buf buf' g (suc n) (suc j) i e below small =
    subst (λ x. buf x % 32 ≡ buf' x % 32) (omega arith)
      (group_marks-inj buf buf' (suc g) n j i (cc) (omega arith) small)

-- The sixteen bytes of the two buffers are the same modulo 32.
abbrev pub SameSymbols : (ℕ → ℕ) → (ℕ → ℕ) → Type 0
SameSymbols buf buf' = (g i : ℕ) → g < 4 → i < 4 → buf (g * 4 + i) % 32 ≡ buf' (g * 4 + i) % 32

write_symbols-same :
    (buf buf' : ℕ → ℕ) (k n : ℕ) (b : String)
    → ((i : ℕ) → i < n → buf (k + i) % 32 ≡ buf' (k + i) % 32)
    → write_symbols buf k n b ≡ write_symbols buf' k n b
unfolding write_symbols
write_symbols-same buf buf' k zero b h = refl
write_symbols-same buf buf' k (suc n) b h =
    let first : buf k % 32 ≡ buf' k % 32 =
      subst (λ x. buf x % 32 ≡ buf' x % 32) (omega arith) (h 0 (omega arith)) in
    ap (λ x. write_symbols buf (suc k) n (String.◌++◌ b (symbol_at crockford x))) first
    ∙ write_symbols-same buf buf' (suc k) n (String.◌++◌ b (symbol_at crockford (buf' k % 32)))
        (λ i below. subst (λ x. buf x % 32 ≡ buf' x % 32) (omega arith) (h (suc i) (omega arith)))

write_groups-same :
    (buf buf' : ℕ → ℕ) (g n : ℕ) (b : String)
    → ((j i : ℕ) → j < n → i < 4 → buf ((g + j) * 4 + i) % 32 ≡ buf' ((g + j) * 4 + i) % 32)
    → write_groups buf g n b ≡ write_groups buf' g n b
unfolding write_groups
write_groups-same buf buf' g zero b h = refl
write_groups-same buf buf' g (suc n) b h =
    ap (write_groups buf (suc g) n) (
      write_symbols-same buf buf' (g * 4) 4 (String.◌++◌ b "-") (λ i below.
        subst (λ x. buf x % 32 ≡ buf' x % 32) (omega arith) (h 0 i (omega arith) below)))
    ∙ write_groups-same buf buf' (suc g) n (write_symbols buf' (g * 4) 4 (String.◌++◌ b "-"))
        (λ j i below small.
          subst (λ x. buf x % 32 ≡ buf' x % 32) (omega arith) (h (suc j) i (omega arith) small))

write_groups-SameSymbols :
    (buf buf' : ℕ → ℕ)
    → (write_groups buf 0 4 "SEAT" ≡ write_groups buf' 0 4 "SEAT") ↔ SameSymbols buf buf'
write_groups-SameSymbols buf buf' = (
  λ e g i below small.
      subst (λ x. buf x % 32 ≡ buf' x % 32) (omega arith)
        (group_marks-inj buf buf' 0 4 g i
          (append_cancel_left (marks "SEAT") (group_marks buf 0 4) (group_marks buf' 0 4) (
            sym (marks-write_groups buf 0 4 "SEAT")
            ∙ ap marks e
            ∙ marks-write_groups buf' 0 4 "SEAT"))
          below small),
  λ h.
      write_groups-same buf buf' 0 4 "SEAT" (λ j i below small.
        subst (λ x. buf x % 32 ≡ buf' x % 32) (omega arith) (h j i below small)),
)

ok_injective : {A : Type 0} {a b : A} → ok a ≡ ok b → a ≡ b
ok_injective e = cc

-- The random source gives two buffers, at whatever calls. The keys that are made of them are the same
-- exactly if all sixteen bytes of the buffers are the same modulo 32: a key keeps eighty random bits.
pub generate_license_key-SameSymbols :
    (w v : World) (buf buf' : ℕ → ℕ)
    → w.outside.random w.calls ≡ some buf
    → v.outside.random v.calls ≡ some buf'
    → ((generate_license_key w).0 ≡ (generate_license_key v).0) ↔ SameSymbols buf buf'
unfolding generate_license_key
generate_license_key-SameSymbols w v buf buf' r r' =
    rw (r, r')
      (
        λ e. (write_groups-SameSymbols buf buf').0 (ok_injective e),
        λ h. ap ok ((write_groups-SameSymbols buf buf').1 h),
      )
