-- ===== src/Common.antt =====
-- The names that all modules share: library names passed on, Boolean tests on the native numbers,
-- case splits that keep their equation, signed integers for Go's `int`, and predicates on lists.
pub mod Rows
pub use Prim.Native.Nat.{ℕ, zero, suc, ◌+◌, ◌-◌, ◌*◌, ◌/◌, ◌%◌, ◌^◌, ◌≤◌, ◌<◌}
pub use Prim.Native.String.{String}
pub use mathlib.Core.Path.{subst₂, ◌≡◌, refl, sym, ap, subst, ◌∙◌}
pub use mathlib.Core.Logic.{◌≢◌, ◌↔◌, ◌⊎◌, inl, inr}
pub use mathlib.Core.Bool.{Bool, true, false, not, ◌&&◌, ◌||◌}
pub use mathlib.Core.Option.{Option, none, some}
pub use mathlib.Core.List.{List, [], ◌∷◌, ◌++◌, map}
pub use native.Mathlib.Omega.{arith}
pub use text.Mathlib.Text.{◌==◌}
pub use text.Mathlib.TextEquality.{eq_iff}
pub use text.Mathlib.TextPositions.{eq_refl}
use Prim.Native.Nat.{compare, Ordering}

abbrev pub ltb : ℕ → ℕ → Bool
ltb a b = elim (compare a b) [ Ordering.lt ↦ true | _ ↦ false ]

abbrev pub leb : ℕ → ℕ → Bool
leb a b = elim (compare a b) [ Ordering.gt ↦ false | _ ↦ true ]

-- `==` is the comparison of texts; this one compares row ids and byte values.
abbrev pub nat_beq : ℕ → ℕ → Bool
nat_beq a b = elim (compare a b) [ Ordering.eq ↦ true | _ ↦ false ]

infix 1 if◌then◌else◌
abbrev pub if◌then◌else◌ {ℓ} : {A : Type ℓ} → Bool → A → A → A
if true then x else _ = x
if false then _ else y = y

pub Bool-cases : (b : Bool) → (b ≡ true) ⊎ (b ≡ false)
Bool-cases true = inl refl
Bool-cases false = inr refl

-- A Go pointer is nil, or a SQL column is NULL.
abbrev pub is_none {ℓ} : {A : Type ℓ} → Option A → Bool
is_none none = true
is_none (some _) = false

pub Option-cases {ℓ} : {A : Type ℓ} (o : Option A) → (o ≡ none) ⊎ ((a : A) × (o ≡ some a))
Option-cases none = inl refl
Option-cases (some a) = inr (a, refl)

-- A Go `int`: `negsuc n` is -(n + 1).
pub data ℤ : Type 0 where
  pos : ℕ → ℤ
  negsuc : ℕ → ℤ

-- How many of something an integer limit allows.
abbrev pub to_nat : ℤ → ℕ
to_nat (pos n) = n
to_nat (negsuc _) = 0

-- `n >= limit` for a count `n`.
abbrev pub geb_ℤ : ℕ → ℤ → Bool
geb_ℤ n (pos m) = leb m n
geb_ℤ n (negsuc _) = true

pub geb_ℤ-false : (n : ℕ) (m : ℤ) → geb_ℤ n m ≡ false → n < to_nat m
geb_ℤ-false n (pos m) h = ground arith
geb_ℤ-false n (negsuc m) h = cc

pub geb_ℤ-true : (n : ℕ) (m : ℤ) → geb_ℤ n m ≡ true → to_nat m ≤ n
geb_ℤ-true n (pos m) h = ground arith
geb_ℤ-true n (negsuc m) h = omega arith

abbrev pub length {ℓ} : {A : Type ℓ} → List A → ℕ
length [] = 0
length (_ ∷ xs) = suc (length xs)

abbrev pub All {ℓ κ} : {A : Type ℓ} → (A → Type κ) → List A → Type κ
All P [] = Unit
All P (x ∷ xs) = P x × All P xs

pub nat_beq-suc_zero : (n : ℕ) → nat_beq (suc n) 0 ≡ false
nat_beq-suc_zero n = ground arith
