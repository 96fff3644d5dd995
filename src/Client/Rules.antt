-- ===== src/Client/Rules.antt =====
-- cmd/democli: what one step of a command hands on to the rest.
use seatkey.Common.{false, true, refl, if◌then◌else◌, none, Bool, some, ◌≡◌, ◌∙◌, Option}
use seatkey.Client.Machine.{
  spend, unreadable, proceed, failed, done, Command, read, or_fail, Outcome, Machine, Failure,
  ◌>>=◌,
}

-- Nothing but the number of interactions differs, and what was sent and printed.
abbrev pub KeepsFiles : Machine → Machine → Type 0
KeepsFiles m m' =
    (m'.license_file ≡ m.license_file) × (m'.pubkey_file ≡ m.pubkey_file) × (m'.around ≡ m.around)

-- Nothing but the number of interactions differs: no request was made, and nothing printed.
abbrev pub IsQuiet : Machine → Machine → Type 0
IsQuiet m m' = KeepsFiles m m' × (m'.sent ≡ m.sent) × (m'.printed ≡ m.printed)

pub trans_IsQuiet : (m m1 m' : Machine) → IsQuiet m m1 → IsQuiet m1 m' → IsQuiet m m'
trans_IsQuiet m m1 m' ((a, b, c), d, p) ((e, f, g), h, q) = ((e ∙ a, f ∙ b, g ∙ c), h ∙ d, q ∙ p)

module _ {A B : Type 0} where
  pub bind_rule :
      (S : Outcome A × Machine → Type 0) (Q : Outcome B × Machine → Type 0) (c : Command A)
      (k : A → Command B) (m : Machine)
      → S (c m)
      → ((e : Failure) (m' : Machine) → S (failed e, m') → Q (failed e, m'))
      → ((a : A) (m' : Machine) → S (done a, m') → Q (k a m'))
      → Q ((c >>= k) m)
  bind_rule S Q c k m s bad good = go (c m) s
    where
      go : (p : Outcome A × Machine) → S p → Q (proceed k p)
      go (done a, m') h = good a m' h
      go (failed e, m') h = bad e m' h

module _ {A : Type 0} where
  -- What reading a file gives: its content, and nothing else has happened.
  abbrev pub HasRead : (Machine → Option A) → Machine → Outcome A × Machine → Type 0
  HasRead file m (done a, m') = (file m ≡ some a) × IsQuiet m m'
  HasRead file m (failed e, m') = IsQuiet m m' × (e ≡ unreadable)

  pub read-HasRead : (file : Machine → Option A) (m : Machine) → HasRead file m (read file m)
  read-HasRead file m = go (m.around.fault m.calls) (file m) refl
    where
      go :
          (b : Bool) (o : Option A)
          → file m ≡ o
          → HasRead file m (or_fail unreadable (if b then none else o) (spend m))
      go true o e = (((refl, refl, refl), refl, refl), refl)
      go false none e = (((refl, refl, refl), refl, refl), refl)
      go false (some a) e = (e, ((refl, refl, refl), refl, refl))

  -- What a value that may be missing gives.
  abbrev pub IsGiven : Option A → Machine → Outcome A × Machine → Type 0
  IsGiven o m (done a, m') = (o ≡ some a) × IsQuiet m m'
  IsGiven o m (failed e, m') = IsQuiet m m'

  pub or_fail-IsGiven : (e : Failure) (o : Option A) (m : Machine) → IsGiven o m (or_fail e o m)
  or_fail-IsGiven e none m = ((refl, refl, refl), refl, refl)
  or_fail-IsGiven e (some a) m = (refl, ((refl, refl, refl), refl, refl))
