-- ===== src/Client/Machine.antt =====
-- cmd/democli: the customer's machine that a command runs on, and the command as a function from it to
-- a result and the machine after.
use seatkey.Common.{none, some, Bool, if◌then◌else◌, List, Option, ℕ, String, ◌∷◌, suc}
use seatkey.Crypto.{Bytes}
use seatkey.License.{Token}
use seatkey.World

-- Why a command ends with an error. A message that wraps another error keeps that error.
pub data Failure : Type 0 where
  missing_flags unreadable unwritable malformed no_contact : Failure
  rejected : String → Failure
  bad_status : ℕ → Failure
  crypto : World.Error → Failure
  lapsed : (offline : Bool) → Failure

pub data Outcome (A : Type 0) : Type 0 where
  done : A → Outcome A
  failed : Failure → Outcome A

-- The answer to an HTTP request, with as much of its body as was read.
pub record Reply : Type 0 where
  pub status : ℕ
  pub body : Bytes

-- A request: a POST with the fields of its JSON body, or a GET.
pub data Sent : Type 0 where
  posted : (url : String) → (fields : List (String × String)) → Sent
  got : (url : String) → Sent

-- What a command prints on success.
pub data Line : Type 0 where
  activated licensed : Token → Line
  deactivated verified : Line
  offline_request : List (String × String) → Line

-- The outside by the number of the interaction: the clock, the answer to a request or none, whether
-- an access to a file fails, and what a write that fails leaves in the file; and the other files.
pub record Surroundings : Type 0 where
  pub clock : ℕ → ℕ
  pub answer : ℕ → Option Reply
  pub fault : ℕ → Bool
  pub torn : ℕ → Option Bytes
  pub torn_text : ℕ → Option String
  pub file : String → Option Bytes

-- `license_file` and `pubkey_file` are license.json and pubkey.txt of the state directory.
pub record Machine : Type 0 where
  pub around : Surroundings
  pub calls : ℕ
  pub license_file : Option Bytes
  pub pubkey_file : Option String
  pub sent : List Sent
  pub printed : List Line

abbrev pub Command : Type 0 → Type 0
Command A = Machine → Outcome A × Machine

abbrev pub spend : Machine → Machine
spend m = record m { calls = suc m.calls }

abbrev pub proceed : {A B : Type 0} → (A → Command B) → Outcome A × Machine → Outcome B × Machine
proceed f (done a, m) = f a m
proceed f (failed e, m) = (failed e, m)

infixl 5 ◌>>=◌ ◌>>◌
abbrev pub ◌>>=◌ : {A B : Type 0} → Command A → (A → Command B) → Command B
◌>>=◌ c f m = proceed f (c m)

abbrev pub ◌>>◌ : {A B : Type 0} → Command A → Command B → Command B
c >> k = c >>= λ _. k

module _ {A : Type 0} where
  abbrev pub pure : A → Command A
  pure a m = (done a, m)

  abbrev pub fail : Failure → Command A
  fail e m = (failed e, m)

  -- A value that may be missing, with the failure for that.
  abbrev pub or_fail : Failure → Option A → Command A
  or_fail e none = fail e
  or_fail e (some a) = pure a

  -- The result of a function of internal/crypto.
  abbrev pub of_crypto : World.Result A → Command A
  of_crypto (World.ok a) = pure a
  of_crypto (World.err e) = fail (crypto e)

  -- `os.ReadFile`.
  abbrev pub read : (Machine → Option A) → Command A
  read file m = or_fail unreadable (if m.around.fault m.calls then none else file m) (spend m)

abbrev pub time_now : Command ℕ
time_now m = (done (m.around.clock m.calls), spend m)

-- `os.WriteFile` of license.json and of pubkey.txt.
abbrev pub write_license : Bytes → Command (Unit {0})
write_license bytes m =
    if m.around.fault m.calls
    then (failed unwritable, record (spend m) { license_file = m.around.torn m.calls })
    else (done tt, record (spend m) { license_file = some bytes })

abbrev pub write_pubkey : String → Command (Unit {0})
write_pubkey text m =
    if m.around.fault m.calls
    then (failed unwritable, record (spend m) { pubkey_file = m.around.torn_text m.calls })
    else (done tt, record (spend m) { pubkey_file = some text })

-- `os.Remove`, whose error is dropped.
abbrev pub remove_license : Command (Unit {0})
remove_license m =
    (done tt, if m.around.fault m.calls then spend m else record (spend m) { license_file = none })

-- A request and its answer.
abbrev pub exchange : Sent → Command Reply
exchange req m =
    or_fail no_contact (m.around.answer m.calls) (record (spend m) { sent = req ∷ m.sent })

abbrev pub print : Line → Command (Unit {0})
print line m = (done tt, record m { printed = line ∷ m.printed })
