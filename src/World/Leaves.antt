-- ===== src/World/Leaves.antt =====
-- A part of the tables that a call leaves as it was, however the call ends.
use seatkey.Store.Schema.{Db}
use seatkey.Common.{false, true, none, if◌then◌else◌, some, Bool, Option, ◌≡◌, refl, ◌∙◌}
use seatkey.World.{
  driver, or_not_found, exec_result, query_row, exec, query, resume, World, Call, Result, ok, err,
  ◌>>=◌,
}

module _ {X : Type 0} (part : Db → X) where
  abbrev pub Leaves : {A : Type 0} → Call A → Type 0
  Leaves m = (w : World) → part (m w).1.db ≡ part w.db

  pub Leaves-bind :
      {A B : Type 0} (m : Call A) (k : A → Call B)
      → Leaves m
      → ((a : A) → Leaves (k a))
      → Leaves (m >>= k)
  Leaves-bind {A} m k first rest w = go (m w) (first w)
    where
      go : (p : Result A × World) → part p.1.db ≡ part w.db → part (resume k p).1.db ≡ part w.db
      go (ok a, w') h = rest a w' ∙ h
      go (err e, w') h = h

  pub Leaves-query : {A : Type 0} (read : Db → A) → Leaves (query read)
  Leaves-query read w = refl

  pub Leaves-query_row : {A : Type 0} (read : Db → Option A) → Leaves (query_row read)
  Leaves-query_row read = Leaves-bind (query read) or_not_found (Leaves-query read) go
    where
      go : {A : Type 0} (o : Option A) → Leaves (or_not_found o)
      go none w = refl
      go (some a) w = refl

  -- A statement that leaves the part alone where it succeeds.
  pub Leaves-exec :
      {A : Type 0} (write : Db → Result (A × Db))
      → ((db db' : Db) (a : A) → write db ≡ ok (a, db') → part db' ≡ part db)
      → Leaves (exec write)
  Leaves-exec {A} write same w = go (w.outside.fault w.calls) (write w.db) refl
    where
      go :
          (b : Bool) (r : Result (A × Db))
          → write w.db ≡ r
          → part (exec_result w (if b then err driver else r)).1.db ≡ part w.db
      go true r e = refl
      go false (err x) e = refl
      go false (ok (a, db')) e = same w.db db' a e
