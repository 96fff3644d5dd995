-- ===== src/World/Rules.antt =====
-- How a call in a world is reasoned about: what the first part of a `do` block guarantees of its
-- result and world is handed to the rest.
use seatkey.Common.{
  subst, ◌≡◌, refl, sym, ◌⊎◌, inl, inr, Option, none, some, Bool, true, false, if◌then◌else◌,
}
use seatkey.Store.Schema.{Db}
use seatkey.World.{
  World, Error, driver, Result, ok, err, Call, spend, resume, ◌>>=◌, query, query_row, or_not_found,
  not_found, exec, exec_result,
}

-- Nothing but the number of interactions differs.
abbrev pub Same : World → World → Type 0
Same w w' = (w'.db ≡ w.db) × (w'.notified ≡ w.notified) × (w'.outside ≡ w.outside)

-- Only the tables, now `db'`, and the number of interactions differ.
abbrev pub Wrote : World → Db → World → Type 0
Wrote w db' w' = (w'.db ≡ db') × (w'.notified ≡ w.notified) × (w'.outside ≡ w.outside)

pub sym_Same : (w w' : World) → Same w w' → Same w' w
sym_Same w w' same = (sym same.0, sym same.1, sym same.2)

-- A statement about what a world holds carries over to one that differs in its count only.
pub transport_Same :
    (F : World → Type 0) (w w' : World) → Same w w' → F (record w' { calls = w.calls }) → F w
transport_Same F w w' same x =
    subst F
      (λ i. record { outside = same.2 i; calls = w.calls; db = same.0 i; notified = same.1 i }) x

module _ {A B : Type 0} where
  pub bind_rule :
      (S : Result A × World → Type 0) (Q : Result B × World → Type 0) (m : Call A) (k : A → Call B)
      (w : World)
      → S (m w)
      → ((e : Error) (w' : World) → S (err e, w') → Q (err e, w'))
      → ((a : A) (w' : World) → S (ok a, w') → Q (k a w'))
      → Q ((m >>= k) w)
  bind_rule S Q m k w s failed done = go (m w) s
    where
      go : (p : Result A × World) → S p → Q (resume k p)
      go (ok a, w') h = done a w' h
      go (err e, w') h = failed e w' h

module _ {A : Type 0} where
  -- What a SELECT guarantees.
  abbrev pub Queried : World → (Db → A) → Result A × World → Type 0
  Queried w read (ok a, w') = (a ≡ read w.db) × Same w w'
  Queried w read (err e, w') = (e ≡ driver) × Same w w'

  pub query-Queried : (read : Db → A) (w : World) → Queried w read (query read w)
  query-Queried read w = go (w.outside.fault w.calls)
    where
      go : (b : Bool) → Queried w read (if b then err driver else ok (read w.db), spend w)
      go true = (refl, (refl, refl, refl))
      go false = (refl, (refl, refl, refl))

  -- What a statement that writes guarantees.
  abbrev pub Executed : World → (Db → Result (A × Db)) → Result A × World → Type 0
  Executed w write (ok a, w') = (write w.db ≡ ok (a, w'.db)) × Wrote w w'.db w'
  Executed w write (err e, w') = ((e ≡ driver) ⊎ (write w.db ≡ err e)) × Same w w'

  pub exec-Executed : (write : Db → Result (A × Db)) (w : World) → Executed w write (exec write w)
  exec-Executed write w = go (w.outside.fault w.calls) (write w.db) refl
    where
      go :
          (b : Bool) (r : Result (A × Db))
          → write w.db ≡ r
          → Executed w write (exec_result w (if b then err driver else r))
      go true r e = (inl refl, (refl, refl, refl))
      go false (err x) e = (inr e, (refl, refl, refl))
      go false (ok (a, db')) e = (e, (refl, refl, refl))

module _ {A : Type 0} where
  -- A row is found, or not found, or the driver fails; nothing is changed.
  abbrev pub Fetched : World → (Db → Option A) → Result A × World → Type 0
  Fetched w read (ok a, w') = (read w.db ≡ some a) × Same w w'
  Fetched w read (err e, w') = (((e ≡ not_found) × (read w.db ≡ none)) ⊎ (e ≡ driver)) × Same w w'

  or_not_found-Fetched :
      (w w' : World) (read : Db → Option A) (o : Option A)
      → o ≡ read w.db
      → Same w w'
      → Fetched w read (or_not_found o w')
  or_not_found-Fetched w w' read none e same = (inl (refl, sym e), same)
  or_not_found-Fetched w w' read (some a) e same = (sym e, same)

  pub query_row-Fetched : (read : Db → Option A) (w : World) → Fetched w read (query_row read w)
  query_row-Fetched read w =
      bind_rule (Queried w read) (Fetched w read) (query read) or_not_found w (query-Queried read w)
        (λ e w' h. (inr h.0, h.1)) (λ o w' h. or_not_found-Fetched w w' read o h.0 h.1)

module _ {A B : Type 0} where
  -- What follows a SELECT of one row, by the row: it goes on in the world of one interaction more.
  pub query_row_rule :
      (Q : Result B × World → Type 0) (read : Db → Option A) (k : A → Call B) (w : World)
      → Q (err driver, spend w)
      → (read w.db ≡ none → Q (err not_found, spend w))
      → ((a : A) → read w.db ≡ some a → Q (k a (spend w)))
      → Q ((query_row read >>= k) w)
  query_row_rule Q read k w broken missing found = go (w.outside.fault w.calls) (read w.db) refl
    where
      go :
          (b : Bool) (o : Option A)
          → read w.db ≡ o
          → Q (resume k (resume or_not_found (if b then err driver else ok o, spend w)))
      go true o e = broken
      go false none e = missing e
      go false (some a) e = found a e

  -- The same for a SELECT whose rows are taken as they are.
  pub query_rule :
      (Q : Result B × World → Type 0) (read : Db → A) (k : A → Call B) (w : World)
      → Q (err driver, spend w)
      → Q (k (read w.db) (spend w))
      → Q ((query read >>= k) w)
  query_rule Q read k w broken found = go (w.outside.fault w.calls)
    where
      go : (b : Bool) → Q (resume k (if b then err driver else ok (read w.db), spend w))
      go true = broken
      go false = found

-- A statement that violates no constraint fails in the driver only.
pub only_driver : {A : Type 0} {x : A} {e : Error} → (e ≡ driver) ⊎ (ok x ≡ err e) → e ≡ driver
only_driver (inl h) = h
only_driver (inr h) = absurd (cc)
