-- ===== src/Seatkeyd/Restart.antt =====
-- cmd/seatkeyd/main.go: the key pair of the next start of the server.
use seatkey.Store.Settings.Values.{set_setting-Stored, Stored}
use seatkey.Crypto.Base64.{encode}
use seatkey.World.Rules.{query-Queried, Wrote, bind_rule, Queried, transport_Same, Same}
use seatkey.Common.{
  ◌∙◌, arith, inl, subst, inr, refl, false, ◌==◌, sym, ◌⊎◌, none, some, ℕ, ◌≡◌, Option, String,
}
use seatkey.Store.Settings.{set_setting, get_setting, read_setting}
use seatkey.Seatkeyd.{seed_key, seed_of, new_seed, load_or_create_keypair}
use seatkey.Crypto.{bytes_from, keypair_from_seed, Bytes, generate_seed, Ed25519}
use seatkey.World.{err, rand_result, pure, resume, lift, ok, Result, World, ◌>>=◌, ◌>>◌}

-- Only the seed's setting may have been written.
abbrev pub OnlySeed : World → World → Type 0
OnlySeed w w' =
    ((other : String)
      → (seed_key == other) ≡ false
      → read_setting other w'.db ≡ read_setting other w.db)
    × Wrote w (record w.db { settings = w'.db.settings }) w'

-- The pair is that of the seed that the settings hold now, and held before unless they held none. After
-- a failure the seed is the one of before, unless there was none and a new one was kept.
abbrev pub Loaded : Ed25519 → World → Result (Bytes × Bytes) × World → Type 0
Loaded e w (ok pair, w') =
    ((seed : String) × (read_setting seed_key w'.db ≡ some seed)
      × (keypair_from_seed e seed ≡ ok pair)
      × ((read_setting seed_key w.db ≡ some seed) ⊎ (read_setting seed_key w.db ≡ none)))
    × OnlySeed w w'
Loaded e w (err x, w') =
    ((read_setting seed_key w'.db ≡ read_setting seed_key w.db)
      ⊎ ((seed : String) × (read_setting seed_key w.db ≡ none)
          × (read_setting seed_key w'.db ≡ some seed)))
    × OnlySeed w w'

Loaded-Same :
    (e : Ed25519) (w w' : World)
    → Same w w'
    → (p : Result (Bytes × Bytes) × World) → Loaded e w' p
    → Loaded e w p
Loaded-Same e w w' same p h = transport_Same (λ x. Loaded e x p) w w' same h

of_seed :
    (e : Ed25519) (w w' : World) (seed : String) (r : Result (Bytes × Bytes))
    → read_setting seed_key w'.db ≡ some seed
    → (read_setting seed_key w.db ≡ some seed) ⊎ (read_setting seed_key w.db ≡ none)
    → OnlySeed w w'
    → keypair_from_seed e seed ≡ r
    → Loaded e w (r, w')
of_seed e w w' seed (ok pair) now before only made = ((seed, now, made, before), only)
of_seed e w w' seed (err x) now (inl held) only made = (inl (now ∙ sym held), only)
of_seed e w w' seed (err x) now (inr missing) only made = (inr (seed, missing, now), only)

-- A seed that was drawn; it reaches nothing but the random source.
seed_drawn : (w : World) → Same w (generate_seed w).1
unfolding generate_seed
seed_drawn w = go (w.outside.random w.calls)
  where
    go :
        (o : Option (ℕ → ℕ))
        → Same w (resume (λ buf. pure (encode (bytes_from buf 0 32))) (rand_result w o)).1
    go none = (refl, refl, refl)
    go (some buf) = (refl, refl, refl)

unwritten : (w w' : World) → Same w w' → OnlySeed w w'
unwritten w w' same = (λ other apart. rw same.0 refl, (rw same.0 refl, same.1, same.2))

-- A seed that was drawn and stored.
abbrev pub Kept : World → Result String × World → Type 0
Kept w (ok seed, w') = (read_setting seed_key w'.db ≡ some seed) × OnlySeed w w'
Kept w (err e, w') = Same w w'

Kept-Same : (w w' : World) → Same w w' → (p : Result String × World) → Kept w' p → Kept w p
Kept-Same w w' same p h = transport_Same (λ x. Kept x p) w w' same h

new_seed-Kept : (w : World) → Kept w (new_seed w)
unfolding new_seed
new_seed-Kept w =
    bind_rule (λ p. Same w p.1) (Kept w) generate_seed _ w (seed_drawn w) (λ e w1 h. h)
      (λ seed w1 h. Kept-Same w w1 h ((set_setting seed_key seed >> pure seed) w1) (store seed w1))
  where
    store : (seed : String) (w : World) → Kept w ((set_setting seed_key seed >> pure seed) w)
    store seed w =
        bind_rule (Stored seed_key seed w) (Kept w) (set_setting seed_key seed) _ w
          (set_setting-Stored seed_key seed w) (λ e w' h. h.1) (λ u w' h. (h.0, (h.1, h.2)))

created :
    (e : Ed25519) (w : World)
    → read_setting seed_key w.db ≡ none
    → Loaded e w ((new_seed >>= λ seed. lift (keypair_from_seed e seed)) w)
created e w missing =
    bind_rule (Kept w) (Loaded e w) new_seed _ w (new_seed-Kept w)
      (λ x w' h. (inl (rw h.0 refl), unwritten w w' h))
      (λ seed w' h. of_seed e w w' seed (keypair_from_seed e seed) h.0 (inr missing) h.1 refl)

-- The server starts with the pair of the seed that the settings then hold: the one that they held
-- before, or a new one if they held none. Nothing but that setting is written, whatever fails: every
-- other setting and table is as before, and a seed that was stored is still there.
pub load_or_create_keypair-Loaded :
    (e : Ed25519) (w : World) → Loaded e w (load_or_create_keypair e w)
unfolding load_or_create_keypair get_setting seed_of
load_or_create_keypair-Loaded e w =
    bind_rule (Queried w (read_setting seed_key)) (Loaded e w) (get_setting seed_key) _ w
      (query-Queried (read_setting seed_key) w)
      (λ x w1 h. (inl (rw h.1.0 refl), unwritten w w1 h.1)) go
  where
    go :
        (o : Option String) (w1 : World)
        → Queried w (read_setting seed_key) (ok o, w1)
        → Loaded e w ((seed_of o >>= λ seed. lift (keypair_from_seed e seed)) w1)
    go none w1 h =
        let missing : read_setting seed_key w1.db ≡ none = rw h.1.0 (sym h.0) in
        Loaded-Same e w w1 h.1 ((new_seed >>= λ seed. lift (keypair_from_seed e seed)) w1)
          (created e w1 missing)
    go (some seed) w1 h =
        let known : read_setting seed_key w1.db ≡ some seed = rw h.1.0 (sym h.0) in
        of_seed e w w1 seed (keypair_from_seed e seed) known (inl (sym h.0)) (unwritten w w1 h.1)
          refl

-- A restart finds the same pair: as long as the seed's setting is as the first start left it, a start
-- that succeeds gives the pair that the first one gave.
pub load_or_create_keypair_again :
    (e : Ed25519) (w w' later last : World) (pair pair' : Bytes × Bytes)
    → load_or_create_keypair e w ≡ (ok pair, w')
    → read_setting seed_key later.db ≡ read_setting seed_key w'.db
    → load_or_create_keypair e later ≡ (ok pair', last)
    → pair' ≡ pair
load_or_create_keypair_again e w w' later last pair pair' first kept second =
    let ((seed, now, made, before), only) =
      subst (Loaded e w) first (load_or_create_keypair-Loaded e w) in
    let ((seed', now', made', before'), only') =
      subst (Loaded e later) second (load_or_create_keypair-Loaded e later) in
    elim before' [
      | inl old ↦ let same : seed' ≡ seed = ground (arith, old, kept, now) in cc (same, made, made')
      | inr missing ↦ absurd (cc (missing, kept, now))
    ]
