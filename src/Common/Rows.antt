-- ===== src/Common/Rows.antt =====
-- Rows of a table, and the SQL that the store runs on them: a query that takes the first match,
-- a count, a selection, an update and a deletion by condition, and the order of a listing.
use mathlib.Core.List.{Perm}
use mathlib.Core.List.Perm
use seatkey.Common.{
  false, ◌++◌, ℕ, suc, ◌≤◌, ◌≡◌, refl, inl, inr, Bool, true, not, Option, none, some, List, [], ◌∷◌,
  arith, leb, if◌then◌else◌, Bool-cases, length,
}

module _ {ℓ} {A : Type ℓ} where
  -- `SELECT … WHERE …` read by `QueryRow`: the first row that meets the condition.
  abbrev pub find_where : (A → Bool) → List A → Option A
  find_where p [] = none
  find_where p (x ∷ xs) = if p x then some x else find_where p xs

  -- `SELECT COUNT(*) … WHERE …`.
  abbrev pub count_where : (A → Bool) → List A → ℕ
  count_where p [] = 0
  count_where p (x ∷ xs) = if p x then suc (count_where p xs) else count_where p xs

  -- `SELECT … WHERE …`, all the rows.
  abbrev pub select_where : (A → Bool) → List A → List A
  select_where p [] = []
  select_where p (x ∷ xs) = if p x then x ∷ select_where p xs else select_where p xs

  -- `UPDATE … SET … WHERE …`.
  abbrev pub update_where : (A → Bool) → (A → A) → List A → List A
  update_where p f [] = []
  update_where p f (x ∷ xs) = (if p x then f x else x) ∷ update_where p f xs

  -- `DELETE … WHERE …`.
  abbrev pub delete_where : (A → Bool) → List A → List A
  delete_where p xs = select_where (λ x. not (p x)) xs

  insert_desc : (A → ℕ) → A → List A → List A
  insert_desc key x [] = x ∷ []
  insert_desc key x (y ∷ ys) = if leb (key y) (key x) then x ∷ y ∷ ys else y ∷ insert_desc key x ys

  -- `… ORDER BY key DESC`. SQL leaves the order of equal keys open; here the earlier row is first.
  unfoldable pub order_by_desc : (A → ℕ) → List A → List A
  unfolding insert_desc
  order_by_desc key [] = []
  order_by_desc key (x ∷ xs) = insert_desc key x (order_by_desc key xs)

  -- No key rises from a row to the next.
  abbrev pub IsDescending : (A → ℕ) → List A → Type 0
  IsDescending key [] = Unit
  IsDescending key (x ∷ []) = Unit
  IsDescending key (x ∷ y ∷ ys) = (key y ≤ key x) × IsDescending key (y ∷ ys)

  pub find_where-holds :
      (p : A → Bool) (xs : List A) (a : A) → find_where p xs ≡ some a → p a ≡ true
  find_where-holds p [] a e = cc
  find_where-holds p (x ∷ xs) a e = elim (Bool-cases (p x)) [
    | inl hit ↦ ground (arith, hit)
    | inr miss ↦ find_where-holds p xs a (ground (arith, miss))
  ]

  count_where-cons :
      (p : A → Bool) (x : A) (xs : List A)
      → p x ≡ true
      → count_where p (x ∷ xs) ≡ suc (count_where p xs)
  count_where-cons p x xs hit = ground (arith, hit)

  pub count_where-le-length : (p : A → Bool) (xs : List A) → count_where p xs ≤ length xs
  count_where-le-length p [] = omega arith
  count_where-le-length p (x ∷ xs) = ground (arith, count_where-le-length p xs)

  -- A row that is found is counted.
  pub find_where-count_where :
      (p : A → Bool) (xs : List A) (a : A) → find_where p xs ≡ some a → 1 ≤ count_where p xs
  find_where-count_where p [] a e = cc
  find_where-count_where p (x ∷ xs) a e = ground (arith, find_where-count_where p xs a)

  -- After an update that leaves a test as it was, a row that meets it is still found.
  pub find_where-update_where :
      (p q : A → Bool) (f : A → A) (xs : List A) (a : A)
      → ((x : A) → p (f x) ≡ p x)
      → find_where p xs ≡ some a
      → (b : A) × (find_where p (update_where q f xs) ≡ some b)
  find_where-update_where p q f [] a same e = absurd (cc)
  find_where-update_where p q f (x ∷ xs) a same e = elim (Bool-cases (p x)) [
    | inl hit ↦ (if q x then f x else x, ground (arith, hit, same x))
    | inr miss ↦
        let (b, found) = find_where-update_where p q f xs a same (ground (arith, miss)) in
        (b, ground (arith, miss, same x, found))
  ]

  -- An update that leaves a test as it was leaves its count as it was.
  pub count_where-update_where :
      (q p : A → Bool) (f : A → A) (xs : List A)
      → ((a : A) → q (f a) ≡ q a)
      → count_where q (update_where p f xs) ≡ count_where q xs
  count_where-update_where q p f [] same = refl
  count_where-update_where q p f (x ∷ xs) same =
      ground (arith, same x, count_where-update_where q p f xs same)

  pub find_where-of_count :
      (p : A → Bool) (xs : List A) → count_where p xs ≡ 0 → find_where p xs ≡ none
  find_where-of_count p [] e = refl
  find_where-of_count p (x ∷ xs) e = elim (Bool-cases (p x)) [
    | inl hit ↦ absurd (omega (arith, count_where-cons p x xs hit))
    | inr miss ↦ ground (arith, miss, find_where-of_count p xs)
  ]

  pub count_where-of_find :
      (p : A → Bool) (xs : List A) → find_where p xs ≡ none → count_where p xs ≡ 0
  count_where-of_find p [] e = refl
  count_where-of_find p (x ∷ xs) e = ground (arith, count_where-of_find p xs)

  -- An update that meets no row changes nothing.
  pub update_where-none :
      (p : A → Bool) (f : A → A) (xs : List A) → count_where p xs ≡ 0 → update_where p f xs ≡ xs
  update_where-none p f [] e = refl
  update_where-none p f (x ∷ xs) e = elim (Bool-cases (p x)) [
    | inl hit ↦ absurd (omega (arith, count_where-cons p x xs hit))
    | inr miss ↦ ground (arith, miss, update_where-none p f xs)
  ]

  pub count_where-delete_self : (p : A → Bool) (xs : List A) → count_where p (delete_where p xs) ≡ 0
  count_where-delete_self p [] = refl
  count_where-delete_self p (x ∷ xs) = ground (arith, count_where-delete_self p xs)

  pub count_where-delete_other :
      (p q : A → Bool) (xs : List A)
      → ((a : A) → p a ≡ true → q a ≡ false)
      → count_where p (delete_where q xs) ≡ count_where p xs
  count_where-delete_other p q [] apart = refl
  count_where-delete_other p q (x ∷ xs) apart =
      ground (arith, apart x, count_where-delete_other p q xs apart)

  insert_desc-perm : (key : A → ℕ) (x : A) (xs : List A) → Perm (insert_desc key x xs) (x ∷ xs)
  unfolding insert_desc
  insert_desc-perm key x [] = Perm.refl (x ∷ [])
  insert_desc-perm key x (y ∷ ys) = elim (Bool-cases (leb (key y) (key x))) [
    | inl e ↦ rw e (Perm.refl (x ∷ y ∷ ys))
    | inr e ↦ rw e (Perm.trans (Perm.cons y (insert_desc-perm key x ys)) (Perm.swap x y ys))
  ]

  pub order_by_desc-perm : (key : A → ℕ) (xs : List A) → Perm (order_by_desc key xs) xs
  unfolding order_by_desc
  order_by_desc-perm key [] = Perm.refl []
  order_by_desc-perm key (x ∷ xs) =
      Perm.trans (insert_desc-perm key x (order_by_desc key xs))
        (Perm.cons x (order_by_desc-perm key xs))

  insert_desc-IsDescending :
      (key : A → ℕ) (x : A) (xs : List A)
      → IsDescending key xs
      → IsDescending key (insert_desc key x xs)
  unfolding insert_desc
  insert_desc-IsDescending key x [] h = tt
  insert_desc-IsDescending key x (y ∷ []) h = ground arith
  insert_desc-IsDescending key x (y ∷ z ∷ zs) h =
      ground (arith, insert_desc-IsDescending key x (z ∷ zs) h.1)

  pub order_by_desc-IsDescending :
      (key : A → ℕ) (xs : List A) → IsDescending key (order_by_desc key xs)
  unfolding order_by_desc
  order_by_desc-IsDescending key [] = tt
  order_by_desc-IsDescending key (x ∷ xs) =
      insert_desc-IsDescending key x (order_by_desc key xs) (order_by_desc-IsDescending key xs)

module _ {A : Type 0} where
  pub find_where-append_none :
      (p : A → Bool) (xs : List A) (x : A)
      → find_where p xs ≡ none
      → find_where p (xs ++ x ∷ []) ≡ (if p x then some x else none)
  find_where-append_none p [] x e = refl
  find_where-append_none p (y ∷ xs) x e = ground (arith, find_where-append_none p xs x)

  pub find_where-append_miss :
      (p : A → Bool) (xs : List A) (x : A)
      → p x ≡ false
      → find_where p (xs ++ x ∷ []) ≡ find_where p xs
  find_where-append_miss p [] x e = rw e
  find_where-append_miss p (y ∷ xs) x e = ground (arith, find_where-append_miss p xs x e)
