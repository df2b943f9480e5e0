-- ===== src/Inventory/Locking.antt =====
-- `sortForLocking` of src/modules/inventory/inventory.types.ts: the order in which a document's
-- lines take their row locks. `Array.prototype.sort` is stable, and is an insertion sort here.
use mathlib.Core.List.Perm
use mathlib.Core.List.{Perm}
use multi_warehouse_manageme.Prelude.Int.{ℤ, ◌+ℤ◌, +ℤ_left_comm, +ℤ_assoc}
use multi_warehouse_manageme.Prelude.Sums.{sum_ℤ}
use multi_warehouse_manageme.Prelude.{
  ℕ, ◌+◌, sum_by, ◌<◌, ◌≤◌, ◌≡◌, refl, Bool, true, false, ◌&&◌, ◌||◌, ◌==◌, ltb, if◌then◌else◌,
  Option, none, some, or_default, List, [], ◌∷◌, arith, Bool-cases, inl, inr, All, ◌⊎◌, ap, ◌∙◌,
}

abbrev pub first_some {ℓ} : {A : Type ℓ} → Option A → Option A → Option A
first_some none o = o
first_some (some a) o = some a

-- An item as `sortForLocking` sees it.
pub record Lockable {ℓ} (A : Type ℓ) : Type ℓ where
  pub variant_id : A → ℕ
  pub location_id : A → Option ℕ

module _ {ℓ} {A : Type ℓ} (k : Lockable A) where
  -- `a.locationId ?? 0n`
  abbrev pub location_key : A → ℕ
  location_key a = or_default (k.location_id a) 0

  -- Whether the comparator is positive at `(a, b)`: `a` must stand after `b`.
  unfoldable pub comes_after : A → A → Bool
  comes_after a b =
      ltb (k.variant_id b) (k.variant_id a)
      || (k.variant_id a == k.variant_id b && ltb (location_key b) (location_key a))

  insert : A → List A → List A
  insert x [] = x ∷ []
  insert x (y ∷ ys) = if comes_after x y then y ∷ insert x ys else x ∷ y ∷ ys

  unfoldable pub sort_for_locking : List A → List A
  unfolding insert comes_after
  sort_for_locking [] = []
  sort_for_locking (x ∷ xs) = insert x (sort_for_locking xs)

  -- `a` may stand before `b`: its key is not greater.
  abbrev pub KeyLe : A → A → Type 0
  KeyLe a b =
      (k.variant_id a < k.variant_id b)
      ⊎ ((k.variant_id a ≡ k.variant_id b) × (location_key a ≤ location_key b))

  -- Every item may stand before all that follow it.
  abbrev pub IsSorted : List A → Type 0
  IsSorted [] = Unit
  IsSorted (x ∷ xs) = All (KeyLe x) xs × IsSorted xs

  All-insert : (a x : A) (xs : List A) → KeyLe a x → All (KeyLe a) xs → All (KeyLe a) (insert x xs)
  unfolding insert
  All-insert a x [] h t = (h, tt)
  All-insert a x (y ∷ ys) h t = elim (Bool-cases (comes_after x y)) [
    | inl after ↦ rw after (t.0, All-insert a x ys h t.1)
    | inr before ↦ rw before (h, t)
  ]

  All-trans : (a b : A) (xs : List A) → KeyLe a b → All (KeyLe b) xs → All (KeyLe a) xs
  All-trans a b [] h t = tt
  All-trans a b (x ∷ xs) h t = (ground arith, All-trans a b xs h t.1)

  comes_after-KeyLe : (a b : A) → comes_after a b ≡ true → KeyLe b a
  unfolding comes_after
  comes_after-KeyLe a b h = ground arith

  not_after-KeyLe : (a b : A) → comes_after a b ≡ false → KeyLe a b
  unfolding comes_after
  not_after-KeyLe a b h = ground arith

  insert-IsSorted : (x : A) (xs : List A) → IsSorted xs → IsSorted (insert x xs)
  unfolding insert
  insert-IsSorted x [] h = (tt, tt)
  insert-IsSorted x (y ∷ ys) h = elim (Bool-cases (comes_after x y)) [
    | inl after ↦
        rw after (All-insert y x ys (comes_after-KeyLe x y after) h.0, insert-IsSorted x ys h.1)
    | inr before ↦
        let le = not_after-KeyLe x y before in rw before ((le, All-trans x y ys le h.0), h)
  ]

  insert-perm : (x : A) (xs : List A) → Perm (insert x xs) (x ∷ xs)
  unfolding insert
  insert-perm x [] = Perm.refl _
  insert-perm x (y ∷ ys) = elim (Bool-cases (comes_after x y)) [
    | inl after ↦ rw after (Perm.trans (Perm.cons y (insert-perm x ys)) (Perm.swap _ _ _))
    | inr before ↦ rw before (Perm.refl _)
  ]

  sort-perm : (xs : List A) → Perm (sort_for_locking xs) xs
  unfolding sort_for_locking
  sort-perm [] = Perm.refl _
  sort-perm (x ∷ xs) = Perm.trans (insert-perm x _) (Perm.cons x (sort-perm xs))

  sort-IsSorted : (xs : List A) → IsSorted (sort_for_locking xs)
  unfolding sort_for_locking
  sort-IsSorted [] = tt
  sort-IsSorted (x ∷ xs) = insert-IsSorted x (sort_for_locking xs) (sort-IsSorted xs)

  -- `sortForLocking` returns the same items, in ascending order of (variant_id, location_id), an
  -- absent location counting as 0.
  pub sort_for_locking_sorts :
      (xs : List A) → Perm (sort_for_locking xs) xs × IsSorted (sort_for_locking xs)
  sort_for_locking_sorts xs = (sort-perm xs, sort-IsSorted xs)

  sum_ℤ-insert : (f : A → ℤ) (x : A) (xs : List A) → sum_ℤ f (insert x xs) ≡ f x +ℤ sum_ℤ f xs
  unfolding insert
  sum_ℤ-insert f x [] = refl
  sum_ℤ-insert f x (y ∷ ys) = elim (Bool-cases (comes_after x y)) [
    | inl after ↦
        rw (after, sum_ℤ-insert f x ys) (+ℤ_left_comm (f y) (f x) (sum_ℤ f ys) ∙ +ℤ_assoc _ _ _)
    | inr before ↦ rw before
  ]

  -- The order does not matter to what the lines add up to.
  pub sum_ℤ-sort : (f : A → ℤ) (xs : List A) → sum_ℤ f (sort_for_locking xs) ≡ sum_ℤ f xs
  unfolding sort_for_locking
  sum_ℤ-sort f [] = refl
  sum_ℤ-sort f (x ∷ xs) =
      sum_ℤ-insert f x (sort_for_locking xs) ∙ ap (λ y. f x +ℤ y) (sum_ℤ-sort f xs)

  sum_by-insert : (f : A → ℕ) (x : A) (xs : List A) → sum_by f (insert x xs) ≡ f x + sum_by f xs
  unfolding insert
  sum_by-insert f x [] = refl
  sum_by-insert f x (y ∷ ys) = elim (Bool-cases (comes_after x y)) [
    | inl after ↦ let rest = sum_by-insert f x ys in rw after (omega (arith, rest))
    | inr before ↦ rw before
  ]

  pub sum_by-sort : (f : A → ℕ) (xs : List A) → sum_by f (sort_for_locking xs) ≡ sum_by f xs
  unfolding sort_for_locking
  sum_by-sort f [] = refl
  sum_by-sort f (x ∷ xs) =
      sum_by-insert f x (sort_for_locking xs) ∙ ap (λ n. f x + n) (sum_by-sort f xs)

  -- The last value that a list holds.
  abbrev pub last_match {κ} : {B : Type κ} → (A → Option B) → List A → Option B
  last_match f [] = none
  last_match f (x ∷ xs) = first_some (last_match f xs) (f x)

  last_match-insert {κ} :
      {B : Type κ} (f : A → Option B)
      → ((a b : A) (o : Option B)
          → comes_after a b ≡ true
          → first_some (first_some o (f a)) (f b) ≡ first_some (first_some o (f b)) (f a))
      → (x : A) (xs : List A) → last_match f (insert x xs) ≡ last_match f (x ∷ xs)
  unfolding insert
  last_match-insert f swap x [] = refl
  last_match-insert f swap x (y ∷ ys) = elim (Bool-cases (comes_after x y)) [
    | inl after ↦ rw after (
        ap (λ o. first_some o (f y)) (last_match-insert f swap x ys)
        ∙ swap x y (last_match f ys) after)
    | inr before ↦ rw before
  ]

  -- It stays the last one where the sort swaps only items that do not both hold a value.
  pub last_match-sort {κ} :
      {B : Type κ} (f : A → Option B)
      → ((a b : A) (o : Option B)
          → comes_after a b ≡ true
          → first_some (first_some o (f a)) (f b) ≡ first_some (first_some o (f b)) (f a))
      → (xs : List A) → last_match f (sort_for_locking xs) ≡ last_match f xs
  unfolding sort_for_locking
  last_match-sort f swap [] = refl
  last_match-sort f swap (x ∷ xs) =
      last_match-insert f swap x (sort_for_locking xs)
      ∙ ap (λ o. first_some o (f x)) (last_match-sort f swap xs)
