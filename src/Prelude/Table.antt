-- ===== src/Prelude/Table.antt =====
-- A database table as a list of rows with a numeric primary key.
use Prim.Native.Nat.{ℕ}
use mathlib.Core.Path.{◌≡◌, refl, ap, ◌∙◌, sym, subst}
use mathlib.Core.Logic.{inl, inr}
use mathlib.Core.Bool.{false}
use mathlib.Core.Option.{Option, none, some}
use mathlib.Core.List.{List, [], ◌∷◌}
use native.Mathlib.Omega.{arith}
use multi_warehouse_manageme.Prelude.Tests.{◌==◌, if◌then◌else◌, Bool-cases}
use multi_warehouse_manageme.Prelude.Lists.{All}
use multi_warehouse_manageme.Prelude.Int.{ℤ, ◌+ℤ◌, int_laws, +ℤ_left_comm, +ℤ_assoc}
use multi_warehouse_manageme.Prelude.Sums.{sum_ℤ}

swap_left : (a b c : ℤ) → a +ℤ (b +ℤ c) ≡ b +ℤ (a +ℤ c)
swap_left a b c = omega int_laws

module _ {ℓ} {A : Type ℓ} (key : A → ℕ) where
  -- `findUnique({ where: { id } })`
  unfoldable pub find_row : ℕ → List A → Option A
  find_row id [] = none
  find_row id (row ∷ rows) = if key row == id then some row else find_row id rows

  -- `update({ where: { id }, data })`
  unfoldable pub update_row : ℕ → (A → A) → List A → List A
  update_row id f [] = []
  update_row id f (row ∷ rows) = if key row == id then f row ∷ rows else row ∷ update_row id f rows

  -- `delete({ where: { id } })`
  unfoldable pub delete_row : ℕ → List A → List A
  delete_row id [] = []
  delete_row id (row ∷ rows) = if key row == id then rows else row ∷ delete_row id rows

  -- The key is primary: it stands once.
  abbrev pub Misses : ℕ → List A → Type 0
  Misses id [] = Unit
  Misses id (row ∷ rows) = ((key row == id) ≡ false) × Misses id rows

  abbrev pub HasUniqueKeys : List A → Type 0
  HasUniqueKeys [] = Unit
  HasUniqueKeys (row ∷ rows) = Misses (key row) rows × HasUniqueKeys rows

  pub find_row-key : (id : ℕ) (rows : List A) (row : A) → find_row id rows ≡ some row → key row ≡ id
  unfolding find_row
  find_row-key id [] row e = cc
  find_row-key id (x ∷ xs) row e = ground (arith, find_row-key id xs row)

  pub find_row-update :
      (id : ℕ) (f : A → A) (rows : List A) (row : A)
      → ((x : A) → key (f x) ≡ key x)
      → find_row id rows ≡ some row
      → find_row id (update_row id f rows) ≡ some (f row)
  unfolding find_row update_row
  find_row-update id f [] row k e = cc
  find_row-update id f (x ∷ xs) row k e = ground (arith, k x, find_row-update id f xs row k)

  pub find_row-update_other :
      (id id' : ℕ) (f : A → A) (rows : List A)
      → ((x : A) → key (f x) ≡ key x)
      → (id' == id) ≡ false
      → find_row id (update_row id' f rows) ≡ find_row id rows
  unfolding find_row update_row
  find_row-update_other id id' f [] k h = cc
  find_row-update_other id id' f (x ∷ xs) k h =
      ground (arith, k x, find_row-update_other id id' f xs k h)

  -- What an update does to a sum over the table.
  pub sum_ℤ-update :
      (e : A → ℤ) (id : ℕ) (f : A → A) (rows : List A) (row : A)
      → find_row id rows ≡ some row
      → e row +ℤ sum_ℤ e (update_row id f rows) ≡ e (f row) +ℤ sum_ℤ e rows
  unfolding find_row update_row
  sum_ℤ-update e id f [] row h = cc
  sum_ℤ-update e id f (x ∷ xs) row h = elim (Bool-cases (key x == id)) [
    | inl here ↦
        let same : x ≡ row = ground arith in
        rw (here, same) (+ℤ_left_comm (e row) (e (f row)) (sum_ℤ e xs) ∙ +ℤ_assoc _ _ _)
    | inr there ↦
        let found : find_row id xs ≡ some row = ground arith in
        rw there (
          swap_left _ _ _ ∙ ap (λ y. e x +ℤ y) (sum_ℤ-update e id f xs row found) ∙ swap_left _ _ _)
  ]

  pub sum_ℤ-delete :
      (e : A → ℤ) (id : ℕ) (rows : List A) (row : A)
      → find_row id rows ≡ some row
      → e row +ℤ sum_ℤ e (delete_row id rows) ≡ sum_ℤ e rows
  unfolding find_row delete_row
  sum_ℤ-delete e id [] row h = cc
  sum_ℤ-delete e id (x ∷ xs) row h = elim (Bool-cases (key x == id)) [
    | inl here ↦ let same : x ≡ row = ground arith in rw (here, same)
    | inr there ↦
        let found : find_row id xs ≡ some row = ground arith in
        rw there (swap_left _ _ _ ∙ ap (λ y. e x +ℤ y) (sum_ℤ-delete e id xs row found))
  ]

  -- What holds of every row holds of the one that is found, and after its update of all.
  pub All-find_row {κ} :
      (P : A → Type κ) (id : ℕ) (rows : List A) (row : A)
      → All P rows
      → find_row id rows ≡ some row
      → P row
  unfolding find_row
  All-find_row P id [] row h e = absurd (cc)
  All-find_row P id (x ∷ xs) row h e = elim (Bool-cases (key x == id)) [
    | inl here ↦ let same : x ≡ row = ground arith in subst P same h.0
    | inr there ↦ All-find_row P id xs row h.1 (ground arith)
  ]

  pub All-update_row {κ} :
      (P : A → Type κ) (id : ℕ) (f : A → A) (rows : List A) (row : A)
      → All P rows
      → find_row id rows ≡ some row
      → P (f row)
      → All P (update_row id f rows)
  unfolding find_row update_row
  All-update_row P id f [] row h e p = tt
  All-update_row P id f (x ∷ xs) row h e p = elim (Bool-cases (key x == id)) [
    | inl here ↦
        let same : x ≡ row = ground arith in rw here (subst (λ y. P (f y)) (sym same) p, h.1)
    | inr there ↦ rw there (h.0, All-update_row P id f xs row h.1 (ground arith) p)
  ]

  -- An update that leaves a measure of each row alone leaves its sum alone.
  pub sum_ℤ-update_same :
      (e : A → ℤ) (id : ℕ) (f : A → A) (rows : List A)
      → ((x : A) → e (f x) ≡ e x)
      → sum_ℤ e (update_row id f rows) ≡ sum_ℤ e rows
  unfolding update_row
  sum_ℤ-update_same e id f [] k = refl
  sum_ℤ-update_same e id f (x ∷ xs) k = elim (Bool-cases (key x == id)) [
    | inl here ↦ rw here (ap (λ y. y +ℤ sum_ℤ e xs) (k x))
    | inr there ↦ rw there (ap (λ y. e x +ℤ y) (sum_ℤ-update_same e id f xs k))
  ]

  pub All-update_any {κ} :
      (P : A → Type κ) (id : ℕ) (f : A → A) (rows : List A)
      → ((x : A) → P x → P (f x))
      → All P rows
      → All P (update_row id f rows)
  unfolding update_row
  All-update_any P id f [] k h = tt
  All-update_any P id f (x ∷ xs) k h = elim (Bool-cases (key x == id)) [
    | inl here ↦ rw here (k x h.0, h.1)
    | inr there ↦ rw there (h.0, All-update_any P id f xs k h.1)
  ]
