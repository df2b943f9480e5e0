-- ===== src/Inventory/Steps.antt =====
-- How inventory.service.ts moves stock: what a successful round of `applyMovementsInternal` has
-- checked and written, and a rule to carry a property through a batch.
use mathlib.Core.Path.{subst}
use multi_warehouse_manageme.Prelude.{
  ℕ, ◌≡◌, true, ◌&&◌, if◌then◌else◌, some, List, [], ◌∷◌, arith, Option-cases, Bool-cases, inl, inr,
}
use multi_warehouse_manageme.Prelude.Int.{ℤ, pos, ◌+ℤ◌, int_laws}
use multi_warehouse_manageme.Prelude.Tx.{ok, Result-cases, >>=-eq-ok}
use multi_warehouse_manageme.Inventory.Types.{
  Bucket, same_bucket, ApplyMovementInput, LevelState, set_bucket_value, get_bucket_value,
  compute_available,
}
use multi_warehouse_manageme.Inventory.Store.{
  LevelRow, Stock, find_level, update_level, insert_movement, sum_movements,
}
use multi_warehouse_manageme.Inventory.Service.{
  next_level, write_movement, apply_round, apply_rounds, apply_movements, get_level_state,
  ensure_level_locked,
}
use multi_warehouse_manageme.Inventory.Levels.{
  level_at, available_at, same_key, is_ledger, find_level-update, get_bucket_value-set,
}

-- The bucket's value with the change of the movement.
pub next_level-set :
    (level : LevelState) (input : ApplyMovementInput) {after : LevelState}
    → next_level level input ≡ ok after
    → after
      ≡ set_bucket_value level input.bucket (get_bucket_value level input.bucket +ℤ input.change)
unfolding next_level
next_level-set level input h = ground arith

-- What a round that succeeded has read, checked and written.
pub record Round (v l : ℕ) (input : ApplyMovementInput) (s : Stock) (id : ℕ) (t : Stock)
    : Type 0 where
  pub row : LevelRow
  pub after : LevelState
  pub found : find_level v l s.levels ≡ some row
  pub checked : next_level row.level input ≡ ok after
  pub written : t ≡ write_movement v l input after s
  pub numbered : id ≡ s.next_movement_id
  pub variant : input.variant_id ≡ v
  pub location : input.location_id ≡ l

pub apply_round-Round :
    (v l : ℕ) (input : ApplyMovementInput) (s : Stock) {id : ℕ} {t : Stock}
    → apply_round v l input s ≡ ok (id, t)
    → Round v l input s id t
unfolding apply_round get_level_state
apply_round-Round v l input s h = elim (Option-cases (find_level v l s.levels)) [
  | inl e ↦ absurd (ground arith)
  | inr (row, e) ↦ elim (Result-cases (next_level row.level input)) [
    | inr (x, f) ↦ absurd (ground arith)
    | inl (after, f) ↦ record {
      row = row;
      after = after;
      found = e;
      checked = f;
      written = ground arith;
      numbered = ground arith;
      variant = ground arith;
      location = ground arith;
    }
  ]
]

-- A property that the lock keeps, and every round, is kept by a batch.
module _ {ℓ} (P : Stock → Type ℓ) where
  pub apply_rounds-keeps :
      ((v l id : ℕ) (input : ApplyMovementInput) (s t : Stock) → P s → Round v l input s id t → P t)
      → (v l : ℕ) (inputs : List ApplyMovementInput) (s : Stock) {ids : List ℕ} {t : Stock} → P s
      → apply_rounds v l inputs s ≡ ok (ids, t)
      → P t
  unfolding apply_rounds
  apply_rounds-keeps keep v l [] s p h = subst P (cc) p
  apply_rounds-keeps keep v l (input ∷ inputs) s {ids} {t} p h =
      let (id, s', first, others) = >>=-eq-ok (apply_round v l input) _ s h in
      let (ids', t', rest, last) = >>=-eq-ok (apply_rounds v l inputs) _ s' others in
      let kept : P s' = keep v l id input s s' p (apply_round-Round v l input s first) in
      subst P (cc) (apply_rounds-keeps keep v l inputs s' {ids = ids'} {t = t'} kept rest)

  pub apply_movements-keeps :
      ((v l : ℕ) (s : Stock) → P s → P (ensure_level_locked v l s))
      → ((v l id : ℕ) (input : ApplyMovementInput) (s t : Stock)
          → P s
          → Round v l input s id t
          → P t)
      → (inputs : List ApplyMovementInput) (s : Stock) {r : List ℕ × LevelRow} {t : Stock} → P s
      → apply_movements inputs s ≡ ok (r, t)
      → P t
  unfolding apply_movements
  apply_movements-keeps lock keep [] s p h = cc
  apply_movements-keeps lock keep (first ∷ rest) s {r} {t} p h =
      let s₀ = ensure_level_locked first.variant_id first.location_id s in
      let (ids, t', rounds, last) =
        >>=-eq-ok (apply_rounds first.variant_id first.location_id (first ∷ rest)) _ s₀ h in
      let kept : P t' =
        apply_rounds-keeps keep first.variant_id first.location_id (first ∷ rest) s₀
          (lock first.variant_id first.location_id s p) rounds in
      subst P (ground arith) kept

-- A round writes the checked counters at its own key, and `available` by its formula there.
pub level_at-Round :
    (v l : ℕ) (input : ApplyMovementInput) (s : Stock) (id : ℕ) (t : Stock) (v' l' : ℕ)
    (d : Round v l input s id t)
    → (level_at v' l' t ≡ (if same_key v l v' l' then d.after else level_at v' l' s))
      × (available_at v' l' t
          ≡ (if same_key v l v' l' then compute_available d.after else available_at v' l' s))
unfolding write_movement update_level insert_movement
level_at-Round v l input s id t v' l' d = rw d.written (
    find_level-update v l v' l' d.after (compute_available d.after) input.price input.cost s.levels
      d.row d.found)

-- A round adds its change to the ledger of its own key and bucket.
pub sum_movements-Round :
    (v l : ℕ) (input : ApplyMovementInput) (s : Stock) (id : ℕ) (t : Stock) (v' l' : ℕ) (c : Bucket)
    → Round v l input s id t
    → sum_movements v' l' c t.movements
      ≡ (if same_key v l v' l' && same_bucket input.bucket c then input.change else pos 0)
        +ℤ sum_movements v' l' c s.movements
unfolding write_movement update_level insert_movement sum_movements
sum_movements-Round v l input s id t v' l' c d =
    rw (d.written, ← d.variant, ← d.location) (ground arith)

same_key_eq : (v l v' l' : ℕ) → same_key v l v' l' ≡ true → (v' ≡ v) × (l' ≡ l)
same_key_eq v l v' l' h = ground arith

same_bucket_eq : (b c : Bucket) → same_bucket b c ≡ true → c ≡ b
same_bucket_eq b c h = ground arith

posted :
    (b c : Bucket) (f : Bucket → ℤ) (x : ℤ)
    → (if same_bucket b c then f b +ℤ x else f c) ≡ (if same_bucket b c then x else pos 0) +ℤ f c
posted b c f x = elim (Bool-cases (same_bucket b c)) [
  | inl same ↦ rw (same, same_bucket_eq b c same) (omega int_laws)
  | inr other ↦ rw other (omega int_laws)
]

-- A round adds its change to the counter of its own key and bucket, and to no other.
pub get_bucket_value-Round :
    (v l : ℕ) (input : ApplyMovementInput) (s : Stock) (id : ℕ) (t : Stock) (v' l' : ℕ) (c : Bucket)
    → is_ledger c ≡ true
    → Round v l input s id t
    → get_bucket_value (level_at v' l' t) c
      ≡ (if same_key v l v' l' && same_bucket input.bucket c then input.change else pos 0)
        +ℤ get_bucket_value (level_at v' l' s) c
get_bucket_value-Round v l input s id t v' l' c h d = elim (Bool-cases (same_key v l v' l')) [
  | inr other ↦ rw ((level_at-Round v l input s id t v' l' d).0, other) (omega int_laws)
  | inl same ↦
      let (ev, el) = same_key_eq v l v' l' same in
      rw
        (
          (level_at-Round v l input s id t v' l' d).0,
          same,
          next_level-set d.row.level input d.checked,
          get_bucket_value-set d.row.level input.bucket c _ h,
          ev,
          el,
          d.found,
        )
        (posted input.bucket c (get_bucket_value d.row.level) input.change)
]
