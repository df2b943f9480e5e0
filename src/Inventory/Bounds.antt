-- ===== src/Inventory/Bounds.antt =====
-- The guards of `applyMovementsInternal` (inventory.service.ts): which counters can go below zero,
-- and when a movement is refused.
use mathlib.Core.Path.{subst}
use multi_warehouse_manageme.Prelude.{
  ℕ, ◌≡◌, refl, Bool, true, false, not, ◌&&◌, ◌||◌, if◌then◌else◌, List, arith, ◌⊎◌, inl, inr,
  Bool-cases, ◌≢◌,
}
use multi_warehouse_manageme.Prelude.Int.{ℤ, pos, ◌+ℤ◌, ◌≤ℤ◌, ltb_ℤ, leb_ℤ, int_laws}
use multi_warehouse_manageme.Prelude.Tx.{ok, err, insufficient_stock}
use multi_warehouse_manageme.Inventory.Types.{
  Bucket, on_hand, available, committed, packed, reserved, unavailable, incoming, MovementType,
  is_adjust, ApplyMovementInput, LevelState, set_bucket_value, get_bucket_value, compute_available,
}
use multi_warehouse_manageme.Inventory.Store.{LevelRow, Stock}
use multi_warehouse_manageme.Inventory.Service.{
  is_order_lifecycle, refuses_negative, worsens_available, is_unavailable, next_level,
  apply_movements,
}
use multi_warehouse_manageme.Inventory.Levels.{level_at, same_key, level_at-ensure}
use multi_warehouse_manageme.Inventory.Steps.{Round, level_at-Round, apply_movements-keeps}

pub record IsNonNegative (level : LevelState) : Type 0 where
  pub on_hand_nonneg : pos 0 ≤ℤ level.on_hand
  pub committed_nonneg : pos 0 ≤ℤ level.committed
  pub packed_nonneg : pos 0 ≤ℤ level.packed
  pub unavailable_nonneg : pos 0 ≤ℤ level.unavailable
  pub incoming_nonneg : pos 0 ≤ℤ level.incoming

-- Nothing is left to sell where less than nothing stands in the warehouse.
available_neg :
    (level : LevelState) (next : ℤ)
    → IsNonNegative level
    → ltb_ℤ next (pos 0) ≡ true
    → ltb_ℤ (compute_available (record level { on_hand = next })) (pos 0) ≡ true
unfolding compute_available
available_neg level next n h = grind int_laws

adjust-not_lifecycle :
    (type : MovementType) → is_adjust type ≡ true → is_order_lifecycle type ≡ false
unfolding is_order_lifecycle
adjust-not_lifecycle type h = ground arith

-- The second guard.
unfoldable pub refuses_available : LevelState → MovementType → Bucket → ℤ → Bool
refuses_available after type bucket change =
    ltb_ℤ (compute_available after) (pos 0)
    && (worsens_available bucket change
        && (not (is_unavailable bucket) && not (is_order_lifecycle type)))

decreased : (a b c : ℤ) → pos 0 ≤ℤ a → c ≡ a +ℤ b → ltb_ℤ c (pos 0) ≡ true → ltb_ℤ b (pos 0) ≡ true
decreased a b c h e n = grind int_laws

-- On counters that are not negative, the two guards together refuse what is below zero.
refuses_below_zero :
    (level : LevelState) (type : MovementType) (b : Bucket) (change : ℤ)
    → IsNonNegative level
    → let next = get_bucket_value level b +ℤ change in
      ltb_ℤ next (pos 0) ≡ true
      → (refuses_negative level type b next
          || refuses_available (set_bucket_value level b next) type b change)
        ≡ true
unfolding refuses_negative refuses_available get_bucket_value set_bucket_value worsens_available
refuses_below_zero level type on_hand change n h = ground (
  arith,
  available_neg level (level.on_hand +ℤ change) n h,
  adjust-not_lifecycle type,
  decreased level.on_hand change (level.on_hand +ℤ change) n.on_hand_nonneg refl h,
)
refuses_below_zero level type committed change n h = rw h
refuses_below_zero level type packed change n h = rw h
refuses_below_zero level type unavailable change n h = rw h
refuses_below_zero level type incoming change n h = rw h
refuses_below_zero level type available change n h = rw h
refuses_below_zero level type reserved change n h = rw h

-- What a movement must satisfy, said once: it leaves its bucket at zero or more, and unless it is
-- part of an order's life, or sets goods aside as unavailable, or does not lower `available`, it
-- leaves `available` at zero or more.
unfoldable pub admits : LevelState → ApplyMovementInput → Bool
admits level input =
    let next = get_bucket_value level input.bucket +ℤ input.change in
    leb_ℤ (pos 0) next
    && (not (worsens_available input.bucket input.change)
        || (is_unavailable input.bucket
            || (is_order_lifecycle input.type
                || leb_ℤ (pos 0) (compute_available (set_bucket_value level input.bucket next)))))

not_refused_at_zero :
    (level : LevelState) (type : MovementType) (b : Bucket) (next : ℤ)
    → ltb_ℤ next (pos 0) ≡ false
    → refuses_negative level type b next ≡ false
unfolding refuses_negative
not_refused_at_zero level type on_hand next h = rw h
not_refused_at_zero level type committed next h = rw h
not_refused_at_zero level type packed next h = rw h
not_refused_at_zero level type unavailable next h = rw h
not_refused_at_zero level type incoming next h = rw h
not_refused_at_zero level type available next h = rw h
not_refused_at_zero level type reserved next h = rw h

pub next_level-admits :
    (level : LevelState) (input : ApplyMovementInput)
    → IsNonNegative level
    → next_level level input ≡ (
        if admits level input
        then ok (
            set_bucket_value level input.bucket
              (get_bucket_value level input.bucket +ℤ input.change))
        else err insufficient_stock)
unfolding next_level admits refuses_available
next_level-admits level input n = ground (
  arith,
  refuses_below_zero level input.type input.bucket input.change n,
  not_refused_at_zero level input.type input.bucket
      (get_bucket_value level input.bucket +ℤ input.change),
)

set-IsNonNegative :
    (level : LevelState) (b : Bucket) (x : ℤ)
    → IsNonNegative level
    → pos 0 ≤ℤ x
    → IsNonNegative (set_bucket_value level b x)
unfolding set_bucket_value
set-IsNonNegative level b x n h = ground arith

pub next_level-IsNonNegative :
    (level : LevelState) (input : ApplyMovementInput) {after : LevelState}
    → IsNonNegative level
    → next_level level input ≡ ok after
    → IsNonNegative after
unfolding admits
next_level-IsNonNegative level input {after} n h =
    let next = get_bucket_value level input.bucket +ℤ input.change in
    elim (Bool-cases (ltb_ℤ next (pos 0))) [
      | inl below ↦ absurd (ground (arith, next_level-admits level input n))
      | inr up ↦
          let kept = set-IsNonNegative level input.bucket next n (ground arith) in
          subst IsNonNegative (ground (arith, next_level-admits level input n)) kept
    ]

abbrev pub HasNonNegative : Stock → Type 0
HasNonNegative s = (v l : ℕ) → IsNonNegative (level_at v l s)

pub Round-HasNonNegative :
    (v l id : ℕ) (input : ApplyMovementInput) (s t : Stock)
    → HasNonNegative s
    → Round v l input s id t
    → HasNonNegative t
Round-HasNonNegative v l id input s t n d v' l' =
    let after : IsNonNegative d.after =
      next_level-IsNonNegative d.row.level input (rw d.found at (n v l)) d.checked in
    elim (Bool-cases (same_key v l v' l')) [
      | inl same ↦ rw ((level_at-Round v l input s id t v' l' d).0, same) after
      | inr other ↦ rw ((level_at-Round v l input s id t v' l' d).0, other) (n v' l')
    ]

-- A batch of movements that succeeds leaves no counter of any level below zero, whatever its
-- types, if none was below zero before.
pub apply_movements-HasNonNegative :
    (inputs : List ApplyMovementInput) (s : Stock) {r : List ℕ × LevelRow} {t : Stock}
    → HasNonNegative s
    → apply_movements inputs s ≡ ok (r, t)
    → HasNonNegative t
apply_movements-HasNonNegative inputs s n h =
    apply_movements-keeps HasNonNegative
      (λ v l s n v' l'. rw (level_at-ensure v l v' l' s).0 (n v' l')) Round-HasNonNegative inputs s
      n h

keeps_available :
    (level : LevelState) (b : Bucket) (change : ℤ)
    → worsens_available b change ≡ false
    → compute_available level
      ≤ℤ compute_available (set_bucket_value level b (get_bucket_value level b +ℤ change))
unfolding worsens_available get_bucket_value set_bucket_value compute_available
keeps_available level on_hand change h = grind int_laws
keeps_available level committed change h = grind int_laws
keeps_available level packed change h = grind int_laws
keeps_available level unavailable change h = grind int_laws
keeps_available level incoming change h = omega arith
keeps_available level available change h = omega arith
keeps_available level reserved change h = omega arith

only_unavailable : (b : Bucket) → is_unavailable b ≡ true → b ≡ unavailable
only_unavailable b h = ground arith

-- Outside the life of an order and the bucket `unavailable`, a movement that passes leaves
-- `available` at zero or more, or no lower than it was.
pub next_level-available :
    (level : LevelState) (input : ApplyMovementInput) {after : LevelState}
    → is_order_lifecycle input.type ≡ false
    → input.bucket ≢ unavailable
    → next_level level input ≡ ok after
    → (pos 0 ≤ℤ compute_available after) ⊎ (compute_available level ≤ℤ compute_available after)
unfolding next_level
next_level-available level input nl nu h = elim (Bool-cases (is_unavailable input.bucket)) [
  | inl u ↦ absurd (nu (only_unavailable input.bucket u))
  | inr u ↦ elim (Bool-cases (worsens_available input.bucket input.change)) [
    | inl worse ↦ inl (ground arith)
    | inr safe ↦ inr (ground (arith, keeps_available level input.bucket input.change safe))
  ]
]
