-- ===== src/Inventory/Examples.antt =====
-- Runs of the inventory service at concrete inputs.
use mathlib.Core.List.{Perm}
use multi_warehouse_manageme.Prelude.{
  ℕ, ◌≡◌, refl, Option, none, List, [], ◌∷◌, arith, true, ◌⊎◌, inr, ◌↔◌,
}
use multi_warehouse_manageme.Prelude.Int.{ℤ, pos, negsuc, ◌≤ℤ◌}
use multi_warehouse_manageme.Prelude.Tx.{ok, settle}
use multi_warehouse_manageme.Inventory.Types.{
  Bucket, MovementType, ApplyMovementInput, LevelState, zero_level,
}
use multi_warehouse_manageme.Inventory.Store.{Stock, LevelRow}
use multi_warehouse_manageme.Inventory.Service.{apply_movements, adjust_on_hand_to, reconcile}
use multi_warehouse_manageme.Inventory.Computing.{computing}
use multi_warehouse_manageme.Inventory.Levels.{level_at}
use multi_warehouse_manageme.Inventory.Ledger.{
  IsReconciledAt, IsReconciled, apply_movements-IsReconciled,
}
use multi_warehouse_manageme.Inventory.Bounds.{
  IsNonNegative, HasNonNegative, apply_movements-HasNonNegative, next_level-available,
}
use multi_warehouse_manageme.Inventory.Refinement.{
  apply_movements-refines, seen, post_batch, levels_of,
}
use multi_warehouse_manageme.Inventory.Locking.{
  Lockable, sort_for_locking, IsSorted, sort_for_locking_sorts,
}
use multi_warehouse_manageme.Inventory.Adjust.{adjust_on_hand_to-target, adjust_on_hand_to-accepts}
use multi_warehouse_manageme.Inventory.Reconcile.{
  empty_stock, run_batches, empty-IsReconciled, reconcile-ok_iff, run_batches-reconcile,
}

abbrev movement : Bucket → ℤ → MovementType → ApplyMovementInput
movement bucket change type = record {
  variant_id = 7;
  location_id = 1;
  bucket = bucket;
  change = change;
  type = type;
  reference_type = none;
  reference_id = none;
  created_by_id = none;
  price = none;
  cost = none;
}

-- Ten pieces come in, and four of them are reserved for an order.
abbrev batch : List ApplyMovementInput
batch =
    movement Bucket.on_hand (pos 10) MovementType.receipt
    ∷ movement Bucket.committed (pos 4) MovementType.order_reserve
    ∷ []

abbrev stocked : Stock
unfolding computing
stocked = settle empty_stock (apply_movements batch empty_stock)

abbrev ten_four : LevelState
ten_four = record zero_level { on_hand = pos 10; committed = pos 4 }

-- The batch leaves ten pieces on hand, and four committed.
level_at-stocked : level_at 7 1 stocked ≡ ten_four
unfolding computing
level_at-stocked = refl

apply_movements-IsReconciled_example : IsReconciled stocked
unfolding computing
apply_movements-IsReconciled_example =
    apply_movements-IsReconciled batch empty_stock empty-IsReconciled refl

zero_level-IsNonNegative : IsNonNegative zero_level
zero_level-IsNonNegative = omega arith

ten_four-IsNonNegative : IsNonNegative ten_four
ten_four-IsNonNegative = omega arith

apply_movements-HasNonNegative_example : HasNonNegative stocked
unfolding computing
apply_movements-HasNonNegative_example =
    apply_movements-HasNonNegative batch empty_stock (λ v l. zero_level-IsNonNegative) refl

next_level-available_example : (pos 0 ≤ℤ pos 0) ⊎ (pos 6 ≤ℤ pos 0)
unfolding computing
next_level-available_example =
    next_level-available ten_four (movement Bucket.on_hand (negsuc 5) MovementType.transfer_out)
      refl (λ e. cc) refl

reconcile-ok_iff_example : ((reconcile 7 1 stocked).ok ≡ true) ↔ IsReconciledAt 7 1 stocked
unfolding computing
reconcile-ok_iff_example = reconcile-ok_iff 7 1 stocked refl

run_batches-reconcile_example :
    (reconcile 7 1 (run_batches (batch ∷ batch ∷ []) empty_stock)).ok ≡ true
run_batches-reconcile_example = run_batches-reconcile (batch ∷ batch ∷ []) 7 1

-- A count of six covers the four that are committed.
abbrev counted : Stock
unfolding computing
counted = settle stocked (adjust_on_hand_to 7 1 (pos 6) none none none stocked)

adjust_on_hand_to-target_example : level_at 7 1 counted ≡ record ten_four { on_hand = pos 6 }
unfolding computing
adjust_on_hand_to-target_example =
    adjust_on_hand_to-target 7 1 (pos 6) none none none stocked 7 1 refl

adjust_on_hand_to-accepts_example :
    (r : Option (List ℕ × LevelRow)) × (t : Stock) × (adjust_on_hand_to 7 1
        (pos 6)
        none
        none
        none
        stocked
      ≡ ok (r, t))
unfolding computing
adjust_on_hand_to-accepts_example =
    adjust_on_hand_to-accepts 7 1 (pos 6) none none none stocked ten_four-IsNonNegative
      (omega arith) (inr (omega arith))

-- Lines of a document, by variant only.
abbrev line : Lockable ℕ
line = record { variant_id = λ v. v; location_id = λ _. none }

sort_for_locking_sorts_example :
    Perm (sort_for_locking line (5 ∷ 2 ∷ 9 ∷ [])) (5 ∷ 2 ∷ 9 ∷ [])
    × IsSorted line (sort_for_locking line (5 ∷ 2 ∷ 9 ∷ []))
sort_for_locking_sorts_example = sort_for_locking_sorts line (5 ∷ 2 ∷ 9 ∷ [])

apply_movements-refines_example :
    seen (apply_movements batch empty_stock) ≡ post_batch batch (levels_of empty_stock)
apply_movements-refines_example = apply_movements-refines batch empty_stock
