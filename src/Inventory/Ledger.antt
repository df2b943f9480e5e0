-- ===== src/Inventory/Ledger.antt =====
-- The ledger of inventory.service.ts: every counter is the sum of its movements, `available` is
-- its formula, and `reconcile` decides both.
use multi_warehouse_manageme.Prelude.{ℕ, ◌≡◌, true, List, Bool-cases, inl, inr}
use multi_warehouse_manageme.Prelude.Tx.{ok}
use multi_warehouse_manageme.Inventory.Types.{
  Bucket, ApplyMovementInput, get_bucket_value, compute_available,
}
use multi_warehouse_manageme.Inventory.Store.{LevelRow, Stock, sum_movements}
use multi_warehouse_manageme.Inventory.Service.{apply_movements, ensure_level_locked}
use multi_warehouse_manageme.Inventory.Levels.{
  level_at, available_at, same_key, is_ledger, level_at-ensure, movements-ensure,
}
use multi_warehouse_manageme.Inventory.Steps.{
  Round, level_at-Round, sum_movements-Round, get_bucket_value-Round, apply_movements-keeps,
}

pub record IsReconciledAt (v l : ℕ) (s : Stock) : Type 0 where
  pub counters :
      (c : Bucket)
      → is_ledger c ≡ true
      → get_bucket_value (level_at v l s) c ≡ sum_movements v l c s.movements
  pub formula : available_at v l s ≡ compute_available (level_at v l s)

abbrev pub IsReconciled : Stock → Type 0
IsReconciled s = (v l : ℕ) → IsReconciledAt v l s

pub Round-IsReconciled :
    (v l id : ℕ) (input : ApplyMovementInput) (s t : Stock)
    → IsReconciled s
    → Round v l input s id t
    → IsReconciled t
Round-IsReconciled v l id input s t r d v' l' = record {
  counters = λ c h. rw (
    get_bucket_value-Round v l input s id t v' l' c h d,
    sum_movements-Round v l input s id t v' l' c d,
    (r v' l').counters c h,
  );
  formula = elim (Bool-cases (same_key v l v' l')) [
    | inl same ↦ rw (
      (level_at-Round v l input s id t v' l' d).0,
      (level_at-Round v l input s id t v' l' d).1,
      same,
    )
    | inr other ↦
        rw
          (
            (level_at-Round v l input s id t v' l' d).0,
            (level_at-Round v l input s id t v' l' d).1,
            other,
          )
          (r v' l').formula
  ];
}

ensure-IsReconciled :
    (v l : ℕ) (s : Stock) → IsReconciled s → IsReconciled (ensure_level_locked v l s)
ensure-IsReconciled v l s r v' l' = record {
  counters =
      λ c h. rw ((level_at-ensure v l v' l' s).0, movements-ensure v l s) ((r v' l').counters c h);
  formula = rw ((level_at-ensure v l v' l' s).0, (level_at-ensure v l v' l' s).1) (r v' l').formula;
}

-- A batch of movements that succeeds keeps the stock reconciled: at every key, each of the five
-- counters of the ledger equals the sum of its movements, and `available` equals its formula.
pub apply_movements-IsReconciled :
    (inputs : List ApplyMovementInput) (s : Stock) {r : List ℕ × LevelRow} {t : Stock}
    → IsReconciled s
    → apply_movements inputs s ≡ ok (r, t)
    → IsReconciled t
apply_movements-IsReconciled inputs s r h =
    apply_movements-keeps IsReconciled ensure-IsReconciled Round-IsReconciled inputs s r h
