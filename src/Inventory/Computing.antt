-- ===== src/Inventory/Computing.antt =====
-- Naming `computing` on an `unfolding` line opens the whole inventory service to a concrete run.
use multi_warehouse_manageme.Prelude.Int.{◌+ℤ◌, ◌-ℤ◌, ◌*ℤ◌, neg}
use multi_warehouse_manageme.Inventory.Types.{compute_available, set_bucket_value, get_bucket_value}
use multi_warehouse_manageme.Inventory.Store.{
  find_level, lock_level, create_level, update_rows, update_level, insert_movement, sum_movements,
}
use multi_warehouse_manageme.Inventory.Service.{
  next_level, apply_movements, apply_movement, adjust_on_hand_to, reconcile, is_order_lifecycle,
  worsens_available, refuses_negative, ensure_level_locked, get_level_state, write_movement,
  apply_round, apply_rounds,
}

unfoldable pub computing : Unit {0}
unfolding next_level apply_movements apply_movement adjust_on_hand_to reconcile is_order_lifecycle
    worsens_available refuses_negative ensure_level_locked get_level_state write_movement
    apply_round apply_rounds find_level lock_level create_level update_rows update_level
    insert_movement sum_movements compute_available set_bucket_value get_bucket_value ◌+ℤ◌ ◌-ℤ◌ ◌*ℤ◌
    neg
computing = tt
