-- ===== src/Purchasing/StockExamples.antt =====
-- The stock of an order of ten pieces that is submitted and closed after six of them have come, and of
-- a return of four of these.
use multi_warehouse_manageme.Prelude.{ℕ, ◌≡◌, ◌⊎◌, refl, true, none, [], ◌∷◌}
use multi_warehouse_manageme.Prelude.Int.{pos, ◌*ℤ◌, ◌≤ℤ◌}
use multi_warehouse_manageme.Prelude.Tx.{settle, for_each}
use multi_warehouse_manageme.Prelude.Table.{find_row, update_row}
use multi_warehouse_manageme.Auth.{AuthUser, assert_location_permission}
use multi_warehouse_manageme.Inventory.Types.{Bucket, zero_level}
use multi_warehouse_manageme.Inventory.Levels.{available_at}
use multi_warehouse_manageme.Inventory.Locking.{sort_for_locking}
use multi_warehouse_manageme.Inventory.Effect.{counter}
use multi_warehouse_manageme.Inventory.Computing.{computing}
use multi_warehouse_manageme.Transfers.Service.{add_quantity, some_short}
use multi_warehouse_manageme.Purchasing.Types.{
  PoStatus, PurchaseOrder, PurchasingDb, create_payment, validate_partner,
}
use multi_warehouse_manageme.Purchasing.Orders.{
  close_action, transition, submit, submit_tx, announce_item, close, close_tx, cancel_remaining,
}
use multi_warehouse_manageme.Purchasing.Returns.{
  CreatePurchaseReturnDto, send_back, return_quantities, validate_goods_receipt_ref,
  validate_return_quantities,
}
use multi_warehouse_manageme.Purchasing.Returns
use multi_warehouse_manageme.Purchasing.Announced.{order_transition-stock}
use multi_warehouse_manageme.Purchasing.Returned.{return_create-stock}

abbrev admin : AuthUser
admin = record {
  user_id = 1;
  is_admin = true;
  location_ids = [];
  admin_warehouse_ids = [];
  system_permissions = [];
  warehouse_permissions = [];
}

-- Six of the ten pieces have come.
abbrev order : PurchaseOrder
order = record {
  id = 1;
  code = 1;
  supplier_id = 3;
  location_id = 2;
  status = PoStatus.pending;
  items = record { variant_id = 7; quantity = 10; unit_price = pos 5; received_quantity = 6 } ∷ [];
  total_quantity = 10;
  total_amount = pos 50;
  deposit_amount = pos 0;
}

abbrev start : PurchasingDb
start = record {
  stock = record {
    levels =
        record {
          variant_id = 7;
          location_id = 2;
          level = record zero_level { on_hand = pos 6; incoming = pos 4 };
          available = pos 6;
          price = pos 0;
          cost = pos 0;
        }
        ∷ [];
    movements = [];
    next_movement_id = 1;
  };
  suppliers = record { id = 3; is_active = true } ∷ [];
  locations = [];
  orders = order ∷ [];
  receipts = [];
  returns = [];
  ledger = [];
  vouchers = [];
  logs = [];
  next_id = 3;
}

abbrev sending : CreatePurchaseReturnDto
sending = record {
  supplier_id = 3;
  location_id = 2;
  goods_receipt_id = none;
  items = record { variant_id = 7; quantity = 4; unit_price = pos 5 } ∷ [];
}

-- Opens the handlers to a run.
handlers : Unit {0}
unfolding computing transition submit submit_tx announce_item close close_tx cancel_remaining
    Returns.create Returns.create_tx send_back return_quantities validate_goods_receipt_ref
    validate_return_quantities validate_partner add_quantity some_short create_payment find_row
    update_row assert_location_permission sort_for_locking for_each ◌*ℤ◌
handlers = tt

abbrev closed : PurchasingDb
unfolding handlers
closed = settle start (transition 1 close_action admin start)

order_transition-stock_example : counter 7 2 Bucket.incoming closed.stock ≡ pos 0
unfolding handlers
order_transition-stock_example =
    order_transition-stock 1 close_action admin start closed tt order 7 2 Bucket.incoming refl refl
      refl

abbrev sent_back : PurchasingDb
unfolding handlers
sent_back = settle start (Returns.create sending admin start)

return_create-stock_example :
    (counter 7 2 Bucket.on_hand sent_back.stock ≡ pos 2)
    × ((◌≡◌ {A = ℕ} 4 0) ⊎ (pos 4 ≤ℤ available_at 7 2 start.stock))
unfolding handlers
return_create-stock_example =
    return_create-stock sending admin start sent_back tt 7 2 Bucket.on_hand refl refl
