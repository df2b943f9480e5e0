-- ===== src/Transfers/Examples.antt =====
-- A transfer of three pieces between two locations, run through the handlers.
use multi_warehouse_manageme.Prelude.{◌≡◌, refl, true, none, some, [], ◌∷◌}
use multi_warehouse_manageme.Prelude.Int.{pos}
use multi_warehouse_manageme.Prelude.Tx.{err, settle, for_each, invalid_transition}
use multi_warehouse_manageme.Auth.{AuthUser, assert_location_permission}
use multi_warehouse_manageme.Inventory.Types.{Bucket, zero_level}
use multi_warehouse_manageme.Inventory.Store.{Stock}
use multi_warehouse_manageme.Inventory.Locking.{sort_for_locking}
use multi_warehouse_manageme.Inventory.Effect.{counter}
use multi_warehouse_manageme.Inventory.Computing.{computing}
use multi_warehouse_manageme.Transfers.Types.{
  draft, transferring, StockTransfer, TransferDb, find_transfer, update_transfer,
}
use multi_warehouse_manageme.Transfers.Service.{
  submit_action, ship_action, transition, check_receive, receive, cancel, submit, ship,
  validate_availability, submit_tx, ship_tx, receive_tx, release_tx, return_tx, cancel_as,
  reserve_item, ship_item, receive_item, release_item, return_item,
}
use multi_warehouse_manageme.Transfers.Journey.{
  transfer_journey, cancel-undoes_ship, cancel-undoes_submit,
}
use multi_warehouse_manageme.Transfers.Overlapping.{receive-overlap}

abbrev admin : AuthUser
admin = record {
  user_id = 1;
  is_admin = true;
  location_ids = [];
  admin_warehouse_ids = [];
  system_permissions = [];
  warehouse_permissions = [];
}

-- Ten pieces of variant 7 at location 1.
abbrev stock : Stock
stock = record {
  levels =
      record {
        variant_id = 7;
        location_id = 1;
        level = record zero_level { on_hand = pos 10 };
        available = pos 10;
        price = pos 0;
        cost = pos 0;
      }
      ∷ [];
  movements = [];
  next_movement_id = 1;
}

abbrev slip : StockTransfer
slip = record {
  id = 4;
  code = "STN000004";
  from_location_id = 1;
  to_location_id = 2;
  status = draft;
  items = record { variant_id = 7; quantity = 2 } ∷ record { variant_id = 7; quantity = 1 } ∷ [];
  shipped_at = none;
  received_at = none;
  received_by_id = none;
}

abbrev start : TransferDb
start = record { stock = stock; transfers = slip ∷ []; logs = [] }

-- Opens the handlers to a run.
handlers : Unit {0}
unfolding computing transition check_receive receive cancel submit ship validate_availability
    submit_tx ship_tx receive_tx release_tx return_tx cancel_as reserve_item ship_item receive_item
    release_item return_item assert_location_permission sort_for_locking find_transfer
    update_transfer for_each
handlers = tt

abbrev submitted : TransferDb
unfolding handlers
submitted = settle start (transition 100 4 submit_action admin start)

abbrev shipped : TransferDb
unfolding handlers
shipped = settle submitted (transition 100 4 ship_action admin submitted)

abbrev arrived : TransferDb
unfolding handlers
arrived = settle shipped (receive 100 4 admin shipped)

transfer_journey_example : counter 7 2 Bucket.on_hand arrived.stock ≡ pos 3
unfolding handlers
transfer_journey_example =
    transfer_journey 100 4 admin admin admin start submitted shipped arrived tt slip 7 2
      Bucket.on_hand refl refl refl refl refl

cancel-undoes_ship_example :
    counter 7 1 Bucket.on_hand (settle shipped (cancel 4 admin shipped)).stock
    ≡ counter 7 1 Bucket.on_hand start.stock
unfolding handlers
cancel-undoes_ship_example =
    cancel-undoes_ship 100 4 admin admin admin start submitted shipped
      (settle shipped (cancel 4 admin shipped)) tt slip 7 1 Bucket.on_hand refl refl refl refl refl

cancel-undoes_submit_example :
    counter 7 1 Bucket.committed (settle submitted (cancel 4 admin submitted)).stock
    ≡ counter 7 1 Bucket.committed start.stock
unfolding handlers
cancel-undoes_submit_example =
    cancel-undoes_submit 100 4 admin admin start submitted
      (settle submitted (cancel 4 admin submitted)) tt slip 7 1 Bucket.committed refl refl refl refl

-- The transfer is under way, and three pieces of the same variant come from somewhere else.
abbrev under_way : StockTransfer
under_way = record slip { status = transferring; shipped_at = some 100 }

abbrev busy : TransferDb
busy = record {
  stock = record {
    levels =
        record {
          variant_id = 7;
          location_id = 2;
          level = record zero_level { incoming = pos 6 };
          available = pos 0;
          price = pos 0;
          cost = pos 0;
        }
        ∷ [];
    movements = [];
    next_movement_id = 1;
  };
  transfers = under_way ∷ [];
  logs = [];
}

abbrev received_once : TransferDb
unfolding handlers
received_once = settle busy (receive_tx 200 under_way admin busy)

abbrev received_twice : TransferDb
unfolding handlers
received_twice = settle received_once (receive_tx 201 under_way admin received_once)

receive-overlap_example :
    (counter 7 2 Bucket.on_hand received_twice.stock ≡ pos 6)
    × (check_receive 4 admin received_once ≡ err invalid_transition)
unfolding handlers
receive-overlap_example =
    receive-overlap 200 201 4 admin admin admin busy received_once received_twice tt under_way
      under_way under_way 7 2 Bucket.on_hand refl refl refl refl refl refl
