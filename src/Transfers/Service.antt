-- ===== src/Transfers/Service.antt =====
-- src/modules/transfers/stock-transfer.service.ts: the life of a transfer. A handler reads the
-- transfer first, outside its transaction, and the transaction does not read it again: each handler is
-- here its check and then a transaction on what was read (`submit_tx`, `ship_tx`, `receive_tx`,
-- `cancel_as`), with nothing between the two. The answer, which `findOne` reads again after the commit,
-- is left out.
use multi_warehouse_manageme.Prelude.{
  ℕ, ◌+◌, Bool, true, false, not, ◌==◌, if◌then◌else◌, none, some, List, [], ◌∷◌, String,
}
use multi_warehouse_manageme.Prelude.Int.{ℤ, pos, neg, ltb_ℤ}
use multi_warehouse_manageme.Prelude.Tx.{
  Tx, ◌>>=◌, ◌>>◌, return, throw, throw_if, or_throw, modify, for_each, invalid_transition,
  not_found, insufficient_stock,
}
use multi_warehouse_manageme.Auth.{AuthUser, assert_location_permission}
use multi_warehouse_manageme.Inventory.Types.{Bucket, MovementType, ApplyMovementInput}
use multi_warehouse_manageme.Inventory.Store.{Stock}
use multi_warehouse_manageme.Inventory.Service.{apply_movements, apply_movement}
use multi_warehouse_manageme.Inventory.Levels.{available_at}
use multi_warehouse_manageme.Inventory.Locking.{Lockable, sort_for_locking}
use multi_warehouse_manageme.Transfers.Types.{
  TransferStatus, draft, pending, transferring, received, cancelled, TransferItem, StockTransfer,
  TransferDb, find_transfer, update_transfer, delete_transfer, on_stock,
}

-- The items carry no location, so they are sorted by variant alone.
abbrev pub by_variant : Lockable TransferItem
by_variant = record { variant_id = TransferItem.variant_id; location_id = λ _. none }

-- A movement on behalf of a transfer.
abbrev pub transfer_movement :
    StockTransfer → AuthUser → TransferItem → ℕ → Bucket → ℤ → MovementType → ApplyMovementInput
transfer_movement stn user item location bucket change type = record {
  variant_id = item.variant_id;
  location_id = location;
  bucket = bucket;
  change = change;
  type = type;
  reference_type = some "stock_transfer";
  reference_id = some stn.id;
  created_by_id = some user.user_id;
  price = none;
  cost = none;
}

abbrev pub is_status : TransferStatus → TransferStatus → Bool
is_status draft draft = true
is_status pending pending = true
is_status transferring transferring = true
is_status received received = true
is_status cancelled cancelled = true
is_status _ _ = false

abbrev pub set_status : ℕ → (StockTransfer → StockTransfer) → Tx TransferDb (Unit {0})
set_status id f = modify (λ db. record db { transfers = update_transfer id f db.transfers })

abbrev pub write_log : StockTransfer → AuthUser → String → Tx TransferDb (Unit {0})
write_log stn user action = modify (λ db. record db {
  logs =
      record {
        user_id = user.user_id;
        action = action;
        entity_type = "stock_transfer";
        entity_id = stn.id;
        code = stn.code;
      }
      ∷ db.logs;
})

-- `qtyByVariant.set(key, (qtyByVariant.get(key) ?? 0) + item.quantity)`
unfoldable pub add_quantity : ℕ → ℕ → List (ℕ × ℕ) → List (ℕ × ℕ)
add_quantity v q [] = (v, q) ∷ []
add_quantity v q ((w, n) ∷ rest) =
    if w == v then (w, n + q) ∷ rest else (w, n) ∷ add_quantity v q rest

unfoldable pub quantities_from : List (ℕ × ℕ) → List TransferItem → List (ℕ × ℕ)
quantities_from acc [] = acc
quantities_from acc (item ∷ items) =
    quantities_from (add_quantity item.variant_id item.quantity acc) items

-- `qty > available` for one of the variants.
unfoldable pub some_short : ℕ → Stock → List (ℕ × ℕ) → Bool
some_short l s [] = false
some_short l s ((v, qty) ∷ rest) =
    if ltb_ℤ (available_at v l s) (pos qty) then true else some_short l s rest

-- `validateAvailability`
unfoldable pub validate_availability : List TransferItem → ℕ → Tx TransferDb (Unit {0})
unfolding add_quantity quantities_from some_short
validate_availability items l db =
    throw_if (some_short l db.stock (quantities_from [] items)) insufficient_stock db

unfoldable pub reserve_item : StockTransfer → AuthUser → TransferItem → Tx TransferDb (Unit {0})
reserve_item stn user item = do
  on_stock (
      apply_movement (
        transfer_movement stn user item stn.from_location_id Bucket.committed (pos item.quantity)
          MovementType.transfer_reserve))
  return tt

-- The transaction of `submit`: the reservations, the status and the log.
unfoldable pub submit_tx : StockTransfer → AuthUser → Tx TransferDb (Unit {0})
submit_tx stn user = do
  for_each (reserve_item stn user) (sort_for_locking by_variant stn.items)
  set_status stn.id (λ row. record row { status = pending })
  write_log stn user "stock_transfer.submit"

-- `submit`
unfoldable pub submit : StockTransfer → AuthUser → Tx TransferDb (Unit {0})
submit stn user = do
  throw_if (not (is_status stn.status draft)) invalid_transition
  validate_availability stn.items stn.from_location_id
  submit_tx stn user

unfoldable pub ship_item : StockTransfer → AuthUser → TransferItem → Tx TransferDb (Unit {0})
ship_item stn user item = do
  on_stock (
      apply_movements (
        transfer_movement stn user item stn.from_location_id Bucket.committed
          (neg (pos item.quantity)) MovementType.transfer_release
        ∷ transfer_movement stn user item stn.from_location_id Bucket.on_hand
            (neg (pos item.quantity)) MovementType.transfer_out
        ∷ []))
  on_stock (
      apply_movement (
        transfer_movement stn user item stn.to_location_id Bucket.incoming (pos item.quantity)
          MovementType.incoming_transfer))
  return tt

-- The transaction of `ship`, at the time `now`.
unfoldable pub ship_tx : ℕ → StockTransfer → AuthUser → Tx TransferDb (Unit {0})
ship_tx now stn user = do
  for_each (ship_item stn user) (sort_for_locking by_variant stn.items)
  set_status stn.id (λ row. record row { status = transferring; shipped_at = some now })
  write_log stn user "stock_transfer.ship"

-- `ship`
unfoldable pub ship : ℕ → StockTransfer → AuthUser → Tx TransferDb (Unit {0})
ship now stn user = do
  throw_if (not (is_status stn.status pending)) invalid_transition
  ship_tx now stn user

pub data TransferAction : Type 0 where
  submit_action ship_action : TransferAction

abbrev pub run_action : ℕ → TransferAction → StockTransfer → AuthUser → Tx TransferDb (Unit {0})
run_action now submit_action stn user = submit stn user
run_action now ship_action stn user = ship now stn user

abbrev pub read_transfer : ℕ → Tx TransferDb StockTransfer
read_transfer id db = or_throw (find_transfer id db.transfers) not_found db

-- `transition`
unfoldable pub transition : ℕ → ℕ → TransferAction → AuthUser → Tx TransferDb (Unit {0})
transition now id action user = do
  stn ← read_transfer id
  assert_location_permission user ("stock_transfer:manage" ∷ []) stn.from_location_id
  run_action now action stn user

unfoldable pub receive_item : StockTransfer → AuthUser → TransferItem → Tx TransferDb (Unit {0})
receive_item stn user item = do
  on_stock (
      apply_movements (
        transfer_movement stn user item stn.to_location_id Bucket.incoming (neg (pos item.quantity))
          MovementType.incoming_receipt
        ∷ transfer_movement stn user item stn.to_location_id Bucket.on_hand (pos item.quantity)
            MovementType.transfer_in
        ∷ []))
  return tt

-- The transaction of `receive`, at the time `now`.
unfoldable pub receive_tx : ℕ → StockTransfer → AuthUser → Tx TransferDb (Unit {0})
receive_tx now stn user = do
  for_each (receive_item stn user) (sort_for_locking by_variant stn.items)
  set_status stn.id (λ row. record row {
    status = received;
    received_at = some now;
    received_by_id = some user.user_id;
  })
  write_log stn user "stock_transfer.receive"

-- What `receive` does before its transaction: it reads the transfer, and checks what it has read.
unfoldable pub check_receive : ℕ → AuthUser → Tx TransferDb StockTransfer
check_receive id user = do
  stn ← read_transfer id
  throw_if (not (is_status stn.status transferring)) invalid_transition
  assert_location_permission user ("stock_transfer:receive" ∷ []) stn.to_location_id
  return stn

-- `receive`, where no other request comes between the two.
unfoldable pub receive : ℕ → ℕ → AuthUser → Tx TransferDb (Unit {0})
unfolding check_receive
receive now id user = do stn ← check_receive id user; receive_tx now stn user

unfoldable pub release_item : StockTransfer → AuthUser → TransferItem → Tx TransferDb (Unit {0})
release_item stn user item = do
  on_stock (
      apply_movement (
        transfer_movement stn user item stn.from_location_id Bucket.committed
          (neg (pos item.quantity)) MovementType.transfer_release))
  return tt

unfoldable pub return_item : StockTransfer → AuthUser → TransferItem → Tx TransferDb (Unit {0})
return_item stn user item = do
  on_stock (
      apply_movement (
        transfer_movement stn user item stn.from_location_id Bucket.on_hand (pos item.quantity)
          MovementType.transfer_in))
  on_stock (
      apply_movement (
        transfer_movement stn user item stn.to_location_id Bucket.incoming (neg (pos item.quantity))
          MovementType.incoming_cancel))
  return tt

-- The transaction of `cancel` for a transfer that is pending.
unfoldable pub release_tx : StockTransfer → AuthUser → Tx TransferDb (Unit {0})
release_tx stn user = do
  for_each (release_item stn user) (sort_for_locking by_variant stn.items)
  set_status stn.id (λ row. record row { status = cancelled })
  write_log stn user "stock_transfer.cancel"

-- The transaction of `cancel` for a transfer that is under way.
unfoldable pub return_tx : StockTransfer → AuthUser → Tx TransferDb (Unit {0})
return_tx stn user = do
  for_each (return_item stn user) (sort_for_locking by_variant stn.items)
  set_status stn.id (λ row. record row { status = cancelled })
  write_log stn user "stock_transfer.cancel"

-- The transaction of `cancel`, by the status that was read: a draft is deleted, what is pending is
-- released, and what is under way goes back.
unfoldable pub cancel_as : TransferStatus → StockTransfer → AuthUser → Tx TransferDb (Unit {0})
cancel_as received stn user = throw invalid_transition
cancel_as cancelled stn user = throw invalid_transition
cancel_as draft stn user = do
  write_log stn user "stock_transfer.cancel"
  modify (λ db. record db { transfers = delete_transfer stn.id db.transfers })
cancel_as pending stn user = release_tx stn user
cancel_as transferring stn user = return_tx stn user

-- `cancel`: a transfer that has ended is refused before the permission is looked at.
unfoldable pub cancel : ℕ → AuthUser → Tx TransferDb (Unit {0})
unfolding cancel_as
cancel id user = do
  stn ← read_transfer id
  throw_if (is_status stn.status received) invalid_transition
  throw_if (is_status stn.status cancelled) invalid_transition
  assert_location_permission user ("stock_transfer:manage" ∷ []) stn.from_location_id
  cancel_as stn.status stn user
