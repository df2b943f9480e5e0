-- ===== src/Purchasing/Orders.antt =====
-- src/modules/purchasing/purchase-order.service.ts. A handler reads the order first and then runs a
-- transaction on what it has read; here both are one step. The answer is left out.
use multi_warehouse_manageme.Prelude.{
  ℕ, ◌+◌, Bool, true, false, not, ◌&&◌, leb, if◌then◌else◌, Option, none, some, List, [], ◌∷◌,
  String, map, all, sum_by, or_default,
}
use multi_warehouse_manageme.Prelude.Int.{ℤ, pos, neg, ◌-ℤ◌, ltb_ℤ, leb_ℤ}
use multi_warehouse_manageme.Prelude.Sums.{sum_ℤ}
use multi_warehouse_manageme.Prelude.Tx.{
  Tx, ◌>>=◌, ◌>>◌, return, throw_if, or_throw, gets, modify, for_each, invalid_transition,
  not_found, validation_error,
}
use multi_warehouse_manageme.Prelude.Table.{update_row, delete_row}
use multi_warehouse_manageme.Auth.{AuthUser, assert_location_permission}
use multi_warehouse_manageme.Inventory.Types.{Bucket, MovementType, ApplyMovementInput}
use multi_warehouse_manageme.Inventory.Service.{apply_movement}
use multi_warehouse_manageme.Inventory.Locking.{Lockable, sort_for_locking}
use multi_warehouse_manageme.Inventory.Lines.{on_stock}
use multi_warehouse_manageme.Purchasing.Types.{
  PoStatus, PurchaseOrderItem, PurchaseOrder, PurchasingDb, stock_in, find_order, write_log,
  create_payment, validate_partner, line_amount,
}

abbrev pub by_variant : Lockable PurchaseOrderItem
by_variant = record { variant_id = PurchaseOrderItem.variant_id; location_id = λ _. none }

abbrev pub is_status : PoStatus → PoStatus → Bool
is_status PoStatus.draft PoStatus.draft = true
is_status PoStatus.pending PoStatus.pending = true
is_status PoStatus.received PoStatus.received = true
is_status PoStatus.cancelled PoStatus.cancelled = true
is_status _ _ = false

abbrev pub po_write : List String
po_write = "purchase_order:manage" ∷ []

-- A line of `CreatePurchaseOrderDto`.
pub record PoItemDto : Type 0 where
  pub variant_id : ℕ
  pub quantity : ℕ
  pub unit_price : ℤ

pub record CreatePurchaseOrderDto : Type 0 where
  pub supplier_id : ℕ
  pub location_id : ℕ
  pub items : List PoItemDto
  pub deposit_amount : Option ℤ

pub record UpdatePurchaseOrderDto : Type 0 where
  pub supplier_id : Option ℕ
  pub location_id : Option ℕ
  pub items : Option (List PoItemDto)
  pub deposit_amount : Option ℤ

abbrev pub is_empty : List PoItemDto → Bool
is_empty [] = true
is_empty (_ ∷ _) = false

abbrev pub new_item : PoItemDto → PurchaseOrderItem
new_item item = record {
  variant_id = item.variant_id;
  quantity = item.quantity;
  unit_price = item.unit_price;
  received_quantity = 0;
}

abbrev pub total_of : List PoItemDto → ℤ
total_of = sum_ℤ (λ i. line_amount i.quantity i.unit_price)

-- `create`, with the number of the code that `generatePoCode` has given out.
unfoldable pub create : ℕ → CreatePurchaseOrderDto → AuthUser → Tx PurchasingDb (Unit {0})
create code dto user = do
  throw_if (is_empty dto.items) validation_error
  suppliers ← gets PurchasingDb.suppliers
  validate_partner dto.supplier_id suppliers
  locations ← gets PurchasingDb.locations
  validate_partner dto.location_id locations
  assert_location_permission user po_write dto.location_id
  let deposit = or_default dto.deposit_amount (pos 0)
  throw_if (ltb_ℤ (total_of dto.items) deposit) validation_error
  id ← gets PurchasingDb.next_id
  modify (λ db. record db {
    orders =
        record {
          id = id;
          code = code;
          supplier_id = dto.supplier_id;
          location_id = dto.location_id;
          status = PoStatus.draft;
          items = map new_item dto.items;
          total_quantity = sum_by PoItemDto.quantity dto.items;
          total_amount = total_of dto.items;
          deposit_amount = deposit;
        }
        ∷ db.orders;
    next_id = id + 1;
  })
  write_log user "purchase_order.create" id code

abbrev pub validate_optional :
    Option ℕ → (ℕ → Tx PurchasingDb (Unit {0})) → Tx PurchasingDb (Unit {0})
validate_optional none check = return tt
validate_optional (some id) check = check id

-- The lines that `update` writes, with their totals; without lines all three stay.
abbrev pub set_items : Option (List PoItemDto) → PurchaseOrder → PurchaseOrder
set_items none po = po
set_items (some items) po = record po {
  items = map new_item items;
  total_quantity = sum_by PoItemDto.quantity items;
  total_amount = total_of items;
}

abbrev pub has_no_line : Option (List PoItemDto) → Bool
has_no_line none = false
has_no_line (some items) = is_empty items

abbrev pub exceeds : Option ℤ → ℤ → Bool
exceeds none total = false
exceeds (some deposit) total = ltb_ℤ total deposit

-- What `update` makes of the row; `set_items` gives the total that a deposit is held against.
abbrev pub edited : UpdatePurchaseOrderDto → PurchaseOrder → PurchaseOrder
edited dto po = record (set_items dto.items po) {
  supplier_id = or_default dto.supplier_id po.supplier_id;
  location_id = or_default dto.location_id po.location_id;
  deposit_amount = or_default dto.deposit_amount po.deposit_amount;
}

abbrev pub update_order : ℕ → (PurchaseOrder → PurchaseOrder) → Tx PurchasingDb (Unit {0})
update_order id f = modify (λ db. record db { orders = update_row PurchaseOrder.id id f db.orders })

abbrev pub read_order : ℕ → Tx PurchasingDb PurchaseOrder
read_order id db = or_throw (find_order id db.orders) not_found db

-- `update`
unfoldable pub update : ℕ → UpdatePurchaseOrderDto → AuthUser → Tx PurchasingDb (Unit {0})
update id dto user = do
  po ← read_order id
  assert_location_permission user po_write po.location_id
  throw_if (not (is_status po.status PoStatus.draft)) invalid_transition
  throw_if (has_no_line dto.items) validation_error
  suppliers ← gets PurchasingDb.suppliers
  validate_optional dto.supplier_id (λ x. validate_partner x suppliers)
  locations ← gets PurchasingDb.locations
  validate_optional dto.location_id (λ x. validate_partner x locations)
  validate_optional dto.location_id (λ x. assert_location_permission user po_write x)
  throw_if (exceeds dto.deposit_amount (set_items dto.items po).total_amount) validation_error
  update_order id (edited dto)
  write_log user "purchase_order.update" id po.code

-- A movement of incoming stock on behalf of an order.
abbrev pub po_movement :
    PurchaseOrder → AuthUser → PurchaseOrderItem → ℤ → MovementType → ApplyMovementInput
po_movement po user item change type = record {
  variant_id = item.variant_id;
  location_id = po.location_id;
  bucket = Bucket.incoming;
  change = change;
  type = type;
  reference_type = some "purchase_order";
  reference_id = some po.id;
  created_by_id = some user.user_id;
  price = none;
  cost = none;
}

unfoldable pub announce_item :
    PurchaseOrder → AuthUser → PurchaseOrderItem → Tx PurchasingDb (Unit {0})
announce_item po user item = do
  on_stock stock_in
      (apply_movement (po_movement po user item (pos item.quantity) MovementType.incoming_po))
  return tt

-- `if (Number(po.depositAmount) > 0) await this.vouchers.createPayment(…)`
abbrev pub pay_deposit : PurchaseOrder → AuthUser → Tx PurchasingDb (Unit {0})
pay_deposit po user =
    if ltb_ℤ (pos 0) po.deposit_amount
    then create_payment po.location_id po.deposit_amount user po.code "purchase_order" po.id
    else return tt

-- The transaction of `submit`.
unfoldable pub submit_tx : PurchaseOrder → AuthUser → Tx PurchasingDb (Unit {0})
submit_tx po user = do
  for_each (announce_item po user) (sort_for_locking by_variant po.items)
  update_order po.id (λ row. record row { status = PoStatus.pending })
  write_log user "purchase_order.submit" po.id po.code
  pay_deposit po user

unfoldable pub submit : PurchaseOrder → AuthUser → Tx PurchasingDb (Unit {0})
submit po user = do
  throw_if (not (is_status po.status PoStatus.draft)) invalid_transition
  submit_tx po user

-- `item.quantity - item.receivedQuantity`
abbrev pub remaining_of : PurchaseOrderItem → ℤ
remaining_of item = pos item.quantity -ℤ pos item.received_quantity

-- A round of `cancelRemainingIncoming`: a line that is fully received is passed over.
unfoldable pub cancel_remaining :
    PurchaseOrder → AuthUser → PurchaseOrderItem → Tx PurchasingDb (Unit {0})
cancel_remaining po user item =
    let cancel_it : Tx PurchasingDb (Unit {0}) = (do
      on_stock stock_in (
          apply_movement
            (po_movement po user item (neg (remaining_of item)) MovementType.incoming_cancel))
      return tt) in
    if leb_ℤ (remaining_of item) (pos 0) then return tt else cancel_it

-- The transaction of `close`.
unfoldable pub close_tx : PurchaseOrder → AuthUser → Tx PurchasingDb (Unit {0})
close_tx po user = do
  for_each (cancel_remaining po user) (sort_for_locking by_variant po.items)
  update_order po.id (λ row. record row { status = PoStatus.received })
  write_log user "purchase_order.close" po.id po.code

unfoldable pub close : PurchaseOrder → AuthUser → Tx PurchasingDb (Unit {0})
close po user = do
  throw_if (not (is_status po.status PoStatus.pending)) invalid_transition
  close_tx po user

-- `cancel`: a draft is deleted.
unfoldable pub cancel : PurchaseOrder → AuthUser → Tx PurchasingDb (Unit {0})
cancel po user = do
  throw_if (not (is_status po.status PoStatus.draft)) invalid_transition
  write_log user "purchase_order.cancel" po.id po.code
  modify (λ db. record db { orders = delete_row PurchaseOrder.id po.id db.orders })

pub data PoAction : Type 0 where
  submit_action close_action cancel_action : PoAction

abbrev pub run_action : PoAction → PurchaseOrder → AuthUser → Tx PurchasingDb (Unit {0})
run_action submit_action po user = submit po user
run_action close_action po user = close po user
run_action cancel_action po user = cancel po user

-- `transition`
unfoldable pub transition : ℕ → PoAction → AuthUser → Tx PurchasingDb (Unit {0})
transition id action user = do
  po ← read_order id
  assert_location_permission user po_write po.location_id
  run_action action po user

-- `po.items.every((item) => item.receivedQuantity >= item.quantity)`
abbrev pub is_fully_received : PurchaseOrder → Bool
is_fully_received po = all (λ i. leb i.quantity i.received_quantity) po.items

-- The writes of `tryCompleteIfFullyReceived`.
abbrev pub complete : PurchaseOrder → AuthUser → Tx PurchasingDb (Unit {0})
complete po user = do
  update_order po.id (λ row. record row { status = PoStatus.received })
  write_log user "purchase_order.auto_complete" po.id po.code

-- `tryCompleteIfFullyReceived`: called after the confirmation of a receipt, in its transaction.
unfoldable pub try_complete_if_fully_received : AuthUser → ℕ → Tx PurchasingDb (Unit {0})
try_complete_if_fully_received user id db = elim (find_order id db.orders) [
  | none ↦ return tt db
  | some po ↦
      (if is_status po.status PoStatus.pending && is_fully_received po
          then complete po user
          else return tt)
        db
]
