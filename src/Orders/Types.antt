-- ===== src/Orders/Types.antt =====
-- The tables that src/modules/orders and src/modules/fulfillments work on, from
-- prisma/schema.prisma, and the writes that their services share. Amounts are integers of
-- hundredths. Descriptive columns, such as `note` or `to_address`, are left out.
use multi_warehouse_manageme.Prelude.{
  ℕ, Bool, not, ◌&&◌, ◌==◌, true, false, Option, none, some, List, [], ◌∷◌, String,
}
use multi_warehouse_manageme.Prelude.Int.{ℤ, pos}
use multi_warehouse_manageme.Prelude.Tx.{Tx, modify}
use multi_warehouse_manageme.Prelude.Table.{find_row, update_row}
use multi_warehouse_manageme.Auth.{AuthUser}
use multi_warehouse_manageme.Inventory.Store.{Stock}
use multi_warehouse_manageme.Inventory.Locking.{Lockable}
use multi_warehouse_manageme.Inventory.Lines.{StockIn}
use multi_warehouse_manageme.Purchasing.Types.{Voucher, VoucherType}
use multi_warehouse_manageme.Orders.RefundStatus.{
  RestockType, OrderReturnStatus, OrderRefundStatus, OrderRestockStatus, OrderFinancialStatus,
}

-- `opened` is `open`.
pub data OrderStatus : Type 0 where
  opened closed cancelled : OrderStatus

pub data OrderFulfillmentStatus : Type 0 where
  partial fulfilled : OrderFulfillmentStatus

pub data PackingStatus : Type 0 where
  unknown packing packed : PackingStatus

pub data ShipmentStatus : Type 0 where
  pending picked_up delivering delivered retry_delivery returning returned cancelled :
      ShipmentStatus

pub data DeliveryMethod : Type 0 where
  external_service ecommerce pick_up external_shipper outside_shipper : DeliveryMethod

pub data CustomerReferenceType : Type 0 where
  order payment order_return refund adjustment : CustomerReferenceType

pub record OrderItem : Type 0 where
  pub id : ℕ
  pub variant_id : ℕ
  pub quantity : ℕ
  pub price : ℤ
  pub total_discount : ℤ

-- A row of `orders`; `code` stands for its `name`, and a mark in time is a number.
pub record Order : Type 0 where
  pub id : ℕ
  pub code : ℕ
  pub location_id : ℕ
  pub customer_id : Option ℕ
  pub status : OrderStatus
  pub fulfillment_status : Option OrderFulfillmentStatus
  pub financial_status : OrderFinancialStatus
  pub return_status : OrderReturnStatus
  pub refund_status : OrderRefundStatus
  pub restock_status : OrderRestockStatus
  pub confirmed_on : Option ℕ
  pub delivered_on : Option ℕ
  pub paid_on : Option ℕ
  pub closed_on : Option ℕ
  pub completed_on : Option ℕ
  pub cancelled_on : Option ℕ
  pub sub_total_price : ℤ
  pub total_discounts : ℤ
  pub total_tax : ℤ
  pub total_shipping_price : ℤ
  pub subtotal_line_items_quantity : ℕ
  pub total_price : ℤ
  pub total_received : ℤ
  pub items : List OrderItem

-- A row of `fulfillments`; its `name` is the order's code and `number`.
pub record Fulfillment : Type 0 where
  pub id : ℕ
  pub order_id : ℕ
  pub number : ℕ
  pub is_cancelled : Bool
  pub packed_status : Option PackingStatus
  pub packed_on : Option ℕ
  pub delivery_note_printed_at : Option ℕ
  pub shipment_status : Option ShipmentStatus
  pub delivery_method : Option DeliveryMethod
  pub provider_id : Option ℕ
  pub tracking_number : Option ℕ
  pub shipping_fee : ℤ
  pub cod_amount : ℤ
  pub picked_up_at : Option ℕ
  pub delivered_on : Option ℕ
  pub returned_at : Option ℕ
  pub cancelled_on : Option ℕ
  pub closed_at : Option ℕ

-- A row of `order_refund_line_items`.
pub record OrderRefundLine : Type 0 where
  pub order_item_id : Option ℕ
  pub variant_id : ℕ
  pub location_id : ℕ
  pub quantity : ℕ
  pub restock_type : RestockType

pub record OrderRefund : Type 0 where
  pub order_id : ℕ
  pub restock : Bool
  pub total_refunded : ℤ
  pub lines : List OrderRefundLine

-- A row of `customer_ledger_entries`: what the customer owes counts above zero.
pub record CustomerLedgerEntry : Type 0 where
  pub customer_id : ℕ
  pub reference_type : CustomerReferenceType
  pub reference_code : ℕ
  pub amount : ℤ
  pub created_by_id : ℕ

pub record OrderLog : Type 0 where
  pub user_id : ℕ
  pub action : String
  pub entity_id : ℕ
  pub code : ℕ

-- `open_returns` holds the order of each return document that is in progress.
pub record OrderDb : Type 0 where
  pub stock : Stock
  pub orders : List Order
  pub fulfillments : List Fulfillment
  pub refunds : List OrderRefund
  pub open_returns : List ℕ
  pub ledger : List CustomerLedgerEntry
  pub vouchers : List Voucher
  pub logs : List OrderLog
  pub next_id : ℕ

abbrev pub stock_in : StockIn OrderDb
stock_in = record { stock_of = OrderDb.stock; with_stock = λ s db. record db { stock = s } }

abbrev pub find_order : ℕ → List Order → Option Order
find_order = find_row Order.id

abbrev pub find_fulfillment : ℕ → List Fulfillment → Option Fulfillment
find_fulfillment = find_row Fulfillment.id

abbrev pub by_variant : Lockable OrderItem
by_variant = record { variant_id = OrderItem.variant_id; location_id = λ _. none }

abbrev pub is_set {ℓ} : {A : Type ℓ} → Option A → Bool
is_set none = false
is_set (some _) = true

abbrev pub is_open : OrderStatus → Bool
is_open OrderStatus.opened = true
is_open _ = false

abbrev pub is_closed : OrderStatus → Bool
is_closed OrderStatus.closed = true
is_closed _ = false

abbrev pub is_paid : OrderFinancialStatus → Bool
is_paid OrderFinancialStatus.paid = true
is_paid _ = false

-- `tx.order.update({ where: { id }, data })`
abbrev pub update_order : ℕ → (Order → Order) → Tx OrderDb (Unit {0})
update_order id f = modify (λ db. record db { orders = update_row Order.id id f db.orders })

-- `tx.fulfillment.update({ where: { id }, data })`
abbrev pub update_fulfillment : ℕ → (Fulfillment → Fulfillment) → Tx OrderDb (Unit {0})
update_fulfillment id f =
    modify (λ db. record db { fulfillments = update_row Fulfillment.id id f db.fulfillments })

abbrev pub add_refund : OrderRefund → Tx OrderDb (Unit {0})
add_refund r = modify (λ db. record db { refunds = r ∷ db.refunds })

-- `activityLog.create`
abbrev pub write_log : AuthUser → String → ℕ → ℕ → Tx OrderDb (Unit {0})
write_log user action id code = modify (λ db. record db {
  logs = record { user_id = user.user_id; action = action; entity_id = id; code = code } ∷ db.logs;
})

-- `CustomerDebtService.recordEntry`, for an order that has a customer.
abbrev pub record_entry :
    Option ℕ → CustomerReferenceType → ℕ → ℤ → AuthUser → Tx OrderDb (Unit {0})
record_entry none reference_type code amount user = modify (λ db. db)
record_entry (some customer_id) reference_type code amount user = modify (λ db. record db {
  ledger =
      record {
        customer_id = customer_id;
        reference_type = reference_type;
        reference_code = code;
        amount = amount;
        created_by_id = user.user_id;
      }
      ∷ db.ledger;
})

-- `VoucherService.createReceipt`: money that comes in.
abbrev pub create_receipt : Order → ℤ → AuthUser → Tx OrderDb (Unit {0})
create_receipt o amount user = modify (λ db. record db {
  vouchers =
      record {
        type = VoucherType.receipt;
        amount_in = amount;
        amount_out = pos 0;
        location_id = o.location_id;
        created_by_id = user.user_id;
        source_document = o.code;
        reference_type = "order";
        reference_id = o.id;
      }
      ∷ db.vouchers;
})

-- `findFirst({ where: { orderId, closedAt: null } })`
unfoldable pub find_open : ℕ → List Fulfillment → Option Fulfillment
find_open order_id [] = none
find_open order_id (f ∷ fs) = elim (f.order_id == order_id && not (is_set f.closed_at)) [
  | true ↦ some f
  | false ↦ find_open order_id fs
]
