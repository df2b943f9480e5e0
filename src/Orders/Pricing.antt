-- ===== src/Orders/Pricing.antt =====
-- src/modules/orders/order-pricing.ts, and `resolveItems` of order.service.ts: the lines of a new
-- order and their totals. Amounts are integers of hundredths.
use multi_warehouse_manageme.Prelude.{
  ℕ, Bool, false, not, ◌||◌, Option, none, some, List, [], ◌∷◌, or_default, sum_by,
}
use multi_warehouse_manageme.Prelude.Int.{ℤ, pos, ◌+ℤ◌, ◌-ℤ◌, ◌*ℤ◌, ◌==ℤ◌, ltb_ℤ, max_ℤ}
use multi_warehouse_manageme.Prelude.Sums.{sum_ℤ}
use multi_warehouse_manageme.Prelude.Tx.{
  Tx, Result, ◌>>=◌, ◌>>◌, return, throw_if, lift, validation_error, price_override_forbidden,
}

-- `OrderItemDto`
pub record OrderItemDto : Type 0 where
  pub variant_id : ℕ
  pub location_id : Option ℕ
  pub quantity : ℕ
  pub price : Option ℤ
  pub discount : Option ℤ

-- What the service reads of the products and the price lists.
pub record Catalog : Type 0 where
  pub location_exists : ℕ → Bool
  pub variant_exists : ℕ → Bool
  pub resolve_price : ℕ → ℕ → Result ℤ
  pub listed_prices : ℕ → List ℤ

-- `ResolvedItem`
pub record ResolvedItem : Type 0 where
  pub variant_id : ℕ
  pub location_id : ℕ
  pub quantity : ℕ
  pub price : ℤ
  pub discount : ℤ
  pub total : ℤ

-- `calcLineTotal`
unfoldable pub calc_line_total : ℕ → ℤ → ℤ → ℤ
calc_line_total quantity price discount = pos quantity *ℤ price -ℤ discount

-- `OrderTotals`
pub record OrderTotals : Type 0 where
  pub sub_total_price : ℤ
  pub total_tax : ℤ
  pub total_price : ℤ
  pub subtotal_line_items_quantity : ℕ

abbrev pub line_total : ResolvedItem → ℤ
line_total l = calc_line_total l.quantity l.price l.discount

abbrev pub taxable : List ResolvedItem → ℤ → ℤ
taxable lines total_discounts = max_ℤ (pos 0) (sum_ℤ line_total lines -ℤ total_discounts)

-- `calcOrderTotals`; `tax` is `(taxable) => Math.round(taxable * taxRate)`, in floating point.
unfoldable pub calc_order_totals : (ℤ → ℤ) → List ResolvedItem → ℤ → ℤ → OrderTotals
calc_order_totals tax lines total_discounts total_shipping_price = record {
  sub_total_price = sum_ℤ line_total lines;
  total_tax = tax (taxable lines total_discounts);
  total_price =
      taxable lines total_discounts +ℤ tax (taxable lines total_discounts) +ℤ total_shipping_price;
  subtotal_line_items_quantity = sum_by ResolvedItem.quantity lines;
}

-- `listed.some((p) => Math.abs(p - price) < 0.005)`: below a hundredth, so equal.
unfoldable pub is_listed : ℤ → List ℤ → Bool
is_listed price [] = false
is_listed price (p ∷ ps) = p ==ℤ price || is_listed price ps

-- The price of a line: a user who may not override it sells at a price that is listed, as
-- `assertListedPrice` checks.
unfoldable pub price_of : Catalog → Bool → OrderItemDto → ℕ → Tx (Unit {0}) ℤ
unfolding is_listed
price_of cat can_override item l = elim item.price [
  | none ↦ lift (cat.resolve_price item.variant_id l)
  | some price ↦
      throw_if (not (can_override || is_listed price (cat.listed_prices item.variant_id)))
        price_override_forbidden
      >> return price
]

abbrev resolved : OrderItemDto → ℕ → ℤ → ResolvedItem
resolved item l price = record {
  variant_id = item.variant_id;
  location_id = l;
  quantity = item.quantity;
  price = price;
  discount = or_default item.discount (pos 0);
  total = calc_line_total item.quantity price (or_default item.discount (pos 0));
}

-- The body of the loop.
unfoldable pub resolve_item : Catalog → Bool → OrderItemDto → Tx (Unit {0}) ResolvedItem
unfolding price_of calc_line_total
resolve_item cat can_override item = do
  throw_if (not (cat.variant_exists item.variant_id)) validation_error
  price ← price_of cat can_override item (or_default item.location_id 0)
  throw_if (ltb_ℤ (pos item.quantity *ℤ price) (or_default item.discount (pos 0))) validation_error
  return (resolved item (or_default item.location_id 0) price)

-- `resolveItems`; it reads no table of the orders.
unfoldable pub resolve_items :
    Catalog → Bool → List OrderItemDto → Tx (Unit {0}) (List ResolvedItem)
unfolding resolve_item
resolve_items cat can_override [] = return []
resolve_items cat can_override (item ∷ items) = do
  r ← resolve_item cat can_override item
  rest ← resolve_items cat can_override items
  return (r ∷ rest)
