-- ===== src/AgedInventory/Calc.antt =====
-- `fifoLayers` of src/modules/aged-inventory/aged-inventory.calc.ts. `Array.prototype.sort` is
-- stable, and is an insertion sort here.
use multi_warehouse_manageme.Prelude.{
  ℕ, Bool, ltb, if◌then◌else◌, Option, none, some, List, [], ◌∷◌, ◌++◌, filter,
}
use multi_warehouse_manageme.Prelude.Int.{min_ℤ, ℤ, pos, ◌-ℤ◌, ltb_ℤ, leb_ℤ}

pub record ReceiptLot : Type 0 where
  pub received_on : ℕ
  pub qty : ℤ

pub data LayerSource : Type 0 where
  receipt created : LayerSource

pub record StockLayer : Type 0 where
  pub since : ℕ
  pub qty : ℤ
  pub source : LayerSource

-- Whether `b.receivedOn - a.receivedOn` is positive: `a` must stand after `b`.
unfoldable pub is_older : ReceiptLot → ReceiptLot → Bool
is_older a b = ltb a.received_on b.received_on

unfoldable pub insert_lot : ReceiptLot → List ReceiptLot → List ReceiptLot
unfolding is_older
insert_lot r [] = r ∷ []
insert_lot r (q ∷ qs) = if is_older r q then q ∷ insert_lot r qs else r ∷ q ∷ qs

unfoldable pub sort_newest : List ReceiptLot → List ReceiptLot
sort_newest [] = []
sort_newest (r ∷ rs) = insert_lot r (sort_newest rs)

abbrev pub is_positive : ReceiptLot → Bool
is_positive r = ltb_ℤ (pos 0) r.qty

-- The loop over the receipts, newest first: the layers, and what is `left`.
unfoldable pub take_lots : ℤ → List ReceiptLot → List StockLayer × ℤ
take_lots left [] = ([], left)
take_lots left (r ∷ rs) =
    let qty = min_ℤ left r.qty in
    let rest = take_lots (left -ℤ qty) rs in
    if leb_ℤ left (pos 0)
    then ([], left)
    else (record { since = r.received_on; qty = qty; source = receipt } ∷ rest.0, rest.1)

-- `layers.at(-1)?.since`
unfoldable pub oldest_used : List StockLayer → Option ℕ
oldest_used [] = none
oldest_used (x ∷ []) = some x.since
oldest_used (x ∷ y ∷ ys) = oldest_used (y ∷ ys)

unfoldable pub created_since : Option ℕ → ℕ → ℕ
created_since none fallback_since = fallback_since
created_since (some oldest) fallback_since =
    if ltb oldest fallback_since then oldest else fallback_since

-- `fifoLayers`
unfoldable pub fifo_layers : ℤ → List ReceiptLot → ℕ → List StockLayer
unfolding take_lots oldest_used created_since
fifo_layers on_hand receipts fallback_since =
    let (layers, left) = take_lots on_hand (sort_newest (filter is_positive receipts)) in
    let since = created_since (oldest_used layers) fallback_since in
    let all_layers =
      if ltb_ℤ (pos 0) left
      then layers ++ (record { since = since; qty = left; source = created } ∷ [])
      else layers in
    if leb_ℤ on_hand (pos 0) then [] else all_layers
