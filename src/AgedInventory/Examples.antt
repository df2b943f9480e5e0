-- ===== src/AgedInventory/Examples.antt =====
-- `fifoLayers` at concrete receipts.
use multi_warehouse_manageme.Prelude.{◌≡◌, refl, List, [], ◌∷◌, arith}
use multi_warehouse_manageme.Prelude.Int.{min_ℤ, pos, ◌+ℤ◌, ◌-ℤ◌}
use multi_warehouse_manageme.Prelude.Sums.{sum_ℤ}
use multi_warehouse_manageme.AgedInventory.Calc.{
  ReceiptLot, StockLayer, receipt, created, fifo_layers, sort_newest, insert_lot, is_older,
  take_lots, oldest_used, created_since,
}
use multi_warehouse_manageme.AgedInventory.Newest.{received_since}
use multi_warehouse_manageme.AgedInventory.Layers.{
  layer_since, fifo_layers-sum, fifo_layers-received_since,
}

abbrev receipts : List ReceiptLot
receipts =
    record { received_on = 20; qty = pos 3 }
    ∷ record { received_on = 40; qty = pos 5 }
    ∷ record { received_on = 30; qty = pos 0 }
    ∷ []

-- Five of nine pieces are of the newest receipt, three of the one before, and one is older.
split_nine :
    fifo_layers (pos 9) receipts 25
    ≡ record { since = 40; qty = pos 5; source = receipt }
      ∷ record { since = 20; qty = pos 3; source = receipt }
      ∷ record { since = 20; qty = pos 1; source = created }
      ∷ []
unfolding fifo_layers sort_newest insert_lot is_older take_lots oldest_used created_since min_ℤ ◌+ℤ◌
    ◌-ℤ◌
split_nine = refl

fifo_layers-sum_example : sum_ℤ StockLayer.qty (fifo_layers (pos 9) receipts 25) ≡ pos 9
fifo_layers-sum_example = fifo_layers-sum (pos 9) receipts 25 (omega arith)

fifo_layers-received_since_example :
    sum_ℤ (layer_since 30) (fifo_layers (pos 9) receipts 25)
    ≡ min_ℤ (pos 9) (sum_ℤ (received_since 30) receipts)
fifo_layers-received_since_example = fifo_layers-received_since 30 (pos 9) receipts 25 (omega arith)
