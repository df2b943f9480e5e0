-- ===== src/Fulfillments/Paths.antt =====
-- `shipmentPathTo` of src/modules/fulfillments/carriers/carrier-adapter.ts: the statuses through which
-- a shipment goes to the one that its carrier reports.
use multi_warehouse_manageme.Prelude.{
  ℕ, zero, suc, true, false, if◌then◌else◌, Option, none, some, List, [], ◌∷◌, ◌++◌,
}
use multi_warehouse_manageme.Orders.Types.{ShipmentStatus}
use multi_warehouse_manageme.Fulfillments.Shipping.{
  same_status, includes_status, shipment_transitions,
}

-- An entry of the queue of `shipmentPathTo`.
abbrev Entry : Type 0
Entry = ShipmentStatus × List ShipmentStatus

-- The loop over the statuses that follow `cur`: the path if one of them is `to`, and the queue and
-- the statuses seen otherwise.
unfoldable pub scan_next :
    ShipmentStatus
    → List ShipmentStatus
    → List ShipmentStatus
    → List Entry
    → List ShipmentStatus
    → Option (List ShipmentStatus) × List Entry × List ShipmentStatus
scan_next to path [] queue seen = (none, queue, seen)
scan_next to path (next ∷ rest) queue seen = elim (includes_status seen next) [
  | true ↦ scan_next to path rest queue seen
  | false ↦ elim (same_status next to) [
    | true ↦ (some (path ++ next ∷ []), queue, seen)
    | false ↦ scan_next to path rest (queue ++ (next, path ++ next ∷ []) ∷ []) (next ∷ seen)
  ]
]

-- The `while` loop, on fuel: each round takes one entry, and a status enters the queue once.
unfoldable pub search_path :
    ℕ → ShipmentStatus → List Entry → List ShipmentStatus → Option (Option (List ShipmentStatus))
unfolding scan_next shipment_transitions
search_path zero to queue seen = none
search_path (suc fuel) to [] seen = some none
search_path (suc fuel) to ((status, path) ∷ queue) seen =
    let (found, queue', seen') = scan_next to path (shipment_transitions status) queue seen in
    elim found [ some p ↦ some (some p) | none ↦ search_path fuel to queue' seen' ]

-- A status enters the queue once, and there are eight.
abbrev pub path_fuel : ℕ
path_fuel = 9

-- `shipmentPathTo`; the outer `none` is the fuel that has run out.
unfoldable pub shipment_path_to :
    ShipmentStatus → ShipmentStatus → Option (Option (List ShipmentStatus))
unfolding search_path
shipment_path_to from to =
    if same_status from to
    then some (some [])
    else if same_status to ShipmentStatus.cancelled
    then some (some (ShipmentStatus.cancelled ∷ []))
    else search_path path_fuel to ((from, []) ∷ []) (from ∷ [])
