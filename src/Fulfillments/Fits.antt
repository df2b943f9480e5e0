-- ===== src/Fulfillments/Fits.antt =====
-- What the postings of fulfillment.service.ts come to, against where the pieces of a package are.
use multi_warehouse_manageme.Prelude.{
  ◌≡◌, refl, ap, ◌∙◌, Bool, true, false, if◌then◌else◌, Option, none, some, [], ◌∷◌, arith,
}
use multi_warehouse_manageme.Prelude.Int.{zero_+ℤ, int_laws}
use multi_warehouse_manageme.Inventory.Types.{Bucket, MovementType}
use multi_warehouse_manageme.Orders.Types.{PackingStatus, ShipmentStatus, Fulfillment, is_set}
use multi_warehouse_manageme.Orders.Posting.{leave}
use multi_warehouse_manageme.Fulfillments.Service.{
  packing_legs, unpacking_legs, may_pack, is_pending,
}
use multi_warehouse_manageme.Fulfillments.Shipping.{may_become, taken_back_legs, restock_legs}
use multi_warehouse_manageme.Fulfillments.Whereabouts.{
  Place, reserved, in_packing, out, back_in_stock, place_of, place_inside, place, Fits,
  packed_is_marked,
}
use multi_warehouse_manageme.Fulfillments.Accounting.{when}

pub none-Fits : (p : Place) → Fits [] p p
none-Fits p n c = zero_+ℤ _

pub packing-Fits : Fits packing_legs reserved in_packing
packing-Fits n Bucket.committed = omega int_laws
packing-Fits n c = omega int_laws

pub unpacking-Fits : Fits unpacking_legs in_packing reserved
unpacking-Fits n Bucket.committed = omega int_laws
unpacking-Fits n c = omega int_laws

pub pick_up-Fits :
    (packed : Bool)
    → Fits
        (leave Bucket.on_hand MovementType.order_ship
          ∷ leave (if packed then Bucket.packed else Bucket.committed) MovementType.order_ship
          ∷ [])
        (place_inside packed false)
        out
pick_up-Fits true n Bucket.committed = omega int_laws
pick_up-Fits true n c = omega int_laws
pick_up-Fits false n Bucket.committed = omega int_laws
pick_up-Fits false n c = omega int_laws

pub taken_back-Fits : Fits taken_back_legs out reserved
taken_back-Fits n Bucket.committed = omega int_laws
taken_back-Fits n c = omega int_laws

pub restock-Fits : Fits restock_legs out back_in_stock
restock-Fits n Bucket.committed = omega int_laws
restock-Fits n c = omega int_laws

pub unpacked-Fits :
    (packed : Bool) → Fits (when packed unpacking_legs) (place_inside packed false) reserved
unpacked-Fits true = unpacking-Fits
unpacked-Fits false = none-Fits reserved

-- The pieces have not left the house.
abbrev pub is_inside : Option ShipmentStatus → Bool
is_inside none = true
is_inside s = is_pending s

pub place_of-inside :
    (s : Option ShipmentStatus) (packed closed : Bool)
    → is_inside s ≡ true
    → place_of s packed closed ≡ place_inside packed closed
place_of-inside none packed closed h = refl
place_of-inside (some ShipmentStatus.pending) packed closed h = refl
place_of-inside (some s) packed closed h = cc h

pub from_pending :
    (s : Option ShipmentStatus) → may_become s ShipmentStatus.picked_up ≡ true → is_pending s ≡ true
unfolding may_become
from_pending none h = cc h
from_pending (some ShipmentStatus.pending) h = refl
from_pending (some s) h = cc h

pub pending_inside : (s : Option ShipmentStatus) → is_pending s ≡ true → is_inside s ≡ true
pending_inside none h = refl
pending_inside (some ShipmentStatus.pending) h = refl
pending_inside (some s) h = cc h

-- Only `picked_up` and `cancelled` come after `pending`; all else comes after the pieces have left.
pub place_of-away :
    (s : Option ShipmentStatus) (t : ShipmentStatus) (packed closed : Bool)
    → may_become s t ≡ true
    → is_pending s ≡ false
    → place_of s packed closed ≡ out
unfolding may_become
place_of-away none t packed closed h k = cc h
place_of-away (some ShipmentStatus.pending) t packed closed h k = cc k
place_of-away (some ShipmentStatus.returned) t packed closed h k = cc h
place_of-away (some ShipmentStatus.cancelled) t packed closed h k = cc h
place_of-away (some ShipmentStatus.picked_up) t packed closed h k = refl
place_of-away (some ShipmentStatus.delivering) t packed closed h k = refl
place_of-away (some ShipmentStatus.delivered) t packed closed h k = refl
place_of-away (some ShipmentStatus.retry_delivery) t packed closed h k = refl
place_of-away (some ShipmentStatus.returning) t packed closed h k = refl

pub place-inside :
    (f : Fulfillment)
    → is_inside f.shipment_status ≡ true
    → is_set f.closed_at ≡ false
    → place f ≡ place_inside (is_set f.packed_on) false
place-inside f h k =
    place_of-inside f.shipment_status (is_set f.packed_on) (is_set f.closed_at) h
    ∙ ap (place_inside (is_set f.packed_on)) k

-- A row that may be packed is not yet in the packing area.
pub unpacked :
    (f : Fulfillment) (s : PackingStatus)
    → may_pack f.packed_status s ≡ true
    → packed_is_marked f ≡ true
    → is_set f.packed_on ≡ false
unfolding may_pack
unpacked f s h m = ground arith
