-- ===== src/Fulfillments/Runs.antt =====
-- The stock through any run of the handlers of fulfillment.service.ts.
use mathlib.Core.Path.{subst}
use multi_warehouse_manageme.Prelude.{
  ℕ, String, ◌≡◌, refl, ap, sym, ◌∙◌, Bool, true, false, not, ◌&&◌, if◌then◌else◌, Option, none,
  some, List, [], Bool-cases, inl, inr,
}
use multi_warehouse_manageme.Prelude.Int.{ℤ}
use multi_warehouse_manageme.Prelude.Tx.{ok, Result}
use multi_warehouse_manageme.Prelude.Table.{All-find_row}
use multi_warehouse_manageme.Auth.{AuthUser}
use multi_warehouse_manageme.Inventory.Types.{Bucket}
use multi_warehouse_manageme.Orders.Types.{
  PackingStatus, ShipmentStatus, Order, Fulfillment, OrderDb, find_fulfillment, is_set,
}
use multi_warehouse_manageme.Orders.Posting.{Leg}
use multi_warehouse_manageme.Fulfillments.Service.{
  packing_legs, unpacking_legs, with_packing, apply_packing_status, is_packed, is_ecommerce, cancel,
  create_packing_request, is_pending, cancelled_shipment,
}
use multi_warehouse_manageme.Fulfillments.Shipping.{
  may_become, pick_up_legs, restock_legs, taken_back_legs, shipment_tx, update_shipment_status,
  with_status, pick_up, note_status, deliver, restock, cancel_by_carrier, Provider, CarrierShipment,
  PushShipmentDto, push_shipment,
}
use multi_warehouse_manageme.Fulfillments.Whereabouts.{
  Place, reserved, out, back_in_stock, place_of, place_inside, place, Fits, AreMarked,
  packed_is_marked,
}
use multi_warehouse_manageme.Fulfillments.Accounting.{Accounts, Effect-Accounts, when}
use multi_warehouse_manageme.Fulfillments.Effects.{
  packing_tx-Effect, cancel_tx-Effect, cancelled_row, pick_up-Effect, picked_up_row,
  note_status-Effect, deliver-Effect, delivered_row, cancel_by_carrier-Effect,
  carrier_cancelled_row, take_back_legs, restock-Effect, returned_row,
}
use multi_warehouse_manageme.Fulfillments.Fits.{
  none-Fits, packing-Fits, pick_up-Fits, taken_back-Fits, restock-Fits, unpacked-Fits, is_inside,
  from_pending, pending_inside, place-inside, place_of-inside, place_of-away, unpacked,
}
use multi_warehouse_manageme.Fulfillments.Opening.{request-Accounts}
use multi_warehouse_manageme.Fulfillments.Pushing.{IsKeyed, push-Accounts}
use multi_warehouse_manageme.Fulfillments.Guards.{
  IsLoaded, packing-runs, cancel-runs, shipment-runs,
}

-- The move of the package, from the place that it is known to be in.
from_place : (legs : List Leg) (p q r : Place) → p ≡ q → Fits legs q r → Fits legs p r
from_place legs p q r e fits = subst (λ x. Fits legs x r) (sym e) fits

packed-Fits :
    (m : Bool) (s : Option ShipmentStatus) (closed : Bool) (now : ℕ) (old : Option ℕ)
    → is_inside s ≡ true
    → is_set old ≡ false
    → closed ≡ false
    → Fits (when m packing_legs) reserved (place_of s (is_set (if m then some now else old)) closed)
packed-Fits true s closed now old h e k =
    subst (λ p. Fits packing_legs reserved p)
      (sym (place_of-inside s true closed h ∙ ap (place_inside true) k)) packing-Fits
packed-Fits false s closed now old h e k =
    subst (λ p. Fits [] reserved p)
      (sym (
        place_of-inside s (is_set old) closed h
        ∙ ap (place_inside (is_set old)) k
        ∙ ap (λ b. place_inside b false) e))
      (none-Fits reserved)

marks_packed :
    (now : ℕ) (f : Fulfillment) (s : PackingStatus) (e : Bool)
    → is_set f.packed_on ≡ false
    → packed_is_marked (with_packing now s (is_packed s && e) f) ≡ true
marks_packed now f PackingStatus.packed e h = refl
marks_packed now f PackingStatus.unknown e h = rw h
marks_packed now f PackingStatus.packing e h = rw h

inside_of :
    (s : Option ShipmentStatus) → is_set s && not (is_pending s) ≡ false → is_inside s ≡ true
inside_of none h = refl
inside_of (some ShipmentStatus.pending) h = refl
inside_of (some s) h = cc h

place_of-cancelled :
    (s : Option ShipmentStatus) (packed : Bool)
    → place_of (cancelled_shipment s) packed true ≡ reserved
place_of-cancelled none packed = refl
place_of-cancelled (some s) packed = refl

not_pending_of :
    (x : Option ShipmentStatus) (s : ShipmentStatus)
    → may_become (some ShipmentStatus.pending) s ≡ false
    → may_become x s ≡ true
    → is_pending x ≡ false
not_pending_of none s never may = refl
not_pending_of (some ShipmentStatus.pending) s never may = cc
not_pending_of (some x) s never may = refl

marked_here :
    (id : ℕ) (db : OrderDb) (f : Fulfillment)
    → AreMarked db
    → find_fulfillment id db.fulfillments ≡ some f
    → packed_is_marked f ≡ true
marked_here id db f m found =
    All-find_row Fulfillment.id (λ x. packed_is_marked x ≡ true) id db.fulfillments f m found

module _ (base : ℕ → ℕ → Bucket → ℤ) (db db' : OrderDb) (now id : ℕ) (user : AuthUser)
    (u : Unit {0}) (a : Accounts base db) where
  packing-Accounts :
      (status : PackingStatus) (f : Fulfillment)
      → find_fulfillment id db.fulfillments ≡ some f
      → is_inside f.shipment_status ≡ true
      → apply_packing_status now id status user db ≡ ok (u, db')
      → Accounts base db'
  packing-Accounts status f found inside h =
      let (f', o, l, opened, may, ran) = packing-runs now id user db db' u status h in
      let same : f' ≡ f = cc (l.row, found) in
      let inside' =
        subst (λ (x : Fulfillment). is_inside x.shipment_status ≡ true) (sym same) inside in
      let m = is_packed status && not (is_ecommerce f'.delivery_method) in
      let fresh = unpacked f' status may (marked_here id db f' a.marked l.row) in
      Effect-Accounts base db db' id f' (with_packing now status m) o (when m packing_legs) l.row
        l.order refl (packing_tx-Effect now f' o status m user db db' u ran)
        (from_place (when m packing_legs) (place f') reserved (place (with_packing now status m f'))
          (place-inside f' inside' opened ∙ ap (λ b. place_inside b false) fresh)
          (packed-Fits m f'.shipment_status (is_set f'.closed_at) now f'.packed_on inside' fresh
            opened))
        (λ _. marks_packed now f' status (not (is_ecommerce f'.delivery_method)) fresh) a

  cancel-Accounts :
      (carrier : Result (Unit {0}))
      → cancel carrier now id user db ≡ ok (u, db')
      → Accounts base db'
  cancel-Accounts carrier h =
      let (f, o, l, opened, may, ran) = cancel-runs now id user db db' u carrier h in
      let inside : is_inside f.shipment_status ≡ true = inside_of f.shipment_status may in
      Effect-Accounts base db db' id f (cancelled_row now f) o
        (when (is_set f.packed_on) unpacking_legs) l.row l.order refl
        (cancel_tx-Effect now f o user db db' u ran)
        (from_place (when (is_set f.packed_on) unpacking_legs) (place f)
          (place_inside (is_set f.packed_on) false) (place (cancelled_row now f f))
          (place-inside f inside opened)
          (subst
            (λ p.
              Fits (when (is_set f.packed_on) unpacking_legs)
                (place_inside (is_set f.packed_on) false) p)
            (sym (place_of-cancelled f.shipment_status (is_set f.packed_on)))
            (unpacked-Fits (is_set f.packed_on))))
        (λ m. m) a

-- One status after another, on a package that has been loaded.
module _ (base : ℕ → ℕ → Bucket → ℤ) (db db' : OrderDb) (now id : ℕ) (user : AuthUser)
    (u : Unit {0}) (a : Accounts base db) (f : Fulfillment) (o : Order) (l : IsLoaded id db f o)
    (opened : is_set f.closed_at ≡ false) where
  pick_up-Accounts :
      may_become f.shipment_status ShipmentStatus.picked_up ≡ true
      → pick_up now f o user db ≡ ok (u, db')
      → Accounts base db'
  pick_up-Accounts may ran =
      let inside = pending_inside f.shipment_status (from_pending f.shipment_status may) in
      Effect-Accounts base db db' id f (picked_up_row now) o (pick_up_legs f) l.row l.order refl
        (pick_up-Effect now f o user db db' u ran)
        (from_place (pick_up_legs f) (place f) (place_inside (is_set f.packed_on) false) out
          (place-inside f inside opened) (pick_up-Fits (is_set f.packed_on)))
        (λ m. m) a

  -- From where the carrier has the pieces.
  away :
      (s : ShipmentStatus)
      → may_become f.shipment_status s ≡ true
      → is_pending f.shipment_status ≡ false
      → place f ≡ out
  away s may p = place_of-away f.shipment_status s (is_set f.packed_on) (is_set f.closed_at) may p

  note-Accounts :
      (s : ShipmentStatus) (action : String)
      → place f ≡ place (with_status s f)
      → note_status s action f o user db ≡ ok (u, db')
      → Accounts base db'
  note-Accounts s action stays ran =
      Effect-Accounts base db db' id f (with_status s) o [] l.row l.order refl
        (note_status-Effect s action f o user db db' u ran)
        (from_place [] (place f) (place (with_status s f)) (place (with_status s f)) stays
          (none-Fits (place (with_status s f))))
        (λ m. m) a

  deliver-Accounts : place f ≡ out → deliver now f o user db ≡ ok (u, db') → Accounts base db'
  deliver-Accounts gone ran =
      Effect-Accounts base db db' id f (delivered_row now) o [] l.row l.order refl
        (deliver-Effect now f o user db db' u ran)
        (from_place [] (place f) out out gone (none-Fits out)) (λ m. m) a

  restock-Accounts : place f ≡ out → restock now f o user db ≡ ok (u, db') → Accounts base db'
  restock-Accounts gone ran =
      Effect-Accounts base db db' id f (returned_row now) o restock_legs l.row l.order refl
        (restock-Effect now f o user db db' u ran)
        (from_place restock_legs (place f) out back_in_stock gone restock-Fits) (λ m. m) a

  cancelled-Fits :
      may_become f.shipment_status ShipmentStatus.cancelled ≡ true
      → Fits (take_back_legs f) (place f) reserved
  cancelled-Fits may = elim (Bool-cases (is_pending f.shipment_status)) [
    | inl waiting ↦ rw waiting (
        from_place (when (is_set f.packed_on) unpacking_legs) (place f)
          (place_inside (is_set f.packed_on) false) reserved
          (place-inside f (pending_inside f.shipment_status waiting) opened)
          (unpacked-Fits (is_set f.packed_on)))
    | inr shipped ↦ rw shipped (
        from_place taken_back_legs (place f) out reserved
          (away ShipmentStatus.cancelled may shipped) taken_back-Fits)
  ]

  carrier_cancel-Accounts :
      may_become f.shipment_status ShipmentStatus.cancelled ≡ true
      → cancel_by_carrier now f o user db ≡ ok (u, db')
      → Accounts base db'
  carrier_cancel-Accounts may ran =
      Effect-Accounts base db db' id f (carrier_cancelled_row now) o (take_back_legs f) l.row
        l.order refl (cancel_by_carrier-Effect now f o user db db' u ran) (cancelled-Fits may)
        (λ m. m) a

  -- What may follow `pending` is to be picked up or to be cancelled.
  not_pending :
      (s : ShipmentStatus)
      → may_become (some ShipmentStatus.pending) s ≡ false
      → may_become f.shipment_status s ≡ true
      → is_pending f.shipment_status ≡ false
  not_pending s never may = not_pending_of f.shipment_status s never may

  tx-Accounts :
      (status : ShipmentStatus)
      → may_become f.shipment_status status ≡ true
      → shipment_tx status now f o user db ≡ ok (u, db')
      → Accounts base db'
  unfolding shipment_tx may_become
  tx-Accounts ShipmentStatus.picked_up may ran = pick_up-Accounts may ran
  tx-Accounts ShipmentStatus.delivering may ran =
      note-Accounts ShipmentStatus.delivering "fulfillment.redeliver"
        (away ShipmentStatus.delivering may (not_pending ShipmentStatus.delivering refl may)) ran
  tx-Accounts ShipmentStatus.delivered may ran =
      deliver-Accounts
        (away ShipmentStatus.delivered may (not_pending ShipmentStatus.delivered refl may)) ran
  tx-Accounts ShipmentStatus.retry_delivery may ran =
      note-Accounts ShipmentStatus.retry_delivery "fulfillment.delivery_failed"
        (away ShipmentStatus.retry_delivery may
          (not_pending ShipmentStatus.retry_delivery refl may))
        ran
  tx-Accounts ShipmentStatus.returning may ran =
      note-Accounts ShipmentStatus.returning "fulfillment.returning"
        (away ShipmentStatus.returning may (not_pending ShipmentStatus.returning refl may)) ran
  tx-Accounts ShipmentStatus.cancelled may ran = carrier_cancel-Accounts may ran
  tx-Accounts ShipmentStatus.returned may ran =
      restock-Accounts
        (away ShipmentStatus.returned may (not_pending ShipmentStatus.returned refl may)) ran
  tx-Accounts ShipmentStatus.pending may ran =
      restock-Accounts
        (away ShipmentStatus.pending may (not_pending ShipmentStatus.pending refl may)) ran

-- A handler that succeeds, on the package `id`. A package is put in the packing area before its
-- carrier has it.
pub data Step (db db' : OrderDb) : Type 0 where
  requesting :
      (order_id : ℕ) (user : AuthUser)
      → create_packing_request order_id user db ≡ ok (tt, db')
      → Step db db'
  pushing :
      (provider : Option Provider) (quote : Result ℤ) (carrier : Result (Option CarrierShipment))
      (dto : PushShipmentDto) (user : AuthUser)
      → IsKeyed db
      → push_shipment provider quote carrier dto user db ≡ ok (tt, db')
      → Step db db'
  packing :
      (now id : ℕ) (status : PackingStatus) (user : AuthUser) (f : Fulfillment)
      → find_fulfillment id db.fulfillments ≡ some f
      → is_inside f.shipment_status ≡ true
      → apply_packing_status now id status user db ≡ ok (tt, db')
      → Step db db'
  cancelling :
      (carrier : Result (Unit {0})) (now id : ℕ) (user : AuthUser)
      → cancel carrier now id user db ≡ ok (tt, db')
      → Step db db'
  shipping :
      (now id : ℕ) (status : ShipmentStatus) (user : AuthUser)
      → update_shipment_status now id status user db ≡ ok (tt, db')
      → Step db db'

pub data Run (start : OrderDb) : OrderDb → Type 0 where
  here : Run start start
  next : {db db' : OrderDb} → Run start db → Step db db' → Run start db'

Step-Accounts :
    (base : ℕ → ℕ → Bucket → ℤ) (db db' : OrderDb)
    → Step db db'
    → Accounts base db
    → Accounts base db'
Step-Accounts base db db' (requesting order_id user h) a =
    request-Accounts base order_id user db db' tt h a
Step-Accounts base db db' (pushing provider quote carrier dto user keyed h) a =
    push-Accounts base provider quote carrier dto user db db' tt keyed h a
Step-Accounts base db db' (packing now id status user f found inside h) a =
    packing-Accounts base db db' now id user tt a status f found inside h
Step-Accounts base db db' (cancelling carrier now id user h) a =
    cancel-Accounts base db db' now id user tt a carrier h
Step-Accounts base db db' (shipping now id status user h) a =
    let (f, o, l, opened, may, ran) = shipment-runs now id user db db' tt status h in
    tx-Accounts base db db' now id user tt a f o l opened status may ran

-- Through any run of the handlers of packages, from their request to their delivery or return, each
-- counter of each level is what it was at the base, and what the packages are by the state of their
-- rows: one in the packing area has moved its pieces from `committed` to `packed`, one that its
-- carrier has or has delivered has taken them from `on_hand` and `committed`, one that came back has
-- taken them from `committed`, and one that waits or was cancelled has moved nothing; provided that
-- no package is packed after its carrier has picked it up, and that rows have their own keys.
pub Run-Accounts :
    (base : ℕ → ℕ → Bucket → ℤ) {start db : OrderDb}
    → Run start db
    → Accounts base start
    → Accounts base db
Run-Accounts base here a = a
Run-Accounts base (next {db} {db'} run step) a =
    Step-Accounts base db db' step (Run-Accounts base run a)
