-- ===== src/Fulfillments/Whereabouts.antt =====
-- Where the pieces of a package are, by the state of its row, and what that is on the counters of
-- the stock (src/modules/fulfillments/fulfillment.service.ts).
use multi_warehouse_manageme.Prelude.{
  ℕ, ◌≡◌, refl, ap, sym, ◌∙◌, Bool, true, false, not, ◌==◌, if◌then◌else◌, Option, none, some, List,
  [], ◌∷◌, Bool-cases, inl, inr, All,
}
use multi_warehouse_manageme.Prelude.Int.{ℤ, pos, pos_part, neg_part, ◌+ℤ◌, zero_+ℤ, int_laws}
use multi_warehouse_manageme.Prelude.Sums.{sum_ℤ}
use multi_warehouse_manageme.Prelude.Table.{find_row, update_row, sum_ℤ-update}
use multi_warehouse_manageme.Inventory.Types.{Bucket, same_bucket}
use multi_warehouse_manageme.Inventory.Levels.{is_ledger}
use multi_warehouse_manageme.Inventory.Effect.{counter}
use multi_warehouse_manageme.Inventory.Lines.{minus}
use multi_warehouse_manageme.Orders.Types.{
  PackingStatus, ShipmentStatus, Order, Fulfillment, OrderDb, find_order, find_fulfillment, is_set,
}
use multi_warehouse_manageme.Orders.Posting.{Leg, leg_bucket, signed, leg_share, pieces}

-- `reserved`: for the order, as before there was a package.
pub data Place : Type 0 where
  reserved in_packing out back_in_stock : Place

abbrev pub place_inside : Bool → Bool → Place
place_inside packed true = reserved
place_inside true false = in_packing
place_inside false false = reserved

abbrev pub place_of : Option ShipmentStatus → Bool → Bool → Place
place_of none packed closed = place_inside packed closed
place_of (some ShipmentStatus.pending) packed closed = place_inside packed closed
place_of (some ShipmentStatus.returned) packed closed = back_in_stock
place_of (some ShipmentStatus.cancelled) packed closed = reserved
place_of (some ShipmentStatus.picked_up) packed closed = out
place_of (some ShipmentStatus.delivering) packed closed = out
place_of (some ShipmentStatus.delivered) packed closed = out
place_of (some ShipmentStatus.retry_delivery) packed closed = out
place_of (some ShipmentStatus.returning) packed closed = out

abbrev pub place : Fulfillment → Place
place f = place_of f.shipment_status (is_set f.packed_on) (is_set f.closed_at)

-- What `n` pieces at a place are on a counter, against their being reserved.
abbrev pub moved : Place → ℕ → Bucket → ℤ
moved in_packing n Bucket.committed = minus n
moved in_packing n Bucket.packed = pos n
moved out n Bucket.on_hand = minus n
moved out n Bucket.committed = minus n
moved back_in_stock n Bucket.committed = minus n
moved _ n c = pos 0

abbrev held_by : Option Order → Place → ℕ → ℕ → Bucket → ℤ
held_by none p v l c = pos 0
held_by (some o) p v l c = if o.location_id == l then moved p (pieces v o.items) c else pos 0

-- What a package is on the counter of bucket `c` for the variant `v` at the location `l`.
abbrev pub held : List Order → ℕ → ℕ → Bucket → Fulfillment → ℤ
held orders v l c f = held_by (find_order f.order_id orders) (place f) v l c

-- Every counter is what it was at `base`, and what the packages are.
abbrev pub IsAccounted : (ℕ → ℕ → Bucket → ℤ) → OrderDb → Type 0
IsAccounted base db =
    (v l : ℕ) (c : Bucket)
    → is_ledger c ≡ true
    → counter v l c db.stock ≡ base v l c +ℤ sum_ℤ (held db.orders v l c) db.fulfillments

-- A package that went to the packing area has been marked as packed.
abbrev pub packed_is_marked : Fulfillment → Bool
packed_is_marked f = elim f.packed_status [
  | some PackingStatus.packed ↦ true
  | _ ↦ not (is_set f.packed_on)
]

abbrev pub AreMarked : OrderDb → Type 0
AreMarked db = All (λ f. packed_is_marked f ≡ true) db.fulfillments

-- What the legs of a round post to a bucket at the order's location.
abbrev pub net : List Leg → ℕ → Bucket → ℤ
net legs n c = sum_ℤ (λ leg. if same_bucket (leg_bucket leg) c then signed leg n else pos 0) legs

net_at :
    (o : Order) (n l : ℕ) (c : Bucket) (legs : List Leg)
    → sum_ℤ (leg_share o n l c) legs ≡ (if o.location_id == l then net legs n c else pos 0)
net_at o n l c [] = elim (Bool-cases (o.location_id == l)) [ inl e ↦ rw e | inr e ↦ rw e ]
net_at o n l c (leg ∷ legs) =
    ap (λ y. leg_share o n l c leg +ℤ y) (net_at o n l c legs)
    ∙ elim (Bool-cases (o.location_id == l)) [ inl e ↦ rw e | inr e ↦ rw e (zero_+ℤ (pos 0)) ]

-- An update of an order that leaves its items alone leaves its packages where they are.
pub record KeepsItems (g : Order → Order) : Type 0 where
  pub id : (o : Order) → (g o).id ≡ o.id
  pub location_id : (o : Order) → (g o).location_id ≡ o.location_id
  pub items : (o : Order) → (g o).items ≡ o.items

held_by-update :
    (id : ℕ) (g : Order → Order) (orders : List Order) (i : ℕ) (p : Place) (v l : ℕ) (c : Bucket)
    → KeepsItems g
    → held_by (find_order i (update_row Order.id id g orders)) p v l c
      ≡ held_by (find_order i orders) p v l c
unfolding find_row update_row
held_by-update id g [] i p v l c k = refl
held_by-update id g (x ∷ xs) i p v l c k = elim (Bool-cases (x.id == id)) [
  | inl here ↦ rw here (
      ap (λ (y : ℕ). held_by (if y == i then some (g x) else find_order i xs) p v l c) (k.id x)
      ∙ elim (Bool-cases (x.id == i)) [
        | inl e ↦ rw e (
            ap (λ (y : ℕ). if y == l then moved p (pieces v (g x).items) c else pos 0)
              (k.location_id x)
            ∙ ap (λ y. if x.location_id == l then moved p (pieces v y) c else pos 0) (k.items x))
        | inr e ↦ rw e
      ])
  | inr there ↦ rw there (elim (Bool-cases (x.id == i)) [
    | inl e ↦ rw e
    | inr e ↦ rw e (held_by-update id g xs i p v l c k)
  ])
]

pub held-update :
    (id : ℕ) (g : Order → Order) (orders : List Order) (v l : ℕ) (c : Bucket) (f : Fulfillment)
    → KeepsItems g
    → held (update_row Order.id id g orders) v l c f ≡ held orders v l c f
held-update id g orders v l c f k = held_by-update id g orders f.order_id (place f) v l c k

-- What a handler does that works on the package `f` of the order `o`.
pub record Effect (db db' : OrderDb) (f : Fulfillment) (g : Fulfillment → Fulfillment) (o : Order)
    (legs : List Leg) : Type 0 where
  pub rows : db'.fulfillments ≡ update_row Fulfillment.id f.id g db.fulfillments
  pub orders :
      (v l : ℕ) (c : Bucket) (h : Fulfillment) → held db'.orders v l c h ≡ held db.orders v l c h
  pub stock :
      (v l : ℕ) (c : Bucket)
      → is_ledger c ≡ true
      → counter v l c db'.stock
        ≡ sum_ℤ (leg_share o (pieces v o.items) l c) legs +ℤ counter v l c db.stock

pub sum_ℤ-same :
    (e e' : Fulfillment → ℤ) (rows : List Fulfillment)
    → ((f : Fulfillment) → e' f ≡ e f)
    → sum_ℤ e' rows ≡ sum_ℤ e rows
sum_ℤ-same e e' [] same = refl
sum_ℤ-same e e' (x ∷ xs) same =
    ap (λ y. y +ℤ sum_ℤ e' xs) (same x) ∙ ap (λ y. e x +ℤ y) (sum_ℤ-same e e' xs same)

cancel_held :
    (posted b before s s' h h' : ℤ)
    → before ≡ b +ℤ s
    → h +ℤ s' ≡ h' +ℤ s
    → posted +ℤ h ≡ h'
    → posted +ℤ before ≡ b +ℤ s'
cancel_held posted b before s s' h h' p q r = omega (
  int_laws,
  ap pos_part p,
  ap neg_part p,
  ap pos_part q,
  ap neg_part q,
  ap pos_part r,
  ap neg_part r,
)

-- What is posted is what the package's move comes to.
abbrev pub Fits : List Leg → Place → Place → Type 0
Fits legs from to = (n : ℕ) (c : Bucket) → net legs n c +ℤ moved from n c ≡ moved to n c

held-move :
    (orders : List Order) (v l : ℕ) (c : Bucket) (f f' : Fulfillment) (o : Order) (legs : List Leg)
    → find_order f.order_id orders ≡ some o
    → f'.order_id ≡ f.order_id
    → Fits legs (place f) (place f')
    → sum_ℤ (leg_share o (pieces v o.items) l c) legs +ℤ held orders v l c f ≡ held orders v l c f'
held-move orders v l c f f' o legs found same fits =
    rw (net_at o (pieces v o.items) l c legs, found)
      (elim (Bool-cases (o.location_id == l)) [
        | inl e ↦ rw e (fits (pieces v o.items) c)
        | inr e ↦ rw e (zero_+ℤ (pos 0))
      ]
        ∙ sym (ap (λ z. held_by z (place f') v l c) found)
        ∙ sym (ap (λ i. held_by (find_order i orders) (place f') v l c) same))

pub Effect-IsAccounted :
    (base : ℕ → ℕ → Bucket → ℤ) (db db' : OrderDb) (f : Fulfillment) (g : Fulfillment → Fulfillment)
    (o : Order) (legs : List Leg)
    → Effect db db' f g o legs
    → find_fulfillment f.id db.fulfillments ≡ some f
    → find_order f.order_id db.orders ≡ some o
    → (g f).order_id ≡ f.order_id
    → Fits legs (place f) (place (g f))
    → IsAccounted base db
    → IsAccounted base db'
Effect-IsAccounted base db db' f g o legs e found found_order same fits before v l c ledger =
    e.stock v l c ledger
    ∙ cancel_held (sum_ℤ (leg_share o (pieces v o.items) l c) legs) (base v l c)
        (counter v l c db.stock) (sum_ℤ (held db.orders v l c) db.fulfillments)
        (sum_ℤ (held db.orders v l c) (update_row Fulfillment.id f.id g db.fulfillments))
        (held db.orders v l c f) (held db.orders v l c (g f)) (before v l c ledger)
        (sum_ℤ-update Fulfillment.id (held db.orders v l c) f.id g db.fulfillments f found)
        (held-move db.orders v l c f (g f) o legs found_order same fits)
    ∙ ap (λ y. base v l c +ℤ y)
        (sym (sum_ℤ-same (held db.orders v l c) (held db'.orders v l c) _ (e.orders v l c))
          ∙ sym (ap (sum_ℤ (held db'.orders v l c)) e.rows))
