-- ===== src/AgedInventory/Layers.antt =====
-- What the layers of `fifoLayers` in src/modules/aged-inventory/aged-inventory.calc.ts add up to.
use multi_warehouse_manageme.Prelude.{
  ℕ, ◌≤◌, ◌≡◌, refl, ap, sym, ◌∙◌, Bool, true, false, ◌&&◌, leb, if◌then◌else◌, List, [], ◌∷◌, ◌++◌,
  arith, Bool-cases, inl, inr, All, filter,
}
use multi_warehouse_manageme.Prelude.Int.{
  min_ℤ, ℤ, pos, ◌+ℤ◌, ◌-ℤ◌, ◌≤ℤ◌, ltb_ℤ, leb_ℤ, int_laws, +ℤ_assoc, zero_+ℤ, +ℤ_zero, +ℤ_parts,
}
use multi_warehouse_manageme.Prelude.Sums.{sum_ℤ}
use multi_warehouse_manageme.AgedInventory.Calc.{
  ReceiptLot, StockLayer, LayerSource, receipt, created, sort_newest, is_positive, take_lots,
  fifo_layers,
}
use multi_warehouse_manageme.AgedInventory.Newest.{
  IsNewestFirst, IsPositive, All-sort, sort-IsNewestFirst, filter-IsPositive, received_since,
  sum-sort, sum-filter,
}

abbrev pub is_receipt : LayerSource → Bool
is_receipt receipt = true
is_receipt created = false

-- The pieces of a layer that a receipt accounts for, at the time `t` or later.
abbrev pub layer_since : ℕ → StockLayer → ℤ
layer_since t x = if is_receipt x.source && leb t x.since then x.qty else pos 0

full_change : (a b : ℤ) → b +ℤ (a -ℤ b) ≡ a
full_change a b = omega int_laws

sum_step : (q a b left : ℤ) → a +ℤ b ≡ left -ℤ q → q +ℤ a +ℤ b ≡ left
sum_step q a b left h = +ℤ_assoc q a b ∙ ap (λ y. q +ℤ y) h ∙ full_change left q

take_lots-sum :
    (left : ℤ) (rs : List ReceiptLot)
    → sum_ℤ StockLayer.qty (take_lots left rs).0 +ℤ (take_lots left rs).1 ≡ left
unfolding take_lots
take_lots-sum left [] = zero_+ℤ left
take_lots-sum left (r ∷ rs) = elim (Bool-cases (leb_ℤ left (pos 0))) [
  | inl done ↦ rw done (zero_+ℤ left)
  | inr more ↦
      rw more (sum_step (min_ℤ left r.qty) _ _ left (take_lots-sum (left -ℤ min_ℤ left r.qty) rs))
]

min_below : (left q : ℤ) → pos 0 ≤ℤ (left -ℤ min_ℤ left q)
unfolding min_ℤ
min_below left q = elim (Bool-cases (leb_ℤ left q)) [
  | inl low ↦ rw low (omega int_laws)
  | inr high ↦ rw high (grind int_laws)
]

take_lots-left : (left : ℤ) (rs : List ReceiptLot) → pos 0 ≤ℤ left → pos 0 ≤ℤ (take_lots left rs).1
unfolding take_lots
take_lots-left left [] h = h
take_lots-left left (r ∷ rs) h = elim (Bool-cases (leb_ℤ left (pos 0))) [
  | inl done ↦ rw done h
  | inr more ↦ rw more (take_lots-left (left -ℤ min_ℤ left r.qty) rs (min_below left r.qty))
]

dropped : (b : Bool) (x : ℤ) → (if b && false then x else pos 0) +ℤ pos 0 ≡ pos 0
dropped true x = omega int_laws
dropped false x = omega int_laws

-- Nothing came in since `t` when every lot is older.
none_since :
    (t a : ℕ) (rs : List ReceiptLot)
    → leb t a ≡ false
    → All (λ q. q.received_on ≤ a) rs
    → sum_ℤ (received_since t) rs ≡ pos 0
none_since t a [] h i = refl
none_since t a (r ∷ rs) h i =
    let older : leb t r.received_on ≡ false = ground arith in
    rw (older, none_since t a rs h i.1) (dropped (is_positive r) r.qty)

received_not_negative : (t : ℕ) (rs : List ReceiptLot) → pos 0 ≤ℤ sum_ℤ (received_since t) rs
received_not_negative t [] = omega arith
received_not_negative t (r ∷ rs) =
    let rest = received_not_negative t rs in
    let this : pos 0 ≤ℤ received_since t r = ground arith in
    omega (int_laws, +ℤ_parts (received_since t r) (sum_ℤ (received_since t) rs))

min_zero :
    (left x : ℤ) → pos 0 ≤ℤ left → pos 0 ≤ℤ x → leb_ℤ left (pos 0) ≡ true → pos 0 ≡ min_ℤ left x
unfolding min_ℤ
min_zero left x h i done = grind int_laws

min_add :
    (left q x : ℤ)
    → pos 0 ≤ℤ left
    → pos 0 ≤ℤ x
    → pos 0 ≤ℤ q
    → min_ℤ left q +ℤ min_ℤ (left -ℤ min_ℤ left q) x ≡ min_ℤ left (q +ℤ x)
unfolding min_ℤ
min_add left q x h i j = grind int_laws

min_older : (left : ℤ) → pos 0 ≤ℤ left → min_ℤ left (pos 0) ≡ pos 0
unfolding min_ℤ
min_older left h = grind int_laws

older_step :
    (left rest : ℤ)
    → pos 0 ≤ℤ left
    → pos 0 ≤ℤ rest
    → pos 0 +ℤ min_ℤ rest (pos 0) ≡ min_ℤ left (pos 0 +ℤ pos 0)
older_step left rest h i =
    zero_+ℤ _ ∙ min_older rest i ∙ sym (min_older left h) ∙ ap (min_ℤ left) (sym (zero_+ℤ (pos 0)))

take_lots-since :
    (t : ℕ) (left : ℤ) (rs : List ReceiptLot)
    → pos 0 ≤ℤ left
    → All IsPositive rs
    → IsNewestFirst rs
    → sum_ℤ (layer_since t) (take_lots left rs).0 ≡ min_ℤ left (sum_ℤ (received_since t) rs)
unfolding take_lots
take_lots-since t left [] h p o = sym (min_older left h)
take_lots-since t left (r ∷ rs) h p o = elim (Bool-cases (leb_ℤ left (pos 0))) [
  | inl done ↦ rw done (min_zero left _ h (received_not_negative t (r ∷ rs)) done)
  | inr more ↦
      let rest = take_lots-since t (left -ℤ min_ℤ left r.qty) rs (min_below left r.qty) p.1 o.1 in
      elim (Bool-cases (leb t r.received_on)) [
        | inl newer ↦
            rw (more, rest, p.0, newer)
              (min_add left r.qty _ h (received_not_negative t rs) (ground arith))
        | inr older ↦
            rw (more, rest, p.0, older, none_since t r.received_on rs older o.0)
              (older_step left _ h (min_below left r.qty))
      ]
]

sum-snoc :
    (f : StockLayer → ℤ) (xs : List StockLayer) (x : StockLayer)
    → sum_ℤ f (xs ++ (x ∷ [])) ≡ sum_ℤ f xs +ℤ f x
sum-snoc f [] x = omega int_laws
sum-snoc f (y ∷ ys) x =
    ap (λ z. f y +ℤ z) (sum-snoc f ys x) ∙ sym (+ℤ_assoc (f y) (sum_ℤ f ys) (f x))

-- What is used of the receipts when the stock is split.
lots : List ReceiptLot → List ReceiptLot
lots receipts = sort_newest (filter is_positive receipts)

rest_zero : (a left : ℤ) → pos 0 ≤ℤ left → ltb_ℤ (pos 0) left ≡ false → a +ℤ left ≡ a
rest_zero a left h e = grind int_laws

not_positive : (a : ℤ) → pos 0 ≤ℤ a → leb_ℤ a (pos 0) ≡ true → pos 0 ≡ a
not_positive a h e = ground arith

-- The layers of a stock that is not negative add up to the stock.
pub fifo_layers-sum :
    (on_hand : ℤ) (receipts : List ReceiptLot) (fallback_since : ℕ)
    → pos 0 ≤ℤ on_hand
    → sum_ℤ StockLayer.qty (fifo_layers on_hand receipts fallback_since) ≡ on_hand
unfolding fifo_layers lots
fifo_layers-sum on_hand receipts fallback_since h =
    let total = take_lots-sum on_hand (lots receipts) in
    let left = (take_lots on_hand (lots receipts)).1 in
    elim (Bool-cases (leb_ℤ on_hand (pos 0))) [
      | inl nothing ↦ rw nothing (not_positive on_hand h nothing)
      | inr stocked ↦ elim (Bool-cases (ltb_ℤ (pos 0) left)) [
        | inl uncovered ↦ rw (stocked, uncovered) (sum-snoc StockLayer.qty _ _ ∙ total)
        | inr covered ↦
            rw (stocked, covered)
              (sym (rest_zero _ left (take_lots-left on_hand (lots receipts) h) covered) ∙ total)
      ]
    ]

-- First in, first out, whatever the order of the receipts: of a stock that is not negative, what
-- the layers ascribe to receipts at a time `t` or later is all that was received since, or
-- the whole stock if that is less.
pub fifo_layers-received_since :
    (t : ℕ) (on_hand : ℤ) (receipts : List ReceiptLot) (fallback_since : ℕ)
    → pos 0 ≤ℤ on_hand
    → sum_ℤ (layer_since t) (fifo_layers on_hand receipts fallback_since)
      ≡ min_ℤ on_hand (sum_ℤ (received_since t) receipts)
unfolding fifo_layers lots
fifo_layers-received_since t on_hand receipts fallback_since h =
    let taken =
      take_lots-since t on_hand (lots receipts) h
        (All-sort IsPositive _ (filter-IsPositive receipts)) (sort-IsNewestFirst _)
      ∙ ap (min_ℤ on_hand) (sum-sort (received_since t) _ ∙ sum-filter t receipts) in
    let left = (take_lots on_hand (lots receipts)).1 in
    elim (Bool-cases (leb_ℤ on_hand (pos 0))) [
      | inl nothing ↦ rw nothing (min_zero on_hand _ h (received_not_negative t receipts) nothing)
      | inr stocked ↦ elim (Bool-cases (ltb_ℤ (pos 0) left)) [
        | inl uncovered ↦ rw (stocked, uncovered) (sum-snoc (layer_since t) _ _ ∙ +ℤ_zero _ ∙ taken)
        | inr covered ↦ rw (stocked, covered) taken
      ]
    ]
