-- ===== src/AgedInventory/Newest.antt =====
-- The receipts as `fifoLayers` of src/modules/aged-inventory/aged-inventory.calc.ts goes through
-- them: those of a positive quantity, newest first.
use multi_warehouse_manageme.Prelude.{
  ℕ, ◌≤◌, ◌≡◌, refl, ap, ◌∙◌, true, ◌&&◌, leb, if◌then◌else◌, List, [], ◌∷◌, arith, Bool-cases, inl,
  inr, All, filter,
}
use multi_warehouse_manageme.Prelude.Int.{ℤ, pos, ◌+ℤ◌, int_laws, +ℤ_left_comm, +ℤ_assoc}
use multi_warehouse_manageme.Prelude.Sums.{sum_ℤ}
use multi_warehouse_manageme.AgedInventory.Calc.{
  ReceiptLot, is_older, insert_lot, sort_newest, is_positive,
}

-- No later lot is newer.
abbrev pub IsNewestFirst : List ReceiptLot → Type 0
IsNewestFirst [] = Unit
IsNewestFirst (r ∷ rs) = All (λ q. q.received_on ≤ r.received_on) rs × IsNewestFirst rs

abbrev pub IsPositive : ReceiptLot → Type 0
IsPositive r = is_positive r ≡ true

All-insert_lot :
    (P : ReceiptLot → Type 0) (r : ReceiptLot) (qs : List ReceiptLot)
    → P r
    → All P qs
    → All P (insert_lot r qs)
unfolding insert_lot
All-insert_lot P r [] p h = (p, tt)
All-insert_lot P r (q ∷ qs) p h = elim (Bool-cases (is_older r q)) [
  | inl older ↦ rw older (h.0, All-insert_lot P r qs p h.1)
  | inr newer ↦ rw newer (p, h)
]

pub All-sort : (P : ReceiptLot → Type 0) (rs : List ReceiptLot) → All P rs → All P (sort_newest rs)
unfolding sort_newest
All-sort P [] h = tt
All-sort P (r ∷ rs) h = All-insert_lot P r (sort_newest rs) h.0 (All-sort P rs h.1)

All-weaken :
    (a b : ℕ) (qs : List ReceiptLot)
    → a ≤ b
    → All (λ q. q.received_on ≤ a) qs
    → All (λ q. q.received_on ≤ b) qs
All-weaken a b [] h t = tt
All-weaken a b (q ∷ qs) h t = (omega arith, All-weaken a b qs h t.1)

insert_lot-IsNewestFirst :
    (r : ReceiptLot) (qs : List ReceiptLot) → IsNewestFirst qs → IsNewestFirst (insert_lot r qs)
unfolding insert_lot is_older
insert_lot-IsNewestFirst r [] h = (tt, tt)
insert_lot-IsNewestFirst r (q ∷ qs) h = elim (Bool-cases (is_older r q)) [
  | inl older ↦ rw older (
    All-insert_lot (λ x. x.received_on ≤ q.received_on) r qs (ground arith) h.0,
    insert_lot-IsNewestFirst r qs h.1,
  )
  | inr newer ↦
      let le : q.received_on ≤ r.received_on = ground arith in
      rw newer ((le, All-weaken q.received_on r.received_on qs le h.0), h)
]

pub sort-IsNewestFirst : (rs : List ReceiptLot) → IsNewestFirst (sort_newest rs)
unfolding sort_newest
sort-IsNewestFirst [] = tt
sort-IsNewestFirst (r ∷ rs) = insert_lot-IsNewestFirst r (sort_newest rs) (sort-IsNewestFirst rs)

pub filter-IsPositive : (rs : List ReceiptLot) → All IsPositive (filter is_positive rs)
filter-IsPositive [] = tt
filter-IsPositive (r ∷ rs) = elim (Bool-cases (is_positive r)) [
  | inl positive ↦ rw positive (positive, filter-IsPositive rs)
  | inr other ↦ rw other (filter-IsPositive rs)
]

-- The pieces that a lot of a positive quantity brought in at the time `t` or later.
abbrev pub received_since : ℕ → ReceiptLot → ℤ
received_since t r = if is_positive r && leb t r.received_on then r.qty else pos 0

sum-insert_lot :
    (f : ReceiptLot → ℤ) (r : ReceiptLot) (qs : List ReceiptLot)
    → sum_ℤ f (insert_lot r qs) ≡ f r +ℤ sum_ℤ f qs
unfolding insert_lot
sum-insert_lot f r [] = refl
sum-insert_lot f r (q ∷ qs) = elim (Bool-cases (is_older r q)) [
  | inl older ↦
      rw (older, sum-insert_lot f r qs) (+ℤ_left_comm (f q) (f r) (sum_ℤ f qs) ∙ +ℤ_assoc _ _ _)
  | inr newer ↦ rw newer
]

pub sum-sort : (f : ReceiptLot → ℤ) (rs : List ReceiptLot) → sum_ℤ f (sort_newest rs) ≡ sum_ℤ f rs
unfolding sort_newest
sum-sort f [] = refl
sum-sort f (r ∷ rs) = sum-insert_lot f r (sort_newest rs) ∙ ap (λ y. f r +ℤ y) (sum-sort f rs)

zero_add : (a : ℤ) → a ≡ pos 0 +ℤ a
zero_add a = omega int_laws

pub sum-filter :
    (t : ℕ) (rs : List ReceiptLot)
    → sum_ℤ (received_since t) (filter is_positive rs) ≡ sum_ℤ (received_since t) rs
sum-filter t [] = refl
sum-filter t (r ∷ rs) = elim (Bool-cases (is_positive r)) [
  | inl positive ↦ rw (positive, sum-filter t rs) (rw positive)
  | inr other ↦ rw (other, sum-filter t rs) (zero_add _)
]
