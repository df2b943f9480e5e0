-- ===== src/Purchasing/Returned.antt =====
-- What `create` of purchase-return.service.ts does to the stock.
use mathlib.Core.Path.{subst}
use multi_warehouse_manageme.Prelude.{
  ℕ, ◌+◌, ◌≡◌, ◌⊎◌, ap, ◌∙◌, true, false, ◌==◌, if◌then◌else◌, List, [], ◌∷◌, arith, Bool-cases,
  inl, inr, eq_of_==,
}
use multi_warehouse_manageme.Prelude.Int.{ℤ, pos, ◌+ℤ◌, ◌≤ℤ◌}
use multi_warehouse_manageme.Prelude.Sums.{for_each-sum}
use multi_warehouse_manageme.Prelude.Tx.{ok, for_each, >>=-eq-ok}
use multi_warehouse_manageme.Auth.{AuthUser, assert_location_permission}
use multi_warehouse_manageme.Inventory.Types.{Bucket}
use multi_warehouse_manageme.Inventory.Store.{Stock}
use multi_warehouse_manageme.Inventory.Levels.{is_ledger, available_at}
use multi_warehouse_manageme.Inventory.Locking.{sort_for_locking, sum_ℤ-sort}
use multi_warehouse_manageme.Inventory.Effect.{counter}
use multi_warehouse_manageme.Inventory.Lines.{share, minus, pieces_of, line_share, minus_lines}
use multi_warehouse_manageme.Transfers.Service.{add_quantity, some_short}
use multi_warehouse_manageme.Purchasing.Types.{
  PurchaseReturn, ReturnItem, PurchasingDb, validate_partner,
}
use multi_warehouse_manageme.Purchasing.Returns.{
  CreatePurchaseReturnDto, new_return, send_back, return_quantities, validate_goods_receipt_ref,
  validate_return_quantities,
}
use multi_warehouse_manageme.Purchasing.Returns
use multi_warehouse_manageme.Purchasing.SentBack.{create-runs}
use multi_warehouse_manageme.Purchasing.Announced.{posts_one}

module _ (pvn : PurchaseReturn) (user : AuthUser) (v l : ℕ) (c : Bucket)
    (g : is_ledger c ≡ true) where
  abbrev sent : ReturnItem → ℤ
  sent =
      line_share ReturnItem.variant_id ReturnItem.quantity v l c pvn.location_id Bucket.on_hand
        minus

  send_adds :
      (item : ReturnItem) (db db' : PurchasingDb) (u : Unit {0})
      → send_back pvn user item db ≡ ok (u, db')
      → counter v l c db'.stock ≡ sent item +ℤ counter v l c db.stock
  unfolding send_back
  send_adds item db db' u h = posts_one v l c g _ db db' u h

  create_tx-stock :
      (db db' : PurchasingDb) (u : Unit {0})
      → Returns.create_tx pvn user db ≡ ok (u, db')
      → counter v l c db'.stock
        ≡ share pvn.location_id Bucket.on_hand
            (minus (pieces_of ReturnItem.variant_id ReturnItem.quantity v pvn.items))
            l
            c
          +ℤ counter v l c db.stock
  unfolding Returns.create_tx
  create_tx-stock db db' u h =
      let (w, db₁, looped, last) =
        >>=-eq-ok (for_each (send_back pvn user) (sort_for_locking Returns.by_variant pvn.items)) _
          _ h in
      let rest : db'.stock ≡ db₁.stock = ground (arith, last) in
      ap (counter v l c) rest
      ∙ for_each-sum (λ (d : PurchasingDb). counter v l c d.stock) sent (send_back pvn user)
          send_adds _ _ db₁ w looped
      ∙ ap (λ x. x +ℤ counter v l c db.stock)
          (sum_ℤ-sort Returns.by_variant sent pvn.items
            ∙ minus_lines _ _ v l c pvn.location_id Bucket.on_hand pvn.items)

-- The pieces that the map holds for a variant.
held : ℕ → List (ℕ × ℕ) → ℕ
held v [] = 0
held v ((w, n) ∷ rest) = if w == v then n else held v rest

held-add :
    (v w q : ℕ) (acc : List (ℕ × ℕ))
    → held v (add_quantity w q acc) ≡ held v acc + (if w == v then q else 0)
unfolding held add_quantity
held-add v w q [] = ground arith
held-add v w q ((x, n) ∷ rest) = ground (arith, held-add v w q rest)

held-quantities :
    (v : ℕ) (acc : List (ℕ × ℕ)) (items : List ReturnItem)
    → held v (return_quantities acc items)
      ≡ held v acc + pieces_of ReturnItem.variant_id ReturnItem.quantity v items
unfolding return_quantities
held-quantities v acc [] = omega arith
held-quantities v acc (item ∷ items) = omega (
  arith,
  held-quantities v (add_quantity item.variant_id item.quantity acc) items,
  held-add v item.variant_id item.quantity acc,
)

not_short :
    (v l : ℕ) (s : Stock) (qs : List (ℕ × ℕ))
    → some_short l s qs ≡ false
    → (held v qs ≡ 0) ⊎ (pos (held v qs) ≤ℤ available_at v l s)
unfolding held some_short
not_short v l s [] h = inl (omega arith)
not_short v l s ((w, n) ∷ rest) h = elim (Bool-cases (w == v)) [
  | inl same ↦
      let is : w ≡ v = eq_of_== w v same in
      inr (rw same (subst (λ x. pos n ≤ℤ available_at x l s) is (ground arith)))
  | inr other ↦ rw other (not_short v l s rest (ground arith))
]

return_create-covered :
    (dto : CreatePurchaseReturnDto) (user : AuthUser) (db db' : PurchasingDb) (u : Unit {0}) (v : ℕ)
    → Returns.create dto user db ≡ ok (u, db')
    → let sent = pieces_of ReturnItem.variant_id ReturnItem.quantity v dto.items in
      (sent ≡ 0) ⊎ (pos sent ≤ℤ available_at v dto.location_id db.stock)
unfolding Returns.create validate_partner assert_location_permission validate_goods_receipt_ref
    validate_return_quantities held
return_create-covered dto user db db' u v h =
    let covered : some_short dto.location_id db.stock (return_quantities [] dto.items) ≡ false =
      ground arith in
    let all : held v (return_quantities [] dto.items)
        ≡ pieces_of ReturnItem.variant_id ReturnItem.quantity v dto.items =
      held-quantities v [] dto.items ∙ omega arith in
    subst (λ n. (n ≡ 0) ⊎ (pos n ≤ℤ available_at v dto.location_id db.stock)) all
      (not_short v dto.location_id db.stock (return_quantities [] dto.items) covered)

-- A purchase return that is created takes its pieces of each variant from what is on hand at its
-- location, and changes no other counter of the ledger; of no variant does it take more than was
-- available there.
pub return_create-stock :
    (dto : CreatePurchaseReturnDto) (user : AuthUser) (db db' : PurchasingDb) (u : Unit {0})
    (v l : ℕ) (c : Bucket)
    → is_ledger c ≡ true
    → Returns.create dto user db ≡ ok (u, db')
    → let sent = pieces_of ReturnItem.variant_id ReturnItem.quantity v dto.items in
      (counter v l c db'.stock
        ≡ share dto.location_id Bucket.on_hand (minus sent) l c +ℤ counter v l c db.stock)
      × ((sent ≡ 0) ⊎ (pos sent ≤ℤ available_at v dto.location_id db.stock))
return_create-stock dto user db db' u v l c g h = (
  create_tx-stock (new_return dto db) user v l c g db db' u (create-runs dto user db db' u h),
  return_create-covered dto user db db' u v h,
)
