-- ===== src/Purchasing/Paying.antt =====
-- `pay` of src/modules/purchasing/goods-receipt.service.ts: which payments it accepts, and what they do.
use multi_warehouse_manageme.Prelude.{
  ℕ, ◌≡◌, refl, ap, ◌∙◌, true, false, ◌↔◌, Option, some, [], ◌∷◌, arith, inl, inr,
}
use multi_warehouse_manageme.Prelude.Int.{ℤ, pos, ◌+ℤ◌, ◌-ℤ◌, ◌≤ℤ◌, ◌<ℤ◌, leb_ℤ, int_laws}
use multi_warehouse_manageme.Prelude.Tx.{ok, Result-cases}
use multi_warehouse_manageme.Prelude.Table.{find_row-key, find_row-update, update_row}
use multi_warehouse_manageme.Auth.{AuthUser, assert_location_permission}
use multi_warehouse_manageme.Purchasing.Types.{
  GoodsReceiptStatus, GoodsReceipt, PurchasingDb, Voucher, VoucherType, find_receipt,
  create_payment,
}
use multi_warehouse_manageme.Purchasing.Receipts.{is_paid}
use multi_warehouse_manageme.Purchasing.Payments.{pay, pay_tx, pay_unpaid, amount_or, status_after}
use multi_warehouse_manageme.Purchasing.Payables.{paid_by, pay_tx-books}

-- What is still owed for a receipt.
abbrev pub remaining : GoodsReceipt → ℤ
remaining rei = rei.amount_due -ℤ rei.paid_amount

status_iff :
    (due paid a : ℤ)
    → a ≤ℤ (due -ℤ paid)
    → (is_paid (status_after (paid +ℤ a) due) ≡ true) ↔ (paid +ℤ a ≡ due)
status_iff due paid a h = (
  λ e. let reached : leb_ℤ due (paid +ℤ a) ≡ true = ground arith in grind int_laws,
  λ e. rw e (ground arith),
)

module _ (amount : Option ℤ) (id : ℕ) (user : AuthUser) (db : PurchasingDb) (rei : GoodsReceipt)
    (found : find_receipt id db.receipts ≡ some rei)
    (received : rei.status ≡ GoodsReceiptStatus.received)
    (unpaid : is_paid rei.payment_status ≡ false) (owing : pos 0 <ℤ remaining rei)
    (allowed : assert_location_permission user ("goods_receipt:pay" ∷ []) rei.location_id db
      ≡ ok (tt, db)) where
  pay-pay_tx :
      (db' : PurchasingDb)
      → pay amount id user db ≡ ok (tt, db')
      → pay_tx amount rei user db ≡ ok (tt, db')
  unfolding pay pay_unpaid
  pay-pay_tx db' h = ground arith

  -- On a received receipt that is not paid off, a user with the permission can pay exactly the amounts
  -- above zero and up to what is still owed; without an amount, what is still owed is paid.
  pub pay-ok_iff : ((db' : PurchasingDb) × (pay amount id user db ≡ ok (tt, db'))) ↔ (
      (pos 0 <ℤ amount_or amount (remaining rei))
      × (amount_or amount (remaining rei) ≤ℤ remaining rei))
  unfolding pay pay_unpaid pay_tx create_payment
  pay-ok_iff = (
    λ p.
        let (_, _, _, more, most) = pay_tx-books amount rei user db p.0 tt (pay-pay_tx p.0 p.1) in
        (more, most),
    λ h. elim (Result-cases (pay amount id user db)) [
      | inl (a, e) ↦ (a.1, e)
      | inr (x, e) ↦ absurd (ground arith)
    ],
  )

  -- Such a payment is added to what is paid on the receipt, which counts as paid exactly if nothing is
  -- owed any more, and writes one voucher of that amount.
  pub pay-settles :
      (db' : PurchasingDb)
      → pay amount id user db ≡ ok (tt, db')
      → (find_receipt id db'.receipts ≡ some (paid_by (amount_or amount (remaining rei)) rei rei))
        × ((is_paid (paid_by (amount_or amount (remaining rei)) rei rei).payment_status ≡ true)
            ↔ (rei.paid_amount +ℤ amount_or amount (remaining rei) ≡ rei.amount_due))
        × ((voucher : Voucher) × (voucher.amount_out ≡ amount_or amount (remaining rei))
            × (db'.vouchers ≡ voucher ∷ db.vouchers))
  unfolding pay_tx create_payment
  pay-settles db' h =
      let a = amount_or amount (remaining rei) in
      let ran = pay-pay_tx db' h in
      let (receipts, _, _, _, most) = pay_tx-books amount rei user db db' tt ran in
      let key = find_row-key GoodsReceipt.id id db.receipts rei found in
      (
        ap (find_receipt id)
              (receipts ∙ ap (λ i. update_row GoodsReceipt.id i (paid_by a rei) db.receipts) key)
            ∙ find_row-update GoodsReceipt.id id (paid_by a rei) db.receipts rei (λ x. refl) found,
        status_iff rei.amount_due rei.paid_amount a most,
        (
          record {
            type = VoucherType.payment;
            amount_in = pos 0;
            amount_out = a;
            location_id = rei.location_id;
            created_by_id = user.user_id;
            source_document = rei.code;
            reference_type = "goods_receipt";
            reference_id = rei.id;
          },
          refl,
          ground arith,
        ),
      )
