-- ===== src/Transfers/Overlapping.antt =====
-- Two requests `receive` for one transfer (stock-transfer.service.ts), which overlap: each reads the
-- transfer before its transaction, and not again inside.
use mathlib.Core.Path.{subst}
use multi_warehouse_manageme.Prelude.{ℕ, ◌≡◌, refl, ap, ◌∙◌, true, some, arith}
use multi_warehouse_manageme.Prelude.Int.{pos, ◌+ℤ◌}
use multi_warehouse_manageme.Prelude.Tx.{ok, err, invalid_transition}
use multi_warehouse_manageme.Auth.{AuthUser, assert_location_permission}
use multi_warehouse_manageme.Inventory.Types.{Bucket}
use multi_warehouse_manageme.Inventory.Levels.{is_ledger}
use multi_warehouse_manageme.Inventory.Effect.{counter}
use multi_warehouse_manageme.Transfers.Types.{
  transferring, received, StockTransfer, TransferDb, find_transfer,
}
use multi_warehouse_manageme.Transfers.Service.{check_receive, receive_tx}
use multi_warehouse_manageme.Transfers.Postings.{quantity_of, share, minus}
use multi_warehouse_manageme.Transfers.Rows.{receive_tx-row, find_transfer-id, find_transfer-update}
use multi_warehouse_manageme.Transfers.Totals.{receive_tx-total}

check-reads :
    (id : ℕ) (user : AuthUser) (db db' : TransferDb) (st stn : StockTransfer)
    → find_transfer id db.transfers ≡ some stn
    → check_receive id user db ≡ ok (st, db')
    → (st ≡ stn) × (stn.status ≡ transferring)
unfolding check_receive assert_location_permission
check-reads id user db db' st stn found h = (ground arith, ground arith)

received-refused :
    (id : ℕ) (user : AuthUser) (db : TransferDb) (stn : StockTransfer)
    → find_transfer id db.transfers ≡ some stn
    → stn.status ≡ received
    → check_receive id user db ≡ err invalid_transition
unfolding check_receive
received-refused id user db stn found h = ground arith

-- Two requests that check a transfer before either has received it, and whose transactions both
-- succeed, receive it twice: its pieces of each variant are taken twice from what is incoming at its
-- destination and put twice on hand there, and no other counter of any level changes. A request that
-- checks it after the first transaction is refused.
pub receive-overlap :
    (now now' id : ℕ) (a b r : AuthUser) (db db₁ db₂ : TransferDb) (u : Unit {0})
    (stn st st' : StockTransfer) (v l : ℕ) (c : Bucket)
    → find_transfer id db.transfers ≡ some stn
    → is_ledger c ≡ true
    → check_receive id a db ≡ ok (st, db)
    → check_receive id b db ≡ ok (st', db)
    → receive_tx now st a db ≡ ok (u, db₁)
    → receive_tx now' st' b db₁ ≡ ok (u, db₂)
    → let arrival =
        share stn.to_location_id Bucket.incoming (minus (quantity_of v stn.items)) l c
        +ℤ share stn.to_location_id Bucket.on_hand (pos (quantity_of v stn.items)) l c in
      (counter v l c db₂.stock ≡ arrival +ℤ (arrival +ℤ counter v l c db.stock))
      × (check_receive id r db₁ ≡ err invalid_transition)
receive-overlap now now' id a b r db db₁ db₂ u stn st st' v l c found g first second ran₁ ran₂ =
    let same = (check-reads id a db db st stn found first).0 in
    let same' = (check-reads id b db db st' stn found second).0 in
    let once = subst (λ s. receive_tx now s a db ≡ ok (u, db₁)) same ran₁ in
    let twice = subst (λ s. receive_tx now' s b db₁ ≡ ok (u, db₂)) same' ran₂ in
    let key : stn.id ≡ id = find_transfer-id id db.transfers stn found in
    let f = λ (row : StockTransfer). record row {
      status = received;
      received_at = some now;
      received_by_id = some a.user_id;
    } in
    let row : find_transfer id db₁.transfers ≡ some (f stn) =
      ap (find_transfer id) (rw key at (receive_tx-row stn a now db db₁ u once))
      ∙ find_transfer-update id f db.transfers stn (λ x. refl) found in
    (
      receive_tx-total stn b v l c g now' db₁ db₂ u twice
          ∙ rw (receive_tx-total stn a v l c g now db db₁ u once),
      received-refused id r db₁ (f stn) row refl,
    )
