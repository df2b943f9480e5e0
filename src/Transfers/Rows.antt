-- ===== src/Transfers/Rows.antt =====
-- The life of a transfer in stock-transfer.service.ts, from the handlers' guards to the stock:
-- which status follows which, and where the pieces are in the end.
use multi_warehouse_manageme.Prelude.{ℕ, ◌≡◌, refl, ap, ◌∙◌, some, List, [], ◌∷◌, String, arith}
use multi_warehouse_manageme.Prelude.Tx.{Tx, ok, ◌>>◌, for_each, for_each-keeps}
use multi_warehouse_manageme.Auth.{AuthUser}
use multi_warehouse_manageme.Transfers.Types.{
  pending, transferring, received, cancelled, TransferItem, StockTransfer, TransferDb,
  find_transfer, update_transfer,
}
use multi_warehouse_manageme.Transfers.Service.{
  submit_tx, ship_tx, receive_tx, release_tx, set_status, write_log, return_tx, reserve_item,
  ship_item, receive_item, release_item, return_item,
}
use multi_warehouse_manageme.Transfers.Totals.{finish}

module _ (stn : StockTransfer) (user : AuthUser) where
  LeavesTransfers : (TransferItem → Tx TransferDb (Unit {0})) → Type 0
  LeavesTransfers body =
      (item : TransferItem) (db db' : TransferDb) (u : Unit {0})
      → body item db ≡ ok (u, db')
      → db'.transfers ≡ db.transfers

  reserve-leaves : LeavesTransfers (reserve_item stn user)
  unfolding LeavesTransfers reserve_item
  reserve-leaves item db db' u h = ground arith

  release-leaves : LeavesTransfers (release_item stn user)
  unfolding LeavesTransfers release_item
  release-leaves item db db' u h = ground arith

  receive-leaves : LeavesTransfers (receive_item stn user)
  unfolding LeavesTransfers receive_item
  receive-leaves item db db' u h = ground arith

  ship-leaves : LeavesTransfers (ship_item stn user)
  unfolding LeavesTransfers ship_item
  ship-leaves item db db' u h = ground arith

  return-leaves : LeavesTransfers (return_item stn user)
  unfolding LeavesTransfers return_item
  return-leaves item db db' u h = ground arith

  loop_leaves :
      (body : TransferItem → Tx TransferDb (Unit {0}))
      → LeavesTransfers body
      → (xs : List TransferItem) (id : ℕ) (f : StockTransfer → StockTransfer) (action : String)
        (db db' : TransferDb) (u : Unit {0})
      → (for_each body xs >> (set_status id f >> write_log stn user action)) db ≡ ok (u, db')
      → db'.transfers ≡ update_transfer id f db.transfers
  unfolding LeavesTransfers
  loop_leaves body leaves xs id f action db db' u h =
      let (db₁, w, loop, _, updated) = finish body xs id f stn user action db db' u h in
      updated
      ∙ ap (update_transfer id f) (
          for_each-keeps (λ d. d.transfers ≡ db.transfers) body
            (λ x d d' v p e. leaves x d d' v e ∙ p) xs db db₁ w refl loop)

  -- Each transaction updates the row of its transfer, and no other.
  pub submit_tx-row :
      (db db' : TransferDb) (u : Unit {0})
      → submit_tx stn user db ≡ ok (u, db')
      → db'.transfers ≡ update_transfer stn.id (λ row. record row { status = pending }) db.transfers
  unfolding submit_tx
  submit_tx-row db db' u h = loop_leaves _ reserve-leaves _ _ _ _ db db' u h

  pub ship_tx-row :
      (now : ℕ) (db db' : TransferDb) (u : Unit {0})
      → ship_tx now stn user db ≡ ok (u, db')
      → db'.transfers
        ≡ update_transfer stn.id
            (λ row. record row { status = transferring; shipped_at = some now })
            db.transfers
  unfolding ship_tx
  ship_tx-row now db db' u h = loop_leaves _ ship-leaves _ _ _ _ db db' u h

  pub receive_tx-row :
      (now : ℕ) (db db' : TransferDb) (u : Unit {0})
      → receive_tx now stn user db ≡ ok (u, db')
      → db'.transfers
        ≡ update_transfer stn.id
            (λ row. record row {
              status = received;
              received_at = some now;
              received_by_id = some user.user_id;
            })
            db.transfers
  unfolding receive_tx
  receive_tx-row now db db' u h = loop_leaves _ receive-leaves _ _ _ _ db db' u h

  pub release_tx-row :
      (db db' : TransferDb) (u : Unit {0})
      → release_tx stn user db ≡ ok (u, db')
      → db'.transfers
        ≡ update_transfer stn.id (λ row. record row { status = cancelled }) db.transfers
  unfolding release_tx
  release_tx-row db db' u h = loop_leaves _ release-leaves _ _ _ _ db db' u h

  pub return_tx-row :
      (db db' : TransferDb) (u : Unit {0})
      → return_tx stn user db ≡ ok (u, db')
      → db'.transfers
        ≡ update_transfer stn.id (λ row. record row { status = cancelled }) db.transfers
  unfolding return_tx
  return_tx-row db db' u h = loop_leaves _ return-leaves _ _ _ _ db db' u h

pub find_transfer-id :
    (id : ℕ) (stns : List StockTransfer) (stn : StockTransfer)
    → find_transfer id stns ≡ some stn
    → stn.id ≡ id
unfolding find_transfer
find_transfer-id id [] stn e = cc
find_transfer-id id (x ∷ xs) stn e = ground (arith, find_transfer-id id xs stn)

-- What is found after an update that keeps ids.
pub find_transfer-update :
    (id : ℕ) (f : StockTransfer → StockTransfer) (stns : List StockTransfer) (stn : StockTransfer)
    → ((x : StockTransfer) → (f x).id ≡ x.id)
    → find_transfer id stns ≡ some stn
    → find_transfer id (update_transfer id f stns) ≡ some (f stn)
unfolding find_transfer update_transfer
find_transfer-update id f [] stn k e = cc
find_transfer-update id f (x ∷ xs) stn k e = ground (arith, k x, find_transfer-update id f xs stn k)
