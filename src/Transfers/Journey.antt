-- ===== src/Transfers/Journey.antt =====
-- The life of a transfer in stock-transfer.service.ts, from the handlers' guards to the stock:
-- which status follows which, and where the pieces are in the end.
use multi_warehouse_manageme.Prelude.{
  ℕ, ◌≡◌, refl, ap, ◌∙◌, true, ◌==◌, some, arith, Bool-cases, inl, inr, ◌&&◌,
}
use multi_warehouse_manageme.Prelude.Int.{ℤ, pos, neg, ◌+ℤ◌, int_laws}
use multi_warehouse_manageme.Prelude.Tx.{ok}
use multi_warehouse_manageme.Auth.{AuthUser, assert_location_permission}
use multi_warehouse_manageme.Inventory.Types.{Bucket, same_bucket}
use multi_warehouse_manageme.Inventory.Levels.{is_ledger}
use multi_warehouse_manageme.Inventory.Effect.{counter}
use multi_warehouse_manageme.Transfers.Types.{
  draft, pending, transferring, received, StockTransfer, TransferDb, find_transfer,
}
use multi_warehouse_manageme.Transfers.Service.{
  submit_action, ship_action, transition, check_receive, receive, cancel, submit, ship,
  validate_availability, submit_tx, ship_tx, receive_tx, cancel_as,
}
use multi_warehouse_manageme.Transfers.Postings.{quantity_of, share, minus}
use multi_warehouse_manageme.Transfers.Rows.{
  submit_tx-row, ship_tx-row, receive_tx-row, find_transfer-id, find_transfer-update,
}
use multi_warehouse_manageme.Transfers.Totals.{
  submit_tx-total, ship_tx-total, receive_tx-total, release_tx-total, return_tx-total,
}

-- What a successful handler has checked, run and left in the transfer's row.
pub submit-step :
    (now id : ℕ) (user : AuthUser) (db db' : TransferDb) (u : Unit {0}) (stn : StockTransfer)
    → find_transfer id db.transfers ≡ some stn
    → transition now id submit_action user db ≡ ok (u, db')
    → (stn.status ≡ draft)
      × (submit_tx stn user db ≡ ok (u, db'))
      × (find_transfer id db'.transfers ≡ some (record stn { status = pending }))
unfolding transition submit validate_availability assert_location_permission
submit-step now id user db db' u stn e h =
    let ran : submit_tx stn user db ≡ ok (u, db') = ground arith in
    let key : stn.id ≡ id = find_transfer-id id db.transfers stn e in
    let updated = submit_tx-row stn user db db' u ran in
    (
      ground arith,
      ran,
      ap (find_transfer id) (rw key at updated)
          ∙ find_transfer-update id (λ row. record row { status = pending }) db.transfers stn
              (λ x. refl) e,
    )

pub ship-step :
    (now id : ℕ) (user : AuthUser) (db db' : TransferDb) (u : Unit {0}) (stn : StockTransfer)
    → find_transfer id db.transfers ≡ some stn
    → transition now id ship_action user db ≡ ok (u, db')
    → (stn.status ≡ pending)
      × (ship_tx now stn user db ≡ ok (u, db'))
      × (find_transfer id db'.transfers
          ≡ some (record stn { status = transferring; shipped_at = some now }))
unfolding transition ship assert_location_permission
ship-step now id user db db' u stn e h =
    let ran : ship_tx now stn user db ≡ ok (u, db') = ground arith in
    let key : stn.id ≡ id = find_transfer-id id db.transfers stn e in
    let updated = ship_tx-row stn user now db db' u ran in
    (
      ground arith,
      ran,
      ap (find_transfer id) (rw key at updated)
          ∙ find_transfer-update id
              (λ row. record row { status = transferring; shipped_at = some now }) db.transfers stn
              (λ x. refl) e,
    )

pub receive-step :
    (now id : ℕ) (user : AuthUser) (db db' : TransferDb) (u : Unit {0}) (stn : StockTransfer)
    → find_transfer id db.transfers ≡ some stn
    → receive now id user db ≡ ok (u, db')
    → (stn.status ≡ transferring)
      × (receive_tx now stn user db ≡ ok (u, db'))
      × (find_transfer id db'.transfers
          ≡ some (record stn {
            status = received;
            received_at = some now;
            received_by_id = some user.user_id;
          }))
unfolding receive check_receive assert_location_permission
receive-step now id user db db' u stn e h =
    let ran : receive_tx now stn user db ≡ ok (u, db') = ground arith in
    let key : stn.id ≡ id = find_transfer-id id db.transfers stn e in
    let updated = receive_tx-row stn user now db db' u ran in
    (
      ground arith,
      ran,
      ap (find_transfer id) (rw key at updated)
          ∙ find_transfer-update id
              (λ row. record row {
                status = received;
                received_at = some now;
                received_by_id = some user.user_id;
              })
              db.transfers stn (λ x. refl) e,
    )

-- `cancel` runs the transaction of the status that it has read.
pub cancel-runs :
    (id : ℕ) (user : AuthUser) (db db' : TransferDb) (u : Unit {0}) (stn : StockTransfer)
    → find_transfer id db.transfers ≡ some stn
    → cancel id user db ≡ ok (u, db')
    → cancel_as stn.status stn user db ≡ ok (u, db')
unfolding cancel assert_location_permission
cancel-runs id user db db' u stn e h = ground arith

share-minus :
    (location : ℕ) (b : Bucket) (q l : ℕ) (c : Bucket)
    → share location b (minus q) l c ≡ neg (share location b (pos q) l c)
share-minus location b q l c = elim (Bool-cases (location == l && same_bucket b c)) [
  | inl t ↦ rw t
  | inr t ↦ rw t (omega int_laws)
]

journey_sum :
    (i h₁ h₂ k x : ℤ) → neg i +ℤ h₂ +ℤ (neg k +ℤ neg h₁ +ℤ i +ℤ (k +ℤ x)) ≡ h₂ +ℤ neg h₁ +ℤ x
journey_sum i h₁ h₂ k x = omega int_laws

undo_sum : (i h k x : ℤ) → h +ℤ neg i +ℤ (neg k +ℤ neg h +ℤ i +ℤ (k +ℤ x)) ≡ x
undo_sum i h k x = omega int_laws

undo_one : (k x : ℤ) → neg k +ℤ (k +ℤ x) ≡ x
undo_one k x = omega int_laws

module _ (stn : StockTransfer) (v l : ℕ) (c : Bucket) where
  -- The transfer's pieces of the variant, as posted to a bucket at a location.
  abbrev pub pieces : ℕ → Bucket → ℤ
  pieces location b = share location b (pos (quantity_of v stn.items)) l c

  abbrev pub pieces_out : ℕ → Bucket → ℤ
  pieces_out location b = share location b (minus (quantity_of v stn.items)) l c

  negated : (location : ℕ) (b : Bucket) → pieces_out location b ≡ neg (pieces location b)
  negated location b = share-minus location b (quantity_of v stn.items) l c

abbrev pub UnderWay : ℕ → ℕ → TransferDb → TransferDb → StockTransfer → Type 0
UnderWay now id db db₂ stn =
    (v l : ℕ) (c : Bucket)
    → is_ledger c ≡ true
    → counter v l c db₂.stock
      ≡ neg (pieces stn v l c stn.from_location_id Bucket.committed)
        +ℤ neg (pieces stn v l c stn.from_location_id Bucket.on_hand)
        +ℤ pieces stn v l c stn.to_location_id Bucket.incoming
        +ℤ (pieces stn v l c stn.from_location_id Bucket.committed +ℤ counter v l c db.stock)

submitted_and_shipped :
    (now id : ℕ) (a b : AuthUser) (db db₁ db₂ : TransferDb) (u : Unit {0}) (stn : StockTransfer)
    → find_transfer id db.transfers ≡ some stn
    → transition now id submit_action a db ≡ ok (u, db₁)
    → transition now id ship_action b db₁ ≡ ok (u, db₂)
    → UnderWay now id db db₂ stn
      × (find_transfer id db₂.transfers
          ≡ some (record stn { status = transferring; shipped_at = some now }))
submitted_and_shipped now id a b db db₁ db₂ u stn found h₁ h₂ =
    let (_, ran₁, found₁) = submit-step now id a db db₁ u stn found h₁ in
    let (_, ran₂, found₂) =
      ship-step now id b db₁ db₂ u (record stn { status = pending }) found₁ h₂ in
    (
      λ v l c g.
          rw
            (
              ← negated stn v l c stn.from_location_id Bucket.committed,
              ← negated stn v l c stn.from_location_id Bucket.on_hand,
              ← submit_tx-total stn a v l c g db db₁ u ran₁,
            )
            (ship_tx-total (record stn { status = pending }) b v l c g now db₁ db₂ u ran₂),
      found₂,
    )

-- A transfer that is submitted, shipped and received moves its pieces of each variant from the
-- stock on hand of the one location to that of the other; no other counter of any level is
-- changed in the end, whoever acts and whatever the order of its lines.
pub transfer_journey :
    (now id : ℕ) (a b r : AuthUser) (db db₁ db₂ db₃ : TransferDb) (u : Unit {0})
    (stn : StockTransfer) (v l : ℕ) (c : Bucket)
    → find_transfer id db.transfers ≡ some stn
    → is_ledger c ≡ true
    → transition now id submit_action a db ≡ ok (u, db₁)
    → transition now id ship_action b db₁ ≡ ok (u, db₂)
    → receive now id r db₂ ≡ ok (u, db₃)
    → counter v l c db₃.stock
      ≡ share stn.to_location_id Bucket.on_hand (pos (quantity_of v stn.items)) l c
        +ℤ share stn.from_location_id Bucket.on_hand (minus (quantity_of v stn.items)) l c
        +ℤ counter v l c db.stock
transfer_journey now id a b r db db₁ db₂ db₃ u stn v l c found g h₁ h₂ h₃ =
    let (shipped, found₂) = submitted_and_shipped now id a b db db₁ db₂ u stn found h₁ h₂ in
    let under_way = record stn { status = transferring; shipped_at = some now } in
    let (_, ran₃, _) = receive-step now id r db₂ db₃ u under_way found₂ h₃ in
    receive_tx-total under_way r v l c g now db₂ db₃ u ran₃
    ∙ rw
        (
          shipped v l c g,
          negated stn v l c stn.to_location_id Bucket.incoming,
          negated stn v l c stn.from_location_id Bucket.on_hand,
        )
        (journey_sum _ _ _ _ _)

-- Cancelling a transfer that is under way takes back all that submitting and shipping it did to
-- the stock: every counter of every level is again what it was before it was submitted.
pub cancel-undoes_ship :
    (now id : ℕ) (a b r : AuthUser) (db db₁ db₂ db₃ : TransferDb) (u : Unit {0})
    (stn : StockTransfer) (v l : ℕ) (c : Bucket)
    → find_transfer id db.transfers ≡ some stn
    → is_ledger c ≡ true
    → transition now id submit_action a db ≡ ok (u, db₁)
    → transition now id ship_action b db₁ ≡ ok (u, db₂)
    → cancel id r db₂ ≡ ok (u, db₃)
    → counter v l c db₃.stock ≡ counter v l c db.stock
unfolding cancel_as
cancel-undoes_ship now id a b r db db₁ db₂ db₃ u stn v l c found g h₁ h₂ h₃ =
    let (shipped, found₂) = submitted_and_shipped now id a b db db₁ db₂ u stn found h₁ h₂ in
    let under_way = record stn { status = transferring; shipped_at = some now } in
    return_tx-total under_way r v l c g db₂ db₃ u (cancel-runs id r db₂ db₃ u under_way found₂ h₃)
    ∙ rw (shipped v l c g, negated stn v l c stn.to_location_id Bucket.incoming) (undo_sum _ _ _ _)

-- Cancelling a transfer that is pending takes back its reservations: every counter of every level
-- is again what it was before it was submitted.
pub cancel-undoes_submit :
    (now id : ℕ) (a r : AuthUser) (db db₁ db₂ : TransferDb) (u : Unit {0}) (stn : StockTransfer)
    (v l : ℕ) (c : Bucket)
    → find_transfer id db.transfers ≡ some stn
    → is_ledger c ≡ true
    → transition now id submit_action a db ≡ ok (u, db₁)
    → cancel id r db₁ ≡ ok (u, db₂)
    → counter v l c db₂.stock ≡ counter v l c db.stock
unfolding cancel_as
cancel-undoes_submit now id a r db db₁ db₂ u stn v l c found g h₁ h₂ =
    let (_, ran₁, found₁) = submit-step now id a db db₁ u stn found h₁ in
    let waiting = record stn { status = pending } in
    release_tx-total waiting r v l c g db₁ db₂ u (cancel-runs id r db₁ db₂ u waiting found₁ h₂)
    ∙ rw
        (
          submit_tx-total stn a v l c g db db₁ u ran₁,
          negated stn v l c stn.from_location_id Bucket.committed,
        )
        (undo_one _ _)
