-- ===== src/Inventory/Reconcile.antt =====
-- `reconcile` of inventory.service.ts and `runFullReconcile` of reconcile.service.ts: they report
-- no mismatch exactly where the ledger accounts for the counters.
use multi_warehouse_manageme.Prelude.{
  ℕ, ◌≡◌, refl, true, some, List, [], ◌∷◌, arith, ◌↔◌, inl, inr, Option-cases,
}
use multi_warehouse_manageme.Prelude.Int.{ℤ, pos, ◌-ℤ◌, ◌==ℤ◌, ==ℤ_iff}
use multi_warehouse_manageme.Prelude.Tx.{Result-cases, settle}
use multi_warehouse_manageme.Inventory.Types.{
  Bucket, on_hand, available, committed, packed, reserved, unavailable, incoming,
  ApplyMovementInput, compute_available, get_bucket_value, zero_level,
}
use multi_warehouse_manageme.Inventory.Store.{LevelRow, Stock, find_level, sum_movements}
use multi_warehouse_manageme.Inventory.Service.{apply_movements, check_row, reconcile}
use multi_warehouse_manageme.Inventory.Levels.{is_ledger}
use multi_warehouse_manageme.Inventory.Ledger.{
  IsReconciledAt, IsReconciled, apply_movements-IsReconciled,
}

-- What is found at a key carries that key.
pub find_level-key :
    (v l : ℕ) (rows : List LevelRow) (row : LevelRow)
    → find_level v l rows ≡ some row
    → (row.variant_id ≡ v) × (row.location_id ≡ l)
unfolding find_level
find_level-key v l [] row e = cc
find_level-key v l (r ∷ rows) row e = ground (arith, find_level-key v l rows row)

module _ (s : Stock) (row : LevelRow) where
  abbrev expected : Bucket → ℤ
  expected c = get_bucket_value row.level c

  abbrev ledger : Bucket → ℤ
  ledger c = sum_movements row.variant_id row.location_id c s.movements

  bucket_checked :
      (c : Bucket)
      → is_ledger c ≡ true
      → (check_row s row).ok ≡ true
      → (expected c ==ℤ ledger c) ≡ true
  unfolding check_row
  bucket_checked on_hand g h = ground arith
  bucket_checked committed g h = ground arith
  bucket_checked packed g h = ground arith
  bucket_checked unavailable g h = ground arith
  bucket_checked incoming g h = ground arith
  bucket_checked available g h = cc
  bucket_checked reserved g h = cc

  formula_checked :
      (check_row s row).ok ≡ true → (row.available ==ℤ compute_available row.level) ≡ true
  unfolding check_row
  formula_checked h = ground arith

  check_row-ok :
      ((c : Bucket) → is_ledger c ≡ true → expected c ≡ ledger c)
      → row.available ≡ compute_available row.level
      → (check_row s row).ok ≡ true
  unfolding check_row
  check_row-ok h f =
      let test =
        λ (c : Bucket) (g : is_ledger c ≡ true). (==ℤ_iff (expected c) (ledger c)).1 (h c g) in
      rw (
        (==ℤ_iff row.available (compute_available row.level)).1 f,
        test on_hand refl,
        test committed refl,
        test packed refl,
        test unavailable refl,
        test incoming refl,
      )

-- `reconcile` answers `ok` for a level that exists exactly if all five counters at the key are
-- the sums of their movements there, and the stored `available` is its formula.
pub reconcile-ok_iff :
    (v l : ℕ) (s : Stock) {row : LevelRow}
    → find_level v l s.levels ≡ some row
    → ((reconcile v l s).ok ≡ true) ↔ IsReconciledAt v l s
unfolding reconcile
reconcile-ok_iff v l s {row} e =
    let (kv, kl) = find_level-key v l s.levels row e in
    (
      λ h.
          let h' : (check_row s row).ok ≡ true = rw (e, reconcile) at h in
          record {
            counters = λ c g. rw (e, ← kv, ← kl) ((==ℤ_iff _ _).0 (bucket_checked s row c g h'));
            formula = rw e ((==ℤ_iff _ _).0 (formula_checked s row h'));
          },
      λ r.
          rw (e, reconcile)
            (check_row-ok s row (λ c g. rw (kv, kl) (rw e at (r.counters c g)))
              (rw e at r.formula)),
    )

-- A stream of batches, each its own transaction.
unfoldable pub run_batches : List (List ApplyMovementInput) → Stock → Stock
run_batches [] s = s
run_batches (b ∷ bs) s = run_batches bs (settle s (apply_movements b s))

-- No row and no movement.
abbrev pub empty_stock : Stock
empty_stock = record { levels = []; movements = []; next_movement_id = 1 }

zero_level-counters : (c : Bucket) → get_bucket_value zero_level c ≡ pos 0
unfolding get_bucket_value compute_available ◌-ℤ◌
zero_level-counters c = ground arith

pub empty-IsReconciled : IsReconciled empty_stock
unfolding find_level sum_movements compute_available ◌-ℤ◌
empty-IsReconciled v l = record { counters = λ c h. zero_level-counters c; formula = refl }

settle-IsReconciled :
    (b : List ApplyMovementInput) (s : Stock)
    → IsReconciled s
    → IsReconciled (settle s (apply_movements b s))
settle-IsReconciled b s r = elim (Result-cases (apply_movements b s)) [
  | inl (a, e) ↦ rw e (apply_movements-IsReconciled b s {r = a.0} {t = a.1} r e)
  | inr (x, e) ↦ rw e r
]

run_batches-IsReconciled :
    (bs : List (List ApplyMovementInput)) (s : Stock)
    → IsReconciled s
    → IsReconciled (run_batches bs s)
unfolding run_batches
run_batches-IsReconciled [] s r = r
run_batches-IsReconciled (b ∷ bs) s r =
    run_batches-IsReconciled bs (settle s (apply_movements b s)) (settle-IsReconciled b s r)

-- However many batches are sent to an empty stock, and whichever of them fail, `reconcile`
-- answers `ok` at every key.
pub run_batches-reconcile :
    (bs : List (List ApplyMovementInput)) (v l : ℕ)
    → (reconcile v l (run_batches bs empty_stock)).ok ≡ true
unfolding reconcile
run_batches-reconcile bs v l =
    let s = run_batches bs empty_stock in
    elim (Option-cases (find_level v l s.levels)) [
      | inl e ↦ rw (e, reconcile)
      | inr (row, e) ↦
          (reconcile-ok_iff v l s e).1
            (run_batches-IsReconciled bs empty_stock empty-IsReconciled v l)
    ]
