-- ===== src/Inventory/Refinement.antt =====
-- What inventory.service.ts promises, without rows, locks, ids and prices: counters by variant and
-- location, to which a batch of movements is posted whole or not at all.
use mathlib.Core.Path.{fun_ext}
use multi_warehouse_manageme.Prelude.{
  ℕ, ◌≡◌, refl, ap, sym, ◌∙◌, true, false, ◌&&◌, ◌==◌, if◌then◌else◌, some, List, [], ◌∷◌, arith,
  Bool-cases, inl, inr, or_default,
}
use multi_warehouse_manageme.Prelude.Tx.{
  Result, ok, err, Error, empty_batch, mixed_batch, record_not_found, Result-cases, ◌>>=◌, gets,
  return, Tx, or_throw, >>=-ok, >>=-err, >>=-eq-ok,
}
use multi_warehouse_manageme.Inventory.Types.{ApplyMovementInput, LevelState, compute_available}
use multi_warehouse_manageme.Inventory.Store.{
  LevelRow, Stock, find_level, update_level, insert_movement,
}
use multi_warehouse_manageme.Inventory.Service.{
  next_level, apply_round, apply_rounds, apply_movements, get_level_state, ensure_level_locked,
  write_movement,
}
use multi_warehouse_manageme.Inventory.Levels.{
  level_at, same_key, find_level-update, find_level-update_self, find_level-ensure, level_at-ensure,
}
use multi_warehouse_manageme.Inventory.Steps.{apply_round-Round}

-- The counters at each variant and location.
abbrev pub Levels : Type 0
Levels = ℕ → ℕ → LevelState

abbrev pub levels_of : Stock → Levels
levels_of s v l = level_at v l s

abbrev put : ℕ → ℕ → Levels → LevelState → Levels
put v l f level v' l' = if same_key v l v' l' then level else f v' l'

abbrev map_result {ℓ κ} : {A : Type ℓ} {B : Type κ} → (A → B) → Result A → Result B
map_result f (ok a) = ok (f a)
map_result f (err e) = err e

abbrev then_post : Result Levels → (Levels → Result Levels) → Result Levels
then_post (ok f) k = k f
then_post (err e) k = err e

-- One movement, in a batch for `(v, l)`.
abbrev pub post : ℕ → ℕ → ApplyMovementInput → Levels → Result Levels
post v l input f =
    if input.variant_id == v && input.location_id == l
    then map_result (put v l f) (next_level (f v l) input)
    else err mixed_batch

pub post_all : ℕ → ℕ → List ApplyMovementInput → Levels → Result Levels
post_all v l [] f = ok f
post_all v l (input ∷ inputs) f = then_post (post v l input f) (post_all v l inputs)

-- The specification of `applyMovements`.
pub post_batch : List ApplyMovementInput → Levels → Result Levels
unfolding post_all
post_batch [] f = err empty_batch
post_batch (first ∷ rest) f = post_all first.variant_id first.location_id (first ∷ rest) f

-- What is seen of a transaction: its error, or the counters that it leaves.
abbrev pub seen {ℓ} : {A : Type ℓ} → Result (A × Stock) → Result Levels
seen = map_result (λ r. levels_of r.1)

write-levels :
    (v l : ℕ) (input : ApplyMovementInput) (level : LevelState) (s : Stock) (row : LevelRow)
    → find_level v l s.levels ≡ some row
    → levels_of (write_movement v l input level s) ≡ put v l (levels_of s) level
unfolding write_movement update_level insert_movement
write-levels v l input level s row e = fun_ext λ v'. fun_ext λ l'.
    (find_level-update v l v' l' level (compute_available level) input.price input.cost s.levels row
      e).0

module _ (v l : ℕ) (input : ApplyMovementInput) (s : Stock) (row : LevelRow)
    (e : find_level v l s.levels ≡ some row) where
  round_ok :
      (after : LevelState)
      → input.variant_id == v && input.location_id == l ≡ true
      → next_level row.level input ≡ ok after
      → apply_round v l input s ≡ ok (s.next_movement_id, write_movement v l input after s)
  unfolding apply_round get_level_state
  round_ok after same f = ground arith

  round_err :
      (x : Error)
      → input.variant_id == v && input.location_id == l ≡ true
      → next_level row.level input ≡ err x
      → apply_round v l input s ≡ err x
  unfolding apply_round get_level_state
  round_err x same f = ground arith

  round_mixed :
      input.variant_id == v && input.location_id == l ≡ false
      → apply_round v l input s ≡ err mixed_batch
  unfolding apply_round
  round_mixed other = ground arith

  -- A round on a row that is there posts its movement.
  round-post : seen (apply_round v l input s) ≡ post v l input (levels_of s)
  round-post = elim (Bool-cases (input.variant_id == v && input.location_id == l)) [
    | inr other ↦ rw (round_mixed other, other)
    | inl same ↦ elim (Result-cases (next_level row.level input)) [
      | inr (x, f) ↦ rw (round_err x same f, same, e, f)
      | inl (after, f) ↦
          rw (round_ok after same f, same, e, f) (ap ok (write-levels v l input after s row e))
    ]
  ]

  -- The row is still there.
  round-keeps :
      (t : Stock) (id : ℕ)
      → apply_round v l input s ≡ ok (id, t)
      → (row' : LevelRow) × (find_level v l t.levels ≡ some row')
  unfolding write_movement update_level insert_movement
  round-keeps t id h =
      let d = apply_round-Round v l input s {id = id} {t = t} h in
      rw d.written (
        record row {
          level = d.after;
          available = compute_available d.after;
          price = or_default input.price row.price;
          cost = or_default input.cost row.cost;
        },
        find_level-update_self v l d.after (compute_available d.after) input.price input.cost
            s.levels row e,
      )

seen_ids :
    (id v l : ℕ) (inputs : List ApplyMovementInput) (t : Stock)
    → seen ((apply_rounds v l inputs >>= λ ids. return (id ∷ ids)) t)
      ≡ seen (apply_rounds v l inputs t)
seen_ids id v l inputs t = elim (Result-cases (apply_rounds v l inputs t)) [
  | inr (x, f) ↦ rw (f, ◌>>=◌)
  | inl (r, f) ↦ rw (f, ◌>>=◌)
]

rounds-post :
    (v l : ℕ) (inputs : List ApplyMovementInput) (s : Stock) (row : LevelRow)
    → find_level v l s.levels ≡ some row
    → seen (apply_rounds v l inputs s) ≡ post_all v l inputs (levels_of s)
unfolding post_all apply_rounds
rounds-post v l [] s row e = refl
rounds-post v l (input ∷ inputs) s row e =
    let rest = λ (id : ℕ). apply_rounds v l inputs >>= λ ids. return (id ∷ ids) in
    elim (Result-cases (apply_round v l input s)) [
      | inr (x, f) ↦
          ap seen (>>=-err (apply_round v l input) rest s x f)
          ∙ ap (λ r. then_post r (post_all v l inputs))
              (ap seen (sym f) ∙ round-post v l input s row e)
      | inl ((id, t), f) ↦
          let (row', e') = round-keeps v l input s row e t id f in
          ap seen (>>=-ok (apply_round v l input) rest s t id f)
          ∙ seen_ids id v l inputs t
          ∙ rounds-post v l inputs t row' e'
          ∙ ap (λ r. then_post r (post_all v l inputs))
              (ap seen (sym f) ∙ round-post v l input s row e)
    ]

-- What the transaction does after the rounds.
abbrev answer : ℕ → ℕ → List ℕ → Tx Stock (List ℕ × LevelRow)
answer v l ids = do
  s ← gets (λ s. s)
  row ← or_throw (find_level v l s.levels) record_not_found
  return (ids, row)

answered :
    (v l : ℕ) (ids : List ℕ) (t : Stock) (row : LevelRow)
    → find_level v l t.levels ≡ some row
    → answer v l ids t ≡ ok ((ids, row), t)
answered v l ids t row e = ground arith

rounds-keep :
    (v l : ℕ) (inputs : List ApplyMovementInput) (s t : Stock) (ids : List ℕ) (row : LevelRow)
    → find_level v l s.levels ≡ some row
    → apply_rounds v l inputs s ≡ ok (ids, t)
    → (row' : LevelRow) × (find_level v l t.levels ≡ some row')
unfolding apply_rounds
rounds-keep v l [] s t ids row e h =
    let same : s ≡ t = cc h in (row, ap (λ (x : Stock). find_level v l x.levels) (sym same) ∙ e)
rounds-keep v l (input ∷ inputs) s t ids row e h =
    let (id, s₁, first, others) = >>=-eq-ok (apply_round v l input) _ s h in
    let (ids', t', rest, last) = >>=-eq-ok (apply_rounds v l inputs) _ s₁ others in
    let same : t' ≡ t = cc last in
    let (row₁, e₁) = round-keeps v l input s row e s₁ id first in
    let (row₂, e₂) = rounds-keep v l inputs s₁ t' ids' row₁ e₁ rest in
    (row₂, ap (λ (x : Stock). find_level v l x.levels) (sym same) ∙ e₂)

ensure-levels : (v l : ℕ) (s : Stock) → levels_of (ensure_level_locked v l s) ≡ levels_of s
ensure-levels v l s = fun_ext λ v'. fun_ext λ l'. (level_at-ensure v l v' l' s).0

-- `applyMovements` implements its specification: on any stock, a batch fails with the error that
-- the specification gives on the counters alone, or leaves the counters that it gives.
pub apply_movements-refines :
    (inputs : List ApplyMovementInput) (s : Stock)
    → seen (apply_movements inputs s) ≡ post_batch inputs (levels_of s)
unfolding apply_movements post_batch
apply_movements-refines [] s = refl
apply_movements-refines (first ∷ rest) s =
    let v = first.variant_id in
    let l = first.location_id in
    let s₀ = ensure_level_locked v l s in
    let (row, e) = find_level-ensure v l s in
    let rounds = apply_rounds v l (first ∷ rest) in
    let posted = rounds-post v l (first ∷ rest) s₀ row e in
    (elim (Result-cases (rounds s₀)) [
      | inr (x, f) ↦ ap seen (>>=-err rounds (answer v l) s₀ x f) ∙ ap seen (sym f) ∙ posted
      | inl ((ids, t), f) ↦
          let (row', e') = rounds-keep v l (first ∷ rest) s₀ t ids row e f in
          ap seen (>>=-ok rounds (answer v l) s₀ t ids f ∙ answered v l ids t row' e')
          ∙ ap seen (sym f)
          ∙ posted
    ])
    ∙ ap (post_all v l (first ∷ rest)) (ensure-levels v l s)
