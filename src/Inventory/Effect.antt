-- ===== src/Inventory/Effect.antt =====
-- The effect of a batch on a counter: it is the sum of the changes that are posted there, so the
-- documents' handlers are accounted for by adding up what they post.
use multi_warehouse_manageme.Prelude.{
  ℕ, ◌≡◌, true, ◌&&◌, if◌then◌else◌, List, [], ◌∷◌, arith, ap, ◌∙◌,
}
use multi_warehouse_manageme.Prelude.Int.{ℤ, pos, ◌+ℤ◌, +ℤ_left_comm, int_laws}
use multi_warehouse_manageme.Prelude.Tx.{ok, >>=-eq-ok}
use multi_warehouse_manageme.Inventory.Types.{
  Bucket, same_bucket, ApplyMovementInput, get_bucket_value,
}
use multi_warehouse_manageme.Inventory.Store.{LevelRow, Stock}
use multi_warehouse_manageme.Inventory.Service.{
  apply_round, apply_rounds, apply_movements, ensure_level_locked,
}
use multi_warehouse_manageme.Inventory.Levels.{level_at, same_key, is_ledger, level_at-ensure}
use multi_warehouse_manageme.Inventory.Steps.{apply_round-Round, get_bucket_value-Round}

-- The counter of a bucket at a key.
abbrev pub counter : ℕ → ℕ → Bucket → Stock → ℤ
counter v l c s = get_bucket_value (level_at v l s) c

-- What one movement posts to the counter of bucket `c` at `(v, l)`.
unfoldable pub posting : ℕ → ℕ → Bucket → ApplyMovementInput → ℤ
posting v l c input =
    if same_key input.variant_id input.location_id v l && same_bucket input.bucket c
    then input.change
    else pos 0

unfoldable pub postings : ℕ → ℕ → Bucket → List ApplyMovementInput → ℤ
postings v l c [] = pos 0
postings v l c (input ∷ inputs) = posting v l c input +ℤ postings v l c inputs

apply_round-posting :
    (v' l' : ℕ) (input : ApplyMovementInput) (s : Stock) (v l : ℕ) (c : Bucket) (id : ℕ) (t : Stock)
    → is_ledger c ≡ true
    → apply_round v' l' input s ≡ ok (id, t)
    → counter v l c t ≡ posting v l c input +ℤ counter v l c s
unfolding posting
apply_round-posting v' l' input s v l c id t g h =
    let d = apply_round-Round v' l' input s {id = id} {t = t} h in
    rw (d.variant, d.location) (get_bucket_value-Round v' l' input s id t v l c g d)

apply_rounds-postings :
    (v' l' : ℕ) (inputs : List ApplyMovementInput) (s : Stock) (v l : ℕ) (c : Bucket) (ids : List ℕ)
    (t : Stock)
    → is_ledger c ≡ true
    → apply_rounds v' l' inputs s ≡ ok (ids, t)
    → counter v l c t ≡ postings v l c inputs +ℤ counter v l c s
unfolding apply_rounds postings
apply_rounds-postings v' l' [] s v l c ids t g h =
    let same : s ≡ t = cc in rw (← same) (omega int_laws)
apply_rounds-postings v' l' (input ∷ inputs) s v l c ids t g h =
    let (id, s', first, others) = >>=-eq-ok (apply_round v' l' input) _ s h in
    let (ids', t', rest, last) = >>=-eq-ok (apply_rounds v' l' inputs) _ s' others in
    let same : t' ≡ t = cc last in
    rw (← same) (
      apply_rounds-postings v' l' inputs s' v l c ids' t' g rest
      ∙ ap (λ x. postings v l c inputs +ℤ x) (apply_round-posting v' l' input s v l c id s' g first)
      ∙ +ℤ_left_comm (postings v l c inputs) (posting v l c input) (counter v l c s))

-- A batch that succeeds changes each counter by the sum of what it posts there.
pub apply_movements-postings :
    (inputs : List ApplyMovementInput) (s : Stock) (v l : ℕ) (c : Bucket) {r : List ℕ × LevelRow}
    {t : Stock}
    → is_ledger c ≡ true
    → apply_movements inputs s ≡ ok (r, t)
    → counter v l c t ≡ postings v l c inputs +ℤ counter v l c s
unfolding apply_movements
apply_movements-postings [] s v l c g h = cc
apply_movements-postings (first ∷ rest) s v l c {r} {t} g h =
    let s₀ = ensure_level_locked first.variant_id first.location_id s in
    let (ids, t', rounds, last) =
      >>=-eq-ok (apply_rounds first.variant_id first.location_id (first ∷ rest)) _ s₀ h in
    let same : t' ≡ t = ground arith in
    rw (← same, ← (level_at-ensure first.variant_id first.location_id v l s).0)
      (apply_rounds-postings first.variant_id first.location_id (first ∷ rest) s₀ v l c ids t' g
        rounds)
