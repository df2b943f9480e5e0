-- ===== src/Inventory/Lines.antt =====
-- What the lines of a document come to on the counters of the inventory service: for a document
-- that runs `applyMovements` for each of its lines, in lock order, inside one transaction.
use multi_warehouse_manageme.Prelude.{
  ℕ, ◌+◌, ◌≡◌, refl, ap, ◌∙◌, Bool, true, false, ◌&&◌, ◌==◌, if◌then◌else◌, List, [], ◌∷◌, arith,
  Bool-cases, inl, inr,
}
use multi_warehouse_manageme.Prelude.Int.{ℤ, pos, neg, ◌+ℤ◌, zero_+ℤ, +ℤ_zero, int_laws}
use multi_warehouse_manageme.Prelude.Tx.{Tx, ok, err, Result-cases}
use multi_warehouse_manageme.Prelude.Sums.{sum_ℤ}
use multi_warehouse_manageme.Inventory.Types.{Bucket, same_bucket, ApplyMovementInput}
use multi_warehouse_manageme.Inventory.Store.{Stock}
use multi_warehouse_manageme.Inventory.Effect.{posting, postings}

-- Where the stock stands in the tables that a component works on.
pub record StockIn (S : Type 0) : Type 0 where
  pub stock_of : S → Stock
  pub with_stock : Stock → S → S

-- A step on the stock, inside the same transaction.
abbrev pub on_stock : {S : Type 0} {A : Type 0} → StockIn S → Tx Stock A → Tx S A
on_stock k m s = elim (m (k.stock_of s)) [ ok (a, t) ↦ ok (a, k.with_stock t s) | err e ↦ err e ]

pub on_stock-inv :
    {S : Type 0} {A : Type 0} (k : StockIn S) (m : Tx Stock A) (s s' : S) (a : A)
    → on_stock k m s ≡ ok (a, s')
    → (t : Stock) × (m (k.stock_of s) ≡ ok (a, t)) × (k.with_stock t s ≡ s')
on_stock-inv k m s s' a h = elim (Result-cases (m (k.stock_of s))) [
  | inl ((b, t), e) ↦ (t, e ∙ cc (rw (e, on_stock) at h), cc (rw (e, on_stock) at h))
  | inr (x, e) ↦ absurd (cc (rw (e, on_stock) at h))
]

-- What is posted to bucket `c` at location `l` by a movement of `x` in bucket `b` at `location`.
abbrev pub share : ℕ → Bucket → ℤ → ℕ → Bucket → ℤ
share location b x l c = if location == l && same_bucket b c then x else pos 0

abbrev pub minus : ℕ → ℤ
minus n = neg (pos n)

pub add_pos : (a b : ℕ) → pos (a + b) ≡ pos a +ℤ pos b
add_pos a b = omega int_laws

pub add_minus : (a b : ℕ) → minus (a + b) ≡ minus a +ℤ minus b
add_minus a b = omega int_laws

pub minus_zero : minus 0 ≡ pos 0
minus_zero = omega int_laws

zero_plus : (n : ℕ) → 0 + n ≡ n
zero_plus n = omega arith

if_add :
    (t : Bool) (x y : ℤ)
    → (if t then x else pos 0) +ℤ (if t then y else pos 0) ≡ (if t then x +ℤ y else pos 0)
if_add true x y = refl
if_add false x y = omega int_laws

if_and :
    (p q r : Bool) (x : ℤ)
    → (if (p && q) && r then x else pos 0) ≡ (if p then if q && r then x else pos 0 else pos 0)
if_and true q r x = refl
if_and false q r x = refl

-- What a movement posts: nothing for another variant.
pub posting-share :
    (v l : ℕ) (c : Bucket) (input : ApplyMovementInput)
    → posting v l c input ≡ (
        if input.variant_id == v
        then share input.location_id input.bucket input.change l c
        else pos 0)
unfolding posting
posting-share v l c input =
    if_and (input.variant_id == v) (input.location_id == l) (same_bucket input.bucket c)
      input.change

pub postings_one :
    (v l : ℕ) (c : Bucket) (input : ApplyMovementInput)
    → postings v l c (input ∷ []) ≡ posting v l c input
unfolding postings
postings_one v l c input = +ℤ_zero _

pub postings_two :
    (v l : ℕ) (c : Bucket) (a b : ApplyMovementInput)
    → postings v l c (a ∷ b ∷ []) ≡ posting v l c a +ℤ posting v l c b
unfolding postings
postings_two v l c a b = ap (λ x. posting v l c a +ℤ x) (+ℤ_zero _)

-- Lines of any kind, by the variant of each and the number of its pieces.
module _ {A : Type 0} (variant : A → ℕ) (pieces : A → ℕ) where
  -- The pieces of a variant, over all lines.
  abbrev pub pieces_of : ℕ → List A → ℕ
  pieces_of v [] = 0
  pieces_of v (a ∷ xs) = (if variant a == v then pieces a else 0) + pieces_of v xs

  -- A line's part of a posting.
  abbrev pub line_share : ℕ → ℕ → Bucket → ℕ → Bucket → (ℕ → ℤ) → A → ℤ
  line_share v l c location b sign a =
      if variant a == v then share location b (sign (pieces a)) l c else pos 0

  lines_add :
      (v l : ℕ) (c : Bucket) (location : ℕ) (b : Bucket) (sign : ℕ → ℤ)
      → sign 0 ≡ pos 0
      → ((m n : ℕ) → sign (m + n) ≡ sign m +ℤ sign n)
      → (xs : List A)
      → sum_ℤ (line_share v l c location b sign) xs ≡ share location b (sign (pieces_of v xs)) l c
  lines_add v l c location b sign z add [] =
      rw z (elim (Bool-cases (location == l && same_bucket b c)) [ inl t ↦ rw t | inr t ↦ rw t ])
  lines_add v l c location b sign z add (a ∷ xs) =
      ap (λ x. line_share v l c location b sign a +ℤ x) (lines_add v l c location b sign z add xs)
      ∙ elim (Bool-cases (variant a == v)) [
        | inl same ↦
            rw (same, add (pieces a) (pieces_of v xs))
              (if_add (location == l && same_bucket b c) (sign (pieces a)) (sign (pieces_of v xs)))
        | inr other ↦ rw (other, zero_plus (pieces_of v xs)) (zero_+ℤ _)
      ]

  pub pos_lines :
      (v l : ℕ) (c : Bucket) (location : ℕ) (b : Bucket) (xs : List A)
      → sum_ℤ (line_share v l c location b pos) xs ≡ share location b (pos (pieces_of v xs)) l c
  pos_lines v l c location b xs = lines_add v l c location b pos refl add_pos xs

  pub minus_lines :
      (v l : ℕ) (c : Bucket) (location : ℕ) (b : Bucket) (xs : List A)
      → sum_ℤ (line_share v l c location b minus) xs ≡ share location b (minus (pieces_of v xs)) l c
  minus_lines v l c location b xs = lines_add v l c location b minus minus_zero add_minus xs
