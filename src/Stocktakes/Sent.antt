-- ===== src/Stocktakes/Sent.antt =====
-- The lines that a request sends (stocktake.service.ts): `normalizeItems` keeps the last one of each
-- variant.
use mathlib.Core.Path.{subst}
use multi_warehouse_manageme.Prelude.{
  ℕ, ◌≡◌, refl, ap, sym, ◌∙◌, Bool, true, false, ◌==◌, if◌then◌else◌, Option, none, some, List, [],
  ◌∷◌, map, arith, Bool-cases, Option-cases, inl, inr, eq_of_==,
}
use multi_warehouse_manageme.Prelude.Table.{Misses, HasUniqueKeys}
use multi_warehouse_manageme.Inventory.Locking.{first_some}
use multi_warehouse_manageme.Stocktakes.Service.{
  StocktakeItemDto, set_item, normalize_from, contains,
}

-- What a request says of a variant: of several lines the last one.
abbrev pub last_sent : ℕ → List StocktakeItemDto → Option StocktakeItemDto
last_sent v [] = none
last_sent v (i ∷ is) = first_some (last_sent v is) (if i.variant_id == v then some i else none)

Misses-last :
    (v : ℕ) (js : List StocktakeItemDto)
    → Misses StocktakeItemDto.variant_id v js
    → last_sent v js ≡ none
Misses-last v [] m = refl
Misses-last v (j ∷ js) m = rw (m.0, Misses-last v js m.1)

set-Misses :
    (w : ℕ) (i : StocktakeItemDto) (js : List StocktakeItemDto)
    → Misses StocktakeItemDto.variant_id w js
    → (i.variant_id == w) ≡ false
    → Misses StocktakeItemDto.variant_id w (set_item i js)
unfolding set_item
set-Misses w i [] m h = (h, tt)
set-Misses w i (j ∷ js) m h = elim (Bool-cases (j.variant_id == i.variant_id)) [
  | inl same ↦ rw same (h, m.1)
  | inr other ↦ rw other (m.0, set-Misses w i js m.1 h)
]

set-HasUniqueKeys :
    (i : StocktakeItemDto) (js : List StocktakeItemDto)
    → HasUniqueKeys StocktakeItemDto.variant_id js
    → HasUniqueKeys StocktakeItemDto.variant_id (set_item i js)
unfolding set_item
set-HasUniqueKeys i [] k = (tt, tt)
set-HasUniqueKeys i (j ∷ js) k = elim (Bool-cases (j.variant_id == i.variant_id)) [
  | inl same ↦ rw same (
    subst (λ w. Misses StocktakeItemDto.variant_id w js) (eq_of_== j.variant_id i.variant_id same)
        k.0,
    k.1,
  )
  | inr other ↦
      rw other (set-Misses j.variant_id i js k.0 (ground arith), set-HasUniqueKeys i js k.1)
]

last-set :
    (v : ℕ) (i : StocktakeItemDto) (js : List StocktakeItemDto)
    → HasUniqueKeys StocktakeItemDto.variant_id js
    → last_sent v (set_item i js) ≡ (if i.variant_id == v then some i else last_sent v js)
unfolding set_item
last-set v i [] k = refl
last-set v i (j ∷ js) k = elim (Bool-cases (j.variant_id == i.variant_id)) [
  | inl same ↦ elim (Bool-cases (i.variant_id == v)) [
    | inl here ↦
        let is = eq_of_== j.variant_id i.variant_id same ∙ eq_of_== i.variant_id v here in
        let gone = Misses-last v js (subst (λ w. Misses StocktakeItemDto.variant_id w js) is k.0) in
        rw (same, here, gone)
    | inr there ↦
        let not_old : (j.variant_id == v) ≡ false = ground arith in rw (same, there, not_old)
  ]
  | inr other ↦ elim (Bool-cases (i.variant_id == v)) [
    | inl here ↦ rw (other, last-set v i js k.1, here)
    | inr there ↦ rw (other, last-set v i js k.1, there)
  ]
]

last-normalize :
    (v : ℕ) (acc items : List StocktakeItemDto)
    → HasUniqueKeys StocktakeItemDto.variant_id acc
    → last_sent v (normalize_from acc items) ≡ first_some (last_sent v items) (last_sent v acc)
unfolding normalize_from
last-normalize v acc [] k = refl
last-normalize v acc (i ∷ items) k =
    last-normalize v (set_item i acc) items (set-HasUniqueKeys i acc k)
    ∙ ap (first_some (last_sent v items)) (last-set v i acc k)
    ∙ over (last_sent v items) (i.variant_id == v) i (last_sent v acc)
  where
    over :
        (o : Option StocktakeItemDto) (b : Bool) (i : StocktakeItemDto)
        (p : Option StocktakeItemDto)
        → first_some o (if b then some i else p)
          ≡ first_some (first_some o (if b then some i else none)) p
    over none true i p = refl
    over none false i p = refl
    over (some j) b i p = refl

pub last-variant :
    (v : ℕ) (is : List StocktakeItemDto) (j : StocktakeItemDto)
    → last_sent v is ≡ some j
    → j.variant_id ≡ v
last-variant v [] j e = absurd (cc e)
last-variant v (i ∷ is) j e = elim (Option-cases (last_sent v is)) [
  | inl gone ↦ elim (Bool-cases (i.variant_id == v)) [
    | inl here ↦
        let is_i : i ≡ j = cc (rw (gone, here) at e) in
        ap StocktakeItemDto.variant_id (sym is_i) ∙ eq_of_== i.variant_id v here
    | inr there ↦ absurd (cc (rw (gone, there) at e))
  ]
  | inr (k, found) ↦
      let is_k : k ≡ j = cc (rw found at e) in last-variant v is j (found ∙ ap some is_k)
]

abbrev pub is_sent : Option StocktakeItemDto → Bool
is_sent none = false
is_sent (some _) = true

pub contains-sent :
    (v : ℕ) (js : List StocktakeItemDto)
    → contains v (map StocktakeItemDto.variant_id js) ≡ is_sent (last_sent v js)
contains-sent v [] = refl
contains-sent v (j ∷ js) = elim (Option-cases (last_sent v js)) [
  | inl gone ↦ elim (Bool-cases (j.variant_id == v)) [
    | inl here ↦ rw (gone, here)
    | inr there ↦ rw (gone, there) (contains-sent v js ∙ rw gone)
  ]
  | inr (k, found) ↦ elim (Bool-cases (j.variant_id == v)) [
    | inl here ↦ rw (found, here)
    | inr there ↦ rw (found, there) (contains-sent v js ∙ rw found)
  ]
]

or_none : (o : Option StocktakeItemDto) → first_some o none ≡ o
or_none none = refl
or_none (some i) = refl

-- What `normalizeItems` keeps of a request.
pub normalized-sent :
    (v : ℕ) (items : List StocktakeItemDto)
    → last_sent v (normalize_from [] items) ≡ last_sent v items
normalized-sent v items = last-normalize v [] items tt ∙ or_none (last_sent v items)
