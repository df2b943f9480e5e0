-- ===== src/Stocktakes/Editing.antt =====
-- The lines of a stocktake after `update` (stocktake.service.ts).
use multi_warehouse_manageme.Prelude.{
  ℕ, ◌≡◌, refl, ap, sym, ◌∙◌, true, false, ◌==◌, if◌then◌else◌, Option, none, some, List, [], ◌∷◌,
  map, filter, arith, Bool-cases, Option-cases, inl, inr, eq_of_==,
}
use multi_warehouse_manageme.Prelude.Tx.{ok}
use multi_warehouse_manageme.Prelude.Table.{find_row, find_row-update, update_row}
use multi_warehouse_manageme.Auth.{AuthUser, assert_location_permission}
use multi_warehouse_manageme.Inventory.Store.{Stock}
use multi_warehouse_manageme.Inventory.Levels.{level_at}
use multi_warehouse_manageme.Stocktakes.Service.{
  Stocktake, StocktakeItem, StocktakeItemDto, StocktakeDb, normalize_from, normalize_items,
  upsert_item, upsert_items, edited_items, contains, update, assert_editable,
}
use multi_warehouse_manageme.Stocktakes.Sent.{
  last_sent, last-variant, is_sent, contains-sent, normalized-sent,
}

abbrev pub line_of : ℕ → List StocktakeItem → Option StocktakeItem
line_of = find_row StocktakeItem.variant_id

-- A line that is sent: one that is there keeps what it says of the system's quantity, and a new one
-- takes it from the stock.
abbrev pub counted_line : ℕ → Stock → Option StocktakeItem → StocktakeItemDto → StocktakeItem
counted_line l s none i = record {
  variant_id = i.variant_id;
  system_quantity = (level_at i.variant_id l s).on_hand;
  counted_quantity = i.counted_quantity;
}
counted_line l s (some x) i = record x { counted_quantity = i.counted_quantity }

abbrev pub line_after :
    ℕ → Stock → Option StocktakeItem → Option StocktakeItemDto → Option StocktakeItem
line_after l s old none = none
line_after l s old (some i) = some (counted_line l s old i)

-- An upsert, seen from a line.
abbrev line_upserted :
    ℕ → Stock → Option StocktakeItem → Option StocktakeItemDto → Option StocktakeItem
line_upserted l s old none = old
line_upserted l s old (some i) = some (counted_line l s old i)

line-upsert :
    (v l : ℕ) (s : Stock) (i : StocktakeItemDto) (xs : List StocktakeItem)
    → line_of v (upsert_item l s i xs)
      ≡ (if i.variant_id == v then some (counted_line l s (line_of v xs) i) else line_of v xs)
unfolding upsert_item find_row
line-upsert v l s i [] = refl
line-upsert v l s i (x ∷ xs) = elim (Bool-cases (x.variant_id == i.variant_id)) [
  | inl same ↦ elim (Bool-cases (i.variant_id == v)) [
    | inl here ↦ let old : (x.variant_id == v) ≡ true = ground arith in rw (same, here, old)
    | inr there ↦ let old : (x.variant_id == v) ≡ false = ground arith in rw (same, there, old)
  ]
  | inr other ↦ elim (Bool-cases (i.variant_id == v)) [
    | inl here ↦
        let old : (x.variant_id == v) ≡ false = ground arith in
        rw (other, old, here) (line-upsert v l s i xs ∙ rw here)
    | inr there ↦ elim (Bool-cases (x.variant_id == v)) [
      | inl old ↦ rw (other, old, there)
      | inr new ↦ rw (other, new, there) (line-upsert v l s i xs ∙ rw there)
    ]
  ]
]

upsert_again :
    (v l : ℕ) (s : Stock) (old : Option StocktakeItem) (i j : StocktakeItemDto)
    → i.variant_id ≡ j.variant_id
    → counted_line l s (some (counted_line l s old i)) j ≡ counted_line l s old j
upsert_again v l s none i j e = rw e
upsert_again v l s (some x) i j e = refl

lines-upsert :
    (v l : ℕ) (s : Stock) (is : List StocktakeItemDto) (xs : List StocktakeItem)
    → line_of v (upsert_items l s is xs) ≡ line_upserted l s (line_of v xs) (last_sent v is)
unfolding upsert_items
lines-upsert v l s [] xs = refl
lines-upsert v l s (i ∷ is) xs =
    lines-upsert v l s is (upsert_item l s i xs)
    ∙ ap (λ o. line_upserted l s o (last_sent v is)) (line-upsert v l s i xs)
    ∙ elim (Option-cases (last_sent v is)) [
      | inl gone ↦ elim (Bool-cases (i.variant_id == v)) [
        | inl here ↦ rw (gone, here)
        | inr there ↦ rw (gone, there)
      ]
      | inr (j, found) ↦ elim (Bool-cases (i.variant_id == v)) [
        | inl here ↦
            rw (found, here)
              (ap some (
                upsert_again v l s (line_of v xs) i j
                  (eq_of_== i.variant_id v here ∙ sym (last-variant v is j found))))
        | inr there ↦ rw (found, there)
      ]
    ]

line-filter :
    (v : ℕ) (keep : List ℕ) (xs : List StocktakeItem)
    → line_of v (filter (λ x. contains x.variant_id keep) xs)
      ≡ (if contains v keep then line_of v xs else none)
unfolding find_row
line-filter v keep [] = elim (Bool-cases (contains v keep)) [ inl k ↦ rw k | inr k ↦ rw k ]
line-filter v keep (x ∷ xs) = elim (Bool-cases (x.variant_id == v)) [
  | inl here ↦
      let is : contains x.variant_id keep ≡ contains v keep =
        ap (λ w. contains w keep) (eq_of_== x.variant_id v here) in
      elim (Bool-cases (contains v keep)) [
        | inl k ↦ let kept : contains x.variant_id keep ≡ true = is ∙ k in rw (kept, here, k)
        | inr k ↦
            let dropped : contains x.variant_id keep ≡ false = is ∙ k in
            rw (dropped, k) (line-filter v keep xs ∙ rw k)
      ]
  | inr there ↦ elim (Bool-cases (contains x.variant_id keep)) [
    | inl kept ↦ rw (kept, there) (line-filter v keep xs)
    | inr dropped ↦ rw (dropped, there) (line-filter v keep xs)
  ]
]

kept_and_sent :
    (l : ℕ) (s : Stock) (old : Option StocktakeItem) (o : Option StocktakeItemDto)
    → line_upserted l s (if is_sent o then old else none) o ≡ line_after l s old o
kept_and_sent l s old none = refl
kept_and_sent l s old (some i) = refl

edited-line :
    (v l : ℕ) (s : Stock) (items : List StocktakeItemDto) (xs : List StocktakeItem)
    → line_of v (edited_items l s (some items) xs)
      ≡ line_after l s (line_of v xs) (last_sent v items)
unfolding edited_items normalize_items
edited-line v l s items xs =
    let sent = normalize_from [] items in
    let same = normalized-sent v items in
    lines-upsert v l s sent
      (filter (λ x. contains x.variant_id (map StocktakeItemDto.variant_id sent)) xs)
    ∙ ap (λ o. line_upserted l s o (last_sent v sent))
        (line-filter v (map StocktakeItemDto.variant_id sent) xs
          ∙ ap (λ b. if b then line_of v xs else none) (contains-sent v sent))
    ∙ kept_and_sent l s (line_of v xs) (last_sent v sent)
    ∙ ap (line_after l s (line_of v xs)) same

-- After an update that succeeds and sends lines, the stocktake has for each variant the line that was
-- sent, of several the last one, and no line for a variant that was not sent; a line that was there
-- keeps its system quantity and takes the count that is sent, and a new one takes its system quantity
-- from the stock on hand at the location.
pub update-lines :
    (id : ℕ) (items : List StocktakeItemDto) (user : AuthUser) (db db' : StocktakeDb) (u : Unit {0})
    (st : Stocktake) (v : ℕ)
    → find_row Stocktake.id id db.stocktakes ≡ some st
    → update id (some items) user db ≡ ok (u, db')
    → (st' : Stocktake) × (find_row Stocktake.id id db'.stocktakes ≡ some st')
      × (line_of v st'.items
          ≡ line_after st.location_id db.stock (line_of v st.items) (last_sent v items))
unfolding update assert_location_permission assert_editable
update-lines id items user db db' u st v found h =
    let f = λ (row : Stocktake). record row {
      items = edited_items st.location_id db.stock (some items) row.items;
    } in
    let updated : db'.stocktakes ≡ update_row Stocktake.id id f db.stocktakes = ground arith in
    (
      f st,
      ap (find_row Stocktake.id id) updated
          ∙ find_row-update Stocktake.id id f db.stocktakes st (λ x. refl) found,
      edited-line v st.location_id db.stock items st.items,
    )
