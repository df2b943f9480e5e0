-- ===== src/Prelude/Sums.antt =====
-- Sums of integers over lists, and loops that add to a measure of the state.
use mathlib.Core.Path.{◌≡◌, ap, sym, ◌∙◌}
use mathlib.Core.List.{List, [], ◌∷◌}
use multi_warehouse_manageme.Prelude.Int.{ℤ, pos, ◌+ℤ◌, int_laws, +ℤ_left_comm}
use multi_warehouse_manageme.Prelude.Tx.{Tx, ok, >>=-eq-ok, for_each}

abbrev pub sum_ℤ {ℓ} : {A : Type ℓ} → (A → ℤ) → List A → ℤ
sum_ℤ f [] = pos 0
sum_ℤ f (x ∷ xs) = f x +ℤ sum_ℤ f xs

zero_add : (a : ℤ) → a ≡ pos 0 +ℤ a
zero_add a = omega int_laws

-- If each round adds `e x` to a measure of the state, the loop adds their sum.
pub for_each-sum {ℓ κ} :
    {S : Type ℓ} {A : Type κ} (measure : S → ℤ) (e : A → ℤ) (body : A → Tx S (Unit {0}))
    → ((x : A) (s s' : S) (u : Unit {0}) → body x s ≡ ok (u, s') → measure s' ≡ e x +ℤ measure s)
    → (xs : List A) (s s' : S) (u : Unit {0}) → for_each body xs s ≡ ok (u, s')
    → measure s' ≡ sum_ℤ e xs +ℤ measure s
unfolding for_each
for_each-sum measure e body adds [] s s' u h =
    let same : s ≡ s' = cc in ap measure (sym same) ∙ zero_add (measure s)
for_each-sum measure e body adds (x ∷ xs) s s' u h =
    let (v, t, first, rest) = >>=-eq-ok (body x) (λ _. for_each body xs) s h in
    for_each-sum measure e body adds xs t s' u rest
    ∙ ap (λ y. sum_ℤ e xs +ℤ y) (adds x s t v first)
    ∙ +ℤ_left_comm (sum_ℤ e xs) (e x) (measure s)

regroup : (a b c d : ℤ) → a +ℤ b +ℤ (c +ℤ d) ≡ a +ℤ c +ℤ (b +ℤ d)
regroup a b c d = omega int_laws

pub sum_ℤ-add {ℓ} :
    {A : Type ℓ} (f g : A → ℤ) (xs : List A) → sum_ℤ (λ x. f x +ℤ g x) xs ≡ sum_ℤ f xs +ℤ sum_ℤ g xs
sum_ℤ-add f g [] = omega int_laws
sum_ℤ-add f g (x ∷ xs) =
    ap (λ y. f x +ℤ g x +ℤ y) (sum_ℤ-add f g xs) ∙ regroup (f x) (g x) (sum_ℤ f xs) (sum_ℤ g xs)
