-- ===== src/Prelude/Tx.antt =====
-- The database transaction: a step on the stored state which returns a result, or throws. What
-- throws rolls back, so no state comes with an error.
use mathlib.Core.Path.{◌≡◌, refl, subst}
use mathlib.Core.Logic.{◌⊎◌, inl, inr}
use mathlib.Core.Bool.{Bool, true, false}
use mathlib.Core.Option.{Option, none, some}
use mathlib.Core.List.{List, [], ◌∷◌}

-- The codes of `BusinessException`, Nest's exceptions, and the plain `Error`s that are thrown.
pub data Error : Type 0 where
  insufficient_stock invalid_transition validation_error same_warehouse : Error
  forbidden_scope not_found record_not_found empty_batch mixed_batch : Error
  stocktake_empty stocktake_nothing_counted stocktake_blocked_by_committed : Error
  stocktake_already_balanced stocktake_cancelled : Error
  incoming_exceeds_po return_exceeds_receipt : Error
  missing_warehouse duplicate_code price_override_forbidden : Error

pub data Result {ℓ} (A : Type ℓ) : Type ℓ where
  ok : A → Result A
  err : Error → Result A

abbrev pub Tx {ℓ κ} : Type ℓ → Type κ → Type (ℓ ⊔ κ)
Tx S A = S → Result (A × S)

infixl 5 ◌>>=◌ ◌>>◌
abbrev pub ◌>>=◌ {ℓ κ μ} : {S : Type ℓ} {A : Type κ} {B : Type μ} → Tx S A → (A → Tx S B) → Tx S B
◌>>=◌ m f s = elim (m s) [ ok (a, s') ↦ f a s' | err e ↦ err e ]

abbrev pub ◌>>◌ {ℓ κ μ} : {S : Type ℓ} {A : Type κ} {B : Type μ} → Tx S A → Tx S B → Tx S B
m >> k = m >>= λ _. k

abbrev pub return {ℓ κ} : {S : Type ℓ} {A : Type κ} → A → Tx S A
return a s = ok (a, s)

abbrev pub throw {ℓ κ} : {S : Type ℓ} {A : Type κ} → Error → Tx S A
throw e s = err e

-- `if (c) throw e`
abbrev pub throw_if {ℓ} : {S : Type ℓ} → Bool → Error → Tx S (Unit {0})
throw_if true e s = err e
throw_if false e s = ok (tt, s)

-- What a pure check decides, inside the transaction.
abbrev pub lift {ℓ κ} : {S : Type ℓ} {A : Type κ} → Result A → Tx S A
lift (ok a) s = ok (a, s)
lift (err e) s = err e

abbrev pub or_throw {ℓ κ} : {S : Type ℓ} {A : Type κ} → Option A → Error → Tx S A
or_throw none e s = err e
or_throw (some a) e s = ok (a, s)

abbrev pub gets {ℓ κ} : {S : Type ℓ} {A : Type κ} → (S → A) → Tx S A
gets f s = ok (f s, s)

abbrev pub modify {ℓ} : {S : Type ℓ} → (S → S) → Tx S (Unit {0})
modify f s = ok (tt, f s)

-- `for (const x of xs) await body(x)`
unfoldable pub for_each {ℓ κ} :
    {S : Type ℓ} {A : Type κ} → (A → Tx S (Unit {0})) → List A → Tx S (Unit {0})
for_each body [] s = ok (tt, s)
for_each body (x ∷ xs) s = elim (body x s) [ ok (_, s') ↦ for_each body xs s' | err e ↦ err e ]

-- The state after a transaction: one that throws is rolled back.
abbrev pub settle {ℓ κ} : {S : Type ℓ} {A : Type κ} → S → Result (A × S) → S
settle s (ok (_, t)) = t
settle s (err _) = s

-- To split on a result and keep the equation.
pub Result-cases {ℓ} :
    {A : Type ℓ} (r : Result A) → ((a : A) × (r ≡ ok a)) ⊎ ((e : Error) × (r ≡ err e))
Result-cases (ok a) = inl (a, refl)
Result-cases (err e) = inr (e, refl)

-- Inversion of a successful step.
pub >>=-eq-ok {ℓ κ μ} :
    {S : Type ℓ} {A : Type κ} {B : Type μ} (m : Tx S A) (f : A → Tx S B) (s : S) {r : B × S}
    → (m >>= f) s ≡ ok r
    → (a : A) × (s' : S) × (m s ≡ ok (a, s')) × (f a s' ≡ ok r)
>>=-eq-ok m f s h = elim (Result-cases (m s)) [
  | inl (a, e) ↦ (a.0, a.1, e, rw (e, ◌>>=◌) at h)
  | inr (x, e) ↦ absurd (cc (rw (e, ◌>>=◌) at h))
]

pub for_each-cons {ℓ κ} :
    {S : Type ℓ} {A : Type κ} (body : A → Tx S (Unit {0})) (x : A) (xs : List A) (s : S)
    → for_each body (x ∷ xs) s ≡ (body x >> for_each body xs) s
unfolding for_each
for_each-cons body x xs s = refl

-- A predicate that every round keeps, holds after the loop.
pub for_each-keeps {ℓ κ μ} :
    {S : Type ℓ} {A : Type κ} (P : S → Type μ) (body : A → Tx S (Unit {0}))
    → ((x : A) (s s' : S) (u : Unit {0}) → P s → body x s ≡ ok (u, s') → P s')
    → (xs : List A) (s s' : S) (u : Unit {0}) → P s
    → for_each body xs s ≡ ok (u, s')
    → P s'
unfolding for_each
for_each-keeps P body keep [] s s' u p e = subst P (cc) p
for_each-keeps P body keep (x ∷ xs) s s' u p e =
    let (v, t, e₁, e₂) = >>=-eq-ok (body x) (λ _. for_each body xs) s e in
    for_each-keeps P body keep xs t s' u (keep x s t v p e₁) e₂

-- Inversion of a guard that has passed.
pub throw_if-passes {ℓ κ} :
    {S : Type ℓ} {B : Type κ} (b : Bool) (e : Error) (m : Tx S B) (s : S) {r : B × S}
    → (throw_if b e >> m) s ≡ ok r
    → (b ≡ false) × (m s ≡ ok r)
throw_if-passes true e m s h = absurd (cc h)
throw_if-passes false e m s h = (refl, h)

-- What a bind computes to.
pub >>=-ok {ℓ κ μ} :
    {S : Type ℓ} {A : Type κ} {B : Type μ} (m : Tx S A) (f : A → Tx S B) (s t : S) (a : A)
    → m s ≡ ok (a, t)
    → (m >>= f) s ≡ f a t
>>=-ok m f s t a h = rw (h, ◌>>=◌)

pub >>=-err {ℓ κ μ} :
    {S : Type ℓ} {A : Type κ} {B : Type μ} (m : Tx S A) (f : A → Tx S B) (s : S) (e : Error)
    → m s ≡ err e
    → (m >>= f) s ≡ err e
>>=-err m f s e h = rw (h, ◌>>=◌)

-- A step that reads the state and writes nothing.
abbrev pub Reads {ℓ κ} : {S : Type ℓ} {A : Type κ} → Tx S A → Type (ℓ ⊔ κ)
Reads {S} {A} m = (s s' : S) (x : A) → m s ≡ ok (x, s') → s' ≡ s

pub after_reading {ℓ κ μ} :
    {S : Type ℓ} {A : Type κ} {B : Type μ} (m : Tx S A) (k : A → Tx S B) (s : S) {r : B × S}
    → Reads m
    → (m >>= k) s ≡ ok r
    → (x : A) × (m s ≡ ok (x, s)) × (k x s ≡ ok r)
after_reading m k s {r} reads h =
    let (x, s₁, first, rest) = >>=-eq-ok m k s h in
    let same = reads s s₁ x first in
    (x, subst (λ d. m s ≡ ok (x, d)) same first, subst (λ d. k x d ≡ ok r) same rest)
