-- ===== src/Orders/Ledger.antt =====
-- The books of the orders over any run of src/modules/orders/order.service.ts: `create`, `transition`
-- and `pay`, in any order and by any user.
use multi_warehouse_manageme.Prelude.{ℕ, ◌≡◌, Bool, Option}
use multi_warehouse_manageme.Prelude.Int.{ℤ}
use multi_warehouse_manageme.Prelude.Tx.{ok}
use multi_warehouse_manageme.Auth.{AuthUser}
use multi_warehouse_manageme.Orders.Types.{OrderDb}
use multi_warehouse_manageme.Orders.Pricing.{Catalog}
use multi_warehouse_manageme.Orders.Creating.{CreateOrderDto, create}
use multi_warehouse_manageme.Orders.Service.{OrderAction, transition, pay}
use multi_warehouse_manageme.Orders.Debts.{IsSound}
use multi_warehouse_manageme.Orders.Opening.{IsChecked, create-IsSound}
use multi_warehouse_manageme.Orders.Transitions.{transition-IsSound}
use multi_warehouse_manageme.Orders.Collecting.{pay-IsSound}

-- A request that succeeds; one that throws rolls back.
pub data Step : OrderDb → OrderDb → Type 0 where
  creates :
      {db db' : OrderDb} (cat : Catalog) (tax : ℤ → ℤ) (now generated : ℕ) (trusted : Bool)
      (dto : CreateOrderDto) (user : AuthUser) (u : Unit {0})
      → IsChecked dto
      → create cat tax now generated trusted dto user db ≡ ok (u, db')
      → Step db db'
  transits :
      {db db' : OrderDb} (now id : ℕ) (action : OrderAction) (user : AuthUser) (u : Unit {0})
      → transition now id action user db ≡ ok (u, db')
      → Step db db'
  pays :
      {db db' : OrderDb} (now : ℕ) (amount : Option ℤ) (id : ℕ) (user : AuthUser) (u : Unit {0})
      → pay now amount id user db ≡ ok (u, db')
      → Step db db'

pub data Run : OrderDb → OrderDb → Type 0 where
  start : {db : OrderDb} → Run db db
  then : {db mid db' : OrderDb} → Run db mid → Step mid db' → Run db db'

Step-IsSound : (base : ℕ → ℤ) {db db' : OrderDb} → Step db db' → IsSound base db → IsSound base db'
Step-IsSound base {db} {db'} (creates cat tax now generated trusted dto user u fine h) s =
    create-IsSound base cat tax now generated trusted dto user db db' u fine h s
Step-IsSound base {db} {db'} (transits now id action user u h) s =
    transition-IsSound base now id action user db db' u h s
Step-IsSound base {db} {db'} (pays now amount id user u h) s =
    pay-IsSound base now amount id user db db' u h s

-- Through any run of creations, transitions and payments that succeed, where no new order is asked
-- for with a negative deposit: if before it each customer's ledger sums to what the customer's orders
-- leave to pay (price less received, or less what has been received where the order is cancelled) over
-- some amount for that customer, and each order has received between zero and its price, then both
-- hold after it, with the same amounts.
pub Run-IsSound :
    (base : ℕ → ℤ) (db db' : OrderDb) → Run db db' → IsSound base db → IsSound base db'
Run-IsSound base db db' start s = s
Run-IsSound base db db' (then {mid = mid} r step) s =
    Step-IsSound base step (Run-IsSound base db mid r s)
