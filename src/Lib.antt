-- ===== src/Lib.antt =====
-- The stock of a warehouse back end (NestJS over PostgreSQL): what its services promise, and that
-- they keep it.
--
-- The parts and how they interact. The inventory service (src/modules/inventory) keeps one row of
-- counters for each variant at each location and a ledger of movements. The documents (stock transfers,
-- goods receipts, purchase returns and others) go through their lines in lock order and post movements
-- to it, each handler in one transaction. All modelled changes of stock go through it;
-- src/modules/channels/sapo/sapo-inventory-sync.service.ts, which overwrites the counters by its own
-- SQL, is not modelled.
--
-- - Prelude: Boolean tests, lists, signed integers, sums, and the transaction `Tx`, a step on the
--   stored state that returns a result or throws. What throws rolls back.
-- - Auth: the permission checks of src/common/auth/access.ts.
-- - Inventory: Types is inventory.types.ts, Store the two tables behind inventory.repository.ts,
--   Service inventory.service.ts and the loop of reconcile.service.ts. Levels, Steps, Single and
--   Effect say what one movement and one batch do to the counters; Ledger and Reconcile are about
--   the ledger, Bounds about the guards, Adjust about `adjustOnHandTo`, Locking about
--   `sortForLocking`. Refinement has the specification of the service, on the counters alone.
-- - Transfers: Types and Service are src/modules/transfers/stock-transfer.service.ts; Postings and
--   Totals add up what its handlers post, Rows says which row they update, Journey follows a
--   transfer through its life, and Overlapping is about two requests to receive it.
-- - AgedInventory: Calc is `fifoLayers` of src/modules/aged-inventory/aged-inventory.calc.ts, Newest
--   the order in which it goes through the receipts, and Layers what its layers add up to.
-- - Orders: RefundStatus is src/modules/orders/order-refund-status.ts, on what it reads from the
--   tables, and Restocking is about its statuses. Pricing, Creating and Service are
--   src/modules/orders/order.service.ts with order-pricing.ts and order-completion.ts: `create`,
--   `transition` and `pay`; what `create` reads of products and prices is an argument. Debts,
--   Cancelling, Transitions, Collecting, Opening and Ledger hold them to the customers' ledger, and
--   Stocking is about the stock, with Outstanding on what has come back.
-- - Orders.Types are the tables of orders and fulfillments, Refunds reads what an order's refunds add
--   up to, and Posting is the loop that posts movements for each item of an order. Fulfillments:
--   Service and Shipping are src/modules/fulfillments/fulfillment.service.ts, Paths the search of
--   carriers/carrier-adapter.ts, with fuel for more rounds than there are statuses. Whereabouts says
--   what a package's row means for the stock; Accounting, Effects, Fits, Guards, Opening, Pushing and
--   Runs hold the handlers to it, and Reaching is about the search. The answers of carriers and of their
--   price lists are arguments.
-- - Purchasing: Types are the tables of src/modules/purchasing; Orders, Receipts (with Payments) and
--   Returns are its three services. Books, Payables, SentBack, Untouched and Accounts hold the
--   supplier ledger against the documents, Arrivals, Announced and Returned are about what receipts,
--   orders and returns do to the stock, Paying is about `pay`, Received about what a receipt writes to
--   the lines of its orders, and Remaining about its check against them.
-- - Stocktakes: Service is src/modules/stocktakes/stocktake.service.ts, Sent and Editing are about
--   the lines that `update` leaves, Counting says what a balanced stocktake leaves, and Overlapping is
--   about two requests to balance it.
--
-- Conventions. Ids are natural numbers. Quantities of stock are integers without bound; the `Int`
-- columns of the database refuse what does not fit in 32 bits, which is not modelled. Prices are
-- integers of hundredths. A table is a list of rows. The texts of the messages are left out, and an
-- exception is its code.
--
-- Requests that overlap. A transaction is one step. For the movements of stock this is what the code sees
-- to, since the inventory service locks each level before it reads it; other reads, such as those of the
-- lines of purchase orders in the confirmation of a receipt, of the stock in a check of what is available
-- and in the difference that a stocktake records, take no lock, and what another transaction writes
-- meanwhile is not modelled. Most handlers also read their document before their transaction, and do not
-- read it again inside. A handler here is its checks and then its transaction, with nothing between, so
-- that theorems about handlers are about requests that follow one another. The two parts are also
-- definitions of their own for `receive` of a transfer and `balance` of a stocktake (`check_receive` and
-- `receive_tx`, `check_balance` and `balance_tx`), and the two modules Overlapping put the checks of two
-- requests before both their transactions.
--
-- Not modelled: controllers, DTO validation, serializers, listings and notifications, which post
-- neither stock nor debts; the editing of an order and the return documents (src/modules/order-returns),
-- so that the debts are followed through creations, transitions and payments alone; the synchronisation
-- with the sales channels and the carriers' webhooks, which call services outside the repository; and
-- products, price lists, customers, suppliers, tokens and reports. Debt adjustments and the payment of
-- several documents at once (src/modules/suppliers/supplier.service.ts,
-- src/modules/customers/customer-debt.service.ts) write to the ledgers directly, so that the ledgers
-- are followed through the modelled services alone, over an amount for each partner.
pub mod Prelude
pub mod Auth
pub mod Inventory
pub mod Transfers
pub mod AgedInventory
pub mod Fulfillments
pub mod Orders
pub mod Purchasing
pub mod Stocktakes
