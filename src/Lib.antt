-- ===== src/Lib.antt =====
-- The stock, receiving, payment, delivery, supplier-order, installation, completion and access rules
-- of the back end (a NestJS service over a database that Prisma reaches).
--
-- Parts and where they come from:
--   Base: Boolean tests on natural numbers, lists by index, and integers as differences.
--   Domain: the enums of prisma/schema.prisma, compared by their position.
--   Store: the database. Rows has the tables' rows, Monad what a service method is (an action that
--     returns or throws), Keeps the rules for properties that an action preserves, Reads those for
--     checks that come before a transaction.
--   Inventory.Stock: reservations in src/modules/inventory/inventory.service.ts: reserveStock,
--     releaseReservation, releaseExpiredReservations, commitReservation.
--   Inventory.Receipts: createExpectedReceipt, updateWarehousePurchase, cancelWarehousePurchase.
--   Inventory.Receiving: processReceipt, which counts goods in, raises the balances and serves the
--     orders that wait for stock by reserveStock.
--   Deals: src/modules/deals/deal-completion.rules.ts (evaluateDealCompletion) and
--     deal-completion.service.ts (tryFinalize), which payments, deliveries and installations call.
--   Deals.Installations: src/modules/deals/deal-installation.service.ts: the dates, the assessment and the
--     supervisor's confirmation, which calls tryFinalize. Outcomes has the scheduling, Supervision and
--     Kept what becomes of a confirmation.
--   Orders: cancelOrder and addPayment of src/modules/orders/orders.service.ts, and the task that
--     cancels orders unpaid for three days (src/modules/inventory/tasks/reserve-ttl.task.ts).
--   Orders.Payments: confirmPayment, the accountant's answer to a pending payment. Accounted states the
--     books of an order, Confirm follows the transaction and Answer the whole call.
--   Orders.Deliveries: createDelivery. Items is about the rows that a request names, Within about
--     the room that they have left, Frame about what follows, Outcome about the whole call.
--   Orders.Closed: the users' calls on orders that are shipped, cancelled or completed.
--   SupplierOrders: src/modules/supplier-orders/supplier-orders.service.ts. Table has the abstract status
--     machine, Status the operations that move a status (which call tryFinalize of Deals), Dates the
--     creation and the planned dates, Reminders the daily reminders, History any sequence of calls.
--   Access: src/common/enums/role.enum.ts, order-policy.service.ts and deal-policy.service.ts; Matrix
--     is src/auth/rbac/permission-matrix.ts and Synchronize is synchronize-rbac.ts, which stores it.
--
-- How the code is read. A method is a function from the database to a result and a database; an
-- exception keeps what was written before it, as inside a Prisma transaction whose caller catches it,
-- and `transaction` takes it back. The guarded `updateMany` calls return the number of rows that they
-- changed. A round of a reservation loop is split after its read, so that a theorem can give the
-- writing half any row another client may have left.
--
-- Numbers. Quantities and amounts are whole numbers of a small unit, signed where the code subtracts
-- without a guard; a tolerance of Number.EPSILON, which absorbs float noise, is then zero. Ids are the
-- positions of rows, since nothing modelled deletes one; a balance is found by its product. Times are
-- milliseconds and `new Date()` is the database's `now`. Every loop is over a list that was read
-- before it starts, so there is no fuel.
--
-- Not modelled: texts of messages, `updatedAt`, read-only queries, the HTTP layer, and the other
-- services (the other order operations, deal stages, quotes, leads, panels, tasks,
-- reports, login, integrations).
pub mod Base
pub mod Domain
pub mod Store
pub mod Access
pub mod Inventory
pub mod Deals
pub mod Orders
pub mod SupplierOrders
