-- ===== src/Lib.antt =====
-- The operational sync of Tatuzin's backend, a point-of-sale server for several tenants.
--
-- Devices work offline and push batches of events; the server numbers what it publishes for a
-- tenant with one counter, and devices pull what came after the version that they have. The parts
-- and the files that model them:
--
-- - Payload: JSON payloads, and the readers of
--   backend/src/modules/sync/materializers/payload-utils.ts (Payload/Read, Payload/Identity;
--   their laws in Payload/Laws).
-- - Exec: an asynchronous method that writes to the database and may throw is an action on a
--   state, `Exec S A`. What was written before an exception stays written, except in a
--   transaction, which is rolled back. Exec/Keeps and Exec/Ensures hold the rules for invariants.
-- - Sync/Types, Sync/Tables: the rows of backend/prisma/schema.prisma that the sync owns, in one
--   `Store D`, and the writes to them (sync-version.service.ts, sync-checkpoint.service.ts, the
--   creations of rows). `D` is the state of the tables that only the materializers write.
-- - Sync/Schema: the push schemas of sync.schemas.ts.
-- - Sync/Event, Sync/Process, Sync/Stored, Sync/Push, Sync/Pull: sync-event.service.ts. Each
--   method is one definition of the same name in snake_case: `push`, `normalize_event`,
--   `process_event` with `settle` for the branches of its transaction, `reject_malformed_event`,
--   `reprocess_conflict`, `materialize_stored_event`, `pull`, `get_status`.
-- - Sync/Conflicts: sync-conflict.service.ts.
-- - Sync/Numbering: the invariant on versions and ids, and that every write keeps it; Sync/Order:
--   the order of a page.
-- - Cash: the materializers cash-session.materializer.ts and cash-movement.materializer.ts, and
--   sync-authorization.ts, on the tables of cash sessions and movements; Cash/Dispatch:
--   sync-materializer.service.ts.
-- - Shop: the materializers of sales, payments, receipts, stock and operational orders
--   (sale.materializer.ts, payment.materializer.ts, receipt.materializer.ts,
--   stock.materializer.ts, operational-order.materializer.ts) on the tables of Shop/Types;
--   Shop/Lookup has their lookups, Shop/Dispatch joins them with the cash materializers to the
--   whole service. Shop/Steps is the relation of the guarded writes that they make, with a Step
--   module per materializer; an invariant is shown for each step of the relation, and
--   Shop/Dispatch/Keeps lifts it to a push.
-- - Account: what a tenant may use. Account/Plans is
--   backend/src/modules/plans/plan-catalog.service.ts, Account/Permissions is
--   employee-permissions.ts of backend/src/modules/employees, Account/Devices is
--   company-device.service.ts of backend/src/modules/app, which reads the limit of the plan,
--   Account/Deletion the transactions of quarantineRequest and cancelQuarantine of
--   backend/src/modules/tenant-deletion/tenant-deletion.service.ts, without the audit events that
--   they write; the other operations of that service are not modelled.
-- - Tests: each theorem with hypotheses applied at a concrete input.
--
-- The event service calls the materializers through the interface `Materializer D` (Sync/Types):
-- a materializer reads the stored events, writes only its own tables, answers an `Outcome` or
-- throws. The theorems on pushes hold for every such interface. Cash/Dispatch joins the
-- materializers to the interface: the cash ones, and handlers that Shop/Dispatch fills.
--
-- Parameters: `Runtime` gives the built-ins of ECMAScript on texts, numbers and dates;
-- `is_datetime` is the schema library's test of a date text; a row id is a counter in place of
-- the generated uuid, with `text_of_id` for its spelling in Cash and Shop. A request reads the
-- clock once, in the context. A date text that passed the schema is taken to parse. The database
-- refuses a second row under the unique key (companyId, deviceId, eventId), and a second order
-- with the sale of another (convertedSaleId). A findFirst that names no order takes the first row
-- in the order of creation. Requests run one after the other. The range of the database's integer
-- columns is not modelled, apart from the check that the code makes itself; nor is the rounding
-- of a product of a price and a quantity to a double, which is exact while the total stays below
-- 2^43 cents.
--
-- No definition runs on fuel: loops are recursion on lists.
--
-- Not modelled: the texts of messages and the details in them; the projections of a pull, which
-- read domain tables and add an incident where one fails; the metadata of a payment; the other
-- modules of the backend, and the client applications.
pub mod Prelude
pub mod Payload
pub mod Exec
pub mod Sync
pub mod Cash
pub mod Shop
pub mod Account
pub mod Tests
