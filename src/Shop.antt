-- ===== src/Shop.antt =====
-- The sales, orders and stock that the sync materializes: the models Sale, SaleItem,
-- FinancialEvent, OperationalOrder, OperationalOrderItem, StockReservation, StockDeduction, Product
-- and ProductVariant of backend/prisma/schema.prisma, and the materializers of
-- backend/src/modules/sync/materializers that write them.
pub mod Types
pub mod Lookup
pub mod Orders
pub mod OrderItems
pub mod Sales
pub mod SaleItems
pub mod Payments
pub mod Stock
pub mod Reservations
pub mod Deductions
pub mod Dispatch
pub mod Steps
pub mod Keyed
