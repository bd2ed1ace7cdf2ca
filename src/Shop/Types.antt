-- ===== src/Shop/Types.antt =====
-- The rows that the materializers of sales, orders and stock read and write, with the columns that
-- they read or write; a row id is a number, for the generated uuid.
use tatuzin.Prelude.{ℕ, String, Bool, Option, List}
use tatuzin.Prelude.Int.{ℤ}
use tatuzin.Payload.Json.{Fields}

pub record Sale : Type 0 where
  pub id : ℕ
  pub company_id : String
  pub cash_session_id : Option ℕ
  pub local_uuid : String
  pub customer_id : Option ℕ
  pub receipt_number : Option String
  pub payment_type : String
  pub payment_method : String
  pub status : String
  pub total_amount_cents : ℤ
  pub total_cost_cents : ℤ
  pub sold_at : ℤ
  pub notes : Option String

pub record SaleItem : Type 0 where
  pub id : ℕ
  pub sale_id : ℕ
  pub local_uuid : String
  pub product_id : ℕ
  pub product_name_snapshot : String
  pub quantity_mil : ℤ
  pub unit_price_cents : ℤ
  pub total_price_cents : ℤ
  pub unit_cost_cents : ℤ
  pub total_cost_cents : ℤ
  pub unit_measure : Option String
  pub product_type : Option String

-- FinancialEvent, without its metadata
pub record FinancialEvent : Type 0 where
  pub id : ℕ
  pub company_id : String
  pub sale_id : ℕ
  pub event_type : String
  pub local_uuid : String
  pub amount_cents : ℤ
  pub payment_type : Option String
  pub created_at : ℤ

pub record Order : Type 0 where
  pub id : ℕ
  pub company_id : String
  pub local_uuid : String
  pub cash_session_id : Option ℕ
  pub customer_id : Option ℕ
  pub seller_user_id : Option String
  pub device_id : Option String
  pub status : String
  pub subtotal_cents : ℤ
  pub discount_cents : ℤ
  pub total_cents : ℤ
  pub notes : Option String
  pub closed_at : Option ℤ
  pub cancelled_at : Option ℤ
  pub converted_sale_id : Option ℕ
  pub last_local_sequence : Option ℤ
  pub created_at : ℤ

pub record OrderItem : Type 0 where
  pub id : ℕ
  pub company_id : String
  pub operational_order_id : ℕ
  pub local_uuid : String
  pub product_id : Option ℕ
  pub product_variant_id : Option ℕ
  pub description : String
  pub quantity_mil : ℤ
  pub unit_price_cents : ℤ
  pub total_cents : ℤ
  pub created_at : ℤ

pub record Reservation : Type 0 where
  pub id : ℕ
  pub company_id : String
  pub sale_id : Option ℕ
  pub product_id : ℕ
  pub product_variant_id : Option ℕ
  pub local_uuid : String
  pub quantity_mil : ℤ
  pub status : String
  pub payload : Fields
  pub created_at : ℤ

pub record Deduction : Type 0 where
  pub id : ℕ
  pub company_id : String
  pub sale_id : Option ℕ
  pub product_id : ℕ
  pub product_variant_id : Option ℕ
  pub local_uuid : String
  pub quantity_mil : ℕ
  pub payload : Fields
  pub created_at : ℤ

-- `is_deleted` is `deletedAt != null`.
pub record Product : Type 0 where
  pub id : ℕ
  pub company_id : String
  pub is_deleted : Bool
  pub stock_mil : ℤ

pub record Variant : Type 0 where
  pub id : ℕ
  pub product_id : ℕ
  pub is_active : Bool
  pub stock_mil : ℤ

pub record Customer : Type 0 where
  pub id : ℕ
  pub company_id : String
  pub is_deleted : Bool

pub record ShopTables : Type 0 where
  pub sales : List Sale
  pub sale_items : List SaleItem
  pub financial_events : List FinancialEvent
  pub orders : List Order
  pub order_items : List OrderItem
  pub reservations : List Reservation
  pub deductions : List Deduction
  pub products : List Product
  pub variants : List Variant
  pub customers : List Customer
  pub next_id : ℕ
