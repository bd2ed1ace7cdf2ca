-- ===== src/Shop/Steps.antt =====
-- The writes that the materializers of the shop make, each with what their guards have made sure of:
-- the step relation of the tables.
use tatuzin.Prelude.{
  ℕ, String, ◌≡◌, refl, Bool, true, false, none, some, ◌==◌, ◌&&◌, nat_eq, get_or, Option, is_some,
  find?, if◌then◌else◌,
}
use tatuzin.Prelude.Int.{pos, ltb_ℤ}
use tatuzin.Payload.Json.{Fields}
use tatuzin.Exec.{Exec, Result}
use tatuzin.Sync.Types.{Context, Outcome}
use tatuzin.Shop.Types.{
  Sale, SaleItem, FinancialEvent, Order, OrderItem, Reservation, Deduction, ShopTables,
}
use tatuzin.Shop.Lookup.Found.{IsIn}
use tatuzin.Shop.Orders.{is_immutable, is_canceled, is_later, add_order, change_order}
use tatuzin.Shop.OrderItems.{add_item, change_item}
use tatuzin.Shop.Sales.{same_id, has_conflict, is_taken, converted, add_sale, receipt_owner}
use tatuzin.Shop.SaleItems.{add_sale_item}
use tatuzin.Shop.Payments.{add_payment, set_receipt, is_payment}
use tatuzin.Shop.Stock.{
  StockTarget, of_variant, of_product, stock_of, product_of, variant_of, decrement,
}
use tatuzin.Shop.Reservations.{add_reservation, change_reservation}
use tatuzin.Shop.Deductions.{add_deduction}

abbrev pub is_order : String → String → Order → Bool
is_order company uuid o = o.company_id == company && o.local_uuid == uuid

abbrev pub is_sale : String → String → Sale → Bool
is_sale company uuid x = x.company_id == company && x.local_uuid == uuid

abbrev pub is_deduction : String → String → Deduction → Bool
is_deduction company uuid x = x.company_id == company && x.local_uuid == uuid

abbrev pub is_item : String → String → OrderItem → Bool
is_item company uuid x = x.company_id == company && x.local_uuid == uuid

abbrev pub is_sale_item : ℕ → String → SaleItem → Bool
is_sale_item sale uuid x = nat_eq x.sale_id sale && x.local_uuid == uuid

abbrev pub is_reservation : String → String → Reservation → Bool
is_reservation company uuid x = x.company_id == company && x.local_uuid == uuid

-- An order that may become another row: it has no sale and is not marked as converted, a canceled
-- one is not opened again, and its sequence does not go back.
pub record IsOpenFor (o p : Order) : Type 0 where
  pub converted_sale_id : o.converted_sale_id ≡ none
  pub status : (o.status == "converted") ≡ false
  pub not_opened : (is_canceled o && p.status == "open") ≡ false
  pub in_order : is_later o.last_local_sequence p.last_local_sequence ≡ false

-- What an update of an order leaves as it was.
pub record KeepsOrder (f : Order → Order) : Type 0 where
  pub id : (o : Order) → (f o).id ≡ o.id
  pub company_id : (o : Order) → (f o).company_id ≡ o.company_id
  pub local_uuid : (o : Order) → (f o).local_uuid ≡ o.local_uuid
  pub converted_sale_id : (o : Order) → (f o).converted_sale_id ≡ o.converted_sale_id
  pub cancelled_at : (o : Order) → is_some o.cancelled_at ≡ true → is_some (f o).cancelled_at ≡ true

-- A new order of the tenant.
pub record IsNewOrder (ctx : Context) (s : ShopTables) (o : Order) : Type 0 where
  pub id : o.id ≡ s.next_id
  pub company_id : o.company_id ≡ ctx.company_id
  pub converted_sale_id : o.converted_sale_id ≡ none
  pub absent : find? (is_order ctx.company_id o.local_uuid) s.orders ≡ none

-- A new sale of the tenant, under a key and with a receipt number that had no sale.
pub record IsNewSale (ctx : Context) (s : ShopTables) (x : Sale) : Type 0 where
  pub id : x.id ≡ s.next_id
  pub company_id : x.company_id ≡ ctx.company_id
  pub absent : find? (is_sale ctx.company_id x.local_uuid) s.sales ≡ none
  pub receipt :
      (number : String)
      → x.receipt_number ≡ some number
      → receipt_owner ctx.company_id number s.sales ≡ none

-- A new payment of a sale, of a positive amount.
pub record IsNewPayment (ctx : Context) (s : ShopTables) (x : FinancialEvent) : Type 0 where
  pub id : x.id ≡ s.next_id
  pub company_id : x.company_id ≡ ctx.company_id
  pub amount : ltb_ℤ (pos 0) x.amount_cents ≡ true
  pub absent : find? (is_payment ctx.company_id x.local_uuid) s.financial_events ≡ none
  pub sale : (sale : Sale) × IsIn sale s.sales × (x.sale_id ≡ sale.id)

-- The row that the deduction looked up.
abbrev pub IsTarget : StockTarget → ShopTables → Type 0
IsTarget (of_variant v) s = IsIn v s.variants
IsTarget (of_product p) s = IsIn p s.products

-- A new reservation of a stock that has the quantity.
pub record IsNewReservation (ctx : Context) (s : ShopTables) (t : StockTarget) (x : Reservation)
    : Type 0 where
  pub id : x.id ≡ s.next_id
  pub product_id : x.product_id ≡ product_of t
  pub product_variant_id : x.product_variant_id ≡ variant_of t
  pub enough : ltb_ℤ (stock_of t) x.quantity_mil ≡ false
  pub company_id : x.company_id ≡ ctx.company_id
  pub absent : find? (is_reservation ctx.company_id x.local_uuid) s.reservations ≡ none

-- A new deduction from a stock that has the quantity.
pub record IsNewDeduction (ctx : Context) (s : ShopTables) (t : StockTarget) (x : Deduction)
    : Type 0 where
  pub product_id : x.product_id ≡ product_of t
  pub product_variant_id : x.product_variant_id ≡ variant_of t
  pub enough : ltb_ℤ (stock_of t) (pos x.quantity_mil) ≡ false
  pub company_id : x.company_id ≡ ctx.company_id
  pub absent : find? (is_deduction ctx.company_id x.local_uuid) s.deductions ≡ none

-- `Step ctx s t`: one call of a materializer may take the tables from `s` to `t`.
pub data Step (ctx : Context) (s : ShopTables) : ShopTables → Type 0 where
  nothing : Step ctx s s
  order_created : (o : Order) → IsNewOrder ctx s o → Step ctx s (add_order o s)
  order_changed :
      (o : Order) (f : Order → Order)
      → IsIn o s.orders
      → IsOpenFor o (f o)
      → KeepsOrder f
      → Step ctx s (change_order o.id f s)
  item_created :
      (x : OrderItem) (o : Order)
      → IsIn o s.orders
      → is_immutable o ≡ false
      → x.operational_order_id ≡ o.id
      → x.id ≡ s.next_id
      → find? (is_item ctx.company_id x.local_uuid) s.order_items ≡ none
      → Step ctx s (add_item x s)
  item_changed :
      (x : OrderItem) (f : OrderItem → OrderItem)
      → IsIn x s.order_items
      → ((o : Order)
          → find? (λ o. nat_eq o.id x.operational_order_id) s.orders ≡ some o
          → is_immutable o ≡ false)
      → ((y : OrderItem) → (f y).operational_order_id ≡ y.operational_order_id)
      → ((y : OrderItem) → (f y).id ≡ y.id)
      → Step ctx s (change_item x.id f s)
  sale_created : (x : Sale) → IsNewSale ctx s x → Step ctx s (add_sale x s)
  sale_converting :
      (x : Sale) (o : Order)
      → IsNewSale ctx s x
      → IsIn o s.orders
      → has_conflict o none ≡ false
      → is_taken x.id s.orders ≡ false
      → Step ctx s (change_order o.id (converted ctx.now x.id) (add_sale x s))
  order_converted :
      (sale : Sale) (o : Order)
      → IsIn sale s.sales
      → IsIn o s.orders
      → has_conflict o (some sale.id) ≡ false
      → same_id o.converted_sale_id (some sale.id) ≡ false
      → is_taken sale.id s.orders ≡ false
      → Step ctx s (change_order o.id (converted ctx.now sale.id) s)
  receipt_set :
      (sale : Sale) (number : String)
      → IsIn sale s.sales
      → sale.company_id ≡ ctx.company_id
      → receipt_owner ctx.company_id number s.sales ≡ none
      → Step ctx s (set_receipt sale.id number s)
  sale_item_created :
      (x : SaleItem) (sale : Sale)
      → IsIn sale s.sales
      → sale.company_id ≡ ctx.company_id
      → x.sale_id ≡ sale.id
      → find? (is_sale_item sale.id x.local_uuid) s.sale_items ≡ none
      → Step ctx s (add_sale_item x s)
  payment_created : (x : FinancialEvent) → IsNewPayment ctx s x → Step ctx s (add_payment x s)
  reservation_created :
      (t : StockTarget) (x : Reservation)
      → IsTarget t s
      → IsNewReservation ctx s t x
      → Step ctx s (add_reservation x s)
  reservation_changed :
      (x : Reservation) (status : Option String) (payload : Fields)
      → IsIn x s.reservations
      → x.company_id ≡ ctx.company_id
      → Step ctx s (
          change_reservation x.id
            (λ y. record y { status = get_or status y.status; payload = payload })
            s)
  deducted :
      (t : StockTarget) (x : Deduction)
      → IsTarget t s
      → IsNewDeduction ctx s t x
      → Step ctx s (decrement t x.quantity_mil (add_deduction x s))

module _ (ctx : Context) (s : ShopTables) where
  -- What an action that returns a pair of a result and the tables does.
  abbrev pub Steps : Result Outcome × ShopTables → Type 0
  Steps r = Step ctx s r.1

  -- A guard: the first branch, or the second where the test failed.
  pub Steps-if :
      (b : Bool) (r t : Result Outcome × ShopTables)
      → Steps r
      → (b ≡ false → Steps t)
      → Steps (if b then r else t)
  Steps-if true r t h k = h
  Steps-if false r t h k = k refl

  pub Steps-choice :
      (b : Bool) (m n : Exec ShopTables Outcome)
      → Steps (m s)
      → (b ≡ false → Steps (n s))
      → Steps ((if b then m else n) s)
  Steps-choice true m n h k = h
  Steps-choice false m n h k = k refl
