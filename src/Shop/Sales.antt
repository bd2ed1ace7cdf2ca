-- ===== src/Shop/Sales.antt =====
-- `materializeSale` of sale.materializer.ts, and `convertToSale` of operational-order.materializer.ts.
pub mod Step
pub mod Unique
use tatuzin.Prelude.{
  ℕ, suc, String, Bool, true, false, not, ◌&&◌, ◌||◌, Option, none, some, List, [], ◌∷◌, ◌++◌, ◌==◌,
  nat_eq, get_or, or_else, is_some, includes, any, find?, if◌then◌else◌,
}
use tatuzin.Prelude.Int.{ℤ, pos}
use tatuzin.Payload.Json.{Runtime}
use tatuzin.Payload.Read.{first_string, first_date, non_negative_int}
use tatuzin.Payload.Identity.{domain_identity_for}
use tatuzin.Exec.{Exec, Result, pure, unique_violation}
use tatuzin.Sync.Types.{Context, Outcome}
use tatuzin.Cash.Types.{Session}
use tatuzin.Cash.Permissions.{require_sync_permission}
use tatuzin.Shop.Types.{Sale, Order, ShopTables}
use tatuzin.Shop.Lookup.{
  Input, accepted, duplicate, sale_local_uuid, sale_by_uuid, find_sale, find_order,
  find_cash_session, resolve_customer_id,
}
use tatuzin.Shop.Orders.{is_canceled, change_order}

abbrev pub same_id : Option ℕ → Option ℕ → Bool
same_id (some a) (some b) = nat_eq a b
same_id _ _ = false

abbrev id_of_session : Option Session → Option ℕ
id_of_session none = none
id_of_session (some c) = some c.id

-- `orderConversionConflict`: whether there is a conflict
abbrev pub has_conflict : Order → Option ℕ → Bool
has_conflict o sale =
    is_canceled o
    || o.status == "converted" && not (same_id o.converted_sale_id sale)
    || is_some o.converted_sale_id && not (same_id o.converted_sale_id sale)

-- the update of an order that becomes a sale
abbrev pub converted : ℤ → ℕ → Order → Order
converted now sale o = record o {
  status = "converted";
  closed_at = some (get_or o.closed_at now);
  converted_sale_id = some sale;
}

-- an order that has the sale: `convertedSaleId` is unique
abbrev pub is_taken : ℕ → List Order → Bool
is_taken sale orders = any (λ o. same_id o.converted_sale_id (some sale)) orders

-- the update of the order that becomes a sale, which the database refuses where another has the sale
unfoldable pub convert : {A : Type 0} → ℤ → ℕ → Order → A → Exec ShopTables A
convert now sale o answer s =
    if is_taken sale s.orders
    then (Result.err unique_violation, s)
    else (Result.ok answer, change_order o.id (converted now sale) s)

-- `sale.create`
abbrev pub add_sale : Sale → ShopTables → ShopTables
add_sale x s = record s { sales = s.sales ++ x ∷ []; next_id = suc s.next_id }

-- the sale of the tenant that has the receipt number
abbrev pub receipt_owner : String → String → List Sale → Option Sale
receipt_owner company number sales =
    find? (λ x. x.company_id == company && is_number x.receipt_number) sales
  where
    is_number : Option String → Bool
    is_number none = false
    is_number (some n) = n == number

module _ (js : Runtime) (text_of_id : ℕ → String) (i : Input) where
  -- `paymentType`
  payment_type : String
  unfolding first_string
  payment_type =
      if get_or (first_string i.payload ("paymentType" ∷ "saleType" ∷ [])) "" == "fiado"
      then "fiado"
      else "vista"

  -- `paymentMethod`
  payment_method : String
  unfolding payment_type first_string
  payment_method =
      get_or (first_string i.payload ("paymentMethod" ∷ []))
        (if payment_type == "fiado" then "fiado" else "dinheiro")

  -- `saleStatus`
  unfoldable pub sale_status : String
  unfolding first_string
  sale_status =
      if includes ("canceled" ∷ "cancelada" ∷ [])
        (get_or (first_string i.payload ("status" ∷ "state" ∷ [])) "")
      then "canceled"
      else "active"

  -- `authorizeSale`: the refusal, or none
  unfoldable pub authorize_sale : Option Outcome
  unfolding require_sync_permission sale_status
  authorize_sale =
      or_else (require_sync_permission js i.ctx "sales.create") (
        if sale_status == "canceled" then require_sync_permission js i.ctx "sales.cancel" else none)

  -- `convertExistingSaleOrder`, and the reply where it is null
  unfoldable pub convert_existing_sale_order : ℕ → Option Order → Exec ShopTables Outcome
  unfolding convert
  convert_existing_sale_order sale none s = pure (duplicate js text_of_id i sale) s
  convert_existing_sale_order sale (some o) s =
      if has_conflict o (some sale)
      then pure (Outcome.conflict "OPERATIONAL_ORDER_IMMUTABLE") s
      else if same_id o.converted_sale_id (some sale)
      then pure (duplicate js text_of_id i sale) s
      else convert i.ctx.now sale o (accepted js text_of_id i sale) s

  -- `convertToSale`: the conflict, or none
  unfoldable pub convert_to_sale : ℕ → Option Order → Exec ShopTables (Option Outcome)
  unfolding convert
  convert_to_sale sale none s = pure none s
  convert_to_sale sale (some o) s =
      if is_canceled o
        || is_some o.converted_sale_id && not (same_id o.converted_sale_id (some sale))
      then pure (some (Outcome.conflict "OPERATIONAL_ORDER_IMMUTABLE")) s
      else if same_id o.converted_sale_id (some sale)
      then pure none s
      else convert i.ctx.now sale o none s

  -- the row of `sale.create`
  unfoldable new_sale : String → Option String → ShopTables → Sale
  unfolding payment_type payment_method sale_status find_cash_session resolve_customer_id
      non_negative_int first_date first_string
  new_sale uuid number s = record {
    id = s.next_id;
    company_id = i.ctx.company_id;
    cash_session_id = id_of_session (find_cash_session js text_of_id i);
    local_uuid = uuid;
    customer_id = resolve_customer_id js text_of_id i s.customers;
    receipt_number = number;
    payment_type = payment_type;
    payment_method = payment_method;
    status = sale_status;
    total_amount_cents =
        get_or
          (non_negative_int js i.payload
            ("totalAmountCents" ∷ "finalCents" ∷ "totalCents" ∷ "amountCents" ∷ []))
          (pos 0);
    total_cost_cents =
        get_or (non_negative_int js i.payload ("totalCostCents" ∷ "costCents" ∷ [])) (pos 0);
    sold_at = first_date js i.payload ("soldAt" ∷ "occurredAt" ∷ []) i.ctx.now;
    notes = first_string i.payload ("notes" ∷ []);
  }

  -- the update of the order of a sale that was created
  unfoldable convert_order : Option Order → ℕ → Exec ShopTables Outcome
  unfolding convert
  convert_order none sale s = (Result.ok (accepted js text_of_id i sale), s)
  convert_order (some o) sale s = convert i.ctx.now sale o (accepted js text_of_id i sale) s

  unfoldable create_sale : String → Option String → Option Order → Exec ShopTables Outcome
  unfolding new_sale convert_order
  create_sale uuid number order s =
      convert_order order s.next_id (add_sale (new_sale uuid number s) s)

  unfoldable with_receipt : String → Option String → Option Order → Exec ShopTables Outcome
  unfolding create_sale
  with_receipt uuid none order s = create_sale uuid none order s
  with_receipt uuid (some number) order s =
      if is_some (receipt_owner i.ctx.company_id number s.sales)
      then pure (Outcome.conflict "DUPLICATE_RECEIPT") s
      else create_sale uuid (some number) order s

  unfoldable with_order : String → Option Order → Exec ShopTables Outcome
  unfolding with_receipt first_string
  with_order uuid none =
      with_receipt uuid (first_string i.payload ("receiptNumber" ∷ "number" ∷ [])) none
  with_order uuid (some o) =
      if has_conflict o none
      then pure (Outcome.conflict "OPERATIONAL_ORDER_IMMUTABLE")
      else with_receipt uuid (first_string i.payload ("receiptNumber" ∷ "number" ∷ [])) (some o)

  unfoldable with_existing : String → Option Sale → Exec ShopTables Outcome
  unfolding with_order convert_existing_sale_order find_order
  with_existing uuid none s = with_order uuid (find_order js text_of_id i s.orders) s
  with_existing uuid (some sale) s =
      convert_existing_sale_order sale.id (find_order js text_of_id i s.orders) s

  unfoldable with_identity : Option String → Exec ShopTables Outcome
  unfolding with_existing sale_by_uuid
  with_identity none s = pure (Outcome.rejected "LOCAL_ID_REQUIRED") s
  with_identity (some uuid) s =
      with_existing uuid (sale_by_uuid js text_of_id i (some uuid) s.sales) s

  unfoldable authorized : Option Outcome → Exec ShopTables Outcome
  unfolding with_identity sale_local_uuid
  authorized (some refusal) = pure refusal
  authorized none = with_identity (sale_local_uuid js text_of_id i)

  -- an update or a delete; on a canceled sale it fails the test for the operation that follows
  abbrev altered : Option Sale → Outcome
  altered none = Outcome.conflict "SALE_NOT_FOUND"
  altered (some sale) =
      if sale.status == "canceled"
      then Outcome.rejected "INVALID_OPERATION"
      else Outcome.conflict "SALE_IMMUTABLE"

  -- `materializeSale`
  unfoldable pub materialize_sale : Exec ShopTables Outcome
  unfolding find_sale authorized authorize_sale
  materialize_sale s =
      if includes ("update" ∷ "delete" ∷ []) i.event.operation
      then pure (altered (find_sale js text_of_id i s.sales)) s
      else if not (includes ("create" ∷ "upsert" ∷ "append" ∷ []) i.event.operation)
      then pure (Outcome.rejected "INVALID_OPERATION") s
      else authorized authorize_sale s
