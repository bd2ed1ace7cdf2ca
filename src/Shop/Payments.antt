-- ===== src/Shop/Payments.antt =====
-- PaymentMaterializer of payment.materializer.ts and ReceiptMaterializer of receipt.materializer.ts.
pub mod Step
pub mod Sound
use tatuzin.Prelude.{
  ℕ, suc, String, Bool, true, false, not, ◌&&◌, Option, none, some, List, [], ◌∷◌, ◌++◌, ◌==◌,
  nat_eq, or_else, includes, find?, if◌then◌else◌,
}
use tatuzin.Prelude.Int.{ℤ}
use tatuzin.Payload.Json.{Runtime}
use tatuzin.Payload.Read.{first_string, first_date, positive_int}
use tatuzin.Payload.Identity.{domain_identity_for, local_identity_for}
use tatuzin.Exec.{Exec, Result, pure}
use tatuzin.Sync.Types.{Outcome}
use tatuzin.Sync.Tables.{update_first}
use tatuzin.Shop.Types.{Sale, FinancialEvent, ShopTables}
use tatuzin.Shop.Lookup.{Input, accepted, duplicate, find_sale}
use tatuzin.Shop.Sales.{receipt_owner}

abbrev payment_keys : List String
payment_keys =
    "paymentLocalId" ∷ "paymentUuid" ∷ "paymentKey" ∷ "uuid" ∷ "localUuid" ∷ "localId" ∷ "id" ∷ []

abbrev pub add_payment : FinancialEvent → ShopTables → ShopTables
add_payment x s = record s {
  financial_events = s.financial_events ++ x ∷ [];
  next_id = suc s.next_id;
}

-- `sale.update` of the receipt number
abbrev pub set_receipt : ℕ → String → ShopTables → ShopTables
set_receipt id number s = record s {
  sales =
      update_first (λ x. nat_eq x.id id) (λ x. record x { receipt_number = some number }) s.sales;
}

-- `financialEvent.findUnique` by (companyId, localUuid)
abbrev pub is_payment : String → String → FinancialEvent → Bool
is_payment company uuid x = x.company_id == company && x.local_uuid == uuid

module _ (js : Runtime) (text_of_id : ℕ → String) (i : Input) where
  -- the row of `financialEvent.create`
  unfoldable new_payment : String → ℤ → ℕ → ℕ → FinancialEvent
  unfolding first_string first_date
  new_payment uuid amount sale id = record {
    id = id;
    company_id = i.ctx.company_id;
    sale_id = sale;
    event_type = "sale_payment";
    local_uuid = uuid;
    amount_cents = amount;
    payment_type = first_string i.payload ("paymentMethod" ∷ "paymentType" ∷ []);
    created_at = first_date js i.payload ("occurredAt" ∷ "createdAt" ∷ []) i.ctx.now;
  }

  unfoldable with_existing : String → ℤ → ℕ → Option FinancialEvent → Exec ShopTables Outcome
  unfolding new_payment
  with_existing uuid amount sale (some row) s = pure (duplicate js text_of_id i row.id) s
  with_existing uuid amount sale none s = (
    Result.ok (accepted js text_of_id i s.next_id),
    add_payment (new_payment uuid amount sale s.next_id) s,
  )

  unfoldable with_sale : String → ℤ → Option Sale → Exec ShopTables Outcome
  unfolding with_existing
  with_sale uuid amount none s = pure (Outcome.conflict "SALE_NOT_FOUND") s
  with_sale uuid amount (some sale) s =
      with_existing uuid amount sale.id
        (find? (is_payment i.ctx.company_id uuid) s.financial_events) s

  unfoldable with_amount : String → Option ℤ → Exec ShopTables Outcome
  unfolding with_sale find_sale
  with_amount uuid none s = pure (Outcome.rejected "INVALID_PAYMENT_AMOUNT") s
  with_amount uuid (some amount) s = with_sale uuid amount (find_sale js text_of_id i s.sales) s

  unfoldable with_identity : Option String → Exec ShopTables Outcome
  unfolding with_amount positive_int
  with_identity none = pure (Outcome.rejected "LOCAL_ID_REQUIRED")
  with_identity (some uuid) =
      with_amount uuid (positive_int js i.payload ("amountCents" ∷ "amount" ∷ []))

  -- `materialize` of the payments
  unfoldable pub materialize_payment : Exec ShopTables Outcome
  unfolding with_identity domain_identity_for
  materialize_payment =
      if not (includes ("create" ∷ "append" ∷ "upsert" ∷ []) i.event.operation)
      then pure (Outcome.rejected "INVALID_OPERATION")
      else with_identity (domain_identity_for js i.event i.payload payment_keys true)

  unfoldable with_owner : String → Option Sale → Option Sale → Exec ShopTables Outcome
  with_owner number (some owner) none s = pure (duplicate js text_of_id i owner.id) s
  with_owner number (some owner) (some sale) s =
      if nat_eq owner.id sale.id
      then pure (duplicate js text_of_id i owner.id) s
      else pure (Outcome.conflict "DUPLICATE_RECEIPT") s
  with_owner number none none s = pure (Outcome.conflict "SALE_NOT_FOUND") s
  with_owner number none (some sale) s =
      (Result.ok (accepted js text_of_id i sale.id), set_receipt sale.id number s)

  unfoldable with_number : Option String → Exec ShopTables Outcome
  unfolding with_owner find_sale
  with_number none s = pure (Outcome.rejected "LOCAL_ID_REQUIRED") s
  with_number (some number) s =
      with_owner number (receipt_owner i.ctx.company_id number s.sales)
        (find_sale js text_of_id i s.sales) s

  -- `materialize` of the receipts
  unfoldable pub materialize_receipt : Exec ShopTables Outcome
  unfolding with_number first_string local_identity_for
  materialize_receipt =
      if not (includes ("create" ∷ "append" ∷ "upsert" ∷ []) i.event.operation)
      then pure (Outcome.rejected "INVALID_OPERATION")
      else with_number (
          or_else (first_string i.payload ("receiptNumber" ∷ "number" ∷ []))
            (local_identity_for js i.event i.payload))
