-- ===== src/Shop/Deductions.antt =====
-- `materializeDeduction` of stock.materializer.ts.
pub mod Step
use tatuzin.Prelude.{
  ℕ, suc, String, Bool, true, false, not, ◌&&◌, ◌||◌, Option, none, some, List, [], ◌∷◌, ◌++◌, ◌==◌,
  nat_eq, get_or, is_some, is_none, any, includes, find?, if◌then◌else◌,
}
use tatuzin.Prelude.Int.{ℤ, pos, ltb_ℤ, ◌-ℤ◌}
use tatuzin.Payload.Json.{Runtime}
use tatuzin.Payload.Read.{
  first_string, first_date, first_uuid, positive_int, abs_positive_int, invalid_remote_identity,
}
use tatuzin.Payload.Identity.{domain_identity_for}
use tatuzin.Exec.{Exec, Result, pure}
use tatuzin.Sync.Types.{Outcome}
use tatuzin.Sync.Tables.{update_first}
use tatuzin.Shop.Types.{Sale, Reservation, Deduction, Product, Variant, ShopTables}
use tatuzin.Shop.Lookup.{
  Input, accepted, duplicate, variant_keys, product_keys, remote_keys, variant_by_id, product_by_id,
  find_sale,
}
use tatuzin.Shop.Stock.{
  StockTarget, of_variant, of_product, stock_of, product_of, variant_of, id_of_sale, decrement,
}

abbrev deduction_keys : List String
deduction_keys =
    "deductionLocalId" ∷ "deductionUuid" ∷ "stockDeductionLocalId" ∷ "uuid" ∷ "localUuid"
    ∷ "localId" ∷ "id" ∷ []

-- `DeductionTargetResolution`
pub data Resolution : Type 0 where
  found : StockTarget → Resolution
  refused : Outcome → Resolution

abbrev remote_id_required : Outcome
remote_id_required = Outcome.conflict "STOCK_DEDUCTION_REMOTE_ID_REQUIRED"

abbrev pub add_deduction : Deduction → ShopTables → ShopTables
add_deduction x s = record s { deductions = s.deductions ++ x ∷ []; next_id = suc s.next_id }

module _ (js : Runtime) (text_of_id : ℕ → String) (i : Input) where
  -- `activeVariantsCount > 0`
  abbrev has_active_variants : ℕ → List Variant → Bool
  has_active_variants product variants =
      any (λ v. nat_eq v.product_id product && v.is_active) variants

  -- `resolveDeductionStockTarget`
  unfoldable resolve_deduction_stock_target : List Product → List Variant → Resolution
  unfolding first_uuid variant_by_id product_by_id
  resolve_deduction_stock_target products variants = elim (first_uuid i.payload variant_keys) [
    | some id ↦ elim (variant_by_id js text_of_id i id products variants) [
      | none ↦ refused (Outcome.conflict "STOCK_VARIANT_NOT_FOUND")
      | some v ↦ found (of_variant v)
    ]
    | none ↦ elim (first_uuid i.payload product_keys) [
      | none ↦ refused remote_id_required
      | some id ↦ elim (product_by_id js text_of_id i id products) [
        | none ↦ refused (Outcome.conflict "STOCK_PRODUCT_NOT_FOUND")
        | some p ↦
            if has_active_variants p.id variants
            then refused remote_id_required
            else found (of_product p)
      ]
    ]
  ]

  -- `stockDeductionRemoteIdentityIssue`: whether there is one
  has_remote_identity_issue : Bool
  unfolding invalid_remote_identity first_uuid
  has_remote_identity_issue =
      is_some (invalid_remote_identity js i.payload remote_keys)
      || is_none (first_uuid i.payload product_keys) && is_none (first_uuid i.payload variant_keys)

  -- the row of `stockDeduction.create`
  unfoldable new_deduction : String → ℕ → StockTarget → ShopTables → Deduction
  unfolding first_date find_sale
  new_deduction uuid quantity t s = record {
    id = s.next_id;
    company_id = i.ctx.company_id;
    sale_id = id_of_sale (find_sale js text_of_id i s.sales);
    product_id = product_of t;
    product_variant_id = variant_of t;
    local_uuid = uuid;
    quantity_mil = quantity;
    payload = i.payload;
    created_at = first_date js i.payload ("createdAt" ∷ "occurredAt" ∷ []) i.ctx.now;
  }

  unfoldable deduct_target : String → ℕ → Resolution → Exec ShopTables Outcome
  unfolding new_deduction
  deduct_target uuid quantity (refused o) s = pure o s
  deduct_target uuid quantity (found t) s =
      if ltb_ℤ (stock_of t) (pos quantity) then pure (Outcome.conflict "STOCK_UNAVAILABLE") s else (
        Result.ok (accepted js text_of_id i s.next_id),
        decrement t quantity (add_deduction (new_deduction uuid quantity t s) s),
      )

  unfoldable deduct_quantity : String → Option ℕ → Exec ShopTables Outcome
  unfolding deduct_target resolve_deduction_stock_target has_remote_identity_issue
  deduct_quantity uuid none s = pure (Outcome.rejected "INVALID_QUANTITY") s
  deduct_quantity uuid (some quantity) s =
      if has_remote_identity_issue
      then pure remote_id_required s
      else deduct_target uuid quantity (resolve_deduction_stock_target s.products s.variants) s

  unfoldable deduct_existing : String → Option Deduction → Exec ShopTables Outcome
  unfolding deduct_quantity abs_positive_int
  deduct_existing uuid (some row) = pure (duplicate js text_of_id i row.id)
  deduct_existing uuid none =
      deduct_quantity uuid
        (abs_positive_int js i.payload ("quantityMil" ∷ "quantityDeltaMil" ∷ "quantity" ∷ []))

  unfoldable deduct_identity : Option String → Exec ShopTables Outcome
  unfolding deduct_existing
  deduct_identity none s = pure (Outcome.rejected "LOCAL_ID_REQUIRED") s
  deduct_identity (some uuid) s =
      deduct_existing uuid
        (find? (λ x. x.company_id == i.ctx.company_id && x.local_uuid == uuid) s.deductions) s

  -- `materializeDeduction`
  unfoldable pub materialize_deduction : Exec ShopTables Outcome
  unfolding deduct_identity domain_identity_for
  materialize_deduction =
      if not (includes ("create" ∷ "append" ∷ "upsert" ∷ []) i.event.operation)
      then pure (Outcome.rejected "INVALID_OPERATION")
      else deduct_identity (domain_identity_for js i.event i.payload deduction_keys true)
