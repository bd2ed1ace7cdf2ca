-- ===== src/Shop/SaleItems.antt =====
-- `materializeSaleItem` of sale.materializer.ts.
pub mod Step
use tatuzin.Prelude.{
  ℕ, suc, String, Bool, true, false, not, ◌&&◌, Option, none, some, List, [], ◌∷◌, ◌++◌, ◌==◌,
  nat_eq, get_or, is_some, includes, find?, if◌then◌else◌,
}
use tatuzin.Prelude.Int.{ℤ, pos}
use tatuzin.Payload.Json.{Runtime}
use tatuzin.Payload.Read.{first_string, positive_int, non_negative_int, invalid_remote_identity}
use tatuzin.Payload.Identity.{domain_identity_for}
use tatuzin.Exec.{Exec, Result, pure}
use tatuzin.Sync.Types.{Outcome}
use tatuzin.Shop.Types.{Sale, SaleItem, ShopTables}
use tatuzin.Shop.Lookup.{Input, accepted, duplicate, product_keys, find_sale, resolve_product_id}

abbrev item_keys : List String
item_keys =
    "saleItemLocalId" ∷ "saleItemUuid" ∷ "itemLocalId" ∷ "itemUuid" ∷ "uuid" ∷ "localUuid"
    ∷ "localId" ∷ "id" ∷ []

abbrev pub add_sale_item : SaleItem → ShopTables → ShopTables
add_sale_item x s = record s { sale_items = s.sale_items ++ x ∷ []; next_id = suc s.next_id }

module _ (js : Runtime) (text_of_id : ℕ → String) (i : Input) where
  -- the row of `saleItem.create`
  unfoldable new_sale_item : String → ℕ → ℤ → ℕ → ℕ → SaleItem
  unfolding first_string non_negative_int
  new_sale_item uuid sale quantity product id = record {
    id = id;
    sale_id = sale;
    local_uuid = uuid;
    product_id = product;
    product_name_snapshot =
        get_or (first_string i.payload ("productNameSnapshot" ∷ "productName" ∷ []))
          "Produto operacional";
    quantity_mil = quantity;
    unit_price_cents =
        get_or (non_negative_int js i.payload ("unitPriceCents" ∷ "priceCents" ∷ [])) (pos 0);
    total_price_cents =
        get_or (non_negative_int js i.payload ("totalPriceCents" ∷ "subtotalCents" ∷ [])) (pos 0);
    unit_cost_cents = get_or (non_negative_int js i.payload ("unitCostCents" ∷ [])) (pos 0);
    total_cost_cents = get_or (non_negative_int js i.payload ("totalCostCents" ∷ [])) (pos 0);
    unit_measure = first_string i.payload ("unitMeasure" ∷ "unitMeasureSnapshot" ∷ []);
    product_type = first_string i.payload ("productType" ∷ "productTypeSnapshot" ∷ []);
  }

  unfoldable with_product : String → ℕ → ℤ → Option ℕ → Exec ShopTables Outcome
  unfolding new_sale_item
  with_product uuid sale quantity none s = pure (Outcome.conflict "PRODUCT_NOT_FOUND") s
  with_product uuid sale quantity (some product) s = (
    Result.ok (accepted js text_of_id i s.next_id),
    add_sale_item (new_sale_item uuid sale quantity product s.next_id) s,
  )

  unfoldable with_existing : String → ℕ → ℤ → Option SaleItem → Exec ShopTables Outcome
  unfolding with_product invalid_remote_identity resolve_product_id
  with_existing uuid sale quantity (some item) s = pure (duplicate js text_of_id i item.id) s
  with_existing uuid sale quantity none s =
      if is_some (invalid_remote_identity js i.payload product_keys)
      then pure (Outcome.rejected "INVALID_REMOTE_ID") s
      else with_product uuid sale quantity (resolve_product_id js text_of_id i s.products) s

  unfoldable with_quantity : String → ℕ → Option ℤ → Exec ShopTables Outcome
  unfolding with_existing
  with_quantity uuid sale none s = pure (Outcome.rejected "INVALID_QUANTITY") s
  with_quantity uuid sale (some quantity) s =
      with_existing uuid sale quantity
        (find? (λ x. nat_eq x.sale_id sale && x.local_uuid == uuid) s.sale_items) s

  unfoldable with_sale : String → Option Sale → Exec ShopTables Outcome
  unfolding with_quantity positive_int
  with_sale uuid none = pure (Outcome.conflict "SALE_NOT_FOUND")
  with_sale uuid (some sale) =
      with_quantity uuid sale.id (positive_int js i.payload ("quantityMil" ∷ "quantity" ∷ []))

  unfoldable with_identity : Option String → Exec ShopTables Outcome
  unfolding with_sale find_sale
  with_identity none s = pure (Outcome.rejected "LOCAL_ID_REQUIRED") s
  with_identity (some uuid) s = with_sale uuid (find_sale js text_of_id i s.sales) s

  -- `materializeSaleItem`
  unfoldable pub materialize_sale_item : Exec ShopTables Outcome
  unfolding with_identity domain_identity_for
  materialize_sale_item =
      if not (includes ("create" ∷ "append" ∷ "upsert" ∷ []) i.event.operation)
      then pure (Outcome.rejected "INVALID_OPERATION")
      else with_identity (domain_identity_for js i.event i.payload item_keys true)
