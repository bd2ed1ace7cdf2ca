-- ===== src/Shop/OrderItems.antt =====
-- `materializeItem` of operational-order.materializer.ts, and `materialize`.
pub mod Step
pub mod Frozen
pub mod Totals
use Prim.Native.Nat.{◌/◌}
use tatuzin.Prelude.{
  ℕ, suc, ◌+◌, ◌*◌, String, Bool, true, false, not, ◌&&◌, ◌||◌, Option, none, some, List, [], ◌∷◌,
  ◌++◌, ◌==◌, nat_eq, get_or, or_else, is_some, is_none, includes, find?, if◌then◌else◌,
}
use tatuzin.Prelude.Int.{ℤ, pos, abs, sub_ℕ, ltb_ℤ, leb_ℤ}
use tatuzin.Payload.Json.{Runtime}
use tatuzin.Payload.Read.{
  first_string, first_int, first_date, first_uuid, positive_int, non_negative_int,
  invalid_remote_identity,
}
use tatuzin.Payload.Identity.{domain_identity_for}
use tatuzin.Exec.{Exec, Result, pure}
use tatuzin.Sync.Types.{Context, Outcome}
use tatuzin.Sync.Tables.{update_first}
use tatuzin.Shop.Types.{Order, OrderItem, Product, Variant, ShopTables}
use tatuzin.Shop.Lookup.{
  Input, accepted, duplicate, variant_keys, product_keys, remote_keys, variant_by_id,
  resolve_product_id, find_order, order_local_identity, legacy_order_local_id,
}
use tatuzin.Shop.Orders.{is_immutable, materialize_order}

abbrev item_keys : List String
item_keys =
    "operationalOrderItemLocalId" ∷ "operationalOrderItemLocalUuid" ∷ "itemLocalId" ∷ "itemUuid"
    ∷ "uuid" ∷ "localUuid" ∷ "localId" ∷ "id" ∷ []

-- The answer of `resolveProductTarget`; `no_product` is null.
pub data Target : Type 0 where
  missing_variant : Target
  no_product : Target
  target : (product_id : ℕ) (product_variant_id : Option ℕ) → Target

-- `Math.round(n / 1000)`, exact
abbrev pub thousandths : ℕ → ℕ
thousandths n = (n + 500) / 1000

-- the total, or none where it is negative
abbrev non_negative : ℤ → Option ℤ
non_negative t = if leb_ℤ (pos 0) t then some t else none

abbrev pub change_item : ℕ → (OrderItem → OrderItem) → ShopTables → ShopTables
change_item id f s = record s { order_items = update_first (λ o. nat_eq o.id id) f s.order_items }

abbrev pub add_item : OrderItem → ShopTables → ShopTables
add_item o s = record s { order_items = s.order_items ++ o ∷ []; next_id = suc s.next_id }

abbrev total_of : Option OrderItem → Option ℤ
total_of none = none
total_of (some o) = some o.total_cents

abbrev quantity_of : Option OrderItem → Option ℤ
quantity_of none = none
quantity_of (some o) = some o.quantity_mil

-- `operationalOrder` of the item that is there
abbrev parent_of : Option OrderItem → List Order → Option Order
parent_of none orders = none
parent_of (some item) orders = find? (λ o. nat_eq o.id item.operational_order_id) orders

-- `operationalOrderItem.create`, before the data that an update sets too
abbrev blank : Context → String → ℕ → ℕ → ℤ → OrderItem
blank ctx uuid id order created_at = record {
  id = id;
  company_id = ctx.company_id;
  operational_order_id = order;
  local_uuid = uuid;
  product_id = none;
  product_variant_id = none;
  description = "Item operacional";
  quantity_mil = pos 0;
  unit_price_cents = pos 0;
  total_cents = pos 0;
  created_at = created_at;
}

-- `productTarget`, set in a row
abbrev aim : Target → OrderItem → OrderItem
aim (target p v) o = record o { product_id = some p; product_variant_id = v }
aim no_product o = o
aim missing_variant o = o

-- The total of a unit price, a quantity and a discount, or none where it is negative.
unfoldable pub derived_total : ℤ → ℤ → ℤ → Option ℤ
derived_total price quantity discount =
    non_negative (sub_ℕ (thousandths (abs price * abs quantity)) (abs discount))

module _ (js : Runtime) (text_of_id : ℕ → String) (i : Input) where
  -- `resolveOperationalOrderItemTotalCents`: the total, or none for INVALID_TOTAL, the code of the
  -- rejections there and of the one for a missing total
  unfoldable pub item_total : ℤ → Option ℤ → Option ℤ
  unfolding first_int non_negative_int derived_total
  item_total quantity before =
      elim (first_int js i.payload ("totalCents" ∷ "totalPriceCents" ∷ "finalCents" ∷ [])) [
        | some total ↦ non_negative total
        | none ↦ elim (first_int js i.payload ("subtotalCents" ∷ "subtotalPriceCents" ∷ [])) [
          | some subtotal ↦ non_negative subtotal
          | none ↦ elim before [
            | some total ↦ some total
            | none ↦ elim (non_negative_int js i.payload ("unitPriceCents" ∷ "priceCents" ∷ [])) [
              | none ↦ none
              | some price ↦ derived_total price quantity (
                  get_or
                    (non_negative_int js i.payload ("discountCents" ∷ "itemDiscountCents" ∷ []))
                    (pos 0))
            ]
          ]
        ]
      ]

  -- `resolveProductTarget`
  resolve_product_target : List Product → List Variant → Target
  unfolding first_uuid variant_by_id resolve_product_id
  resolve_product_target products variants = elim (first_uuid i.payload variant_keys) [
    | some id ↦ elim (variant_by_id js text_of_id i id products variants) [
      | none ↦ missing_variant
      | some v ↦ target v.product_id (some v.id)
    ]
    | none ↦ elim (resolve_product_id js text_of_id i products) [
      | none ↦ no_product
      | some id ↦ target id none
    ]
  ]

  -- `missingOrderResult`, and the reply where it is null
  missing_order : List Order → Outcome
  unfolding first_uuid order_local_identity legacy_order_local_id
  missing_order orders =
      elim (first_uuid i.payload
        ("operationalOrderId" ∷ "operationalOrderServerId" ∷ "orderServerId" ∷ [])) [
          | some id ↦
              if is_some (
                find? (λ o. text_of_id o.id == id && not (o.company_id == i.ctx.company_id)) orders)
              then Outcome.conflict "OPERATIONAL_ORDER_COMPANY_MISMATCH"
              else Outcome.conflict "OPERATIONAL_ORDER_NOT_FOUND"
          | none ↦
              if is_none (order_local_identity js text_of_id i)
                && is_none (legacy_order_local_id js text_of_id i)
              then Outcome.conflict "OPERATIONAL_ORDER_REFERENCE_REQUIRED"
              else Outcome.deferred "OPERATIONAL_ORDER_NOT_FOUND"
        ]

  -- `data`
  unfoldable written : Target → ℤ → ℤ → OrderItem → OrderItem
  unfolding first_string non_negative_int
  written product quantity total o = record (aim product o) {
    description =
        get_or (first_string i.payload ("description" ∷ "productName" ∷ "name" ∷ [])) o.description;
    quantity_mil = quantity;
    unit_price_cents =
        get_or (non_negative_int js i.payload ("unitPriceCents" ∷ "priceCents" ∷ []))
          o.unit_price_cents;
    total_cents = total;
  }

  -- the create or the update
  unfoldable write_item :
      String → Order → Option OrderItem → Target → ℤ → ℤ → Exec ShopTables Outcome
  unfolding written first_date
  write_item uuid order none product quantity total s =
      let created = first_date js i.payload ("createdAt" ∷ "occurredAt" ∷ []) i.ctx.now in
      (
        Result.ok (accepted js text_of_id i s.next_id),
        add_item (written product quantity total (blank i.ctx uuid s.next_id order.id created)) s,
      )
  write_item uuid order (some item) product quantity total s = (
    Result.ok (accepted js text_of_id i item.id),
    change_item item.id (written product quantity total) s,
  )

  unfoldable with_target :
      String → Order → Option OrderItem → ℤ → ℤ → Target → Exec ShopTables Outcome
  unfolding write_item
  with_target uuid order existing quantity total missing_variant =
      pure (Outcome.conflict "STOCK_VARIANT_NOT_FOUND")
  with_target uuid order existing quantity total no_product =
      write_item uuid order existing no_product quantity total
  with_target uuid order existing quantity total (target p v) =
      write_item uuid order existing (target p v) quantity total

  unfoldable with_total : String → Order → Option OrderItem → ℤ → Option ℤ → Exec ShopTables Outcome
  unfolding with_target resolve_product_target invalid_remote_identity
  with_total uuid order existing quantity none s = pure (Outcome.rejected "INVALID_TOTAL") s
  with_total uuid order existing quantity (some total) s =
      if is_some (invalid_remote_identity js i.payload remote_keys)
      then pure (Outcome.rejected "INVALID_REMOTE_ID") s
      else with_target uuid order existing quantity total
          (resolve_product_target s.products s.variants) s

  unfoldable with_quantity : String → Order → Option OrderItem → Option ℤ → Exec ShopTables Outcome
  unfolding with_total item_total
  with_quantity uuid order existing none = pure (Outcome.rejected "INVALID_QUANTITY")
  with_quantity uuid order existing (some quantity) =
      if ltb_ℤ (pos 0) quantity
      then with_total uuid order existing quantity (item_total quantity (total_of existing))
      else pure (Outcome.rejected "INVALID_QUANTITY")

  unfoldable with_order : String → Option OrderItem → Option Order → Exec ShopTables Outcome
  unfolding with_quantity missing_order positive_int
  with_order uuid existing none s = pure (missing_order s.orders) s
  with_order uuid existing (some order) s =
      if is_immutable order
      then pure (Outcome.conflict "OPERATIONAL_ORDER_IMMUTABLE") s
      else if i.event.operation == "update" && is_none existing
      then pure (Outcome.conflict "OPERATIONAL_ORDER_ITEM_NOT_FOUND") s
      else with_quantity uuid order existing
          (or_else (positive_int js i.payload ("quantityMil" ∷ "quantity" ∷ []))
            (quantity_of existing))
          s

  unfoldable with_existing : String → Option OrderItem → Exec ShopTables Outcome
  unfolding with_order find_order
  with_existing uuid none s = with_order uuid none (find_order js text_of_id i s.orders) s
  with_existing uuid (some item) s =
      if includes ("create" ∷ "append" ∷ []) i.event.operation
      then pure (duplicate js text_of_id i item.id) s
      else with_order uuid (some item)
          (or_else (parent_of (some item) s.orders) (find_order js text_of_id i s.orders)) s

  unfoldable with_identity : Option String → Exec ShopTables Outcome
  unfolding with_existing
  with_identity none s = pure (Outcome.rejected "LOCAL_ID_REQUIRED") s
  with_identity (some uuid) s =
      with_existing uuid
        (find? (λ o. o.company_id == i.ctx.company_id && o.local_uuid == uuid) s.order_items) s

  -- `materializeItem`
  unfoldable pub materialize_item : Exec ShopTables Outcome
  unfolding with_identity domain_identity_for
  materialize_item =
      if not (includes ("create" ∷ "append" ∷ "update" ∷ "upsert" ∷ []) i.event.operation)
      then pure (Outcome.rejected "INVALID_OPERATION")
      else with_identity (
          domain_identity_for js i.event i.payload item_keys
            (includes ("create" ∷ "append" ∷ []) i.event.operation))

  -- `materialize`
  unfoldable pub materialize : Exec ShopTables Outcome
  unfolding materialize_order materialize_item
  materialize =
      if i.event.entity == "operationalOrder"
      then materialize_order js text_of_id i
      else if i.event.entity == "operationalOrderItem"
      then materialize_item
      else pure (Outcome.accepted none (some none))
