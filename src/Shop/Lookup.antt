-- ===== src/Shop/Lookup.antt =====
-- How the materializers find the rows that an event names: `findSale`, `findOrder`,
-- `findCashSession`, `resolveCustomerId`, `resolveProductId`. `text_of_id` spells the id of a row.
pub mod Found
use mathlib.Core.List.{reverse}
use tatuzin.Prelude.{
  ℕ, String, Bool, true, false, not, ◌&&◌, Option, none, some, List, [], ◌∷◌, ◌==◌, nat_eq, get_or,
  or_else, is_some, find?, filter, take, if◌then◌else◌,
}
use tatuzin.Prelude.Int.{ℤ}
use tatuzin.Payload.Json.{Json, null, Fields, Runtime, get}
use tatuzin.Payload.Read.{first_identity, first_uuid, is_uuid}
use tatuzin.Payload.Identity.{PushEvent, domain_identity_for, local_identity_for}
use tatuzin.Sync.Types.{Context, SyncEvent, EventStatus, Outcome, is_status}
use tatuzin.Cash.Types.{Session, is_session}
use tatuzin.Shop.Types.{Sale, Order, Product, Variant, Customer}

abbrev pub sale_keys : List String
sale_keys =
    "saleUuid" ∷ "saleLocalUuid" ∷ "saleLocalId" ∷ "uuid" ∷ "localUuid" ∷ "localId" ∷ "id" ∷ []

abbrev pub variant_keys : List String
variant_keys = "productVariantId" ∷ "productVariantServerId" ∷ "variantId" ∷ []

abbrev pub product_keys : List String
product_keys = "productId" ∷ "productServerId" ∷ []

-- the keys that `invalidRemoteIdentity` looks at, for a product or a variant
abbrev pub remote_keys : List String
remote_keys =
    "productId" ∷ "productServerId" ∷ "productVariantId" ∷ "productVariantServerId" ∷ "variantId"
    ∷ []

abbrev remote : Option String → Option String
remote server_id = if is_uuid server_id then server_id else none

-- What a materializer is given: `SyncMaterializerInput` with the stored events and the cash
-- sessions, which the materializers of this part only read.
pub record Input : Type 0 where
  pub ctx : Context
  pub source : Option String
  pub event : PushEvent
  pub payload : Fields
  pub events : List SyncEvent
  pub sessions : List Session

module _ (js : Runtime) (text_of_id : ℕ → String) (i : Input) where
  -- the reply for a row that was written now
  abbrev pub accepted : ℕ → Outcome
  accepted id = Outcome.accepted (some (text_of_id id)) (some (some i.ctx.now))

  -- the reply for a row that is there
  abbrev pub duplicate : ℕ → Outcome
  duplicate id = Outcome.duplicate (some (text_of_id id)) none

  sale_by_id : Option String → List Sale → Option Sale
  sale_by_id none sales = none
  sale_by_id (some id) sales =
      find? (λ x. text_of_id x.id == id && x.company_id == i.ctx.company_id) sales

  -- `sale.findUnique` by (companyId, localUuid)
  unfoldable pub sale_by_uuid : Option String → List Sale → Option Sale
  sale_by_uuid none sales = none
  sale_by_uuid (some uuid) sales =
      find? (λ x. x.company_id == i.ctx.company_id && x.local_uuid == uuid) sales

  unfoldable pub sale_local_uuid : Option String
  unfolding domain_identity_for
  sale_local_uuid = domain_identity_for js i.event i.payload sale_keys true

  -- the `saleId` of `findSale`
  sale_id : Option String
  unfolding first_uuid is_uuid
  sale_id =
      or_else (remote i.event.entity_server_id)
        (first_uuid i.payload ("saleId" ∷ "saleServerId" ∷ []))

  -- the key of `findSale`, where no sale has the id
  sale_uuid : Option String
  unfolding first_identity sale_local_uuid
  sale_uuid =
      or_else (first_identity js i.payload ("saleUuid" ∷ "saleLocalUuid" ∷ "saleLocalId" ∷ []))
        (if i.event.entity == "sale" then sale_local_uuid else none)

  -- `findSale`
  unfoldable pub find_sale : List Sale → Option Sale
  unfolding sale_by_id sale_by_uuid sale_id sale_uuid
  find_sale sales = or_else (sale_by_id sale_id sales) (sale_by_uuid sale_uuid sales)

  -- `resolveCustomerId`
  unfoldable pub resolve_customer_id : List Customer → Option ℕ
  unfolding first_uuid
  resolve_customer_id customers =
      elim (first_uuid i.payload ("customerId" ∷ "customerServerId" ∷ [])) [
        | none ↦ none
        | some id ↦
            elim (find?
              (λ c. text_of_id c.id == id && c.company_id == i.ctx.company_id && not c.is_deleted)
              customers) [ none ↦ none | some c ↦ some c.id ]
      ]

  -- `product.findFirst` by id, of the tenant and not deleted
  unfoldable pub product_by_id : String → List Product → Option Product
  product_by_id id products =
      find? (λ p. text_of_id p.id == id && p.company_id == i.ctx.company_id && not p.is_deleted)
        products

  -- `resolveProductId`
  unfoldable pub resolve_product_id : List Product → Option ℕ
  unfolding first_uuid product_by_id
  resolve_product_id products = elim (first_uuid i.payload product_keys) [
    | none ↦ none
    | some id ↦ elim (product_by_id id products) [ none ↦ none | some p ↦ some p.id ]
  ]

  -- `productVariant.findFirst` by id, whose product is of the tenant and not deleted
  unfoldable pub variant_by_id : String → List Product → List Variant → Option Variant
  variant_by_id id products variants =
      find?
        (λ v.
          text_of_id v.id == id
          && is_some (
              find?
                (λ p.
                  nat_eq p.id v.product_id && p.company_id == i.ctx.company_id && not p.is_deleted)
                products))
        variants

  session_by_id : String → Option Session
  session_by_id id =
      find? (λ c. text_of_id c.id == id && c.company_id == i.ctx.company_id) i.sessions

  -- `findCashSession` of the sale and the order materializers
  unfoldable pub find_cash_session : Option Session
  unfolding session_by_id first_uuid first_identity
  find_cash_session = elim (first_uuid i.payload ("cashSessionId" ∷ "cashSessionServerId" ∷ [])) [
    | some id ↦ session_by_id id
    | none ↦ elim (first_identity js i.payload ("cashSessionUuid" ∷ "cashSessionLocalId" ∷ [])) [
      | some uuid ↦ find? (is_session i.ctx.company_id uuid) i.sessions
      | none ↦ none
    ]
  ]

  -- `orderLocalIdentity`
  unfoldable pub order_local_identity : Option String
  unfolding first_identity
  order_local_identity = first_identity js i.payload (
      "operationalOrderLocalId" ∷ "operationalOrderLocalUuid" ∷ "orderLocalId" ∷ "orderUuid"
      ∷ "operationalOrderUuid" ∷ [])

  -- `legacyOrderLocalId`
  unfoldable pub legacy_order_local_id : Option String
  unfolding first_identity is_uuid
  legacy_order_local_id =
      let legacy = first_identity js i.payload ("operationalOrderId" ∷ []) in
      if is_uuid legacy then none else legacy

  unfoldable pub order_by_id : Option String → List Order → Option Order
  order_by_id none orders = none
  order_by_id (some id) orders =
      find? (λ o. text_of_id o.id == id && o.company_id == i.ctx.company_id) orders

  -- `operationalOrder.findUnique` by (companyId, localUuid)
  unfoldable pub order_by_uuid : Option String → List Order → Option Order
  order_by_uuid none orders = none
  order_by_uuid (some uuid) orders =
      find? (λ o. o.company_id == i.ctx.company_id && o.local_uuid == uuid) orders

  -- `String(payload.localId ?? "")`
  local_id_text : Option Json → String
  local_id_text none = ""
  local_id_text (some null) = ""
  local_id_text (some v) = js.string_of v

  is_parent : SyncEvent → Bool
  is_parent e =
      e.company_id == i.ctx.company_id
      && e.device_id == get_or i.source i.ctx.device_id
      && e.entity == "operationalOrder"
      && is_status e.status EventStatus.accepted
      && is_some e.entity_server_id

  -- the loop of `findOrderByLegacyLocalId`, over the newest parent events first
  parent_with : String → List SyncEvent → Option SyncEvent
  unfolding local_id_text is_parent get
  parent_with legacy events =
      find? (λ e. local_id_text (get e.payload "localId") == legacy)
        (take 200 (reverse (filter is_parent events)))

  -- `findOrderByLegacyLocalId`
  unfoldable pub find_order_by_legacy_local_id : List Order → Option Order
  unfolding parent_with legacy_order_local_id order_by_id
  find_order_by_legacy_local_id orders = elim legacy_order_local_id [
    | none ↦ none
    | some legacy ↦ elim (parent_with legacy i.events) [
      | none ↦ none
      | some e ↦ order_by_id e.entity_server_id orders
    ]
  ]

  -- the `orderId` of `findOrder`
  order_id : Option String
  unfolding first_uuid is_uuid
  order_id = or_else (remote i.event.entity_server_id) (
      first_uuid i.payload
        ("operationalOrderId" ∷ "operationalOrderServerId" ∷ "orderServerId" ∷ []))

  -- the `localUuid` of `findOrder`
  order_uuid : Option String
  unfolding order_local_identity local_identity_for
  order_uuid = or_else order_local_identity (
      if i.event.entity == "operationalOrder"
      then local_identity_for js i.event i.payload
      else none)

  -- `findOrder`
  unfoldable pub find_order : List Order → Option Order
  unfolding order_by_id order_by_uuid find_order_by_legacy_local_id order_id order_uuid
  find_order orders =
      or_else (order_by_id order_id orders)
        (or_else (order_by_uuid order_uuid orders) (find_order_by_legacy_local_id orders))
