-- ===== src/Shop/OrderItems/Step.antt =====
-- The step of an event of an item of an order.
use tatuzin.Prelude.{
  ℕ, String, ◌≡◌, refl, false, not, ◌&&◌, inl, inr, Option, none, some, [], ◌∷◌, ◌==◌, nat_eq,
  or_else, is_some, is_none, includes, find?, Bool-cases,
}
use tatuzin.Prelude.Int.{ℤ, pos, ltb_ℤ}
use tatuzin.Payload.Json.{Runtime}
use tatuzin.Payload.Read.{positive_int, invalid_remote_identity}
use tatuzin.Payload.Identity.{domain_identity_for}
use tatuzin.Shop.Types.{Order, OrderItem, ShopTables}
use mathlib.Core.Path.{subst}
use tatuzin.Shop.Lookup.{Input, find_order, remote_keys}
use tatuzin.Shop.Lookup.Found.{IsIn, find_order-IsIn}
use tatuzin.Shop.Orders.{is_immutable, materialize_order}
use tatuzin.Shop.Orders.Step.{materialize_order-Step}
use tatuzin.Shop.OrderItems.{
  materialize, materialize_item, with_identity, with_existing, with_order, with_quantity,
  with_total, with_target, write_item, written, Target, missing_variant, no_product, target, aim,
  item_total, total_of, quantity_of, parent_of, resolve_product_target, item_keys,
}
use tatuzin.Shop.Steps.{Steps, Steps-if, Steps-choice, is_item, nothing, item_created, item_changed}

aim_parent : (t : Target) (x : OrderItem) → (aim t x).operational_order_id ≡ x.operational_order_id
aim_parent (target p v) x = refl
aim_parent no_product x = refl
aim_parent missing_variant x = refl

aim_id : (t : Target) (x : OrderItem) → (aim t x).id ≡ x.id
aim_id (target p v) x = refl
aim_id no_product x = refl
aim_id missing_variant x = refl

aim_key : (t : Target) (x : OrderItem) → (aim t x).local_uuid ≡ x.local_uuid
aim_key (target p v) x = refl
aim_key no_product x = refl
aim_key missing_variant x = refl

module _ (js : Runtime) (text_of_id : ℕ → String) (i : Input) (s : ShopTables) where
  -- No order of the item is immutable.
  abbrev IsLive : OrderItem → Type 0
  IsLive x =
      (o : Order)
      → find? (λ o. nat_eq o.id x.operational_order_id) s.orders ≡ some o
      → is_immutable o ≡ false

  -- What the guards have made sure of.
  abbrev Ready : String → Option OrderItem → Order → Type 0
  Ready uuid none o =
      IsIn o s.orders
      × (is_immutable o ≡ false)
      × (find? (is_item i.ctx.company_id uuid) s.order_items ≡ none)
  Ready uuid (some x) o = IsIn x s.order_items × IsLive x

  created :
      (uuid : String) (o : Order) (product : Target) (quantity total : ℤ)
      → IsIn o s.orders
      → is_immutable o ≡ false
      → find? (is_item i.ctx.company_id uuid) s.order_items ≡ none
      → Steps i.ctx s (write_item js text_of_id i uuid o none product quantity total s)
  unfolding write_item written
  created uuid o product quantity total known live absent =
      item_created _ o known live (aim_parent product _) (aim_id product _)
        (rw (aim_key product _) absent)

  write_item-Step :
      (uuid : String) (o : Order) (existing : Option OrderItem) (product : Target)
      (quantity total : ℤ)
      → Ready uuid existing o
      → Steps i.ctx s (write_item js text_of_id i uuid o existing product quantity total s)
  unfolding write_item written
  write_item-Step uuid o none product quantity total ready =
      let (known, live, absent) = ready in created uuid o product quantity total known live absent
  write_item-Step uuid o (some x) product quantity total ready =
      item_changed x _ ready.0 ready.1 (aim_parent product) (aim_id product)

  with_target-Step :
      (uuid : String) (o : Order) (existing : Option OrderItem) (quantity total : ℤ)
      (product : Target)
      → Ready uuid existing o
      → Steps i.ctx s (with_target js text_of_id i uuid o existing quantity total product s)
  unfolding with_target
  with_target-Step uuid o existing quantity total missing_variant ready = nothing
  with_target-Step uuid o existing quantity total no_product ready =
      write_item-Step uuid o existing no_product quantity total ready
  with_target-Step uuid o existing quantity total (target p v) ready =
      write_item-Step uuid o existing (target p v) quantity total ready

  with_total-Step :
      (uuid : String) (o : Order) (existing : Option OrderItem) (quantity : ℤ) (total : Option ℤ)
      → Ready uuid existing o
      → Steps i.ctx s (with_total js text_of_id i uuid o existing quantity total s)
  unfolding with_total
  with_total-Step uuid o existing quantity none ready = nothing
  with_total-Step uuid o existing quantity (some total) ready =
      Steps-if i.ctx s (is_some (invalid_remote_identity js i.payload remote_keys)) _ _ nothing λ p.
        with_target-Step uuid o existing quantity total
          (resolve_product_target js text_of_id i s.products s.variants) ready

  with_quantity-Step :
      (uuid : String) (o : Order) (existing : Option OrderItem) (quantity : Option ℤ)
      → Ready uuid existing o
      → Steps i.ctx s (with_quantity js text_of_id i uuid o existing quantity s)
  unfolding with_quantity
  with_quantity-Step uuid o existing none ready = nothing
  with_quantity-Step uuid o existing (some quantity) ready =
      let total = item_total js text_of_id i quantity (total_of existing) in
      elim (Bool-cases (ltb_ℤ (pos 0) quantity)) [
        | inr p ↦ rw p nothing
        | inl p ↦ rw p (with_total-Step uuid o existing quantity total ready)
      ]

  with_order-Step :
      (uuid : String) (existing : Option OrderItem) (order : Option Order)
      → ((o : Order) → order ≡ some o → is_immutable o ≡ false → Ready uuid existing o)
      → Steps i.ctx s (with_order js text_of_id i uuid existing order s)
  unfolding with_order
  with_order-Step uuid existing none ready = nothing
  with_order-Step uuid existing (some o) ready = Steps-if i.ctx s (is_immutable o) _ _ nothing λ p.
      Steps-if i.ctx s (i.event.operation == "update" && is_none existing) _ _ nothing λ q.
        with_quantity-Step uuid o existing
          (or_else (positive_int js i.payload ("quantityMil" ∷ "quantity" ∷ []))
            (quantity_of existing))
          (ready o refl p)

  with_existing-Step :
      (uuid : String) (existing : Option OrderItem)
      → find? (is_item i.ctx.company_id uuid) s.order_items ≡ existing
      → Steps i.ctx s (with_existing js text_of_id i uuid existing s)
  unfolding with_existing
  with_existing-Step uuid none absent =
      with_order-Step uuid none _
        (λ o e live. (find_order-IsIn js text_of_id i s.orders o e, live, absent))
  with_existing-Step uuid (some x) found =
      Steps-if i.ctx s (includes ("create" ∷ "append" ∷ []) i.event.operation) _ _ nothing
        λ p. with_order-Step uuid (some x) _ (λ o e live. ((_, found), parent o e live))
    where
      parent :
          (o : Order)
          → or_else (parent_of (some x) s.orders) (find_order js text_of_id i s.orders) ≡ some o
          → is_immutable o ≡ false
          → IsLive x
      parent o e live p known =
          let both : some p ≡ some o = rw known at e in
          let same : o ≡ p = cc in subst (λ q. is_immutable q ≡ false) same live

  with_identity-Step : (uuid : Option String) → Steps i.ctx s (with_identity js text_of_id i uuid s)
  unfolding with_identity
  with_identity-Step none = nothing
  with_identity-Step (some uuid) = with_existing-Step uuid _ refl

  materialize_item-Step : Steps i.ctx s (materialize_item js text_of_id i s)
  unfolding materialize_item
  materialize_item-Step =
      Steps-choice i.ctx s
        (not (includes ("create" ∷ "append" ∷ "update" ∷ "upsert" ∷ []) i.event.operation)) _
        (with_identity js text_of_id i (
          domain_identity_for js i.event i.payload item_keys
            (includes ("create" ∷ "append" ∷ []) i.event.operation)))
        nothing (λ p. with_identity-Step _)

  -- An event of an order or of an item makes one step.
  pub materialize-Step : Steps i.ctx s (materialize js text_of_id i s)
  unfolding materialize
  materialize-Step =
      Steps-choice i.ctx s (i.event.entity == "operationalOrder")
        (materialize_order js text_of_id i) _ (materialize_order-Step js text_of_id i s)
        λ p.
          Steps-choice i.ctx s (i.event.entity == "operationalOrderItem")
            (materialize_item js text_of_id i) _ materialize_item-Step (λ q. nothing)
