-- ===== src/Shop/SaleItems/Step.antt =====
-- The step of an event of an item of a sale.
use tatuzin.Prelude.{
  ℕ, String, ◌≡◌, refl, true, not, Option, none, some, [], ◌∷◌, is_some, includes, find?,
}
use tatuzin.Prelude.Int.{ℤ}
use tatuzin.Payload.Json.{Runtime}
use tatuzin.Payload.Read.{invalid_remote_identity}
use tatuzin.Payload.Identity.{domain_identity_for}
use tatuzin.Shop.Types.{Sale, SaleItem, ShopTables}
use tatuzin.Shop.Lookup.{Input, product_keys}
use tatuzin.Shop.Lookup.Found.{IsIn, find_sale-IsOwn}
use tatuzin.Shop.SaleItems.{
  materialize_sale_item, with_identity, with_sale, with_quantity, with_existing, with_product,
  new_sale_item, item_keys,
}
use tatuzin.Shop.Steps.{Steps, Steps-if, Steps-choice, is_sale_item, nothing, sale_item_created}

module _ (js : Runtime) (text_of_id : ℕ → String) (i : Input) (s : ShopTables) where
  module _ (uuid : String) (sale : Sale) (known : IsIn sale s.sales)
      (own : sale.company_id ≡ i.ctx.company_id) where
    with_product-Step :
        (quantity : ℤ) (product : Option ℕ)
        → find? (is_sale_item sale.id uuid) s.sale_items ≡ none
        → Steps i.ctx s (with_product js text_of_id i uuid sale.id quantity product s)
    unfolding with_product new_sale_item
    with_product-Step quantity none absent = nothing
    with_product-Step quantity (some product) absent =
        sale_item_created _ sale known own refl absent

    with_existing-Step :
        (quantity : ℤ) (existing : Option SaleItem)
        → find? (is_sale_item sale.id uuid) s.sale_items ≡ existing
        → Steps i.ctx s (with_existing js text_of_id i uuid sale.id quantity existing s)
    unfolding with_existing
    with_existing-Step quantity (some x) found = nothing
    with_existing-Step quantity none absent =
        Steps-if i.ctx s (is_some (invalid_remote_identity js i.payload product_keys)) _ _ nothing
          (λ p. with_product-Step quantity _ absent)

    with_quantity-Step :
        (quantity : Option ℤ)
        → Steps i.ctx s (with_quantity js text_of_id i uuid sale.id quantity s)
    unfolding with_quantity
    with_quantity-Step none = nothing
    with_quantity-Step (some quantity) = with_existing-Step quantity _ refl

  with_sale-Step :
      (uuid : String) (sale : Option Sale)
      → ((x : Sale) → sale ≡ some x → IsIn x s.sales × (x.company_id ≡ i.ctx.company_id))
      → Steps i.ctx s (with_sale js text_of_id i uuid sale s)
  unfolding with_sale
  with_sale-Step uuid none known = nothing
  with_sale-Step uuid (some x) known = with_quantity-Step uuid x (known x refl).0 (known x refl).1 _

  with_identity-Step : (uuid : Option String) → Steps i.ctx s (with_identity js text_of_id i uuid s)
  unfolding with_identity
  with_identity-Step none = nothing
  with_identity-Step (some uuid) = with_sale-Step uuid _ (find_sale-IsOwn js text_of_id i s.sales)

  -- An event of an item of a sale makes one step.
  pub materialize_sale_item-Step : Steps i.ctx s (materialize_sale_item js text_of_id i s)
  unfolding materialize_sale_item
  materialize_sale_item-Step =
      Steps-choice i.ctx s (not (includes ("create" ∷ "append" ∷ "upsert" ∷ []) i.event.operation))
        _ (with_identity js text_of_id i (domain_identity_for js i.event i.payload item_keys true))
        nothing (λ p. with_identity-Step _)
