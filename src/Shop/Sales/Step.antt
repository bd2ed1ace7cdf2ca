-- ===== src/Shop/Sales/Step.antt =====
-- The step of an event of a sale.
use tatuzin.Prelude.{
  ℕ, String, ◌≡◌, refl, false, not, Option, none, some, [], ◌∷◌, is_some, includes, find?,
  is_some-none,
}
use tatuzin.Payload.Json.{Runtime}
use tatuzin.Sync.Types.{Outcome}
use tatuzin.Shop.Types.{Sale, Order, ShopTables}
use mathlib.Core.Path.{subst}
use tatuzin.Shop.Lookup.{Input, sale_by_uuid}
use tatuzin.Shop.Lookup.Found.{IsIn, find_order-IsIn}
use tatuzin.Shop.Sales.{
  materialize_sale, authorized, with_identity, with_existing, with_order, with_receipt, create_sale,
  new_sale, convert_existing_sale_order, receipt_owner, has_conflict, same_id, is_taken, convert,
  convert_order,
}
use tatuzin.Shop.Steps.{
  Steps, Steps-if, Steps-choice, IsNewSale, is_sale, nothing, sale_created, sale_converting,
  order_converted,
}

module _ (js : Runtime) (text_of_id : ℕ → String) (i : Input) (s : ShopTables) where
  -- The order of a new sale, that may be converted.
  abbrev Convertible : Option Order → Type 0
  Convertible none = Unit
  Convertible (some o) = IsIn o s.orders × (has_conflict o none ≡ false)

  module _ (uuid : String) (absent : find? (is_sale i.ctx.company_id uuid) s.sales ≡ none) where
    new_sale-IsNewSale :
        (number : Option String)
        → ((n : String) → number ≡ some n → receipt_owner i.ctx.company_id n s.sales ≡ none)
        → IsNewSale i.ctx s (new_sale js text_of_id i uuid number s)
    unfolding new_sale
    new_sale-IsNewSale number unique = record {
      id = refl;
      company_id = refl;
      absent = absent;
      receipt = unique;
    }

    create_sale-Step :
        (number : Option String) (order : Option Order)
        → ((n : String) → number ≡ some n → receipt_owner i.ctx.company_id n s.sales ≡ none)
        → Convertible order
        → Steps i.ctx s (create_sale js text_of_id i uuid number order s)
    unfolding create_sale new_sale convert_order convert
    create_sale-Step number none unique order = sale_created _ (new_sale-IsNewSale number unique)
    create_sale-Step number (some o) unique order =
        Steps-if i.ctx s (is_taken s.next_id s.orders) _ _
          (sale_created _ (new_sale-IsNewSale number unique))
          (λ free. sale_converting _ o (new_sale-IsNewSale number unique) order.0 order.1 free)

    with_receipt-Step :
        (number : Option String) (order : Option Order)
        → Convertible order
        → Steps i.ctx s (with_receipt js text_of_id i uuid number order s)
    unfolding with_receipt
    with_receipt-Step none order ready = create_sale-Step none order (λ n bad. absurd cc) ready
    with_receipt-Step (some number) order ready =
        Steps-if i.ctx s (is_some (receipt_owner i.ctx.company_id number s.sales)) _ _ nothing λ p.
          create_sale-Step (some number) order
            (λ n e.
              let same : number ≡ n = cc in
              subst (λ m. receipt_owner i.ctx.company_id m s.sales ≡ none) same (is_some-none _ p))
            ready

    with_order-Step :
        (order : Option Order)
        → ((o : Order) → order ≡ some o → IsIn o s.orders)
        → Steps i.ctx s (with_order js text_of_id i uuid order s)
    unfolding with_order
    with_order-Step none found = with_receipt-Step _ none tt
    with_order-Step (some o) found =
        Steps-choice i.ctx s (has_conflict o none) _ _ nothing
          (λ p. with_receipt-Step _ (some o) (found o refl, p))

  convert_existing-Step :
      (sale : Sale) (order : Option Order)
      → IsIn sale s.sales
      → ((o : Order) → order ≡ some o → IsIn o s.orders)
      → Steps i.ctx s (convert_existing_sale_order js text_of_id i sale.id order s)
  unfolding convert_existing_sale_order convert
  convert_existing-Step sale none known found = nothing
  convert_existing-Step sale (some o) known found =
      Steps-if i.ctx s (has_conflict o (some sale.id)) _ _ nothing λ p.
        Steps-if i.ctx s (same_id o.converted_sale_id (some sale.id)) _ _ nothing λ q.
          Steps-if i.ctx s (is_taken sale.id s.orders) _ _ nothing
            (λ free. order_converted sale o known (found o refl) p q free)

  with_existing-Step :
      (uuid : String) (existing : Option Sale)
      → find? (is_sale i.ctx.company_id uuid) s.sales ≡ existing
      → Steps i.ctx s (with_existing js text_of_id i uuid existing s)
  unfolding with_existing
  with_existing-Step uuid none absent =
      with_order-Step uuid absent _ (find_order-IsIn js text_of_id i s.orders)
  with_existing-Step uuid (some sale) found =
      convert_existing-Step sale _ (_, found) (find_order-IsIn js text_of_id i s.orders)

  with_identity-Step : (uuid : Option String) → Steps i.ctx s (with_identity js text_of_id i uuid s)
  unfolding with_identity sale_by_uuid
  with_identity-Step none = nothing
  with_identity-Step (some uuid) = with_existing-Step uuid _ refl

  authorized-Step :
      (refusal : Option Outcome) → Steps i.ctx s (authorized js text_of_id i refusal s)
  unfolding authorized
  authorized-Step (some o) = nothing
  authorized-Step none = with_identity-Step _

  -- An event of a sale makes one step.
  pub materialize_sale-Step : Steps i.ctx s (materialize_sale js text_of_id i s)
  unfolding materialize_sale
  materialize_sale-Step =
      Steps-if i.ctx s (includes ("update" ∷ "delete" ∷ []) i.event.operation) _ _ nothing λ p.
        Steps-if i.ctx s (not (includes ("create" ∷ "upsert" ∷ "append" ∷ []) i.event.operation)) _
          _ nothing (λ q. authorized-Step _)
