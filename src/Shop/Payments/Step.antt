-- ===== src/Shop/Payments/Step.antt =====
-- The steps of an event of a payment and of a receipt.
use tatuzin.Prelude.{
  ℕ, String, ◌≡◌, refl, true, not, inl, inr, Option, none, some, List, [], ◌∷◌, nat_eq, or_else,
  includes, find?, Bool-cases, Option-cases,
}
use tatuzin.Prelude.Int.{ℤ, pos, ltb_ℤ}
use tatuzin.Payload.Json.{Runtime, Fields}
use tatuzin.Payload.Read.{first_int, first_string, positive_int}
use tatuzin.Payload.Identity.{domain_identity_for, local_identity_for}
use tatuzin.Shop.Types.{Sale, FinancialEvent, ShopTables}
use mathlib.Core.Path.{subst}
use tatuzin.Shop.Lookup.{Input}
use tatuzin.Shop.Lookup.Found.{IsIn, IsOwn, find_sale-IsOwn}
use tatuzin.Shop.Sales.{receipt_owner}
use tatuzin.Shop.Payments.{
  materialize_payment, materialize_receipt, with_identity, with_amount, with_sale, with_existing,
  new_payment, with_number, with_owner, payment_keys, is_payment,
}
use tatuzin.Shop.Steps.{Steps, Steps-if, Steps-choice, nothing, payment_created, receipt_set}

positive :
    (payload : Fields) (js : Runtime) (keys : List String) (amount : ℤ)
    → positive_int js payload keys ≡ some amount
    → ltb_ℤ (pos 0) amount ≡ true
unfolding positive_int
positive payload js keys amount h = elim (Option-cases (first_int js payload keys)) [
  | inl p ↦ let bad : none ≡ some amount = rw (p, positive_int) at h in cc
  | inr v ↦ elim (Bool-cases (ltb_ℤ (pos 0) v.0)) [
    | inl q ↦
        let here : some v.0 ≡ some amount = rw (v.1, q, positive_int) at h in
        let same : v.0 ≡ amount = cc in subst (λ n. ltb_ℤ (pos 0) n ≡ true) same q
    | inr q ↦ let bad : none ≡ some amount = rw (v.1, q, positive_int) at h in cc
  ]
]

module _ (js : Runtime) (text_of_id : ℕ → String) (i : Input) (s : ShopTables) where
  module _ (uuid : String) (amount : ℤ) (above : ltb_ℤ (pos 0) amount ≡ true) where
    with_existing-Step :
        (sale : Sale) (existing : Option FinancialEvent)
        → IsIn sale s.sales
        → find? (is_payment i.ctx.company_id uuid) s.financial_events ≡ existing
        → Steps i.ctx s (with_existing js text_of_id i uuid amount sale.id existing s)
    unfolding with_existing new_payment
    with_existing-Step sale (some x) known found = nothing
    with_existing-Step sale none known absent = payment_created _ (record {
      id = refl;
      company_id = refl;
      amount = above;
      absent = absent;
      sale = (sale, known, refl);
    })

    with_sale-Step :
        (sale : Option Sale)
        → ((x : Sale) → sale ≡ some x → IsIn x s.sales)
        → Steps i.ctx s (with_sale js text_of_id i uuid amount sale s)
    unfolding with_sale
    with_sale-Step none known = nothing
    with_sale-Step (some sale) known = with_existing-Step sale _ (known sale refl) refl

  with_amount-Step :
      (uuid : String) (amount : Option ℤ)
      → ((a : ℤ) → amount ≡ some a → ltb_ℤ (pos 0) a ≡ true)
      → Steps i.ctx s (with_amount js text_of_id i uuid amount s)
  unfolding with_amount
  with_amount-Step uuid none above = nothing
  with_amount-Step uuid (some amount) above =
      with_sale-Step uuid amount (above amount refl) _
        (λ x e. (find_sale-IsOwn js text_of_id i s.sales x e).0)

  with_identity-Step : (uuid : Option String) → Steps i.ctx s (with_identity js text_of_id i uuid s)
  unfolding with_identity
  with_identity-Step none = nothing
  with_identity-Step (some uuid) =
      with_amount-Step uuid _ (positive i.payload js ("amountCents" ∷ "amount" ∷ []))

  -- An event of a payment makes one step.
  pub materialize_payment-Step : Steps i.ctx s (materialize_payment js text_of_id i s)
  unfolding materialize_payment
  materialize_payment-Step =
      Steps-choice i.ctx s (not (includes ("create" ∷ "append" ∷ "upsert" ∷ []) i.event.operation))
        _
        (with_identity js text_of_id i (domain_identity_for js i.event i.payload payment_keys true))
        nothing (λ p. with_identity-Step _)

  with_owner-Step :
      (number : String) (owner sale : Option Sale)
      → receipt_owner i.ctx.company_id number s.sales ≡ owner
      → ((x : Sale) → sale ≡ some x → IsOwn js text_of_id i x s.sales)
      → Steps i.ctx s (with_owner js text_of_id i number owner sale s)
  unfolding with_owner
  with_owner-Step number (some owner) none e known = nothing
  with_owner-Step number (some owner) (some sale) e known =
      Steps-if i.ctx s (nat_eq owner.id sale.id) _ _ nothing (λ p. nothing)
  with_owner-Step number none none e known = nothing
  with_owner-Step number none (some sale) e known =
      let own = known sale refl in receipt_set sale number own.0 own.1 e

  with_number-Step : (number : Option String) → Steps i.ctx s (with_number js text_of_id i number s)
  unfolding with_number
  with_number-Step none = nothing
  with_number-Step (some number) =
      with_owner-Step number _ _ refl (find_sale-IsOwn js text_of_id i s.sales)

  -- An event of a receipt makes one step.
  pub materialize_receipt-Step : Steps i.ctx s (materialize_receipt js text_of_id i s)
  unfolding materialize_receipt
  materialize_receipt-Step =
      Steps-choice i.ctx s (not (includes ("create" ∷ "append" ∷ "upsert" ∷ []) i.event.operation))
        _
        (with_number js text_of_id i (
          or_else (first_string i.payload ("receiptNumber" ∷ "number" ∷ []))
            (local_identity_for js i.event i.payload)))
        nothing (λ p. with_number-Step _)
