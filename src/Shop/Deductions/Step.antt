-- ===== src/Shop/Deductions/Step.antt =====
-- The step of an event of a deduction of stock.
use tatuzin.Prelude.{
  ℕ, String, ◌≡◌, refl, true, not, inl, inr, Option, none, some, [], ◌∷◌, includes, find?,
  Bool-cases, Option-cases,
}
use tatuzin.Prelude.Int.{pos, ltb_ℤ}
use tatuzin.Payload.Json.{Runtime}
use tatuzin.Payload.Read.{first_uuid}
use tatuzin.Payload.Identity.{domain_identity_for}
use tatuzin.Shop.Types.{Deduction, ShopTables}
use tatuzin.Shop.Lookup.{Input, variant_keys, product_keys, variant_by_id, product_by_id}
use tatuzin.Shop.Lookup.Found.{variant_by_id-IsIn, product_by_id-IsIn}
use tatuzin.Shop.Stock.{stock_of}
use tatuzin.Shop.Deductions.{
  materialize_deduction, deduct_identity, deduct_existing, deduct_quantity, deduct_target,
  new_deduction, Resolution, found, refused, resolve_deduction_stock_target,
  has_remote_identity_issue, has_active_variants, deduction_keys,
}
use tatuzin.Shop.Steps.{Steps, Steps-if, Steps-choice, IsTarget, is_deduction, nothing, deducted}

module _ (js : Runtime) (text_of_id : ℕ → String) (i : Input) (s : ShopTables) where
  abbrev Resolves : Resolution → Type 0
  Resolves (found t) = IsTarget t s
  Resolves (refused o) = Unit

  -- The target of an event is a row of the tables.
  resolved : Resolves (resolve_deduction_stock_target js text_of_id i s.products s.variants)
  unfolding resolve_deduction_stock_target
  resolved = elim (Option-cases (first_uuid i.payload variant_keys)) [
    | inr variant ↦
        elim (Option-cases (variant_by_id js text_of_id i variant.0 s.products s.variants)) [
          | inl p ↦ rw (variant.1, p, resolve_deduction_stock_target) tt
          | inr v ↦
              rw (variant.1, v.1, resolve_deduction_stock_target)
                (variant_by_id-IsIn js text_of_id i variant.0 s.products s.variants v.0 v.1)
        ]
    | inl no_variant ↦ elim (Option-cases (first_uuid i.payload product_keys)) [
      | inl p ↦ rw (no_variant, p, resolve_deduction_stock_target) tt
      | inr product ↦ elim (Option-cases (product_by_id js text_of_id i product.0 s.products)) [
        | inl p ↦ rw (no_variant, product.1, p, resolve_deduction_stock_target) tt
        | inr row ↦ elim (Bool-cases (has_active_variants js text_of_id i row.0.id s.variants)) [
          | inl q ↦ rw (no_variant, product.1, row.1, q, resolve_deduction_stock_target) tt
          | inr q ↦
              rw (no_variant, product.1, row.1, q, resolve_deduction_stock_target)
                (product_by_id-IsIn js text_of_id i product.0 s.products row.0 row.1)
        ]
      ]
    ]
  ]

  module _ (uuid : String)
      (absent : find? (is_deduction i.ctx.company_id uuid) s.deductions ≡ none) where
    deduct_target-Step :
        (quantity : ℕ) (r : Resolution)
        → Resolves r
        → Steps i.ctx s (deduct_target js text_of_id i uuid quantity r s)
    unfolding deduct_target new_deduction
    deduct_target-Step quantity (refused o) known = nothing
    deduct_target-Step quantity (found t) known =
        Steps-if i.ctx s (ltb_ℤ (stock_of t) (pos quantity)) _ _ nothing λ p.
          deducted t _ known (record {
            product_id = refl;
            product_variant_id = refl;
            enough = p;
            company_id = refl;
            absent = absent;
          })

    deduct_quantity-Step :
        (quantity : Option ℕ) → Steps i.ctx s (deduct_quantity js text_of_id i uuid quantity s)
    unfolding deduct_quantity
    deduct_quantity-Step none = nothing
    deduct_quantity-Step (some quantity) =
        Steps-if i.ctx s (has_remote_identity_issue js text_of_id i) _ _ nothing
          (λ p. deduct_target-Step quantity _ resolved)

  deduct_existing-Step :
      (uuid : String) (existing : Option Deduction)
      → find? (is_deduction i.ctx.company_id uuid) s.deductions ≡ existing
      → Steps i.ctx s (deduct_existing js text_of_id i uuid existing s)
  unfolding deduct_existing
  deduct_existing-Step uuid (some x) known = nothing
  deduct_existing-Step uuid none absent = deduct_quantity-Step uuid absent _

  deduct_identity-Step :
      (uuid : Option String) → Steps i.ctx s (deduct_identity js text_of_id i uuid s)
  unfolding deduct_identity
  deduct_identity-Step none = nothing
  deduct_identity-Step (some uuid) = deduct_existing-Step uuid _ refl

  -- An event of a deduction makes one step.
  pub materialize_deduction-Step : Steps i.ctx s (materialize_deduction js text_of_id i s)
  unfolding materialize_deduction
  materialize_deduction-Step =
      Steps-choice i.ctx s (not (includes ("create" ∷ "append" ∷ "upsert" ∷ []) i.event.operation))
        _
        (deduct_identity js text_of_id i
          (domain_identity_for js i.event i.payload deduction_keys true))
        nothing (λ p. deduct_identity-Step _)
