-- ===== src/Shop/Reservations/Step.antt =====
-- The step of an event of a reservation of stock.
use tatuzin.Prelude.{
  ℕ, String, ◌≡◌, refl, ◌==◌, not, inl, inr, Option, none, some, [], ◌∷◌, is_some, includes, find?,
  eq_iff, and-left, Option-cases,
}
use tatuzin.Prelude.Int.{ℤ, ltb_ℤ}
use tatuzin.Payload.Json.{Runtime}
use tatuzin.Payload.Read.{first_string, first_uuid, positive_int, invalid_remote_identity}
use tatuzin.Shop.Types.{Reservation, ShopTables}
use tatuzin.Shop.Lookup.{
  Input, remote_keys, variant_keys, product_keys, variant_by_id, product_by_id,
}
use tatuzin.Shop.Lookup.Found.{variant_by_id-IsIn, product_by_id-IsIn, found-test}
use tatuzin.Shop.Stock.{StockTarget, stock_of}
use tatuzin.Shop.Reservations.{
  materialize_reservation, reserve_identity, reserve_existing, reserve_quantity, reserve_target,
  create_reservation, update_reservation, resolve_stock_target,
}
use tatuzin.Shop.Steps.{
  Steps, Steps-if, Steps-choice, IsTarget, is_reservation, nothing, reservation_created,
  reservation_changed,
}

module _ (js : Runtime) (text_of_id : ℕ → String) (i : Input) (s : ShopTables) where
  abbrev Resolves : Option StockTarget → Type 0
  Resolves none = Unit
  Resolves (some t) = IsTarget t s

  -- The target of an event is a row of the tables.
  resolved : Resolves (resolve_stock_target js text_of_id i s.products s.variants)
  unfolding resolve_stock_target
  resolved = elim (Option-cases (first_uuid i.payload variant_keys)) [
    | inr variant ↦
        elim (Option-cases (variant_by_id js text_of_id i variant.0 s.products s.variants)) [
          | inl p ↦ rw (variant.1, p, resolve_stock_target) tt
          | inr v ↦
              rw (variant.1, v.1, resolve_stock_target)
                (variant_by_id-IsIn js text_of_id i variant.0 s.products s.variants v.0 v.1)
        ]
    | inl no_variant ↦ elim (Option-cases (first_uuid i.payload product_keys)) [
      | inl p ↦ rw (no_variant, p, resolve_stock_target) tt
      | inr product ↦ elim (Option-cases (product_by_id js text_of_id i product.0 s.products)) [
        | inl p ↦ rw (no_variant, product.1, p, resolve_stock_target) tt
        | inr row ↦
            rw (no_variant, product.1, row.1, resolve_stock_target)
              (product_by_id-IsIn js text_of_id i product.0 s.products row.0 row.1)
      ]
    ]
  ]

  abbrev Absent : String → Type 0
  Absent uuid = find? (is_reservation i.ctx.company_id uuid) s.reservations ≡ none

  reserve_target-Step :
      (uuid : String) (quantity : ℤ) (t : Option StockTarget)
      → Absent uuid
      → Resolves t
      → Steps i.ctx s (reserve_target js text_of_id i uuid quantity t s)
  unfolding reserve_target create_reservation
  reserve_target-Step uuid quantity none absent known = nothing
  reserve_target-Step uuid quantity (some t) absent known =
      Steps-choice i.ctx s (ltb_ℤ (stock_of t) quantity) _
        (create_reservation js text_of_id i uuid quantity t) nothing
        λ p. reservation_created t _ known (record {
          id = refl;
          product_id = refl;
          product_variant_id = refl;
          enough = p;
          company_id = refl;
          absent = absent;
        })

  reserve_quantity-Step :
      (uuid : String) (quantity : Option ℤ)
      → Absent uuid
      → Steps i.ctx s (reserve_quantity js text_of_id i uuid quantity s)
  unfolding reserve_quantity
  reserve_quantity-Step uuid none absent = nothing
  reserve_quantity-Step uuid (some quantity) absent =
      Steps-if i.ctx s (is_some (invalid_remote_identity js i.payload remote_keys)) _ _ nothing
        (λ p. reserve_target-Step uuid quantity _ absent resolved)

  reserve_existing-Step :
      (uuid : String) (existing : Option Reservation)
      → find? (is_reservation i.ctx.company_id uuid) s.reservations ≡ existing
      → Steps i.ctx s (reserve_existing js text_of_id i uuid existing s)
  unfolding reserve_existing update_reservation
  reserve_existing-Step uuid (some x) found =
      Steps-choice i.ctx s (includes ("update" ∷ "upsert" ∷ []) i.event.operation)
        (update_reservation js text_of_id i x) _
        (reservation_changed x (first_string i.payload ("status" ∷ [])) i.payload (_, found)
          ((eq_iff x.company_id i.ctx.company_id).0 (
            and-left (x.company_id == i.ctx.company_id) (x.local_uuid == uuid)
              (found-test _ s.reservations x found))))
        (λ p. nothing)
  reserve_existing-Step uuid none absent =
      Steps-choice i.ctx s (not (includes ("create" ∷ "append" ∷ "upsert" ∷ []) i.event.operation))
        _
        (reserve_quantity js text_of_id i uuid
          (positive_int js i.payload ("quantityMil" ∷ "quantity" ∷ [])))
        nothing (λ p. reserve_quantity-Step uuid _ absent)

  reserve_identity-Step :
      (uuid : Option String) → Steps i.ctx s (reserve_identity js text_of_id i uuid s)
  unfolding reserve_identity
  reserve_identity-Step none = nothing
  reserve_identity-Step (some uuid) = reserve_existing-Step uuid _ refl

  -- An event of a reservation makes one step.
  pub materialize_reservation-Step : Steps i.ctx s (materialize_reservation js text_of_id i s)
  unfolding materialize_reservation
  materialize_reservation-Step = reserve_identity-Step _
