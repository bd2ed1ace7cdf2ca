-- ===== src/Shop/Reservations.antt =====
-- `materializeReservation` of stock.materializer.ts.
pub mod Step
use tatuzin.Prelude.{
  ℕ, suc, String, Bool, true, false, not, ◌&&◌, ◌||◌, Option, none, some, List, [], ◌∷◌, ◌++◌, ◌==◌,
  nat_eq, get_or, is_some, is_none, any, includes, find?, if◌then◌else◌,
}
use tatuzin.Prelude.Int.{ℤ, pos, ltb_ℤ, ◌-ℤ◌}
use tatuzin.Payload.Json.{Runtime}
use tatuzin.Payload.Read.{
  first_string, first_date, first_uuid, positive_int, abs_positive_int, invalid_remote_identity,
}
use tatuzin.Payload.Identity.{domain_identity_for}
use tatuzin.Exec.{Exec, Result, pure}
use tatuzin.Sync.Types.{Outcome}
use tatuzin.Sync.Tables.{update_first}
use tatuzin.Shop.Types.{Sale, Reservation, Deduction, Product, Variant, ShopTables}
use tatuzin.Shop.Lookup.{
  Input, accepted, duplicate, variant_keys, product_keys, remote_keys, variant_by_id, product_by_id,
  find_sale,
}
use tatuzin.Shop.Stock.{
  StockTarget, of_variant, of_product, stock_of, product_of, variant_of, id_of_sale, decrement,
}

abbrev reservation_keys : List String
reservation_keys =
    "reservationLocalId" ∷ "reservationUuid" ∷ "stockReservationLocalId" ∷ "uuid" ∷ "localUuid"
    ∷ "localId" ∷ "id" ∷ []

abbrev pub add_reservation : Reservation → ShopTables → ShopTables
add_reservation x s = record s { reservations = s.reservations ++ x ∷ []; next_id = suc s.next_id }

abbrev pub change_reservation : ℕ → (Reservation → Reservation) → ShopTables → ShopTables
change_reservation id f s = record s {
  reservations = update_first (λ x. nat_eq x.id id) f s.reservations;
}

module _ (js : Runtime) (text_of_id : ℕ → String) (i : Input) where
  -- `resolveStockTarget`
  unfoldable resolve_stock_target : List Product → List Variant → Option StockTarget
  unfolding first_uuid variant_by_id product_by_id
  resolve_stock_target products variants = elim (first_uuid i.payload variant_keys) [
    | some id ↦ elim (variant_by_id js text_of_id i id products variants) [
      | none ↦ none
      | some v ↦ some (of_variant v)
    ]
    | none ↦ elim (first_uuid i.payload product_keys) [
      | none ↦ none
      | some id ↦ elim (product_by_id js text_of_id i id products) [
        | none ↦ none
        | some p ↦ some (of_product p)
      ]
    ]
  ]

  -- `stockReservation.update`
  unfoldable update_reservation : Reservation → Exec ShopTables Outcome
  unfolding first_string
  update_reservation row s = (
    Result.ok (accepted js text_of_id i row.id),
    change_reservation row.id
        (λ x. record x {
          status = get_or (first_string i.payload ("status" ∷ [])) x.status;
          payload = i.payload;
        })
        s,
  )

  unfoldable create_reservation : String → ℤ → StockTarget → Exec ShopTables Outcome
  unfolding first_string first_date find_sale
  create_reservation uuid quantity t s =
      let new : Reservation = record {
        id = s.next_id;
        company_id = i.ctx.company_id;
        sale_id = id_of_sale (find_sale js text_of_id i s.sales);
        product_id = product_of t;
        product_variant_id = variant_of t;
        local_uuid = uuid;
        quantity_mil = quantity;
        status = get_or (first_string i.payload ("status" ∷ [])) "active";
        payload = i.payload;
        created_at = first_date js i.payload ("createdAt" ∷ "occurredAt" ∷ []) i.ctx.now;
      } in
      (Result.ok (accepted js text_of_id i s.next_id), add_reservation new s)

  unfoldable reserve_target : String → ℤ → Option StockTarget → Exec ShopTables Outcome
  unfolding create_reservation
  reserve_target uuid quantity none = pure (Outcome.conflict "STOCK_VARIANT_NOT_FOUND")
  reserve_target uuid quantity (some t) =
      if ltb_ℤ (stock_of t) quantity
      then pure (Outcome.conflict "STOCK_UNAVAILABLE")
      else create_reservation uuid quantity t

  unfoldable reserve_quantity : String → Option ℤ → Exec ShopTables Outcome
  unfolding reserve_target resolve_stock_target invalid_remote_identity
  reserve_quantity uuid none s = pure (Outcome.rejected "INVALID_QUANTITY") s
  reserve_quantity uuid (some quantity) s =
      if is_some (invalid_remote_identity js i.payload remote_keys)
      then pure (Outcome.rejected "INVALID_REMOTE_ID") s
      else reserve_target uuid quantity (resolve_stock_target s.products s.variants) s

  unfoldable reserve_existing : String → Option Reservation → Exec ShopTables Outcome
  unfolding update_reservation reserve_quantity positive_int
  reserve_existing uuid (some row) =
      if includes ("update" ∷ "upsert" ∷ []) i.event.operation
      then update_reservation row
      else pure (duplicate js text_of_id i row.id)
  reserve_existing uuid none =
      if not (includes ("create" ∷ "append" ∷ "upsert" ∷ []) i.event.operation)
      then pure (Outcome.rejected "INVALID_OPERATION")
      else reserve_quantity uuid (positive_int js i.payload ("quantityMil" ∷ "quantity" ∷ []))

  unfoldable reserve_identity : Option String → Exec ShopTables Outcome
  unfolding reserve_existing
  reserve_identity none s = pure (Outcome.rejected "LOCAL_ID_REQUIRED") s
  reserve_identity (some uuid) s =
      reserve_existing uuid
        (find? (λ x. x.company_id == i.ctx.company_id && x.local_uuid == uuid) s.reservations) s

  -- `materializeReservation`
  unfoldable pub materialize_reservation : Exec ShopTables Outcome
  unfolding reserve_identity domain_identity_for
  materialize_reservation =
      reserve_identity (domain_identity_for js i.event i.payload reservation_keys true)
