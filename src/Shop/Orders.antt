-- ===== src/Shop/Orders.antt =====
-- `materializeOrder` of operational-order.materializer.ts, and what it reads of an event.
pub mod Step
pub mod Row
pub mod Frozen
use tatuzin.Prelude.{
  ℕ, suc, String, Bool, true, false, not, ◌&&◌, ◌||◌, Option, none, some, List, [], ◌∷◌, ◌++◌, ◌==◌,
  nat_eq, get_or, or_else, is_some, includes, find?, if◌then◌else◌,
}
use tatuzin.Prelude.Int.{ℤ, pos, ltb_ℤ}
use tatuzin.Prelude.Text.{trim}
use tatuzin.Payload.Json.{Runtime}
use tatuzin.Payload.Read.{first_string, first_date, non_negative_int, persistable_local_sequence}
use tatuzin.Payload.Identity.{domain_identity_for, local_sequence_for}
use tatuzin.Exec.{Exec, Result, pure, gets, modify, ◌>>=◌, ◌>>◌}
use tatuzin.Sync.Types.{Context, Outcome}
use tatuzin.Sync.Tables.{update_first}
use tatuzin.Cash.Types.{Session}
use tatuzin.Cash.Permissions.{require_sync_permission}
use tatuzin.Shop.Types.{Order, Customer, ShopTables}
use tatuzin.Shop.Lookup.{
  Input, accepted, duplicate, find_cash_session, resolve_customer_id, order_by_uuid,
}

abbrev order_keys : List String
order_keys =
    "operationalOrderLocalId" ∷ "operationalOrderLocalUuid" ∷ "orderLocalId" ∷ "orderUuid" ∷ "uuid"
    ∷ "localUuid" ∷ "localId" ∷ "id" ∷ []

-- `isCanceled`
abbrev pub is_canceled : Order → Bool
is_canceled o = is_some o.cancelled_at || includes ("canceled" ∷ "cancelled" ∷ []) o.status

-- `isImmutable`
abbrev pub is_immutable : Order → Bool
is_immutable o = is_some o.converted_sale_id || o.status == "converted" || is_canceled o

-- the row of `operationalOrder.update` for an id
abbrev pub change_order : ℕ → (Order → Order) → ShopTables → ShopTables
change_order id f s = record s { orders = update_first (λ o. nat_eq o.id id) f s.orders }

-- the row of `operationalOrder.create`
abbrev pub add_order : Order → ShopTables → ShopTables
add_order o s = record s { orders = s.orders ++ o ∷ []; next_id = suc s.next_id }

abbrev pub spelled_status : String → String
spelled_status status =
    if includes ("cancelled" ∷ "canceled" ∷ "cancelado" ∷ "cancelada" ∷ []) status
    then "canceled"
    else if includes ("closed" ∷ "finished" ∷ "finalized" ∷ "fechado" ∷ "fechada" ∷ []) status
    then "closed"
    else if includes ("converted" ∷ "convertido" ∷ "convertida" ∷ []) status
    then "converted"
    else if includes ("open" ∷ "opened" ∷ "active" ∷ "aberto" ∷ "aberta" ∷ []) status
    then "open"
    else status

abbrev status_of : Option Order → String
status_of none = "open"
status_of (some o) = o.status

abbrev discount_of : Option Order → ℤ
discount_of none = pos 0
discount_of (some o) = o.discount_cents

abbrev pub is_later : Option ℤ → Option ℤ → Bool
is_later (some last) (some sequence) = ltb_ℤ sequence last
is_later _ _ = false

abbrev id_of_session : Option Session → Option ℕ
id_of_session none = none
id_of_session (some c) = some c.id

-- `operationalOrder.create`, before the data that an update sets too
abbrev blank : Context → String → ℕ → ℤ → Order
blank ctx uuid id created_at = record {
  id = id;
  company_id = ctx.company_id;
  local_uuid = uuid;
  cash_session_id = none;
  customer_id = none;
  seller_user_id = none;
  device_id = none;
  status = "open";
  subtotal_cents = pos 0;
  discount_cents = pos 0;
  total_cents = pos 0;
  notes = none;
  closed_at = none;
  cancelled_at = none;
  converted_sale_id = none;
  last_local_sequence = none;
  created_at = created_at;
}

module _ (js : Runtime) (text_of_id : ℕ → String) (i : Input) where
  -- `orderStatus`
  unfoldable pub order_status : Option Order → String
  unfolding first_string trim
  order_status existing = elim (first_string i.payload ("status" ∷ "state" ∷ [])) [
    | none ↦ status_of existing
    | some raw ↦ spelled_status (js.to_lower_case (trim raw))
  ]

  -- `immutableIfNeeded`: whether there is a conflict
  unfoldable pub is_frozen : Order → Bool
  unfolding order_status
  is_frozen o =
      is_some o.converted_sale_id
      || o.status == "converted"
      || is_canceled o && order_status (some o) == "open"

  -- `authorizeOrder`: the refusal, or none
  unfoldable pub authorize_order : Option Order → String → Option Outcome
  unfolding require_sync_permission non_negative_int
  authorize_order existing status = or_else (require_sync_permission js i.ctx "sales.create") (
      or_else
        (if status == "canceled" then require_sync_permission js i.ctx "sales.cancel" else none)
        (if ltb_ℤ (pos 0)
            (get_or (non_negative_int js i.payload ("discountCents" ∷ [])) (discount_of existing))
          then require_sync_permission js i.ctx "sales.discount"
          else none))

  -- `closedAt`
  closed_at : Option ℤ → String → Option ℤ
  unfolding first_date
  closed_at before status =
      if includes ("closed" ∷ "converted" ∷ []) status
      then some (
          first_date js i.payload ("closedAt" ∷ "finalizedAt" ∷ "updatedAt" ∷ [])
            (get_or before i.ctx.now))
      else before

  -- `cancelledAt`
  unfoldable cancelled_at : Option ℤ → String → Option ℤ
  unfolding first_date
  cancelled_at before status =
      if status == "canceled"
      then some (
          first_date js i.payload ("cancelledAt" ∷ "canceledAt" ∷ "cancelAt" ∷ "updatedAt" ∷ [])
            (get_or before i.ctx.now))
      else before

  sequence : Option ℤ
  unfolding local_sequence_for persistable_local_sequence
  sequence = persistable_local_sequence (local_sequence_for js i.event i.payload)

  -- `baseData`
  unfoldable written : List Customer → String → Order → Order
  unfolding resolve_customer_id find_cash_session non_negative_int first_string closed_at
      cancelled_at sequence
  written customers status o = record o {
    cash_session_id = or_else (id_of_session (find_cash_session js text_of_id i)) o.cash_session_id;
    customer_id = or_else (resolve_customer_id js text_of_id i customers) o.customer_id;
    seller_user_id = some (get_or o.seller_user_id i.ctx.user_id);
    device_id = some (get_or o.device_id i.ctx.device_id);
    status = status;
    subtotal_cents = get_or (non_negative_int js i.payload ("subtotalCents" ∷ [])) o.subtotal_cents;
    discount_cents = get_or (non_negative_int js i.payload ("discountCents" ∷ [])) o.discount_cents;
    total_cents =
        get_or (non_negative_int js i.payload ("totalCents" ∷ "finalCents" ∷ [])) o.total_cents;
    notes = or_else (first_string i.payload ("notes" ∷ "description" ∷ [])) o.notes;
    closed_at = closed_at o.closed_at status;
    cancelled_at = cancelled_at o.cancelled_at status;
    last_local_sequence = or_else sequence o.last_local_sequence;
  }

  -- the create or the update
  unfoldable write_order : String → String → Option Order → Exec ShopTables Outcome
  unfolding written first_date
  write_order uuid status none s =
      let created = first_date js i.payload ("createdAt" ∷ "openedAt" ∷ []) i.ctx.now in
      (
        Result.ok (accepted js text_of_id i s.next_id),
        add_order (written s.customers status (blank i.ctx uuid s.next_id created)) s,
      )
  write_order uuid status (some o) s =
      (Result.ok (accepted js text_of_id i o.id), change_order o.id (written s.customers status) s)

  unfoldable save_order : String → String → Option Order → Option Outcome → Exec ShopTables Outcome
  unfolding write_order
  save_order uuid status existing (some refusal) = pure refusal
  save_order uuid status existing none = write_order uuid status existing

  is_stale : Order → Bool
  unfolding sequence
  is_stale o =
      includes ("update" ∷ "upsert" ∷ []) i.event.operation
      && is_later o.last_local_sequence sequence

  unfoldable with_existing : String → Option Order → Exec ShopTables Outcome
  unfolding is_stale is_frozen save_order authorize_order order_status
  with_existing uuid none =
      if i.event.operation == "update"
      then pure (Outcome.conflict "OPERATIONAL_ORDER_NOT_FOUND")
      else save_order uuid (order_status none) none (authorize_order none (order_status none))
  with_existing uuid (some o) =
      if i.event.operation == "create"
      then pure (duplicate js text_of_id i o.id)
      else if is_stale o
      then pure (Outcome.conflict "STALE_LOCAL_SEQUENCE")
      else if is_frozen o
      then pure (Outcome.conflict "OPERATIONAL_ORDER_IMMUTABLE")
      else save_order uuid (order_status (some o)) (some o)
          (authorize_order (some o) (order_status (some o)))

  unfoldable with_identity : Option String → Exec ShopTables Outcome
  unfolding with_existing order_by_uuid
  with_identity none = pure (Outcome.rejected "LOCAL_ID_REQUIRED")
  with_identity (some uuid) = do
    existing ← gets (λ s. order_by_uuid js text_of_id i (some uuid) s.orders)
    with_existing uuid existing

  -- `materializeOrder`
  unfoldable pub materialize_order : Exec ShopTables Outcome
  unfolding with_identity domain_identity_for
  materialize_order =
      if not (includes ("create" ∷ "update" ∷ "upsert" ∷ []) i.event.operation)
      then pure (Outcome.rejected "INVALID_OPERATION")
      else with_identity (domain_identity_for js i.event i.payload order_keys false)
