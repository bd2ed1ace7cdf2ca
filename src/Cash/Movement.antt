-- ===== src/Cash/Movement.antt =====
-- CashMovementMaterializer of cash-movement.materializer.ts.
pub mod Laws
pub mod Once
use tatuzin.Prelude.{
  ℕ, suc, String, Bool, true, false, not, ◌&&◌, ◌||◌, Option, none, some, List, [], ◌∷◌, ◌++◌, ◌==◌,
  nat_eq, get_or, or_else, is_some, is_none, includes, find?, if◌then◌else◌,
}
use tatuzin.Prelude.Int.{ℤ, is_zero}
use tatuzin.Payload.Json.{Fields, Runtime}
use tatuzin.Payload.Read.{
  first_string, first_identity, first_int, first_date, first_uuid, is_closed_status,
}
use tatuzin.Payload.Identity.{PushEvent, domain_identity_for, same}
use tatuzin.Exec.{Exec, Result, pure, gets, ◌>>=◌, ◌>>◌}
use tatuzin.Sync.Types.{Context, Outcome}
use tatuzin.Cash.Types.{Session, Movement, CashTables, is_session, is_movement}
use tatuzin.Cash.Permissions.{require_sync_permission, can_manage_other_cash_sessions}

abbrev identity_keys : List String
identity_keys = "localMovementUuid" ∷ "movementUuid" ∷ "uuid" ∷ "localUuid" ∷ "localId" ∷ "id" ∷ []

module _ (js : Runtime) (text_of_id : ℕ → String) where
  by_local_id : Context → Option String → List Session → Option Session
  by_local_id ctx none cs = none
  by_local_id ctx (some id) cs =
      find? (λ c. c.company_id == ctx.company_id && same c.local_id (some id)) cs

  by_uuid : Context → Option String → List Session → Option Session
  by_uuid ctx none cs = none
  by_uuid ctx (some uuid) cs = find? (is_session ctx.company_id uuid) cs

  by_id : Context → String → List Session → Option Session
  by_id ctx id cs = find? (λ c. text_of_id c.id == id && c.company_id == ctx.company_id) cs

  -- `findCashSession`; its findFirst names no order, and is taken to find the first row created
  unfoldable pub find_cash_session : Context → Fields → List Session → Option Session
  unfolding by_local_id by_uuid by_id first_uuid first_identity
  find_cash_session ctx payload cs =
      elim (first_uuid payload ("cashSessionId" ∷ "cashSessionServerId" ∷ [])) [
        | some id ↦ by_id ctx id cs
        | none ↦
            or_else
              (by_uuid ctx
                (first_identity js payload
                  ("cashSessionLocalId" ∷ "cashSessionUuid" ∷ "sessionUuid" ∷ []))
                cs)
              (by_local_id ctx
                (first_identity js payload ("sessionId" ∷ "cashSessionLocalNumericId" ∷ [])) cs)
      ]

  -- `cashSession != null && cashSession.userId !== input.context.user.id`
  abbrev is_of_other : Context → Option Session → Bool
  is_of_other ctx none = false
  is_of_other ctx (some c) = not (same c.user_id (some ctx.user_id))

  -- `authorizeCashMovement`: the refusal, or none
  unfoldable pub authorize_cash_movement : Context → Option Session → Option Outcome
  unfolding require_sync_permission can_manage_other_cash_sessions
  authorize_cash_movement ctx session = or_else (require_sync_permission js ctx "cash.withdraw") (
      if is_of_other ctx session && not (can_manage_other_cash_sessions js ctx)
      then some (Outcome.rejected "CASH_MOVEMENT_OTHER_FORBIDDEN")
      else none)

  abbrev pub is_closed : Option Session → Bool
  is_closed none = false
  is_closed (some c) = is_closed_status js (some c.status)

  abbrev reference : Option Session → Option String
  reference none = none
  reference (some c) = some "cashSession"

  abbrev id_of_session : Option Session → Option ℕ
  id_of_session none = none
  id_of_session (some c) = some c.id

  -- `tx.cashEvent.create`
  unfoldable pub create_movement :
      Context → Fields → String → ℤ → Option Session → Exec CashTables Outcome
  unfolding first_string first_date
  create_movement ctx payload uuid amount session s =
      let new : Movement = record {
        id = s.next_id;
        company_id = ctx.company_id;
        cash_session_id = id_of_session session;
        local_uuid = uuid;
        event_type = get_or (first_string payload ("eventType" ∷ "type" ∷ [])) "cashMovement";
        amount_cents = amount;
        payment_method = first_string payload ("paymentMethod" ∷ []);
        reference_type = reference session;
        reference_id = id_of_session session;
        notes = first_string payload ("description" ∷ "notes" ∷ []);
        created_at = first_date js payload ("createdAt" ∷ "occurredAt" ∷ []) ctx.now;
      } in
      (
        Result.ok (Outcome.accepted (some (text_of_id s.next_id)) (some (some ctx.now))),
        record s { movements = s.movements ++ new ∷ []; next_id = suc s.next_id },
      )

  authorized :
      Context → Fields → String → ℤ → Option Session → Option Outcome → Exec CashTables Outcome
  unfolding create_movement is_closed_status
  authorized ctx payload uuid amount session (some refusal) = pure refusal
  authorized ctx payload uuid amount session none =
      if is_closed session
      then pure (Outcome.conflict "CASH_SESSION_CLOSED")
      else create_movement ctx payload uuid amount session

  with_amount : Context → Fields → String → ℤ → Exec CashTables Outcome
  unfolding authorized find_cash_session authorize_cash_movement
  with_amount ctx payload uuid amount = do
    session ← gets (λ s. find_cash_session ctx payload s.sessions)
    authorized ctx payload uuid amount session (authorize_cash_movement ctx session)

  with_existing : Context → Fields → String → Option ℤ → Option Movement → Exec CashTables Outcome
  unfolding with_amount
  with_existing ctx payload uuid amount (some row) =
      pure (Outcome.duplicate (some (text_of_id row.id)) none)
  with_existing ctx payload uuid none none = pure (Outcome.rejected "INVALID_CASH_MOVEMENT_AMOUNT")
  with_existing ctx payload uuid (some amount) none =
      if is_zero amount
      then pure (Outcome.rejected "INVALID_CASH_MOVEMENT_AMOUNT")
      else with_amount ctx payload uuid amount

  with_identity : Context → Fields → Option String → Exec CashTables Outcome
  unfolding with_existing first_int
  with_identity ctx payload none = pure (Outcome.rejected "LOCAL_ID_REQUIRED")
  with_identity ctx payload (some uuid) = do
    existing ← gets (λ s. find? (is_movement ctx.company_id uuid) s.movements)
    with_existing ctx payload uuid (first_int js payload ("amountCents" ∷ "amount" ∷ [])) existing

  -- `materialize`
  unfoldable pub materialize : Context → PushEvent → Fields → Exec CashTables Outcome
  unfolding with_identity domain_identity_for
  materialize ctx event payload =
      if not (includes ("create" ∷ "append" ∷ "upsert" ∷ []) event.operation)
      then pure (Outcome.rejected "INVALID_OPERATION")
      else with_identity ctx payload (domain_identity_for js event payload identity_keys true)
