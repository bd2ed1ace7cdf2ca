-- ===== src/Cash/Session.antt =====
-- CashSessionMaterializer of cash-session.materializer.ts: the steps of `materialize`, in their order.
pub mod Data
pub mod Lists
pub mod Closed
pub mod Stays
pub mod Owner
use tatuzin.Prelude.{
  ℕ, suc, String, Bool, true, false, not, ◌&&◌, ◌||◌, Option, none, some, List, [], ◌∷◌, ◌++◌, ◌==◌,
  nat_eq, get_or, or_else, is_some, is_none, includes, find?, if◌then◌else◌,
}
use tatuzin.Prelude.Int.{ℤ, pos, ltb_ℤ}
use tatuzin.Payload.Json.{Json, Fields, end, field, str, Runtime, obj}
use tatuzin.Payload.Read.{
  first_string, first_identity, first_int, first_date, normalize_cash_session_status,
  is_open_status, is_closed_status, persistable_local_sequence,
}
use tatuzin.Payload.Identity.{PushEvent, local_identity_for, local_sequence_for, same}
use tatuzin.Exec.{Exec, Result, pure, gets, modify, ◌>>=◌, ◌>>◌}
use tatuzin.Sync.Types.{Context, Outcome}
use tatuzin.Sync.Tables.{update_first}
use tatuzin.Cash.Types.{Session, CashTables, is_session}
use tatuzin.Cash.Permissions.{require_sync_permission, can_manage_other_cash_sessions}
use tatuzin.Cash.Session.Data.{
  has_invalid_payload, authorize_cash_session_change, backfill, updated, blank, change,
}

module _ (js : Runtime) (text_of_id : ℕ → String) where
  -- the reply, with the `updatedAt` that the database sets
  abbrev accepted : Context → ℕ → Outcome
  accepted ctx id = Outcome.accepted (some (text_of_id id)) (some (some ctx.now))

  -- the create at the end of `materialize`
  unfoldable pub create_session :
      Context → PushEvent → Fields → String → String → Exec CashTables Outcome
  unfolding updated
  create_session ctx event payload uuid status s =
      let new = updated js text_of_id ctx event payload status (blank ctx uuid s.next_id) in
      (
        Result.ok (accepted ctx s.next_id),
        record s { sessions = s.sessions ++ new ∷ []; next_id = suc s.next_id },
      )

  -- the create or the update
  write_session :
      Context → PushEvent → Fields → String → String → Option Session → Exec CashTables Outcome
  unfolding updated create_session
  write_session ctx event payload uuid status none = create_session ctx event payload uuid status
  write_session ctx event payload uuid status (some c) =
      modify (change c.id (updated js text_of_id ctx event payload status)) (accepted ctx c.id)

  authorized :
      Context
      → PushEvent
      → Fields
      → String
      → String
      → Option Session
      → Option Outcome
      → Exec CashTables Outcome
  unfolding write_session
  authorized ctx event payload uuid status existing (some refusal) = pure refusal
  authorized ctx event payload uuid status existing none =
      write_session ctx event payload uuid status existing

  guarded :
      Context → PushEvent → Fields → String → String → Option Session → Exec CashTables Outcome
  unfolding has_invalid_payload authorize_cash_session_change authorized
  guarded ctx event payload uuid status existing =
      if has_invalid_payload js text_of_id existing payload
      then pure (Outcome.rejected "CASH_SESSION_INVALID_PAYLOAD")
      else authorized ctx event payload uuid status existing
          (authorize_cash_session_change js text_of_id ctx existing status)

  with_status :
      Context → PushEvent → Fields → String → String → Option Session → Exec CashTables Outcome
  unfolding guarded backfill is_open_status
  with_status ctx event payload uuid status none = guarded ctx event payload uuid status none
  with_status ctx event payload uuid status (some c) =
      if event.operation == "create"
      then modify (change c.id (backfill js text_of_id ctx payload))
          (Outcome.duplicate (some (text_of_id c.id)) none)
      else if c.status == "closed" && is_open_status js (some status)
      then pure (Outcome.conflict "CASH_SESSION_CLOSED")
      else guarded ctx event payload uuid status (some c)

  requested :
      Context
      → PushEvent
      → Fields
      → String
      → Option Session
      → Option String
      → Exec CashTables Outcome
  unfolding with_status normalize_cash_session_status
  requested ctx event payload uuid existing none =
      pure (Outcome.rejected "CASH_SESSION_INVALID_PAYLOAD")
  requested ctx event payload uuid existing (some raw) =
      let status = normalize_cash_session_status js (some raw) in
      if status == "open" || status == "closed"
      then with_status ctx event payload uuid status existing
      else pure (Outcome.rejected "CASH_SESSION_INVALID_STATUS")

  abbrev is_later : Option ℤ → Option ℤ → Bool
  is_later (some last) (some sequence) = ltb_ℤ sequence last
  is_later _ _ = false

  -- `existing.lastLocalSequence > storedLocalSequence`, for an update or an upsert
  is_stale : PushEvent → Fields → Option Session → Bool
  unfolding local_sequence_for persistable_local_sequence
  is_stale event payload none = false
  is_stale event payload (some c) =
      includes ("update" ∷ "upsert" ∷ []) event.operation
      && is_later c.last_local_sequence
          (persistable_local_sequence (local_sequence_for js event payload))

  with_existing : Context → PushEvent → Fields → String → Option Session → Exec CashTables Outcome
  unfolding is_stale requested first_string
  with_existing ctx event payload uuid existing =
      if is_stale event payload existing
      then pure (Outcome.conflict "STALE_LOCAL_SEQUENCE")
      else requested ctx event payload uuid existing
          (first_string payload ("status" ∷ "state" ∷ []))

  with_identity : Context → PushEvent → Fields → Option String → Exec CashTables Outcome
  unfolding with_existing
  with_identity ctx event payload none = pure (Outcome.rejected "LOCAL_ID_REQUIRED")
  with_identity ctx event payload (some uuid) = do
    existing ← gets (λ s. find? (is_session ctx.company_id uuid) s.sessions)
    with_existing ctx event payload uuid existing

  -- `materialize`
  unfoldable pub materialize : Context → PushEvent → Fields → Exec CashTables Outcome
  unfolding with_identity local_identity_for
  materialize ctx event payload =
      if not (includes ("create" ∷ "update" ∷ "upsert" ∷ []) event.operation)
      then pure (Outcome.rejected "INVALID_OPERATION")
      else with_identity ctx event payload (local_identity_for js event payload)
