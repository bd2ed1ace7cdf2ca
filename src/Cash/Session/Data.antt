-- ===== src/Cash/Session/Data.antt =====
-- The columns of a cash session that CashSessionMaterializer of cash-session.materializer.ts writes,
-- and its checks of the payload and of the user. `text_of_id` spells the id of a row.
use tatuzin.Prelude.{
  ℕ, String, Bool, true, false, not, ◌&&◌, ◌||◌, Option, none, some, List, [], ◌∷◌, ◌==◌, nat_eq,
  get_or, or_else, is_none, if◌then◌else◌,
}
use tatuzin.Prelude.Int.{ℤ, pos}
use tatuzin.Payload.Json.{Json, Fields, end, field, str, Runtime}
use tatuzin.Payload.Read.{
  first_string, first_identity, first_int, first_date, is_closed_status, persistable_local_sequence,
}
use tatuzin.Payload.Identity.{PushEvent, local_sequence_for, same}
use tatuzin.Sync.Types.{Context, Outcome}
use tatuzin.Sync.Tables.{update_first}
use tatuzin.Cash.Types.{Session, CashTables}
use tatuzin.Cash.Permissions.{require_sync_permission, can_manage_other_cash_sessions}

-- `{ ...fs, [k]: v }`
abbrev set : Fields → String → Json → Fields
set end k v = field k v end
set (field j w fs) k v = if j == k then field j v fs else field j w (set fs k v)

-- `{ ...fs, ...gs }`
abbrev merge : Fields → Fields → Fields
merge fs end = fs
merge fs (field k v gs) = merge (set fs k v) gs

-- `asRecord` of a stored payload
abbrev record_or_end : Option Fields → Fields
record_or_end stored = get_or stored end

-- `mergePayload`
unfoldable pub merge_payload : Option Fields → Fields → Fields
unfolding first_string
merge_payload stored payload =
    elim (or_else (first_string payload ("operatorName" ∷ []))
      (first_string (record_or_end stored) ("operatorName" ∷ []))) [
        | none ↦ merge (record_or_end stored) payload
        | some name ↦ set (merge (record_or_end stored) payload) "operatorName" (str name)
      ]

-- `DateField`
pub record DateField : Type 0 where
  pub value : Option ℤ
  pub invalid : Bool

abbrev opened_keys : List String
opened_keys = "openedAt" ∷ "createdAt" ∷ []

abbrev closed_keys : List String
closed_keys = "closedAt" ∷ "finishedAt" ∷ "updatedAt" ∷ []

-- the row before its first data, as `existing == null` gives the defaults
abbrev pub blank : Context → String → ℕ → Session
blank ctx uuid id = record {
  id = id;
  company_id = ctx.company_id;
  local_uuid = uuid;
  device_id = none;
  user_id = none;
  local_id = none;
  status = "open";
  opened_at = none;
  closed_at = none;
  opening_balance_cents = pos 0;
  closing_balance_cents = none;
  expected_balance_cents = none;
  notes = none;
  payload = none;
  last_local_sequence = none;
}

-- `tx.cashSession.update({ where: { id } })`
abbrev pub change : ℕ → (Session → Session) → CashTables → CashTables
change id f s = record s { sessions = update_first (λ c. nat_eq c.id id) f s.sessions }

module _ (js : Runtime) (text_of_id : ℕ → String) where
  -- `readDateField`
  unfoldable pub read_date_field : Fields → List String → DateField
  unfolding first_string
  read_date_field payload keys = elim (first_string payload keys) [
    | none ↦ record { value = none; invalid = false }
    | some raw ↦ elim (js.date_of raw) [
      | none ↦ record { value = none; invalid = true }
      | some date ↦ record { value = some date; invalid = false }
    ]
  ]

  -- whether `invalidPayloadResult` finds a missing or an invalid field
  unfoldable pub has_invalid_payload : Option Session → Fields → Bool
  unfolding read_date_field
  has_invalid_payload existing payload =
      let opened = read_date_field payload opened_keys in
      opened.invalid
      || (read_date_field payload closed_keys).invalid
      || is_none existing && is_none opened.value

  -- `isOwnSession`
  abbrev is_own_session : Context → Option Session → Bool
  is_own_session ctx none = true
  is_own_session ctx (some c) = same c.user_id (some ctx.user_id)

  -- `authorizeCashSessionChange`: the refusal, or none
  unfoldable pub authorize_cash_session_change : Context → Option Session → String → Option Outcome
  unfolding require_sync_permission can_manage_other_cash_sessions
  authorize_cash_session_change ctx existing status =
      if status == "open"
      then (if not (is_own_session ctx existing) && not (can_manage_other_cash_sessions js ctx)
          then some (Outcome.rejected "CASH_SESSION_OWNERSHIP_REQUIRED")
          else if is_none existing
          then require_sync_permission js ctx "cash.open"
          else none)
      else if is_own_session ctx existing
      then require_sync_permission js ctx "cash.close"
      else if can_manage_other_cash_sessions js ctx
      then none
      else some (Outcome.rejected "CASH_CLOSE_OTHER_FORBIDDEN")

  -- The patch of `backfillDuplicateCreate`: columns that are absent, and the merged payload, which
  -- is written as it is where it did not change.
  unfoldable pub backfill : Context → Fields → Session → Session
  unfolding first_identity first_string read_date_field merge_payload
  backfill ctx payload c = record c {
    local_id = or_else c.local_id (first_identity js payload ("localId" ∷ "id" ∷ []));
    opened_at = or_else c.opened_at (read_date_field payload opened_keys).value;
    device_id = or_else c.device_id (some ctx.device_id);
    user_id = or_else c.user_id (some ctx.user_id);
    notes = or_else c.notes (first_string payload ("notes" ∷ "description" ∷ []));
    payload = some (merge_payload c.payload payload);
  }

  -- `new Date(input.event.occurredAt)`, which was validated as a date
  abbrev occurred : Context → PushEvent → ℤ
  occurred ctx event = get_or (js.date_of event.occurred_at) ctx.now

  -- `data`, over the row that is updated
  unfoldable pub updated : Context → PushEvent → Fields → String → Session → Session
  unfolding first_identity first_string first_int first_date read_date_field merge_payload
      local_sequence_for persistable_local_sequence is_closed_status
  updated ctx event payload status c = record c {
    device_id = some ctx.device_id;
    user_id = or_else c.user_id (some ctx.user_id);
    local_id = first_identity js payload ("localId" ∷ "id" ∷ []);
    status = status;
    opened_at = some (
        get_or (read_date_field payload opened_keys).value
          (first_date js payload opened_keys (get_or c.opened_at (occurred ctx event))));
    closed_at =
        if is_closed_status js (some status)
        then some (
            get_or (read_date_field payload closed_keys).value
              (first_date js payload closed_keys (get_or c.closed_at (occurred ctx event))))
        else none;
    opening_balance_cents =
        get_or (first_int js payload ("openingBalanceCents" ∷ "initialFloatCents" ∷ []))
          c.opening_balance_cents;
    closing_balance_cents =
        or_else (first_int js payload ("closingBalanceCents" ∷ "countedBalanceCents" ∷ []))
          c.closing_balance_cents;
    expected_balance_cents =
        or_else (first_int js payload ("expectedBalanceCents" ∷ [])) c.expected_balance_cents;
    notes = or_else (first_string payload ("notes" ∷ "description" ∷ [])) c.notes;
    payload = some (merge_payload c.payload payload);
    last_local_sequence =
        or_else (persistable_local_sequence (local_sequence_for js event payload))
          c.last_local_sequence;
  }
