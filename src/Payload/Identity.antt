-- ===== src/Payload/Identity.antt =====
-- The identities that payload-utils.ts derives from an event and its payload.
use tatuzin.Prelude.{
  String, Bool, true, false, ◌&&◌, ◌||◌, Option, none, some, List, [], ◌∷◌, ◌==◌, or_else, is_some,
  if◌then◌else◌,
}
use tatuzin.Prelude.Int.{ℤ}
use tatuzin.Payload.Json.{Fields, Runtime, get}
use tatuzin.Payload.Read.{as_record, first_identity, first_int, clean}

-- `SyncPushEventInput`; an absent optional text is `none`
pub record PushEvent : Type 0 where
  pub event_id : String
  pub feature : String
  pub entity : String
  pub operation : String
  pub entity_local_id : Option String
  pub entity_server_id : Option String
  pub occurred_at : String
  pub payload : Fields

-- `SyncPayloadMetadata`
pub record Metadata : Type 0 where
  pub event_id : Option String
  pub entity_local_id : Option String
  pub entity_server_id : Option String
  pub local_sequence : Option ℤ
  pub idempotency_key : Option String

abbrev local_keys : List String
local_keys =
    "uuid" ∷ "localUuid" ∷ "localId" ∷ "id" ∷ "localMovementUuid" ∷ "receiptNumber" ∷ "number" ∷ []

abbrev sequence_keys : List String
sequence_keys = "localSequence" ∷ "localRevision" ∷ "sequence" ∷ []

-- `===` of two texts that may be null
abbrev pub same : Option String → Option String → Bool
same none none = true
same (some a) (some b) = a == b
same _ _ = false

module _ (js : Runtime) where
  -- `syncMetadataFor`
  unfoldable pub sync_metadata_for : PushEvent → Fields → Metadata
  unfolding as_record get first_identity first_int clean
  sync_metadata_for event payload =
      let sync = as_record (get payload "_sync") in
      record {
        event_id = or_else (first_identity js sync ("eventId" ∷ [])) (clean (some event.event_id));
        entity_local_id =
            or_else (first_identity js sync ("entityLocalId" ∷ "localUuid" ∷ "localId" ∷ []))
              (or_else (clean event.entity_local_id) (first_identity js payload local_keys));
        entity_server_id =
            or_else (first_identity js sync ("entityServerId" ∷ "serverId" ∷ []))
              (clean event.entity_server_id);
        local_sequence =
            or_else (first_int js sync sequence_keys) (first_int js payload sequence_keys);
        idempotency_key =
            or_else (first_identity js sync ("idempotencyKey" ∷ []))
              (first_identity js payload ("idempotencyKey" ∷ []));
      }

  -- `localSequenceFor`
  unfoldable pub local_sequence_for : PushEvent → Fields → Option ℤ
  unfolding sync_metadata_for
  local_sequence_for event payload = (sync_metadata_for event payload).local_sequence

  -- `explicitIdempotencyKeyFor`
  unfoldable pub explicit_idempotency_key_for : PushEvent → Fields → Option String
  unfolding sync_metadata_for
  explicit_idempotency_key_for event payload =
      let metadata = sync_metadata_for event payload in
      elim metadata.idempotency_key [
        | none ↦ none
        | some key ↦
            if same (some key) (clean (some event.event_id)) || same (some key) metadata.event_id
            then none
            else some key
      ]

  -- `localIdentityFor`
  unfoldable pub local_identity_for : PushEvent → Fields → Option String
  unfolding sync_metadata_for first_identity explicit_idempotency_key_for
  local_identity_for event payload =
      or_else (sync_metadata_for event payload).entity_local_id (
        or_else (first_identity js payload local_keys) (explicit_idempotency_key_for event payload))

  -- `domainIdentityFor`, with `options.preferIdempotencyKey`
  unfoldable pub domain_identity_for : PushEvent → Fields → List String → Bool → Option String
  unfolding sync_metadata_for first_identity explicit_idempotency_key_for local_identity_for
  domain_identity_for event payload domain_keys prefer_idempotency_key =
      let idempotency_key = explicit_idempotency_key_for event payload in
      if prefer_idempotency_key && is_some idempotency_key
      then idempotency_key
      else or_else (sync_metadata_for event payload).entity_local_id (
          or_else (first_identity js payload domain_keys)
            (or_else idempotency_key (local_identity_for event payload)))
