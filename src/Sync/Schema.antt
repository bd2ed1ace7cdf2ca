-- ===== src/Sync/Schema.antt =====
-- `syncPushBatchSchema` and `syncPushEventSchema` of sync.schemas.ts, over parsed JSON, and the
-- Boolean and numeric reading of a pull query.
use Prim.Native.Char.{code}
use tatuzin.Prelude.{
  ℕ, ◌+◌, String, Bool, true, false, ◌&&◌, Option, none, some, List, [], ◌∷◌, leb, if◌then◌else◌,
}
use tatuzin.Prelude.Text.{trim}
use tatuzin.Payload.Json.{Json, num, str, arr, obj, Items, nil, cons, Fields, get}
use tatuzin.Payload.Identity.{PushEvent}

infixl 10 ◌>>=◌
abbrev ◌>>=◌ : {A B : Type 0} → Option A → (A → Option B) → Option B
none >>= f = none
some a >>= f = f a

abbrev items : Items → List Json
items nil = []
items (cons v vs) = v ∷ items vs

-- `s.length`, in UTF-16 code units
abbrev utf16_length : String → ℕ
utf16_length String.[] = 0
utf16_length (String.◌∷◌ c s) = (if leb 65536 (code c) then 2 else 1) + utf16_length s

-- `z.string().trim().min(1).max(n)`
trimmed_string : ℕ → Option Json → Option String
unfolding trim
trimmed_string most (some (str s)) =
    if leb 1 (utf16_length (trim s)) && leb (utf16_length (trim s)) most
    then some (trim s)
    else none
trimmed_string most _ = none

-- `optionalTrimmedString(n)`: an absent field is accepted as `undefined`
optional_trimmed_string : ℕ → Option Json → Option (Option String)
unfolding trimmed_string
optional_trimmed_string most none = some none
optional_trimmed_string most (some v) = do s ← trimmed_string most (some v); some (some s)

-- `z.record(z.unknown())`
object : Option Json → Option Fields
object (some (obj fs)) = some fs
object _ = none

-- `z.string().datetime()`, by the given test of the format
datetime : (String → Bool) → Option Json → Option String
datetime is_datetime (some (str s)) = if is_datetime s then some s else none
datetime is_datetime _ = none

-- `z.union([z.string(), z.number()]).optional()`
last_known_version : Option Json → Bool
last_known_version none = true
last_known_version (some (str s)) = true
last_known_version (some (num n)) = true
last_known_version _ = false

module _ (is_datetime : String → Bool) where
  event_of_fields : Fields → Option PushEvent
  unfolding trimmed_string optional_trimmed_string object datetime get
  event_of_fields fs = do
    event_id ← trimmed_string 160 (get fs "eventId")
    feature ← trimmed_string 80 (get fs "feature")
    entity ← trimmed_string 80 (get fs "entity")
    operation ← trimmed_string 40 (get fs "operation")
    entity_local_id ← optional_trimmed_string 160 (get fs "entityLocalId")
    entity_server_id ← optional_trimmed_string 160 (get fs "entityServerId")
    occurred_at ← datetime is_datetime (get fs "occurredAt")
    payload ← object (get fs "payload")
    some (record {
      event_id = event_id;
      feature = feature;
      entity = entity;
      operation = operation;
      entity_local_id = entity_local_id;
      entity_server_id = entity_server_id;
      occurred_at = occurred_at;
      payload = payload;
    })

  -- `syncPushEventSchema.safeParse`
  unfoldable pub parse_event : Json → Option PushEvent
  unfolding event_of_fields
  parse_event (obj fs) = event_of_fields fs
  parse_event _ = none

-- `z.array(z.unknown())`
array : Option Json → Option (List Json)
array (some (arr vs)) = some (items vs)
array _ = none

-- `syncPushBatchSchema.safeParse`: the events of the batch
unfoldable pub parse_batch : Json → Option (List Json)
unfolding array last_known_version get
parse_batch (obj fs) =
    if last_known_version (get fs "lastKnownServerVersion") then array (get fs "events") else none
parse_batch _ = none
