-- ===== src/Tests/Setting.antt =====
-- A tenant with one device, a runtime and a materializer for the tests.
use tatuzin.Prelude.{ℕ, suc, String, Bool, true, none, some, [], ◌∷◌, if◌then◌else◌, ◌==◌}
use tatuzin.Prelude.Int.{pos}
use tatuzin.Payload.Json.{Json, Runtime, end, field, str, obj, arr, nil, cons, nan}
use tatuzin.Payload.Identity.{PushEvent}
use tatuzin.Exec.{Result, ok, err, failure}
use tatuzin.Sync.Types.{Context, Materializer, Store, Outcome, SyncEvent, EventStatus}
use tatuzin.Sync.Numbering.{IsNumbered}

abbrev pub runtime : Runtime
runtime = record {
  to_lower_case = λ s. s;
  to_upper_case = λ s. s;
  number_of = λ s. nan;
  text_of = λ i. "7";
  date_of = λ s. some (pos 3);
  iso_of = λ i. "2026-01-01T00:00:00.000Z";
  string_of = λ v. "";
}

-- It counts its calls, accepts sales, rejects receipts and throws on payments.
abbrev run : PushEvent → ℕ → Result Outcome × ℕ
run event n =
    if event.entity == "sale"
    then (ok (Outcome.accepted (some "sale-1") none), suc n)
    else if event.entity == "payment"
    then (err failure, suc n)
    else (ok (Outcome.rejected "INVALID_RECEIPT"), suc n)

abbrev pub counting : Materializer ℕ
counting = record {
  materialize = λ ctx source event payload events n. run event n;
  order_last_sequence = λ company id n. none;
  session_last_sequence = λ company id n. none;
}

abbrev pub any_datetime : String → Bool
any_datetime s = true

abbrev pub shop : Context
shop = record {
  company_id = "shop";
  user_id = "ann";
  device_id = "till";
  role = "OWNER";
  permissions = "cash.open" ∷ "cash.close" ∷ "cash.withdraw" ∷ [];
  now = pos 5;
}

abbrev pub empty : Store ℕ
empty = record {
  states = [];
  events = [];
  checkpoints = [];
  conflicts = [];
  incidents = [];
  next_id = 0;
  domain = 0;
}

pub empty-IsNumbered : IsNumbered "shop" empty
empty-IsNumbered = record { bounded = tt; apart = tt; ids = tt }

abbrev pub sending : String → String → PushEvent
sending event_id entity = record {
  event_id = event_id;
  feature = "sales";
  entity = entity;
  operation = "create";
  entity_local_id = some "local-1";
  entity_server_id = none;
  occurred_at = "2026-01-01T00:00:00.000Z";
  payload = end;
}

abbrev pub raw_sale : Json
raw_sale = obj (
    field "eventId" (str "e1") (
      field "feature" (str "sales") (
        field "entity" (str "sale") (
          field "operation" (str "create") (
            field "occurredAt" (str "2026-01-01T00:00:00.000Z") (field "payload" (obj end) end))))))

abbrev pub raw_malformed : Json
raw_malformed = obj (field "eventId" (str "e1") end)

abbrev pub body : Json
body = obj (field "events" (arr (cons raw_sale (cons raw_malformed nil))) end)

-- the row of an accepted sale, with the version 1
abbrev pub sale_row : SyncEvent
sale_row = record {
  id = 0;
  company_id = "shop";
  device_id = "till";
  user_id = "ann";
  event_id = "e1";
  feature = "sales";
  entity = "sale";
  operation = "create";
  entity_local_id = some "local-1";
  entity_server_id = some "sale-1";
  occurred_at = pos 3;
  payload = end;
  status = EventStatus.accepted;
  server_version = some 1;
  rejection_code = none;
  materialized_at = some (pos 5);
}

-- the store after the first sale
abbrev pub one_sale : Store ℕ
one_sale = record empty {
  states =
      (record { company_id = "shop"; current_version = 1; server_first_snapshot_version = 0 }) ∷ [];
  events = sale_row ∷ [];
  checkpoints =
      (record {
        company_id = "shop";
        device_id = "till";
        feature = "sales";
        last_server_version = 1;
        last_pushed_at = some (pos 5);
        last_pulled_at = none;
      })
      ∷ [];
  next_id = 1;
  domain = 1;
}
