-- ===== src/Tests/Pushes.antt =====
-- Pushes and events at concrete inputs.
use tatuzin.Prelude.{
  String, List, ◌<◌, ℕ, ◌≤◌, ◌≡◌, ◌≢◌, ◌⊎◌, inl, refl, true, false, none, some, [], ◌∷◌, length,
  any,
}
use tatuzin.Payload.Json.{Json, obj, field, end, arr, cons, nil}
use tatuzin.Payload.Identity.{PushEvent}
use tatuzin.Exec.{◌>>=◌, catch, transaction, ok, err, failure, app_error}
use tatuzin.Sync.Types.{Context, Store, SyncEvent, Incident, Outcome, has_key}
use tatuzin.Sync.Tables.{
  next_company_version, create_event, record_push, get_current_version, version_of,
}
use tatuzin.Sync.Numbering.{IsNumbered}
use tatuzin.Sync.Numbering.Facts.{events_of}
use tatuzin.Sync.Event.{outcome_of, Bucket, Item, item_of, item_of_row}
use tatuzin.Sync.Process.{Answer, process_event, find_event, materialize_event, settle}
use tatuzin.Sync.Push.Retry.{process_again, push_each}
use tatuzin.Sync.Push.Tenants.{IsNumberedForAll, push-IsNumberedForAll}
use tatuzin.Prelude.Int.{pos}
use tatuzin.Sync.Process.Outcomes.{
  process_failed, settle_answers, failed_row, takes_version, bucket_of, announced,
}
use tatuzin.Sync.Schema.{parse_batch, parse_event}
use tatuzin.Sync.Push.{normalize_event, push, push_all, no_items, Reply}
use tatuzin.Sync.Push.Guarantees.{push-IsNumbered, push_isolates, push_remembers}
use tatuzin.Sync.Push.Answers.{push_tally, push_refuses, size, IsAnswered, IsSorted, IsAbout}
use tatuzin.Tests.Setting.{
  runtime, counting, any_datetime, shop, empty, empty-IsNumbered, sending, raw_sale, raw_malformed,
  body, one_sale, sale_row,
}

push-IsNumbered_example : IsNumbered "shop" (push runtime any_datetime counting shop body empty).1
push-IsNumbered_example =
    push-IsNumbered runtime any_datetime counting shop body empty empty-IsNumbered

abbrev pushed : Store ℕ
pushed = (push runtime any_datetime counting shop body empty).1

other_shop : shop.company_id ≢ "stall"
other_shop h = cc

push_isolates_example :
    (events_of "stall" pushed.events ≡ []) × (version_of "stall" pushed.states ≡ 0)
push_isolates_example =
    push_isolates runtime any_datetime counting shop body empty empty-IsNumbered "stall" other_shop

push_remembers_example :
    (any (has_key "shop" "till" "e1") [] ≡ true
      → any (has_key "shop" "till" "e1") pushed.events ≡ true)
    × (0 ≤ version_of "shop" pushed.states)
push_remembers_example =
    push_remembers runtime any_datetime counting shop body empty empty-IsNumbered "shop" "till" "e1"

abbrev sale : PushEvent
sale = sending "e1" "sale"

abbrev sale_answer : Bucket × Item
sale_answer = (Bucket.accepted, item_of sale (some 1) (some "sale-1") none)

first_sale : process_event runtime counting shop sale empty ≡ (ok sale_answer, one_sale)
unfolding process_event ◌>>=◌ catch transaction outcome_of next_company_version create_event
    record_push
first_sale = refl

-- another user of the till, later
abbrev later_shop : Context
later_shop = record shop { user_id = "bob"; now = pos 77 }

-- pushes of another shop and of this one
abbrev pushes : List (Context × Json)
pushes = (record shop { company_id = "stall" }, body) ∷ (shop, body) ∷ []

empty-IsNumberedForAll : IsNumberedForAll empty
empty-IsNumberedForAll company = record { bounded = tt; apart = tt; ids = tt }

push-IsNumberedForAll_example :
    IsNumberedForAll (push runtime any_datetime counting shop body empty).1
push-IsNumberedForAll_example =
    push-IsNumberedForAll runtime any_datetime counting shop body empty empty-IsNumberedForAll

process_again_example :
    let t = push_each runtime any_datetime counting pushes one_sale in
    (row : SyncEvent) × (process_event runtime counting later_shop (sending "e1" "receipt") t
      ≡ (ok (Bucket.duplicates, item_of_row row), t))
    × (find_event runtime counting later_shop "e1" t ≡ some row)
process_again_example =
    process_again runtime any_datetime counting shop later_shop sale (sending "e1" "receipt") empty
      sale_answer one_sale pushes empty-IsNumberedForAll first_sale refl refl refl

abbrev sale_outcome : Outcome
sale_outcome = Outcome.accepted (some "sale-1") none

settled :
    settle runtime counting shop sale sale_outcome empty
    ≡ (ok sale_answer, record one_sale { domain = 0 })
unfolding settle ◌>>=◌ next_company_version create_event record_push
settled = refl

settle_answers_example :
    (Bucket.accepted ≡ bucket_of sale_outcome)
    × (sale_answer.1.server_version ≡ announced 0 sale_outcome)
    × (takes_version sale_outcome ≡ false → one_sale.states ≡ [])
settle_answers_example =
    settle_answers runtime counting shop sale sale_outcome Bucket.accepted
      (item_of sale (some 1) (some "sale-1") none) empty (record one_sale { domain = 0 }) settled

abbrev payment : PushEvent
payment = sending "e2" "payment"

payment_throws :
    materialize_event runtime counting shop payment one_sale
    ≡ (err failure, record one_sale { domain = 2 })
unfolding materialize_event ◌>>=◌ outcome_of
payment_throws = refl

process_failed_example :
    (u : Store ℕ) × (process_event runtime counting shop payment one_sale
      ≡ (ok (Bucket.rejected, item_of payment none none (some "SYNC_MATERIALIZATION_FAILED")), u))
    × (u.events ≡ sale_row ∷ (record (failed_row runtime counting shop payment) { id = 1 }) ∷ [])
    × (length u.incidents ≡ 1)
    × (u.domain ≡ 1)
    × (u.states ≡ one_sale.states)
    × (u.checkpoints ≡ one_sale.checkpoints)
    × (u.conflicts ≡ [])
process_failed_example =
    process_failed runtime counting shop payment one_sale (record one_sale { domain = 2 }) failure
      refl refl refl payment_throws

parsed_body : parse_batch body ≡ some (raw_sale ∷ raw_malformed ∷ [])
unfolding parse_batch
parsed_body = refl

abbrev nothing : Json
nothing = obj (field "events" (arr nil) end)

parsed_nothing : parse_batch nothing ≡ some []
unfolding parse_batch
parsed_nothing = refl

abbrev one_body : Json
one_body = obj (field "events" (arr (cons raw_sale nil)) end)

parsed_one : parse_batch one_body ≡ some (raw_sale ∷ [])
unfolding parse_batch
parsed_one = refl

abbrev reply : Reply
reply = record {
  current_server_version = 1;
  buckets = record no_items {
    accepted = (record sale_answer.1 { entity_server_id = some "sale-1" }) ∷ [];
  };
}

pushed_one :
    push runtime any_datetime counting shop one_body empty
    ≡ (ok reply, record one_sale { events = (record sale_row { entity_local_id = none }) ∷ [] })
unfolding push parse_batch ◌>>=◌ push_all parse_event process_event normalize_event catch
    transaction outcome_of next_company_version create_event record_push get_current_version
pushed_one = refl

abbrev one_pushed : Store ℕ
one_pushed = record one_sale { events = (record sale_row { entity_local_id = none }) ∷ [] }

push_tally_example :
    ((answers : List Answer) × IsAnswered runtime any_datetime counting shop
        (raw_sale ∷ [])
        answers
        empty
        one_pushed
      × IsSorted answers reply.buckets)
    × (size reply.buckets ≡ 1)
    × (1 ≤ 100)
    × (reply.current_server_version ≡ version_of "shop" one_sale.states)
push_tally_example =
    push_tally runtime any_datetime counting shop one_body (raw_sale ∷ []) reply empty one_pushed
      parsed_one pushed_one

no_batch : parse_batch raw_sale ≡ none
unfolding parse_batch
no_batch = refl

push_refuses_example :
    (status : ℕ) × (code : String) × (incident : Incident) × (push runtime any_datetime counting
        shop raw_sale one_sale
      ≡ (err (app_error status code), record one_sale { incidents = incident ∷ [] }))
    × IsAbout runtime any_datetime counting shop incident code
    × (((parse_batch raw_sale ≡ none) × (status ≡ 422) × (code ≡ "INVALID_SYNC_BATCH"))
        ⊎ ((events : List Json) × (parse_batch raw_sale ≡ some events)
            × (100 < length events)
            × (status ≡ 413)
            × (code ≡ "SYNC_BATCH_TOO_LARGE")))
push_refuses_example =
    push_refuses runtime any_datetime counting shop raw_sale one_sale (inl no_batch)
