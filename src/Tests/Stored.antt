-- ===== src/Tests/Stored.antt =====
-- Conflicts that are resolved and reprocessed, and payloads, at concrete inputs.
use tatuzin.Prelude.{ℕ, ◌≡◌, ◌≢◌, ◌⊎◌, refl, none, some, List, [], ◌∷◌}
use tatuzin.Prelude.Int.{pos, negsuc, ◌≤ℤ◌}
use tatuzin.Payload.Json.{Fields, end, field, str}
use tatuzin.Payload.Read.{
  persistable_local_sequence, min_persistable_int, max_persistable_int, clean,
}
use tatuzin.Payload.Identity.{explicit_idempotency_key_for, sync_metadata_for}
use tatuzin.Payload.Laws.{persistable_local_sequence_lem, explicit_idempotency_key_for_lem}
use tatuzin.Exec.{ok}
use tatuzin.Sync.Types.{Context, Store, Conflict, opened, resolved}
use tatuzin.Sync.Conflicts.{resolve, resolve_row}
use tatuzin.Sync.Conflicts.Laws.{resolve_once, resolve_all}
use tatuzin.Tests.Setting.{runtime, shop, one_sale, sale_row, sending}

abbrev missing_order : Conflict
missing_order = record {
  id = 9;
  company_id = "shop";
  device_id = "till";
  user_id = "ann";
  sync_event_id = 0;
  entity = "payment";
  entity_local_id = none;
  entity_server_id = none;
  code = "OPERATIONAL_ORDER_NOT_FOUND";
  status = opened;
  resolution = none;
  resolved_at = none;
  resolved_by_user_id = none;
}

abbrev in_conflict : Store ℕ
in_conflict = record one_sale {
  events = (record sale_row { entity = "payment" }) ∷ [];
  conflicts = missing_order ∷ [];
}

abbrev settled_conflict : Store ℕ
settled_conflict = record in_conflict {
  conflicts = (record missing_order { status = resolved }) ∷ [];
}

-- another user of the shop, later
abbrev manager : Context
manager = record shop { user_id = "bob"; now = pos 77 }

abbrev attempts : List (Context × ℕ × Fields)
attempts = (manager, 9, end) ∷ (shop, 8, end) ∷ []

resolve_once_example :
    (t : Store ℕ) × (resolve shop 9 end in_conflict ≡ (ok (resolve_row shop end missing_order), t))
    × (resolve manager 9 (field "note" (str "x") end) (resolve_all attempts t)
        ≡ (ok (resolve_row shop end missing_order), resolve_all attempts t))
resolve_once_example =
    resolve_once shop 9 end in_conflict missing_order attempts manager (field "note" (str "x") end)
      refl refl refl (refl, (refl, tt)) refl

persistable_local_sequence_lem_example :
    (min_persistable_int ≤ℤ pos 7
      × pos 7 ≤ℤ max_persistable_int
      × (persistable_local_sequence (some (pos 7)) ≡ some (pos 7)))
    ⊎ ((pos 7 ≤ℤ negsuc 2147483648 ⊎ pos 2147483648 ≤ℤ pos 7)
        × (persistable_local_sequence (some (pos 7)) ≡ none))
persistable_local_sequence_lem_example = persistable_local_sequence_lem (pos 7)

abbrev keyed : Fields
keyed = field "idempotencyKey" (str "k1") end

has_key : explicit_idempotency_key_for runtime (sending "e1" "payment") keyed ≡ some "k1"
unfolding explicit_idempotency_key_for sync_metadata_for
has_key = refl

explicit_idempotency_key_for_lem_example :
    (clean (some "e1") ≢ some "k1")
    × ((sync_metadata_for runtime (sending "e1" "payment") keyed).event_id ≢ some "k1")
    × ((sync_metadata_for runtime (sending "e1" "payment") keyed).idempotency_key ≡ some "k1")
explicit_idempotency_key_for_lem_example =
    explicit_idempotency_key_for_lem runtime (sending "e1" "payment") keyed "k1" has_key
