-- ===== src/Tests/Cash.antt =====
-- Cash events at concrete inputs.
use tatuzin.Prelude.{false, ℕ, String, ◌≡◌, refl, true, none, some, [], ◌∷◌, arith}
use tatuzin.Prelude.Int.{pos}
use tatuzin.Payload.Json.{Fields, end, field, str}
use tatuzin.Payload.Read.{is_closed_status}
use tatuzin.Cash.Types.{Session, CashTables}
use tatuzin.Cash.Session
use tatuzin.Cash.Movement
use tatuzin.Cash.Movement.{find_cash_session, is_closed}
use tatuzin.Cash.Movement.Laws.{movement_in_closed}
use tatuzin.Cash.Session.Closed.{IsKeyed, IsClosed}
use tatuzin.Cash.Session.Stays.{materialize-IsClosed}
use tatuzin.Cash.Movement.Once.{materialize-Once, Once}
use tatuzin.Cash.Session.Owner.{materialize_foreign}
use tatuzin.Cash.Permissions.{can_manage_other_cash_sessions, role_of}
use tatuzin.Payload.Identity.{PushEvent, local_identity_for}
use tatuzin.Sync.Types.{Context}
use tatuzin.Tests.Setting.{runtime, shop, sending}

abbrev text_of_id : ℕ → String
text_of_id n = "id"

abbrev closed_session : Session
closed_session = record {
  id = 0;
  company_id = "shop";
  local_uuid = "local-1";
  device_id = some "till";
  user_id = some "ann";
  local_id = some "1";
  status = "closed";
  opened_at = some (pos 1);
  closed_at = some (pos 2);
  opening_balance_cents = pos 0;
  closing_balance_cents = none;
  expected_balance_cents = none;
  notes = none;
  payload = none;
  last_local_sequence = none;
}

abbrev drawer : CashTables
drawer = record { sessions = closed_session ∷ []; movements = []; next_id = 1 }

drawer-IsKeyed : IsKeyed drawer
drawer-IsKeyed = record { apart = (tt, tt); below = (omega arith, tt) }

abbrev reopening : Fields
reopening = field "status" (str "open") end

materialize-IsClosed_example :
    IsKeyed
      (Session.materialize runtime text_of_id shop (sending "e3" "cashSession") reopening drawer).1
    × IsClosed "shop" "local-1"
        (Session.materialize runtime text_of_id shop
          (sending "e3" "cashSession")
          reopening
          drawer).1
materialize-IsClosed_example =
    materialize-IsClosed runtime text_of_id shop (sending "e3" "cashSession") reopening "shop"
      "local-1" refl drawer drawer-IsKeyed (closed_session, refl, refl)

abbrev withdrawal : Fields
withdrawal = field "sessionUuid" (str "local-1") end

names_closed :
    is_closed runtime text_of_id
      (find_cash_session runtime text_of_id shop withdrawal drawer.sessions)
    ≡ true
unfolding find_cash_session is_closed_status
names_closed = refl

movement_in_closed_example :
    (Movement.materialize runtime text_of_id shop (sending "e4" "cashMovement") withdrawal drawer).1
    ≡ drawer
movement_in_closed_example =
    movement_in_closed runtime text_of_id shop (sending "e4" "cashMovement") withdrawal drawer
      names_closed

materialize-Once_example :
    Once runtime text_of_id shop
      (sending "e4" "cashMovement")
      withdrawal
      drawer
      (Movement.materialize runtime text_of_id shop
        (sending "e4" "cashMovement")
        withdrawal
        drawer).1
materialize-Once_example =
    materialize-Once runtime text_of_id shop (sending "e4" "cashMovement") withdrawal drawer

-- a cashier who is not the session's user
abbrev cashier : Context
cashier = record shop { user_id = "bob"; role = "CASHIER" }

abbrev closing : PushEvent
closing = record (sending "e5" "cashSession") { operation = "update" }

unmanaged : can_manage_other_cash_sessions runtime cashier ≡ false
unfolding can_manage_other_cash_sessions role_of
unmanaged = refl

named : local_identity_for runtime closing reopening ≡ some "local-1"
unfolding local_identity_for
named = refl

materialize_foreign_example :
    (Session.materialize runtime text_of_id cashier closing reopening drawer).1 ≡ drawer
materialize_foreign_example =
    materialize_foreign runtime text_of_id cashier closing reopening "local-1" closed_session refl
      unmanaged refl drawer named refl
