-- ===== src/Cash/Dispatch.antt =====
-- SyncMaterializerService of sync-materializer.service.ts, with the cash materializers in place and
-- the other ones as handlers, and `cashSession` of `findDomainLastLocalSequence`.
pub mod Keeps
pub mod Closed
use tatuzin.Prelude.{
  ℕ, String, Bool, true, false, ◌||◌, Option, none, some, List, [], ◌∷◌, ◌==◌, find?, if◌then◌else◌,
}
use tatuzin.Prelude.Int.{ℤ}
use tatuzin.Payload.Json.{Fields, Runtime}
use tatuzin.Payload.Identity.{PushEvent}
use tatuzin.Exec.{Exec, Result, pure}
use tatuzin.Sync.Types.{Context, SyncEvent, Outcome, Materializer}
use tatuzin.Cash.Types.{Session, CashTables, is_session}
use tatuzin.Cash.Session
use tatuzin.Cash.Movement

-- the tables of the materializers: the cash tables, and the others
pub record Tables (E : Type 0) : Type 0 where
  pub cash : CashTables
  pub rest : E

abbrev pub Handler : Type 0 → Type 0
Handler E = Context → Option String → PushEvent → Fields → List SyncEvent → Exec (Tables E) Outcome

-- the materializers that the constructor receives besides the two of the cash
pub record Handlers (E : Type 0) : Type 0 where
  pub sale : Handler E
  pub sale_item : Handler E
  pub payment : Handler E
  pub receipt : Handler E
  pub stock_reservation : Handler E
  pub stock_deduction : Handler E
  pub operational_order : Handler E
  pub order_last_sequence : String → String → E → Option ℤ

module _ {E : Type 0} where
  abbrev on_tables : Tables E → Result Outcome × CashTables → Result Outcome × Tables E
  on_tables s (r, cash) = (r, record s { cash = cash })

  abbrev pub on_cash : Exec CashTables Outcome → Exec (Tables E) Outcome
  on_cash action s = on_tables s (action s.cash)

module _ (js : Runtime) (text_of_id : ℕ → String) {E : Type 0} (h : Handlers E) where
  -- `materialize`
  unfoldable pub dispatch : Handler E
  unfolding Session.materialize Movement.materialize
  dispatch ctx source event payload events =
      if event.entity == "cashSession"
      then on_cash (Session.materialize js text_of_id ctx event payload)
      else if event.entity == "cashMovement"
      then on_cash (Movement.materialize js text_of_id ctx event payload)
      else if event.entity == "sale"
      then h.sale ctx source event payload events
      else if event.entity == "saleItem"
      then h.sale_item ctx source event payload events
      else if event.entity == "payment"
      then h.payment ctx source event payload events
      else if event.entity == "receipt"
      then h.receipt ctx source event payload events
      else if event.entity == "stockReservation"
      then h.stock_reservation ctx source event payload events
      else if event.entity == "stockDeduction"
      then h.stock_deduction ctx source event payload events
      else if event.entity == "operationalOrder"
          || event.entity == "operationalOrderItem"
          || event.entity == "offlineOperationLog"
      then h.operational_order ctx source event payload events
      else pure (Outcome.rejected "ENTITY_NOT_LOCAL_FIRST")

  abbrev sequence_of : Option Session → Option ℤ
  sequence_of none = none
  sequence_of (some c) = c.last_local_sequence

  session_last_sequence : String → String → Tables E → Option ℤ
  session_last_sequence company uuid s =
      sequence_of (find? (is_session company uuid) s.cash.sessions)

  unfoldable pub materializer : Materializer (Tables E)
  unfolding dispatch session_last_sequence
  materializer = record {
    materialize = dispatch;
    order_last_sequence = λ company id s. h.order_last_sequence company id s.rest;
    session_last_sequence = session_last_sequence;
  }
