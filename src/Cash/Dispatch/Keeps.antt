-- ===== src/Cash/Dispatch/Keeps.antt =====
-- What every materializer keeps of the tables, a dispatched event keeps, and so does a push.
use tatuzin.Prelude.{ℕ, String, ◌||◌, Option, List, ◌==◌}
use tatuzin.Payload.Json.{Json, Fields, Runtime}
use tatuzin.Payload.Identity.{PushEvent}
use tatuzin.Exec.Keeps.{Keeps, Keeps-if, Keeps-pure}
use tatuzin.Sync.Types.{Context, SyncEvent, Store}
use tatuzin.Sync.Push.{push}
use tatuzin.Sync.Push.Domain.{push_domain}
use tatuzin.Sync.Stored.Domain.{KeepsDomain}
use tatuzin.Cash.Session
use tatuzin.Cash.Movement
use tatuzin.Cash.Dispatch.{Bool, Tables, Handler, Handlers, on_cash, dispatch, materializer}

module _ {E : Type 0} (P : Tables E → Type 0) where
  abbrev pub HandlerKeeps : Handler E → Type 0
  HandlerKeeps h =
      (ctx : Context) (source : Option String) (event : PushEvent) (payload : Fields)
      (events : List SyncEvent)
      → Keeps P (h ctx source event payload events)

  -- What is asked of the materializers that are not of the cash.
  pub record AllKeep (h : Handlers E) : Type 0 where
    pub sale : HandlerKeeps h.sale
    pub sale_item : HandlerKeeps h.sale_item
    pub payment : HandlerKeeps h.payment
    pub receipt : HandlerKeeps h.receipt
    pub stock_reservation : HandlerKeeps h.stock_reservation
    pub stock_deduction : HandlerKeeps h.stock_deduction
    pub operational_order : HandlerKeeps h.operational_order

module _ (js : Runtime) (text_of_id : ℕ → String) {E : Type 0} (h : Handlers E)
    (P : Tables E → Type 0)
    (sessions : HandlerKeeps P (λ ctx source event payload events.
      on_cash (Session.materialize js text_of_id ctx event payload)))
    (movements : HandlerKeeps P (λ ctx source event payload events.
      on_cash (Movement.materialize js text_of_id ctx event payload)))
    (others : AllKeep P h) where
  dispatch-Keeps : HandlerKeeps P (dispatch js text_of_id h)
  unfolding dispatch
  dispatch-Keeps ctx source event payload events =
      Keeps-if (event.entity == "cashSession") _ _ (sessions ctx source event payload events) (
        Keeps-if (event.entity == "cashMovement") _ _ (movements ctx source event payload events) (
          Keeps-if (event.entity == "sale") _ _ (others.sale ctx source event payload events) (
            Keeps-if (event.entity == "saleItem") _ _
              (others.sale_item ctx source event payload events)
              (Keeps-if (event.entity == "payment") _ _
                (others.payment ctx source event payload events)
                (Keeps-if (event.entity == "receipt") _ _
                  (others.receipt ctx source event payload events)
                  (Keeps-if (event.entity == "stockReservation") _ _
                    (others.stock_reservation ctx source event payload events)
                    (Keeps-if (event.entity == "stockDeduction") _ _
                      (others.stock_deduction ctx source event payload events)
                      (Keeps-if
                        (event.entity == "operationalOrder"
                          || event.entity == "operationalOrderItem"
                          || event.entity == "offlineOperationLog")
                        _ _ (others.operational_order ctx source event payload events)
                        (Keeps-pure _)))))))))

  pub materializer-KeepsDomain : KeepsDomain (materializer js text_of_id h) P
  unfolding materializer
  materializer-KeepsDomain = record {
    materialized = λ ctx source event payload events d inv.
        (dispatch-Keeps ctx source event payload events).at d inv;
  }

  pub push-Keeps :
      (is_datetime : String → Bool) (ctx : Context) (body : Json) (s : Store (Tables E))
      → P s.domain
      → P (push js is_datetime (materializer js text_of_id h) ctx body s).1.domain
  push-Keeps is_datetime ctx body s =
      push_domain js is_datetime (materializer js text_of_id h) ctx P materializer-KeepsDomain body
        s
