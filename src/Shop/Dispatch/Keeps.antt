-- ===== src/Shop/Dispatch/Keeps.antt =====
-- What every step of the tables of the shop keeps, a push keeps, and a push keeps closed cash
-- sessions closed.
use tatuzin.Prelude.{ℕ, String, ◌≡◌, Bool, true, false, Option, List, ◌==◌, ◌||◌, if◌then◌else◌}
use tatuzin.Payload.Json.{Json, Fields, Runtime}
use tatuzin.Payload.Identity.{PushEvent}
use tatuzin.Exec.{Exec, Result}
use tatuzin.Sync.Types.{Context, SyncEvent, Store, Outcome}
use tatuzin.Sync.Push.{push}
use tatuzin.Cash.Session.Closed.{IsKeyed, IsClosed}
use tatuzin.Cash.Dispatch.{Tables, materializer, dispatch}
use tatuzin.Cash.Dispatch.Keeps.{HandlerKeeps, push-Keeps}
use tatuzin.Cash.Dispatch.Closed.{push-IsClosed}
use tatuzin.Shop.Types.{ShopTables}
use tatuzin.Shop.Lookup.{Input}
use tatuzin.Shop.OrderItems
use tatuzin.Shop.Sales.{materialize_sale}
use tatuzin.Shop.SaleItems.{materialize_sale_item}
use tatuzin.Shop.Payments.{materialize_payment, materialize_receipt}
use tatuzin.Shop.Reservations.{materialize_reservation}
use tatuzin.Shop.Deductions.{materialize_deduction}
use tatuzin.Shop.OrderItems.Step
use tatuzin.Shop.Sales.Step.{materialize_sale-Step}
use tatuzin.Shop.SaleItems.Step.{materialize_sale_item-Step}
use tatuzin.Shop.Payments.Step.{materialize_payment-Step, materialize_receipt-Step}
use tatuzin.Shop.Reservations.Step.{materialize_reservation-Step}
use tatuzin.Shop.Deductions.Step.{materialize_deduction-Step}
use tatuzin.Shop.Steps.{Step, nothing}
use tatuzin.Shop.Dispatch.{on_shop, handlers, service, input_of}

-- `Q` survives every step.
abbrev pub Survives : (ShopTables → Type 0) → Type 0
Survives Q = (ctx : Context) (s t : ShopTables) → Step ctx s t → Q s → Q t

module _ (Q : ShopTables → Type 0) (survives : Survives Q) where
  abbrev OnShop : Tables ShopTables → Type 0
  OnShop d = Q d.rest

  on_shop-Keeps :
      (action : Input → Exec ShopTables Outcome)
      → ((i : Input) (s : ShopTables) → Step i.ctx s (action i s).1)
      → HandlerKeeps OnShop (on_shop action)
  on_shop-Keeps action step ctx source event payload events = record {
    at = λ s h. survives ctx s.rest _ (step (input_of ctx source event payload events s) s.rest) h;
  }

module _ (js : Runtime) (text_of_id : ℕ → String) where
  -- A push keeps what every step of the tables of the shop keeps.
  pub push-Survives :
      (Q : ShopTables → Type 0)
      → Survives Q
      → (is_datetime : String → Bool) (ctx : Context) (body : Json) (s : Store (Tables ShopTables))
      → Q s.domain.rest
      → Q (push js is_datetime (service js text_of_id) ctx body s).1.domain.rest
  unfolding service handlers
  push-Survives Q survives is_datetime ctx body s =
      push-Keeps js text_of_id (handlers js text_of_id) (λ d. Q d.rest)
        (λ ctx source event payload events. record { at = λ s h. h })
        (λ ctx source event payload events. record { at = λ s h. h })
        (record {
          sale =
              on_shop-Keeps Q survives (materialize_sale js text_of_id)
                (materialize_sale-Step js text_of_id);
          sale_item =
              on_shop-Keeps Q survives (materialize_sale_item js text_of_id)
                (materialize_sale_item-Step js text_of_id);
          payment =
              on_shop-Keeps Q survives (materialize_payment js text_of_id)
                (materialize_payment-Step js text_of_id);
          receipt =
              on_shop-Keeps Q survives (materialize_receipt js text_of_id)
                (materialize_receipt-Step js text_of_id);
          stock_reservation =
              on_shop-Keeps Q survives (materialize_reservation js text_of_id)
                (materialize_reservation-Step js text_of_id);
          stock_deduction =
              on_shop-Keeps Q survives (materialize_deduction js text_of_id)
                (materialize_deduction-Step js text_of_id);
          operational_order =
              on_shop-Keeps Q survives (OrderItems.materialize js text_of_id)
                (Step.materialize-Step js text_of_id);
        })
        is_datetime ctx body s

  -- With a lower-casing that leaves `open` as it is: no push, of whichever tenant and whatever its
  -- body is, reopens or removes a closed cash session, whether it answers or throws.
  pub push-service-IsClosed :
      (company uuid : String)
      → js.to_lower_case "open" ≡ "open"
      → (is_datetime : String → Bool) (ctx : Context) (body : Json) (s : Store (Tables ShopTables))
      → IsKeyed s.domain.cash
      → IsClosed company uuid s.domain.cash
      → IsClosed company uuid (push js is_datetime (service js text_of_id) ctx body s).1.domain.cash
  unfolding service handlers
  push-service-IsClosed company uuid lower =
      push-IsClosed js text_of_id company uuid lower (handlers js text_of_id) (record {
        sale = λ ctx source event payload events. record { at = λ s inv. inv };
        sale_item = λ ctx source event payload events. record { at = λ s inv. inv };
        payment = λ ctx source event payload events. record { at = λ s inv. inv };
        receipt = λ ctx source event payload events. record { at = λ s inv. inv };
        stock_reservation = λ ctx source event payload events. record { at = λ s inv. inv };
        stock_deduction = λ ctx source event payload events. record { at = λ s inv. inv };
        operational_order = λ ctx source event payload events. record { at = λ s inv. inv };
      })

  -- What a dispatched event does to the tables of the shop.
  abbrev Refines : Context → Tables ShopTables → Result Outcome × Tables ShopTables → Type 0
  Refines ctx s r = Step ctx s.rest r.1.rest

  Refines-choice :
      (ctx : Context) (s : Tables ShopTables) (b : Bool) (m n : Exec (Tables ShopTables) Outcome)
      → Refines ctx s (m s)
      → Refines ctx s (n s)
      → Refines ctx s ((if b then m else n) s)
  Refines-choice ctx s true m n h k = h
  Refines-choice ctx s false m n h k = k

  pub materialize-Step :
      (ctx : Context) (source : Option String) (event : PushEvent) (payload : Fields)
      (events : List SyncEvent) (s : Tables ShopTables)
      → Step ctx s.rest
          ((service js text_of_id).materialize ctx source event payload events s).1.rest
  unfolding service handlers materializer dispatch
  materialize-Step ctx source event payload events s =
      let i = input_of ctx source event payload events s in
      Refines-choice ctx s (event.entity == "cashSession") _ _ nothing (
        Refines-choice ctx s (event.entity == "cashMovement") _ _ nothing (
          Refines-choice ctx s (event.entity == "sale") _ _
            (materialize_sale-Step js text_of_id i s.rest)
            (Refines-choice ctx s (event.entity == "saleItem") _ _
              (materialize_sale_item-Step js text_of_id i s.rest)
              (Refines-choice ctx s (event.entity == "payment") _ _
                (materialize_payment-Step js text_of_id i s.rest)
                (Refines-choice ctx s (event.entity == "receipt") _ _
                  (materialize_receipt-Step js text_of_id i s.rest)
                  (Refines-choice ctx s (event.entity == "stockReservation") _ _
                    (materialize_reservation-Step js text_of_id i s.rest)
                    (Refines-choice ctx s (event.entity == "stockDeduction") _ _
                      (materialize_deduction-Step js text_of_id i s.rest)
                      (Refines-choice ctx s
                        (event.entity == "operationalOrder"
                          || event.entity == "operationalOrderItem"
                          || event.entity == "offlineOperationLog")
                        _ _ (Step.materialize-Step js text_of_id i s.rest) nothing))))))))
