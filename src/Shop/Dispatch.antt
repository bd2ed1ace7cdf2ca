-- ===== src/Shop/Dispatch.antt =====
-- The constructor of SyncMaterializerService of sync-materializer.service.ts with its materializers,
-- and `operationalOrder` of `findDomainLastLocalSequence`.
pub mod Keeps
use tatuzin.Prelude.{List, ℕ, String, ◌&&◌, Option, none, some, ◌==◌, find?}
use tatuzin.Prelude.Int.{ℤ}
use tatuzin.Payload.Json.{Fields, Runtime}
use tatuzin.Payload.Identity.{PushEvent}
use tatuzin.Exec.{Exec, Result}
use tatuzin.Sync.Types.{Context, SyncEvent, Outcome, Materializer}
use tatuzin.Cash.Dispatch.{Tables, Handler, Handlers, materializer}
use tatuzin.Shop.Types.{Order, ShopTables}
use tatuzin.Shop.Lookup.{Input}
use tatuzin.Shop.OrderItems
use tatuzin.Shop.Sales.{materialize_sale}
use tatuzin.Shop.SaleItems.{materialize_sale_item}
use tatuzin.Shop.Payments.{materialize_payment, materialize_receipt}
use tatuzin.Shop.Reservations.{materialize_reservation}
use tatuzin.Shop.Deductions.{materialize_deduction}

abbrev put_back :
    Tables ShopTables → Result Outcome × ShopTables → Result Outcome × Tables ShopTables
put_back s (r, shop) = (r, record s { rest = shop })

-- what a call of a materializer is given
abbrev pub input_of :
    Context → Option String → PushEvent → Fields → List SyncEvent → Tables ShopTables → Input
input_of ctx source event payload events s = record {
  ctx = ctx;
  source = source;
  event = event;
  payload = payload;
  events = events;
  sessions = s.cash.sessions;
}

abbrev pub on_shop : (Input → Exec ShopTables Outcome) → Handler ShopTables
on_shop action ctx source event payload events s =
    put_back s (action (input_of ctx source event payload events s) s.rest)

abbrev sequence_of : Option Order → Option ℤ
sequence_of none = none
sequence_of (some o) = o.last_local_sequence

order_last_sequence : String → String → ShopTables → Option ℤ
order_last_sequence company uuid s =
    sequence_of (find? (λ o. o.company_id == company && o.local_uuid == uuid) s.orders)

module _ (js : Runtime) (text_of_id : ℕ → String) where
  unfoldable pub handlers : Handlers ShopTables
  unfolding OrderItems.materialize materialize_sale materialize_sale_item materialize_payment
      materialize_receipt materialize_reservation materialize_deduction order_last_sequence
  handlers = record {
    sale = on_shop (materialize_sale js text_of_id);
    sale_item = on_shop (materialize_sale_item js text_of_id);
    payment = on_shop (materialize_payment js text_of_id);
    receipt = on_shop (materialize_receipt js text_of_id);
    stock_reservation = on_shop (materialize_reservation js text_of_id);
    stock_deduction = on_shop (materialize_deduction js text_of_id);
    operational_order = on_shop (OrderItems.materialize js text_of_id);
    order_last_sequence = order_last_sequence;
  }

  -- `SyncMaterializerService`
  unfoldable pub service : Materializer (Tables ShopTables)
  unfolding materializer handlers
  service = materializer js text_of_id handlers
