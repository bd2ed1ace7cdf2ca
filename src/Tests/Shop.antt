-- ===== src/Tests/Shop.antt =====
-- Events of sales, orders and stock at concrete inputs.
use tatuzin.Prelude.{
  Bool, ℕ, String, ◌≡◌, refl, true, none, some, [], ◌∷◌, arith, nat_eq, find?, if◌then◌else◌, ◌+◌,
  ◌*◌, ◌≤◌, ◌<◌,
}
use tatuzin.Prelude.Int.{pos, leb_ℤ}
use tatuzin.Payload.Json.{Json, obj, arr, cons, nil, Fields, end, field, str, num, finite}
use tatuzin.Sync.Types.{Store}
use tatuzin.Sync.Push.{push}
use tatuzin.Cash.Dispatch.{Tables}
use tatuzin.Cash.Session.Closed.{IsClosed}
use tatuzin.Cash.Types.{Session}
use tatuzin.Shop.Types.{Order, OrderItem, Product, Variant, Sale, ShopTables}
use tatuzin.Shop.Dispatch.{service}
use tatuzin.Shop.Dispatch.Keeps.{push-service-IsClosed}
use tatuzin.Shop.Keyed.{Keyed}
use tatuzin.Shop.Steps.{is_order}
use tatuzin.Shop.Stock.Conserved.{
  ProductBalance, VariantBalance, push-ProductBalance, push-VariantBalance,
}
use tatuzin.Shop.Orders.Frozen.{push-converted, push-canceled, StaysDropped}
use tatuzin.Shop.OrderItems.{derived_total, item_total}
use tatuzin.Shop.OrderItems.Frozen.{items_of, push-items_of}
use tatuzin.Shop.OrderItems.Totals.{derived_total-bounds, item_total-bounds}
use tatuzin.Shop.Lookup.{Input}
use tatuzin.Shop.Sales.Unique.{HasUniqueSales, push-HasUniqueSales}
use tatuzin.Shop.Payments.Sound.{HasSoundPayments, push-HasSoundPayments}
use tatuzin.Tests.Setting.{any_datetime, runtime, shop, sending}

abbrev beans : String
beans = "11111111-1111-4111-8111-111111111111"

abbrev cup : String
cup = "22222222-2222-4222-8222-222222222222"

abbrev text_of_id : ℕ → String
text_of_id n = if nat_eq n 7 then beans else if nat_eq n 8 then cup else "id"

abbrev order : Order
order = record {
  id = 0;
  company_id = "shop";
  local_uuid = "order-1";
  cash_session_id = none;
  customer_id = none;
  seller_user_id = some "ann";
  device_id = some "till";
  status = "converted";
  subtotal_cents = pos 0;
  discount_cents = pos 0;
  total_cents = pos 0;
  notes = none;
  closed_at = some (pos 1);
  cancelled_at = none;
  converted_sale_id = some 2;
  last_local_sequence = none;
  created_at = pos 1;
}

abbrev dropped : Order
dropped = record order {
  id = 1;
  local_uuid = "order-2";
  status = "canceled";
  cancelled_at = some (pos 1);
  converted_sale_id = none;
}

abbrev sale : Sale
sale = record {
  id = 2;
  company_id = "shop";
  cash_session_id = none;
  local_uuid = "sale-1";
  customer_id = none;
  receipt_number = some "1";
  payment_type = "vista";
  payment_method = "dinheiro";
  status = "active";
  total_amount_cents = pos 0;
  total_cost_cents = pos 0;
  sold_at = pos 1;
  notes = none;
}

abbrev item : OrderItem
item = record {
  id = 3;
  company_id = "shop";
  operational_order_id = 0;
  local_uuid = "item-1";
  product_id = none;
  product_variant_id = none;
  description = "beans";
  quantity_mil = pos 1000;
  unit_price_cents = pos 5;
  total_cents = pos 5;
  created_at = pos 1;
}

abbrev product : Product
product = record { id = 7; company_id = "shop"; is_deleted = Bool.false; stock_mil = pos 5 }

abbrev variant : Variant
variant = record { id = 8; product_id = 7; is_active = true; stock_mil = pos 5 }

abbrev tables : ShopTables
tables = record {
  sales = sale ∷ [];
  sale_items = [];
  financial_events = [];
  orders = order ∷ dropped ∷ [];
  order_items = item ∷ [];
  reservations = [];
  deductions = [];
  products = product ∷ [];
  variants = variant ∷ [];
  customers = [];
  next_id = 9;
}

abbrev closed_session : Session
closed_session = record {
  id = 0;
  company_id = "shop";
  local_uuid = "local-1";
  device_id = some "till";
  user_id = some "ann";
  local_id = some "1";
  status = "closed";
  opened_at = some (pos 1);
  closed_at = some (pos 2);
  opening_balance_cents = pos 0;
  closing_balance_cents = none;
  expected_balance_cents = none;
  notes = none;
  payload = none;
  last_local_sequence = none;
}

abbrev store : Store (Tables ShopTables)
store = record {
  states = [];
  events = [];
  checkpoints = [];
  conflicts = [];
  incidents = [];
  next_id = 0;
  domain = record {
    cash = record { sessions = closed_session ∷ []; movements = []; next_id = 1 };
    rest = tables;
  };
}

abbrev raw : String → String → Fields → Json
raw entity local_id payload = obj (
    field "eventId" (str "e1") (
      field "feature" (str "sales") (
        field "entity" (str entity) (
          field "operation" (str "upsert") (
            field "entityLocalId" (str local_id) (
              field "occurredAt" (str "2026-01-01T00:00:00.000Z")
                (field "payload" (obj payload) end)))))))

abbrev body : Json → Json
body event = obj (field "events" (arr (cons event nil)) end)

-- takes three of the five out of the variant
abbrev deduction : Fields
deduction =
    field "productVariantId" (str cup) (field "quantityMil" (num (finite Bool.false 3 true)) end)

push-VariantBalance_example :
    VariantBalance 8 5
      (push runtime any_datetime
        (service runtime text_of_id)
        shop
        (body (raw "stockDeduction" "d1" deduction))
        store).1.domain.rest
push-VariantBalance_example =
    push-VariantBalance runtime text_of_id 8 5 any_datetime shop
      (body (raw "stockDeduction" "d1" deduction)) store
      (record {
        apart = (tt, tt);
        row = variant;
        found = refl;
        remaining = 5;
        stock = refl;
        sum = refl;
      })

push-ProductBalance_example :
    ProductBalance 7 5
      (push runtime any_datetime
        (service runtime text_of_id)
        shop
        (body (raw "stockDeduction" "d1" deduction))
        store).1.domain.rest
push-ProductBalance_example =
    push-ProductBalance runtime text_of_id 7 5 any_datetime shop
      (body (raw "stockDeduction" "d1" deduction)) store
      (record {
        apart = (tt, tt);
        row = product;
        found = refl;
        remaining = 5;
        stock = refl;
        sum = refl;
      })

orders-Keyed : Keyed (λ (o : Order). o.id) tables.orders tables.next_id
orders-Keyed = record {
  apart = (((λ e. omega (arith, e)), tt), (tt, tt));
  below = (omega arith, (omega arith, tt));
}

items-Keyed : Keyed (λ (x : OrderItem). x.id) tables.order_items tables.next_id
items-Keyed = record { apart = (tt, tt); below = (omega arith, tt) }

push-converted_example :
    find?
      (is_order "shop" "order-1")
      (push runtime any_datetime
        (service runtime text_of_id)
        shop
        (body (raw "operationalOrder" "order-1" end))
        store).1.domain.rest.orders
    ≡ some order
push-converted_example =
    push-converted runtime text_of_id "shop" "order-1" any_datetime shop
      (body (raw "operationalOrder" "order-1" end)) store orders-Keyed order 2 refl refl

push-canceled_example :
    (o : Order) × (find?
        (is_order "shop" "order-2")
        (push runtime any_datetime
          (service runtime text_of_id)
          shop
          (body (raw "operationalOrder" "order-2" end))
          store).1.domain.rest.orders
      ≡ some o)
    × StaysDropped dropped o
push-canceled_example =
    push-canceled runtime text_of_id "shop" "order-2" any_datetime shop
      (body (raw "operationalOrder" "order-2" end)) store orders-Keyed dropped refl (refl, refl)

push-items_of_example :
    items_of 0
      (push runtime any_datetime
        (service runtime text_of_id)
        shop
        (body (raw "operationalOrderItem" "item-1" end))
        store).1.domain.rest.order_items
    ≡ item ∷ []
push-items_of_example =
    push-items_of runtime text_of_id "shop" "order-1" order 2 any_datetime shop
      (body (raw "operationalOrderItem" "item-1" end)) store orders-Keyed items-Keyed refl refl

push-HasUniqueSales_example :
    HasUniqueSales
      (push runtime any_datetime
        (service runtime text_of_id)
        shop
        (body (raw "receipt" "1" end))
        store).1.domain.rest
push-HasUniqueSales_example =
    push-HasUniqueSales runtime text_of_id any_datetime shop (body (raw "receipt" "1" end)) store
      (record { keyed = record { apart = (tt, tt); below = (omega arith, tt) }; apart = (tt, tt) })

push-HasSoundPayments_example :
    HasSoundPayments []
      (push runtime any_datetime
        (service runtime text_of_id)
        shop
        (body (raw "payment" "p1" end))
        store).1.domain.rest.financial_events
push-HasSoundPayments_example =
    push-HasSoundPayments runtime text_of_id any_datetime shop (body (raw "payment" "p1" end)) store
      tt

push-service-IsClosed_example :
    IsClosed "shop" "local-1"
      (push runtime any_datetime
        (service runtime text_of_id)
        shop
        (body (raw "cashSession" "local-1" end))
        store).1.domain.cash
push-service-IsClosed_example =
    push-service-IsClosed runtime text_of_id "shop" "local-1" refl any_datetime shop
      (body (raw "cashSession" "local-1" end)) store
      (record { apart = (tt, tt); below = (omega arith, tt) }) (closed_session, refl, refl)

derived_total-bounds_example :
    (cents : ℕ) × (pos 3 ≡ pos cents)
    × ((cents + 1) * 1000 ≤ 7 * 500 + 500)
    × (7 * 500 < (cents + 1) * 1000 + 500)
unfolding derived_total
derived_total-bounds_example = derived_total-bounds 7 500 1 (pos 3) refl

abbrev given : Input
given = record {
  ctx = shop;
  source = none;
  event = sending "e1" "operationalOrderItem";
  payload = field "totalCents" (num (finite Bool.false 5 true)) end;
  events = [];
  sessions = [];
}

item_total-bounds_example : leb_ℤ (pos 0) (pos 5) ≡ true
unfolding item_total
item_total-bounds_example =
    item_total-bounds runtime text_of_id given (pos 1000) none (pos 5) (λ b e. absurd cc) refl
