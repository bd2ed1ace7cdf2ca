-- ===== src/Shop/OrderItems/Frozen.antt =====
-- The items of a converted order, after a push.
use tatuzin.Prelude.{
  ℕ, suc, String, ◌≡◌, refl, sym, ap, ◌∙◌, Bool, true, false, inl, inr, some, List, nat_eq,
  nat_eq_iff, find?, Bool-cases,
}
use tatuzin.Payload.Json.{Runtime}
use tatuzin.Sync.Types.{Context}
use tatuzin.Shop.Types.{Order, OrderItem, ShopTables}
use mathlib.Core.Path.{subst}
use tatuzin.Prelude.{filter}
use tatuzin.Payload.Json.{Json}
use tatuzin.Sync.Types.{Store}
use tatuzin.Sync.Push.{push}
use tatuzin.Cash.Dispatch.{Tables}
use tatuzin.Shop.Dispatch.{service}
use tatuzin.Shop.Dispatch.Keeps.{push-Survives, Survives}
use tatuzin.Shop.Keyed.{
  Keyed, Keyed-suc, Keyed-append, Keyed-change, found-by_id, filter-append, filter-change, has_id,
}
use tatuzin.Cash.Session.Lists.{found-same}
use tatuzin.Shop.Lookup.Found.{IsIn}
use tatuzin.Shop.Stock.{of_variant, of_product}
use tatuzin.Shop.Orders.{is_immutable}
use tatuzin.Shop.Orders.Row.{HasOrder, HasOrder-Survives}
use tatuzin.Shop.Orders.Frozen.{same-Robust}
use tatuzin.Shop.Steps.{
  Step, is_order, nothing, order_created, order_changed, item_created, item_changed, sale_created,
  sale_converting, order_converted, receipt_set, sale_item_created, payment_created,
  reservation_created, reservation_changed, deducted,
}

-- the items of an order
abbrev pub items_of : ℕ → List OrderItem → List OrderItem
items_of order items = filter (λ x. nat_eq x.operational_order_id order) items

module _ (company uuid : String) (row : Order) (sale : ℕ) (items : List OrderItem)
    (was_converted : row.converted_sale_id ≡ some sale) where
  -- The order of the key is `row`, and has the items.
  pub record HasItems (s : ShopTables) : Type 0 where
    pub order : HasOrder (λ o. o ≡ row) company uuid s
    pub keyed : Keyed (λ (x : OrderItem). x.id) s.order_items s.next_id
    pub same : items_of row.id s.order_items ≡ items

  row-immutable : is_immutable row ≡ true
  row-immutable = rw was_converted refl

  module _ (s : ShopTables) (h : HasItems s) where
    found : find? (is_order company uuid) s.orders ≡ some row
    found = h.order.found ∙ ap some h.order.holds

    -- An order that is not immutable is another one.
    other_order :
        (o : Order) → IsIn o s.orders → is_immutable o ≡ false → nat_eq o.id row.id ≡ false
    other_order o known live = elim (Bool-cases (nat_eq o.id row.id)) [
      | inr differs ↦ differs
      | inl e ↦
          let same : o ≡ row =
            found-same (λ (x : Order). x.id) known.0 (is_order company uuid) s.orders o row
              h.order.keyed.apart known.1 found ((nat_eq_iff o.id row.id).0 e) in
          let bad : true ≡ false = sym row-immutable ∙ ap is_immutable (sym same) ∙ live in cc
    ]

    by_id : find? (has_id (λ (x : Order). x.id) row.id) s.orders ≡ some row
    by_id =
        found-by_id (λ (x : Order). x.id) s.orders (is_order company uuid) row h.order.keyed.apart
          found

    -- An item with no immutable order is of another order.
    other_item :
        (x : OrderItem)
        → ((o : Order)
            → find? (λ o. nat_eq o.id x.operational_order_id) s.orders ≡ some o
            → is_immutable o ≡ false)
        → nat_eq x.operational_order_id row.id ≡ false
    other_item x live = elim (Bool-cases (nat_eq x.operational_order_id row.id)) [
      | inr differs ↦ differs
      | inl e ↦
          let same = (nat_eq_iff x.operational_order_id row.id).0 e in
          let bad : true ≡ false =
            sym row-immutable
            ∙ live row (
                subst (λ n. find? (has_id (λ (x : Order). x.id) n) s.orders ≡ some row) (sym same)
                  by_id) in
          cc
    ]

  order_after :
      (ctx : Context) (s t : ShopTables)
      → Step ctx s t
      → HasItems s
      → HasOrder (λ o. o ≡ row) company uuid t
  order_after ctx s t step h =
      HasOrder-Survives (λ o. o ≡ row) (same-Robust row sale was_converted) company uuid ctx s t
        step h.order

  -- a row of another table is added
  added :
      (s t : ShopTables)
      → HasOrder (λ o. o ≡ row) company uuid t
      → t.order_items ≡ s.order_items
      → t.next_id ≡ suc s.next_id
      → HasItems s
      → HasItems t
  added s t order unchanged next h = record {
    order = order;
    keyed =
        subst (λ n. Keyed (λ (x : OrderItem). x.id) t.order_items n) (sym next)
          (subst (λ xs. Keyed (λ (x : OrderItem). x.id) xs (suc s.next_id)) (sym unchanged)
            (Keyed-suc (λ (x : OrderItem). x.id) s.order_items s.next_id h.keyed));
    same = ap (items_of row.id) unchanged ∙ h.same;
  }

  -- rows of another table are changed
  kept :
      (s t : ShopTables)
      → HasOrder (λ o. o ≡ row) company uuid t
      → t.order_items ≡ s.order_items
      → t.next_id ≡ s.next_id
      → HasItems s
      → HasItems t
  kept s t order unchanged next h = record {
    order = order;
    keyed =
        subst (λ n. Keyed (λ (x : OrderItem). x.id) t.order_items n) (sym next)
          (subst (λ xs. Keyed (λ (x : OrderItem). x.id) xs s.next_id) (sym unchanged) h.keyed);
    same = ap (items_of row.id) unchanged ∙ h.same;
  }

  HasItems-Survives : Survives HasItems
  HasItems-Survives ctx s _ nothing h = h
  HasItems-Survives ctx s _ (item_created x o known live e new absent) h = record {
    order = order_after ctx s _ (item_created x o known live e new absent) h;
    keyed = Keyed-append (λ (x : OrderItem). x.id) s.order_items s.next_id x new h.keyed;
    same =
        filter-append (λ (x : OrderItem). x.id) (λ x. nat_eq x.operational_order_id row.id)
          s.order_items x (ap (λ n. nat_eq n row.id) e ∙ other_order s h o known live)
        ∙ h.same;
  }
  HasItems-Survives ctx s _ (item_changed x f known live e ids) h =
      let other = other_item s h x live in
      record {
        order = order_after ctx s _ (item_changed x f known live e ids) h;
        keyed = Keyed-change (λ (x : OrderItem). x.id) _ f s.order_items s.next_id ids h.keyed;
        same =
            filter-change (λ (x : OrderItem). x.id) (λ x. nat_eq x.operational_order_id row.id)
              known.0 f s.order_items x h.keyed.apart known.1 other
              (ap (λ n. nat_eq n row.id) (e x) ∙ other)
            ∙ h.same;
      }
  HasItems-Survives ctx s _ (order_created o new) h =
      added s _ (order_after ctx s _ (order_created o new) h) refl refl h
  HasItems-Survives ctx s _ (order_changed o f known free keeps) h =
      kept s _ (order_after ctx s _ (order_changed o f known free keeps) h) refl refl h
  HasItems-Survives ctx s _ (sale_created x new) h =
      added s _ (order_after ctx s _ (sale_created x new) h) refl refl h
  HasItems-Survives ctx s _ (sale_converting x o new known fine untaken) h =
      added s _ (order_after ctx s _ (sale_converting x o new known fine untaken) h) refl refl h
  HasItems-Survives ctx s _ (order_converted sale o in_sales known fine distinct untaken) h =
      kept s _ (order_after ctx s _ (order_converted sale o in_sales known fine distinct untaken) h)
        refl refl h
  HasItems-Survives ctx s _ (receipt_set sale number known own free) h =
      kept s _ (order_after ctx s _ (receipt_set sale number known own free) h) refl refl h
  HasItems-Survives ctx s _ (sale_item_created x sale known own e absent) h =
      added s _ (order_after ctx s _ (sale_item_created x sale known own e absent) h) refl refl h
  HasItems-Survives ctx s _ (payment_created x new) h =
      added s _ (order_after ctx s _ (payment_created x new) h) refl refl h
  HasItems-Survives ctx s _ (reservation_created q x known new) h =
      added s _ (order_after ctx s _ (reservation_created q x known new) h) refl refl h
  HasItems-Survives ctx s _ (reservation_changed x status payload known own) h =
      kept s _ (order_after ctx s _ (reservation_changed x status payload known own) h) refl refl h
  HasItems-Survives ctx s _ (deducted (of_variant v) x known new) h =
      added s _ (order_after ctx s _ (deducted (of_variant v) x known new) h) refl refl h
  HasItems-Survives ctx s _ (deducted (of_product p) x known new) h =
      added s _ (order_after ctx s _ (deducted (of_product p) x known new) h) refl refl h

-- With ids of orders and of items that are distinct and below the next one: the items of an order
-- that was converted into a sale are the same, in the same order, after any push, of whichever
-- tenant and whatever its body is, whether the push answers or throws.
pub push-items_of :
    (js : Runtime) (text_of_id : ℕ → String) (company uuid : String) (row : Order) (sale : ℕ)
    (is_datetime : String → Bool) (ctx : Context) (body : Json) (s : Store (Tables ShopTables))
    → Keyed (λ (o : Order). o.id) s.domain.rest.orders s.domain.rest.next_id
    → Keyed (λ (x : OrderItem). x.id) s.domain.rest.order_items s.domain.rest.next_id
    → find? (is_order company uuid) s.domain.rest.orders ≡ some row
    → row.converted_sale_id ≡ some sale
    → items_of row.id
        (push js is_datetime (service js text_of_id) ctx body s).1.domain.rest.order_items
      ≡ items_of row.id s.domain.rest.order_items
push-items_of js text_of_id company uuid row sale is_datetime ctx body s orders items found was =
    let kept_items = items_of row.id s.domain.rest.order_items in
    (push-Survives js text_of_id (HasItems company uuid row sale kept_items was)
      (HasItems-Survives company uuid row sale kept_items was) is_datetime ctx body s
      (record {
        order = record { keyed = orders; row = row; found = found; holds = refl };
        keyed = items;
        same = refl;
      })).same
