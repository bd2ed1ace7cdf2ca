-- ===== src/Shop/Orders/Frozen.antt =====
-- Orders that were converted into a sale or canceled, after a push.
use tatuzin.Prelude.{
  ℕ, String, ◌≡◌, refl, sym, ap, ◌∙◌, Bool, true, false, none, some, is_some, find?, or-left, ◌==◌,
}
use tatuzin.Payload.Json.{Runtime}
use tatuzin.Sync.Types.{Context}
use tatuzin.Shop.Types.{Order, ShopTables}
use tatuzin.Payload.Json.{Json}
use tatuzin.Sync.Types.{Store}
use tatuzin.Sync.Push.{push}
use tatuzin.Cash.Dispatch.{Tables}
use tatuzin.Shop.Dispatch.{service}
use tatuzin.Shop.Dispatch.Keeps.{push-Survives}
use tatuzin.Shop.Keyed.{Keyed}
use tatuzin.Shop.Steps.{is_order}
use tatuzin.Shop.Orders.Row.{Robust, HasOrder, HasOrder-Survives}

-- A converted order is left as it is.
pub same-Robust :
    (row : Order) (sale : ℕ) → row.converted_sale_id ≡ some sale → Robust (λ o. o ≡ row)
same-Robust row sale converted = record {
  changed = λ o f keeps free same.
      let bad : none ≡ some sale =
        sym free.converted_sale_id ∙ ap (λ (x : Order). x.converted_sale_id) same ∙ converted in
      absurd cc;
  becomes_sale = λ o now sale' live free same.
      let bad : none ≡ some sale =
        sym free ∙ ap (λ (x : Order). x.converted_sale_id) same ∙ converted in
      absurd cc;
}

-- with a date of cancellation, and without a sale
abbrev pub IsDropped : Order → Type 0
IsDropped o = (is_some o.cancelled_at ≡ true) × (o.converted_sale_id ≡ none)

-- What an order is that was `row`: dropped, and not open again.
abbrev pub StaysDropped : Order → Order → Type 0
StaysDropped row o = (IsDropped o) × ((row.status == "open") ≡ false → (o.status == "open") ≡ false)

StaysDropped-Robust : (row : Order) → Robust (StaysDropped row)
StaysDropped-Robust row = record {
  changed = λ o f keeps free h.
      let (date, sale) = h.0 in
      (
        (keeps.cancelled_at o date, keeps.converted_sale_id o ∙ free.converted_sale_id),
        λ closed. rw date at free.not_opened,
      );
  becomes_sale = λ o now sale live free h.
      let kept : is_some o.cancelled_at ≡ false = or-left (is_some o.cancelled_at) _ live in
      let bad : true ≡ false = sym h.0.0 ∙ kept in absurd cc;
}

module _ (js : Runtime) (text_of_id : ℕ → String) (company uuid : String)
    (is_datetime : String → Bool) (ctx : Context) (body : Json) (s : Store (Tables ShopTables))
    (keyed : Keyed (λ (o : Order). o.id) s.domain.rest.orders s.domain.rest.next_id) where
  -- With order ids that are distinct and below the next one: an order that was converted into a
  -- sale is the same row after any push, of whichever tenant and whatever its body is, whether the
  -- push answers or throws.
  pub push-converted :
      (row : Order) (sale : ℕ)
      → find? (is_order company uuid) s.domain.rest.orders ≡ some row
      → row.converted_sale_id ≡ some sale
      → find?
          (is_order company uuid)
          (push js is_datetime (service js text_of_id) ctx body s).1.domain.rest.orders
        ≡ some row
  push-converted row sale found converted =
      let after : HasOrder (λ o. o ≡ row) company uuid
          (push js is_datetime (service js text_of_id) ctx body s).1.domain.rest =
        push-Survives js text_of_id (HasOrder (λ o. o ≡ row) company uuid)
          (HasOrder-Survives (λ o. o ≡ row) (same-Robust row sale converted) company uuid)
          is_datetime ctx body s
          (record { keyed = keyed; row = row; found = found; holds = refl }) in
      after.found ∙ ap some after.holds

  -- With order ids that are distinct and below the next one: an order that has a date of
  -- cancellation and no sale is still there after any push, of whichever tenant and whatever its
  -- body is, whether the push answers or throws; it still has a date of cancellation and no sale,
  -- and its status is not `open` unless it was before.
  pub push-canceled :
      (row : Order)
      → find? (is_order company uuid) s.domain.rest.orders ≡ some row
      → IsDropped row
      → (o : Order) × (find?
            (is_order company uuid)
            (push js is_datetime (service js text_of_id) ctx body s).1.domain.rest.orders
          ≡ some o)
        × StaysDropped row o
  push-canceled row found dropped =
      let after : HasOrder (StaysDropped row) company uuid
          (push js is_datetime (service js text_of_id) ctx body s).1.domain.rest =
        push-Survives js text_of_id (HasOrder (StaysDropped row) company uuid)
          (HasOrder-Survives (StaysDropped row) (StaysDropped-Robust row) company uuid) is_datetime
          ctx body s
          (record { keyed = keyed; row = row; found = found; holds = (dropped, λ h. h) }) in
      (after.row, after.found, after.holds)
