-- ===== src/Shop/Payments/Sound.antt =====
-- Payments are stored once, and are positive.
use tatuzin.Prelude.{
  ℕ, String, ◌≡◌, ◌≢◌, refl, sym, ap, ◌∙◌, List, [], ◌∷◌, ◌++◌, Bool, true, false, eq_refl, All,
}
use tatuzin.Prelude.Int.{pos, ltb_ℤ}
use tatuzin.Payload.Json.{Runtime}
use tatuzin.Sync.Types.{Context}
use tatuzin.Shop.Types.{FinancialEvent, ShopTables}
use tatuzin.Prelude.{All-map, All-concat}
use tatuzin.Payload.Json.{Json}
use tatuzin.Sync.Types.{Store}
use tatuzin.Sync.Push.{push}
use tatuzin.Sync.Numbering.{Pairwise}
use tatuzin.Sync.Tables.Lists.{Pairwise-concat}
use tatuzin.Cash.Dispatch.{Tables}
use tatuzin.Shop.Dispatch.{service}
use tatuzin.Shop.Dispatch.Keeps.{push-Survives, Survives}
use tatuzin.Shop.Lookup.Found.{none-All}
use tatuzin.Shop.Stock.{of_variant, of_product}
use tatuzin.Shop.Steps.{
  IsNewPayment, nothing, order_created, order_changed, item_created, item_changed, sale_created,
  sale_converting, order_converted, receipt_set, sale_item_created, payment_created,
  reservation_created, reservation_changed, deducted,
}

abbrev pub HasOwnKey : FinancialEvent → FinancialEvent → Type 0
HasOwnKey x y = x.company_id ≡ y.company_id → x.local_uuid ≢ y.local_uuid

-- No two rows of one tenant have the same key, and the rows are those of before and then new ones,
-- each of a positive amount.
pub record HasSoundPayments (before after : List FinancialEvent) : Type 0 where
  pub apart : Pairwise HasOwnKey after
  pub created : List FinancialEvent
  pub grown : after ≡ before ++ created
  pub positive : All (λ x. ltb_ℤ (pos 0) x.amount_cents ≡ true) created

append_row :
    (xs ys : List FinancialEvent) (x : FinancialEvent) → (xs ++ ys) ++ x ∷ [] ≡ xs ++ (ys ++ x ∷ [])
append_row [] ys x = refl
append_row (y ∷ xs) ys x = ap (λ zs. y ∷ zs) (append_row xs ys x)

append_nothing : (xs : List FinancialEvent) → xs ≡ xs ++ []
append_nothing [] = refl
append_nothing (x ∷ xs) = ap (λ zs. x ∷ zs) (append_nothing xs)

paid :
    (before : List FinancialEvent) (ctx : Context) (s : ShopTables) (x : FinancialEvent)
    → IsNewPayment ctx s x
    → HasSoundPayments before s.financial_events
    → HasSoundPayments before (s.financial_events ++ x ∷ [])
paid before ctx s x new h = record {
  apart = Pairwise-concat HasOwnKey s.financial_events x h.apart (
      All-map s.financial_events
        (λ y off c e.
          let bad : true ≡ false =
            sym (
              rw (c, e)
                (rw new.company_id (rw (eq_refl ctx.company_id, eq_refl x.local_uuid) refl)))
            ∙ off in
          cc)
        (none-All _ s.financial_events new.absent));
  created = h.created ++ x ∷ [];
  grown = ap (λ xs. xs ++ x ∷ []) h.grown ∙ append_row before h.created x;
  positive = All-concat (λ x. ltb_ℤ (pos 0) x.amount_cents ≡ true) h.created h.positive new.amount;
}

sound-Survives :
    (before : List FinancialEvent) → Survives (λ s. HasSoundPayments before s.financial_events)
sound-Survives before ctx s _ (payment_created x new) h = paid before ctx s x new h
sound-Survives before ctx s _ nothing h = h
sound-Survives before ctx s _ (order_created o new) h = h
sound-Survives before ctx s _ (order_changed o f known free keeps) h = h
sound-Survives before ctx s _ (item_created x o known live e new absent) h = h
sound-Survives before ctx s _ (item_changed x f known live e ids) h = h
sound-Survives before ctx s _ (sale_created x new) h = h
sound-Survives before ctx s _ (sale_converting x o new known fine untaken) h = h
sound-Survives before ctx s _ (order_converted sale o in_sales known fine distinct untaken) h = h
sound-Survives before ctx s _ (receipt_set sale number known own free) h = h
sound-Survives before ctx s _ (sale_item_created x sale known own e absent) h = h
sound-Survives before ctx s _ (reservation_created q x known new) h = h
sound-Survives before ctx s _ (reservation_changed x status payload known own) h = h
sound-Survives before ctx s _ (deducted (of_variant v) x known new) h = h
sound-Survives before ctx s _ (deducted (of_product p) x known new) h = h

-- Where no two payments of one tenant have the same key: after any push, of whichever tenant and
-- whatever its body is, whether the push answers or throws, that is still so, the rows of before
-- are all there as they were, and each row that the push added has a positive amount.
pub push-HasSoundPayments :
    (js : Runtime) (text_of_id : ℕ → String) (is_datetime : String → Bool) (ctx : Context)
    (body : Json) (s : Store (Tables ShopTables))
    → Pairwise HasOwnKey s.domain.rest.financial_events
    → HasSoundPayments s.domain.rest.financial_events
        (push js is_datetime (service js text_of_id) ctx body s).1.domain.rest.financial_events
push-HasSoundPayments js text_of_id is_datetime ctx body s apart =
    let before : List FinancialEvent = s.domain.rest.financial_events in
    push-Survives js text_of_id (λ t. HasSoundPayments before t.financial_events)
      (sound-Survives before) is_datetime ctx body s
      (record { apart = apart; created = []; grown = append_nothing before; positive = tt })
