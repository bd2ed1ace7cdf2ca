-- ===== src/Shop/Sales/Unique.antt =====
-- Sales keep their key and their receipt number to themselves.
use tatuzin.Prelude.{
  ℕ, suc, String, ◌≡◌, ◌≢◌, refl, sym, ap, ◌∙◌, Bool, true, false, Option, none, some, List, ◌==◌,
  nat_eq, nat_eq_iff, eq_refl, All,
}
use tatuzin.Payload.Json.{Runtime}
use tatuzin.Sync.Types.{Context}
use tatuzin.Shop.Types.{Sale, ShopTables}
use mathlib.Core.Path.{subst}
use tatuzin.Prelude.{All-map, All-both, All-any}
use tatuzin.Payload.Json.{Json}
use tatuzin.Sync.Types.{Store}
use tatuzin.Sync.Push.{push}
use tatuzin.Sync.Numbering.{Pairwise}
use tatuzin.Sync.Tables.Lists.{Pairwise-concat, Pairwise-change}
use tatuzin.Cash.Dispatch.{Tables}
use tatuzin.Shop.Dispatch.{service}
use tatuzin.Shop.Dispatch.Keeps.{push-Survives, Survives}
use tatuzin.Shop.Keyed.{Keyed, Keyed-suc, Keyed-append, Keyed-change, All-same_id}
use tatuzin.Shop.Lookup.Found.{IsIn, none-All}
use tatuzin.Shop.Sales.{receipt_owner, add_sale}
use tatuzin.Shop.Payments.{set_receipt}
use tatuzin.Shop.Stock.{of_variant, of_product}
use tatuzin.Shop.Steps.{
  IsNewSale, is_sale, nothing, order_created, order_changed, item_created, item_changed,
  sale_created, sale_converting, order_converted, receipt_set, sale_item_created, payment_created,
  reservation_created, reservation_changed, deducted,
}

-- Two sales of one tenant have different keys and no common receipt number.
pub record Apart (x y : Sale) : Type 0 where
  pub uuid : x.company_id ≡ y.company_id → x.local_uuid ≢ y.local_uuid
  pub receipt :
      (number : String)
      → x.company_id ≡ y.company_id
      → x.receipt_number ≡ some number
      → y.receipt_number ≢ some number

Apart-symm : (x y : Sale) → Apart x y → Apart y x
Apart-symm x y h = record {
  uuid = λ c e. h.uuid (sym c) (sym e);
  receipt = λ number c e f. h.receipt number (sym c) f e;
}

-- Sale ids are distinct and below the next one, and sales are apart.
pub record HasUniqueSales (s : ShopTables) : Type 0 where
  pub keyed : Keyed (λ (x : Sale). x.id) s.sales s.next_id
  pub apart : Pairwise Apart s.sales

abbrev has_number : String → Option String → Bool
has_number number none = false
has_number number (some n) = n == number

abbrev OwnsNot : String → String → Sale → Type 0
OwnsNot company number y = y.company_id ≡ company → y.receipt_number ≢ some number

free_number :
    (company number : String) (sales : List Sale)
    → receipt_owner company number sales ≡ none
    → All (OwnsNot company number) sales
free_number company number sales h =
    All-map sales
      (λ y off c e.
        let bad : true ≡ false =
          sym (rw (c, e) (rw (eq_refl company, eq_refl number) refl)) ∙ off in
        cc)
      (none-All _ sales h)

keeps_key :
    (company uuid : String) (y : Sale)
    → is_sale company uuid y ≡ false
    → y.company_id ≡ company
    → y.local_uuid ≢ uuid
keeps_key company uuid y off c e =
    let bad : true ≡ false = sym (rw (c, e) (rw (eq_refl company, eq_refl uuid) refl)) ∙ off in cc

module _ (ctx : Context) (s : ShopTables) where
  numbers :
      (number : Option String)
      → ((n : String) → number ≡ some n → receipt_owner ctx.company_id n s.sales ≡ none)
      → All (λ y. (n : String) → number ≡ some n → OwnsNot ctx.company_id n y) s.sales
  numbers none free = All-any s.sales (λ y n given. absurd cc)
  numbers (some number) free =
      All-map s.sales
        (λ y off n given.
          let same : number ≡ n = cc in subst (λ m. OwnsNot ctx.company_id m y) same off)
        (free_number ctx.company_id number s.sales (free number refl))

  created : (x : Sale) → IsNewSale ctx s x → HasUniqueSales s → HasUniqueSales (add_sale x s)
  created x new h = record {
    keyed = Keyed-append (λ (x : Sale). x.id) s.sales s.next_id x new.id h.keyed;
    apart = Pairwise-concat Apart s.sales x h.apart (
        All-map s.sales
          (λ y facts. record {
            uuid = λ c. keeps_key ctx.company_id x.local_uuid y facts.0 (c ∙ new.company_id);
            receipt = λ number c e f. facts.1 number f (c ∙ new.company_id) e;
          })
          (All-both _ _ s.sales (none-All _ s.sales new.absent)
            (numbers x.receipt_number new.receipt)));
  }

  -- Another row of the tenant that is set the number would be the owner of it.
  abbrev Known : Sale → String → Sale → Type 0
  Known sale number y = (y.id ≡ sale.id → y ≡ sale) × OwnsNot ctx.company_id number y

  numbered-Apart :
      (sale : Sale) (number : String) (x y : Sale)
      → sale.company_id ≡ ctx.company_id
      → nat_eq x.id sale.id ≡ true
      → Known sale number x
      → Known sale number y
      → Apart x y
      → Apart (record x { receipt_number = some number }) y
  numbered-Apart sale number x y own p gx gy r = record {
    uuid = r.uuid;
    receipt = λ n c e f.
        let n_number : number ≡ n = cc in
        let is_sale : x ≡ sale = gx.0 ((nat_eq_iff x.id sale.id).0 p) in
        gy.1 (sym c ∙ ap (λ (z : Sale). z.company_id) is_sale ∙ own) (f ∙ ap some (sym n_number));
  }

  numbered :
      (sale : Sale) (number : String)
      → IsIn sale s.sales
      → sale.company_id ≡ ctx.company_id
      → receipt_owner ctx.company_id number s.sales ≡ none
      → HasUniqueSales s
      → HasUniqueSales (set_receipt sale.id number s)
  numbered sale number known own free h = record {
    keyed = Keyed-change (λ (x : Sale). x.id) _ _ s.sales s.next_id (λ x. refl) h.keyed;
    apart =
        Pairwise-change Apart (Known sale number) (λ x. nat_eq x.id sale.id) _ s.sales Apart-symm
          (λ x y p gx gy r. numbered-Apart sale number x y own p gx gy r)
          (All-both _ _ s.sales
            (All-same_id (λ (x : Sale). x.id) s.sales known.0 sale h.keyed.apart known.1)
            (free_number ctx.company_id number s.sales free))
          h.apart;
  }

-- a row of another table is added, or changed
elsewhere :
    (s t : ShopTables)
    → t.sales ≡ s.sales
    → t.next_id ≡ suc s.next_id
    → HasUniqueSales s
    → HasUniqueSales t
elsewhere s t same next h = record {
  keyed =
      subst (λ n. Keyed (λ (x : Sale). x.id) t.sales n) (sym next)
        (subst (λ xs. Keyed (λ (x : Sale). x.id) xs (suc s.next_id)) (sym same)
          (Keyed-suc (λ (x : Sale). x.id) s.sales s.next_id h.keyed));
  apart = subst (Pairwise Apart) (sym same) h.apart;
}

untouched :
    (s t : ShopTables)
    → t.sales ≡ s.sales
    → t.next_id ≡ s.next_id
    → HasUniqueSales s
    → HasUniqueSales t
untouched s t same next h = record {
  keyed =
      subst (λ n. Keyed (λ (x : Sale). x.id) t.sales n) (sym next)
        (subst (λ xs. Keyed (λ (x : Sale). x.id) xs s.next_id) (sym same) h.keyed);
  apart = subst (Pairwise Apart) (sym same) h.apart;
}

HasUniqueSales-Survives : Survives HasUniqueSales
HasUniqueSales-Survives ctx s _ nothing h = h
HasUniqueSales-Survives ctx s _ (order_created o new) h = elsewhere s _ refl refl h
HasUniqueSales-Survives ctx s _ (order_changed o f known free keeps) h = untouched s _ refl refl h
HasUniqueSales-Survives ctx s _ (item_created x o known live e new absent) h =
    elsewhere s _ refl refl h
HasUniqueSales-Survives ctx s _ (item_changed x f known live e ids) h = untouched s _ refl refl h
HasUniqueSales-Survives ctx s _ (sale_created x new) h = created ctx s x new h
HasUniqueSales-Survives ctx s _ (sale_converting x o new known fine untaken) h =
    untouched (add_sale x s) _ refl refl (created ctx s x new h)
HasUniqueSales-Survives ctx s _ (order_converted sale o in_sales known fine distinct untaken) h =
    untouched s _ refl refl h
HasUniqueSales-Survives ctx s _ (receipt_set sale number known own free) h =
    numbered ctx s sale number known own free h
HasUniqueSales-Survives ctx s _ (sale_item_created x sale known own e absent) h =
    elsewhere s _ refl refl h
HasUniqueSales-Survives ctx s _ (payment_created x new) h = elsewhere s _ refl refl h
HasUniqueSales-Survives ctx s _ (reservation_created q x known new) h = elsewhere s _ refl refl h
HasUniqueSales-Survives ctx s _ (reservation_changed x status payload known own) h =
    untouched s _ refl refl h
HasUniqueSales-Survives ctx s _ (deducted (of_variant v) x known new) h = elsewhere s _ refl refl h
HasUniqueSales-Survives ctx s _ (deducted (of_product p) x known new) h = elsewhere s _ refl refl h

-- With sale ids that are distinct and below the next one: where no two sales of one tenant have the
-- same key or the same receipt number, none have after any push, of whichever tenant and whatever
-- its body is, whether the push answers or throws.
pub push-HasUniqueSales :
    (js : Runtime) (text_of_id : ℕ → String) (is_datetime : String → Bool) (ctx : Context)
    (body : Json) (s : Store (Tables ShopTables))
    → HasUniqueSales s.domain.rest
    → HasUniqueSales (push js is_datetime (service js text_of_id) ctx body s).1.domain.rest
push-HasUniqueSales js text_of_id =
    push-Survives js text_of_id HasUniqueSales HasUniqueSales-Survives
