-- ===== src/Shop/Orders/Row.antt =====
-- What the steps do to the order of a key.
use tatuzin.Prelude.{
  ℕ, suc, String, ◌≡◌, refl, sym, ap, ◌∙◌, Bool, true, false, not, ◌&&◌, inl, inr, Option, none,
  some, nat_eq_iff, is_some, find?, or-left, or-right,
}
use tatuzin.Prelude.Int.{ℤ}
use tatuzin.Sync.Types.{Context}
use tatuzin.Shop.Types.{Order, ShopTables}
use mathlib.Core.Path.{subst}
use tatuzin.Cash.Session.Lists.{find-append, find-change, found-same}
use tatuzin.Shop.Keyed.{Keyed, Keyed-suc, Keyed-append, Keyed-change, has_id}
use tatuzin.Shop.Orders.{is_canceled, change_order}
use tatuzin.Shop.Sales.{has_conflict, same_id, converted, add_sale}
use tatuzin.Shop.Stock.{of_variant, of_product}
use tatuzin.Shop.Lookup.Found.{IsIn}
use tatuzin.Shop.Steps.{
  Step, KeepsOrder, IsOpenFor, is_order, nothing, order_created, order_changed, item_created,
  item_changed, sale_created, sale_converting, order_converted, receipt_set, sale_item_created,
  payment_created, reservation_created, reservation_changed, deducted,
}

-- What the changes that the steps make to an order keep of it.
pub record Robust (P : Order → Type 0) : Type 0 where
  pub changed : (o : Order) (f : Order → Order) → KeepsOrder f → IsOpenFor o (f o) → P o → P (f o)
  pub becomes_sale :
      (o : Order) (now : ℤ) (sale : ℕ)
      → is_canceled o ≡ false
      → o.converted_sale_id ≡ none
      → P o
      → P (converted now sale o)

-- Order ids are distinct and below the next one, and `P` holds of the order of a key.
pub record HasOrder (P : Order → Type 0) (company uuid : String) (s : ShopTables) : Type 0 where
  pub keyed : Keyed (λ (o : Order). o.id) s.orders s.next_id
  pub row : Order
  pub found : find? (is_order company uuid) s.orders ≡ some row
  pub holds : P row

same_id_self : (x : Option ℕ) (b : Bool) → (is_some x && not b) ≡ false → b ≡ false → x ≡ none
same_id_self none b h p = refl
same_id_self (some n) true h p = cc
same_id_self (some n) false h p = cc

-- An order that a sale may convert was not converted.
pub unconverted :
    (o : Order) (sale : Option ℕ)
    → has_conflict o sale ≡ false
    → same_id o.converted_sale_id sale ≡ false
    → o.converted_sale_id ≡ none
unconverted o sale h differs =
    same_id_self o.converted_sale_id (same_id o.converted_sale_id sale) (or-right _ _ h) differs

pub not_canceled :
    (o : Order) (sale : Option ℕ) → has_conflict o sale ≡ false → is_canceled o ≡ false
not_canceled o sale h = or-left (is_canceled o) _ (or-left _ _ h)

same_id-none : (x : Option ℕ) → same_id x none ≡ false
same_id-none none = refl
same_id-none (some n) = refl

module _ (P : Order → Type 0) (robust : Robust P) (company uuid : String) where
  abbrev Has : ShopTables → Type 0
  Has = HasOrder P company uuid

  change-Has :
      (o : Order) (f : Order → Order) (s : ShopTables)
      → IsIn o s.orders
      → ((x : Order) → (f x).id ≡ x.id)
      → ((x : Order) → is_order company uuid (f x) ≡ is_order company uuid x)
      → (P o → P (f o))
      → Has s
      → Has (change_order o.id f s)
  change-Has o f s known ids keys k h =
      elim (find-change (is_order company uuid) (has_id (λ (x : Order). x.id) o.id) f s.orders h.row
        keys h.found) [
          | inl e ↦ record { keyed = keyed; row = h.row; found = e; holds = h.holds }
          | inr e ↦
              let same : h.row ≡ o =
                found-same (λ (x : Order). x.id) (is_order company uuid) known.0 s.orders h.row o
                  h.keyed.apart h.found known.1 ((nat_eq_iff h.row.id o.id).0 e.0) in
              record {
                keyed = keyed;
                row = f h.row;
                found = e.1;
                holds = subst (λ x. P (f x)) (sym same) (k (subst P same h.holds));
              }
        ]
    where
      keyed :
          Keyed (λ (x : Order). x.id) (change_order o.id f s).orders (change_order o.id f s).next_id
      keyed = Keyed-change (λ (x : Order). x.id) _ f s.orders s.next_id ids h.keyed

  convert-Has :
      (now : ℤ) (sale : ℕ) (o : Order) (s : ShopTables)
      → IsIn o s.orders
      → is_canceled o ≡ false
      → o.converted_sale_id ≡ none
      → Has s
      → Has (change_order o.id (converted now sale) s)
  convert-Has now sale o s known live free =
      change-Has o (converted now sale) s known (λ x. refl) (λ x. refl)
        (robust.becomes_sale o now sale live free)

  -- a row of another table is added
  elsewhere : (s t : ShopTables) → t.orders ≡ s.orders → t.next_id ≡ suc s.next_id → Has s → Has t
  elsewhere s t os n h = record {
    keyed =
        subst (λ next. Keyed (λ (o : Order). o.id) t.orders next) (sym n)
          (subst (λ xs. Keyed (λ (o : Order). o.id) xs (suc s.next_id)) (sym os)
            (Keyed-suc (λ (o : Order). o.id) s.orders s.next_id h.keyed));
    row = h.row;
    found = ap (find? (is_order company uuid)) os ∙ h.found;
    holds = h.holds;
  }

  -- rows of another table are changed
  untouched : (s t : ShopTables) → (t.orders ≡ s.orders) → (t.next_id ≡ s.next_id) → Has s → Has t
  untouched s t os n h = record {
    keyed =
        subst (λ next. Keyed (λ (o : Order). o.id) t.orders next) (sym n)
          (subst (λ xs. Keyed (λ (o : Order). o.id) xs s.next_id) (sym os) h.keyed);
    row = h.row;
    found = ap (find? (is_order company uuid)) os ∙ h.found;
    holds = h.holds;
  }

  pub HasOrder-Survives : (ctx : Context) (s t : ShopTables) → Step ctx s t → Has s → Has t
  HasOrder-Survives ctx s _ nothing h = h
  HasOrder-Survives ctx s _ (order_created o new) h = record {
    keyed = Keyed-append (λ (o : Order). o.id) s.orders s.next_id o new.id h.keyed;
    row = h.row;
    found = find-append (is_order company uuid) s.orders o h.row h.found;
    holds = h.holds;
  }
  HasOrder-Survives ctx s _ (order_changed o f known free keeps) h =
      change-Has o f s known keeps.id (λ x. rw (keeps.company_id x, keeps.local_uuid x) refl)
        (robust.changed o f keeps free) h
  HasOrder-Survives ctx s _ (item_created x o known live e new absent) h = elsewhere s _ refl refl h
  HasOrder-Survives ctx s _ (item_changed x f known live e ids) h = untouched s _ refl refl h
  HasOrder-Survives ctx s _ (sale_created x new) h = elsewhere s _ refl refl h
  HasOrder-Survives ctx s _ (sale_converting x o new known fine untaken) h =
      convert-Has ctx.now x.id o (add_sale x s) known (not_canceled o none fine)
        (unconverted o none fine (same_id-none o.converted_sale_id)) (elsewhere s _ refl refl h)
  HasOrder-Survives ctx s _ (order_converted sale o known_sale known fine differs untaken) h =
      convert-Has ctx.now sale.id o s known (not_canceled o (some sale.id) fine)
        (unconverted o (some sale.id) fine differs) h
  HasOrder-Survives ctx s _ (receipt_set sale number known own free) h = untouched s _ refl refl h
  HasOrder-Survives ctx s _ (sale_item_created x sale known own e absent) h =
      elsewhere s _ refl refl h
  HasOrder-Survives ctx s _ (payment_created x new) h = elsewhere s _ refl refl h
  HasOrder-Survives ctx s _ (reservation_created q x known new) h = elsewhere s _ refl refl h
  HasOrder-Survives ctx s _ (reservation_changed x status payload known own) h =
      untouched s _ refl refl h
  HasOrder-Survives ctx s _ (deducted (of_variant v) x known new) h = elsewhere s _ refl refl h
  HasOrder-Survives ctx s _ (deducted (of_product p) x known new) h = elsewhere s _ refl refl h
