-- ===== src/Shop/Stock/Conserved.antt =====
-- Stock is neither lost nor made, nor oversold: what is left and what was deducted make what there
-- was.
use tatuzin.Prelude.{
  ℕ, String, ◌≡◌, ◌≢◌, refl, sym, ap, ◌∙◌, Bool, true, false, ◌&&◌, inl, inr, Option, none, some,
  List, [], ◌∷◌, ◌++◌, nat_eq, nat_eq_iff, is_none, find?, if◌then◌else◌, Bool-cases, arith,
}
use tatuzin.Prelude.Int.{ℤ, pos, ltb_ℤ}
use tatuzin.Payload.Json.{Runtime}
use tatuzin.Sync.Types.{Context}
use tatuzin.Shop.Types.{Deduction, Product, Variant, ShopTables}
use mathlib.Core.Path.{subst}
use tatuzin.Prelude.{◌+◌}
use tatuzin.Prelude.Int.{◌-ℤ◌}
use tatuzin.Payload.Json.{Json}
use tatuzin.Sync.Types.{Store}
use tatuzin.Sync.Push.{push}
use tatuzin.Cash.Dispatch.{Tables}
use tatuzin.Shop.Dispatch.{service}
use tatuzin.Shop.Dispatch.Keeps.{push-Survives, Survives}
use tatuzin.Sync.Tables.{update_first}
use tatuzin.Shop.Keyed.{has_id}
use tatuzin.Shop.Stock.{of_variant, of_product}
use tatuzin.Shop.Stock.Balance.{Balanced, taken, taken-append, take-own, take-other}
use tatuzin.Shop.Steps.{
  nothing, order_created, order_changed, item_created, item_changed, sale_created, sale_converting,
  order_converted, receipt_set, sale_item_created, payment_created, reservation_created,
  reservation_changed, deducted,
}

-- a deduction from the stock of a product, or of a variant
abbrev pub from_product : ℕ → Deduction → Bool
from_product k d = is_none d.product_variant_id && nat_eq d.product_id k

abbrev is_variant : ℕ → Option ℕ → Bool
is_variant k none = false
is_variant k (some v) = nat_eq v k

abbrev pub from_variant : ℕ → Deduction → Bool
from_variant k d = is_variant k d.product_variant_id

-- The product `k` has what `total` leaves after the deductions.
abbrev pub ProductBalance : ℕ → ℕ → ShopTables → Type 0
ProductBalance k total s =
    Balanced (λ (p : Product). p.id) (λ p. p.stock_mil) k s.products
      (taken (from_product k) s.deductions) total

-- The variant `k` has what `total` leaves after the deductions.
abbrev pub VariantBalance : ℕ → ℕ → ShopTables → Type 0
VariantBalance k total s =
    Balanced (λ (v : Variant). v.id) (λ v. v.stock_mil) k s.variants
      (taken (from_variant k) s.deductions) total

differs : (a b : ℕ) → nat_eq a b ≡ false → a ≢ b
differs a b h e = let bad : true ≡ false = sym ((nat_eq_iff a b).1 e) ∙ h in cc

module _ (ctx : Context) (s : ShopTables) (x : Deduction) (p : Deduction → Bool) where
  counted : p x ≡ true → taken p (s.deductions ++ x ∷ []) ≡ taken p s.deductions + x.quantity_mil
  counted own =
      taken-append p s.deductions x
      ∙ ap (λ (b : Bool). taken p s.deductions + (if b then x.quantity_mil else 0)) own

  not_counted : p x ≡ false → taken p (s.deductions ++ x ∷ []) ≡ taken p s.deductions
  not_counted other =
      taken-append p s.deductions x
      ∙ ap (λ (b : Bool). taken p s.deductions + (if b then x.quantity_mil else 0)) other
      ∙ omega arith

  module _ {A : Type 0} (id : A → ℕ) (stock_of : A → ℤ) (k total : ℕ) (xs : List A) where
    abbrev After : List A → Type 0
    After ys = Balanced id stock_of k ys (taken p (s.deductions ++ x ∷ [])) total

    -- the deduction is from another table
    aside : p x ≡ false → Balanced id stock_of k xs (taken p s.deductions) total → After xs
    aside other h = subst (λ n. Balanced id stock_of k xs n total) (sym (not_counted other)) h

    -- the deduction is from a row of this table, and is counted where it is the row `k`
    within :
        (q : A → Bool) (o : A) (f : A → A)
        → find? q xs ≡ some o
        → ((y : A) → id (f y) ≡ id y)
        → ((y : A) → stock_of (f y) ≡ stock_of y -ℤ pos x.quantity_mil)
        → ltb_ℤ (stock_of o) (pos x.quantity_mil) ≡ false
        → p x ≡ nat_eq (id o) k
        → Balanced id stock_of k xs (taken p s.deductions) total
        → After (update_first (has_id id (id o)) f xs)
    within q o f known ids less enough counts h = elim (Bool-cases (nat_eq (id o) k)) [
      | inl e ↦
          subst (λ n. Balanced id stock_of k (update_first (has_id id (id o)) f xs) n total)
            (sym (counted (counts ∙ e)))
            (take-own id stock_of k _ total x.quantity_mil xs q o f known ids h
              ((nat_eq_iff (id o) k).0 e) less enough)
      | inr e ↦
          subst (λ n. Balanced id stock_of k (update_first (has_id id (id o)) f xs) n total)
            (sym (not_counted (counts ∙ e)))
            (take-other id stock_of k _ total x.quantity_mil xs q o f known ids h
              (differs (id o) k e))
    ]

product-Survives : (k total : ℕ) → Survives (ProductBalance k total)
product-Survives k total ctx s _ (deducted (of_product p) x known new) h =
    within ctx s x (from_product k) (λ (p : Product). p.id) (λ p. p.stock_mil) k total s.products
      known.0 p _ known.1 (λ y. refl) (λ y. refl) new.enough
      (rw (new.product_variant_id, new.product_id) refl) h
product-Survives k total ctx s _ (deducted (of_variant v) x known new) h =
    aside ctx s x (from_product k) (λ (p : Product). p.id) (λ p. p.stock_mil) k total s.products
      (rw new.product_variant_id refl) h
product-Survives k total ctx s _ nothing h = h
product-Survives k total ctx s _ (order_created o new) h = h
product-Survives k total ctx s _ (order_changed o f known free keeps) h = h
product-Survives k total ctx s _ (item_created x o known live e new absent) h = h
product-Survives k total ctx s _ (item_changed x f known live e ids) h = h
product-Survives k total ctx s _ (sale_created x new) h = h
product-Survives k total ctx s _ (sale_converting x o new known fine untaken) h = h
product-Survives k total ctx s _ (order_converted sale o in_sales known fine distinct untaken) h = h
product-Survives k total ctx s _ (receipt_set sale number known own free) h = h
product-Survives k total ctx s _ (sale_item_created x sale known own e absent) h = h
product-Survives k total ctx s _ (payment_created x new) h = h
product-Survives k total ctx s _ (reservation_created q x known new) h = h
product-Survives k total ctx s _ (reservation_changed x status payload known own) h = h

variant-Survives : (k total : ℕ) → Survives (VariantBalance k total)
variant-Survives k total ctx s _ (deducted (of_variant v) x known new) h =
    within ctx s x (from_variant k) (λ (v : Variant). v.id) (λ v. v.stock_mil) k total s.variants
      known.0 v _ known.1 (λ y. refl) (λ y. refl) new.enough (rw new.product_variant_id refl) h
variant-Survives k total ctx s _ (deducted (of_product p) x known new) h =
    aside ctx s x (from_variant k) (λ (v : Variant). v.id) (λ v. v.stock_mil) k total s.variants
      (rw new.product_variant_id refl) h
variant-Survives k total ctx s _ nothing h = h
variant-Survives k total ctx s _ (order_created o new) h = h
variant-Survives k total ctx s _ (order_changed o f known free keeps) h = h
variant-Survives k total ctx s _ (item_created x o known live e new absent) h = h
variant-Survives k total ctx s _ (item_changed x f known live e ids) h = h
variant-Survives k total ctx s _ (sale_created x new) h = h
variant-Survives k total ctx s _ (sale_converting x o new known fine untaken) h = h
variant-Survives k total ctx s _ (order_converted sale o in_sales known fine distinct untaken) h = h
variant-Survives k total ctx s _ (receipt_set sale number known own free) h = h
variant-Survives k total ctx s _ (sale_item_created x sale known own e absent) h = h
variant-Survives k total ctx s _ (payment_created x new) h = h
variant-Survives k total ctx s _ (reservation_created q x known new) h = h
variant-Survives k total ctx s _ (reservation_changed x status payload known own) h = h

module _ (js : Runtime) (text_of_id : ℕ → String) (k total : ℕ) (is_datetime : String → Bool)
    (ctx : Context) (body : Json) (s : Store (Tables ShopTables)) where
  -- A product whose stock is not negative keeps a stock that is not negative, and the stock with
  -- the deductions from the product makes the same total, after any push, of whichever tenant and
  -- whatever its body is, whether the push answers or throws.
  pub push-ProductBalance :
      ProductBalance k total s.domain.rest
      → ProductBalance k total
          (push js is_datetime (service js text_of_id) ctx body s).1.domain.rest
  push-ProductBalance =
      push-Survives js text_of_id (ProductBalance k total) (product-Survives k total) is_datetime
        ctx body s

  -- A variant whose stock is not negative keeps a stock that is not negative, and the stock with
  -- the deductions from the variant makes the same total, after any push, of whichever tenant and
  -- whatever its body is, whether the push answers or throws.
  pub push-VariantBalance :
      VariantBalance k total s.domain.rest
      → VariantBalance k total
          (push js is_datetime (service js text_of_id) ctx body s).1.domain.rest
  push-VariantBalance =
      push-Survives js text_of_id (VariantBalance k total) (variant-Survives k total) is_datetime
        ctx body s
