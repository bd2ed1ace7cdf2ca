-- ===== src/Shop/Lookup/Found.antt =====
-- The rows that the lookups find are rows of the tables.
use tatuzin.Prelude.{
  ℕ, String, ◌≡◌, sym, ap, ◌∙◌, Bool, true, false, ◌&&◌, inl, inr, Option, none, some, List, [],
  ◌∷◌, ◌==◌, or_else, find?, Bool-cases, Option-cases, and-left, eq_iff, All,
}
use tatuzin.Payload.Json.{Runtime}
use tatuzin.Shop.Types.{Sale, Order, Product, Variant}
use tatuzin.Shop.Lookup.{
  Input, order_by_uuid, order_by_id, find_order, find_order_by_legacy_local_id,
  legacy_order_local_id, parent_with, order_id, order_uuid, sale_by_id, sale_by_uuid, sale_id,
  sale_uuid, find_sale, variant_by_id, product_by_id,
}

-- A row that a test finds.
abbrev pub IsIn : {A : Type 0} → A → List A → Type 0
IsIn a xs = (p : _ → Bool) × (find? p xs ≡ some a)

-- A row that is found passes the test.
pub found-test :
    {A : Type 0} (p : A → Bool) (xs : List A) (a : A) → find? p xs ≡ some a → p a ≡ true
found-test p [] a h = cc
found-test p (x ∷ xs) a h = elim (Bool-cases (p x)) [
  | inl t ↦ let here : some x ≡ some a = rw t at h in let e : x ≡ a = cc in ap p (sym e) ∙ t
  | inr t ↦ found-test p xs a (rw t at h)
]

-- Where no row is found, none passes the test.
pub none-All :
    {A : Type 0} (p : A → Bool) (xs : List A) → find? p xs ≡ none → All (λ x. p x ≡ false) xs
none-All p [] h = tt
none-All p (x ∷ xs) h = elim (Bool-cases (p x)) [
  | inl t ↦ let bad : some x ≡ none = rw t at h in cc
  | inr t ↦ (t, none-All p xs (rw t at h))
]

-- A row of one of two lookups.
pub IsIn-or_else :
    {A : Type 0} (xs : List A) (f g : Option A) (a : A)
    → ((b : A) → f ≡ some b → IsIn b xs)
    → ((b : A) → g ≡ some b → IsIn b xs)
    → or_else f g ≡ some a
    → IsIn a xs
IsIn-or_else xs none g a h k e = k a e
IsIn-or_else xs (some b) g a h k e = h a e

module _ (js : Runtime) (text_of_id : ℕ → String) (i : Input) where
  order_by_id-IsIn :
      (id : Option String) (orders : List Order) (o : Order)
      → order_by_id js text_of_id i id orders ≡ some o
      → IsIn o orders
  unfolding order_by_id
  order_by_id-IsIn none orders o h = cc
  order_by_id-IsIn (some id) orders o h = (_, h)

  order_by_uuid-IsIn :
      (uuid : Option String) (orders : List Order) (o : Order)
      → order_by_uuid js text_of_id i uuid orders ≡ some o
      → IsIn o orders
  unfolding order_by_uuid
  order_by_uuid-IsIn none orders o h = cc
  order_by_uuid-IsIn (some id) orders o h = (_, h)

  legacy-IsIn :
      (orders : List Order) (o : Order)
      → find_order_by_legacy_local_id js text_of_id i orders ≡ some o
      → IsIn o orders
  unfolding find_order_by_legacy_local_id
  legacy-IsIn orders o h = elim (Option-cases (legacy_order_local_id js text_of_id i)) [
    | inl p ↦ let bad : none ≡ some o = rw (p, find_order_by_legacy_local_id) at h in cc
    | inr legacy ↦ elim (Option-cases (parent_with js text_of_id i legacy.0 i.events)) [
      | inl p ↦ let bad : none ≡ some o = rw (legacy.1, p, find_order_by_legacy_local_id) at h in cc
      | inr parent ↦
          order_by_id-IsIn parent.0.entity_server_id orders o
            (rw (legacy.1, parent.1, find_order_by_legacy_local_id) at h)
    ]
  ]

  -- The order of an event is one of the orders.
  pub find_order-IsIn :
      (orders : List Order) (o : Order) → find_order js text_of_id i orders ≡ some o → IsIn o orders
  unfolding find_order
  find_order-IsIn orders o h =
      let by_id = order_by_id js text_of_id i (order_id js text_of_id i) orders in
      let by_uuid = order_by_uuid js text_of_id i (order_uuid js text_of_id i) orders in
      let legacy = find_order_by_legacy_local_id js text_of_id i orders in
      IsIn-or_else orders by_id (or_else by_uuid legacy) o
        (order_by_id-IsIn (order_id js text_of_id i) orders)
        (λ b.
          IsIn-or_else orders by_uuid legacy b
            (order_by_uuid-IsIn (order_uuid js text_of_id i) orders) (legacy-IsIn orders))
        h

  pub variant_by_id-IsIn :
      (id : String) (products : List Product) (variants : List Variant) (v : Variant)
      → variant_by_id js text_of_id i id products variants ≡ some v
      → IsIn v variants
  unfolding variant_by_id
  variant_by_id-IsIn id products variants v h = (_, h)

  pub product_by_id-IsIn :
      (id : String) (products : List Product) (p : Product)
      → product_by_id js text_of_id i id products ≡ some p
      → IsIn p products
  unfolding product_by_id
  product_by_id-IsIn id products p h = (_, h)

  -- A sale of the tenant.
  abbrev pub IsOwn : Sale → List Sale → Type 0
  IsOwn x sales = IsIn x sales × (x.company_id ≡ i.ctx.company_id)

  of_tenant :
      (x : Sale) (b : Bool)
      → (b && x.company_id == i.ctx.company_id) ≡ true
      → x.company_id ≡ i.ctx.company_id
  of_tenant x true h = (eq_iff x.company_id i.ctx.company_id).0 h
  of_tenant x false h = cc

  sale_by_id-IsOwn :
      (id : Option String) (sales : List Sale) (x : Sale)
      → sale_by_id js text_of_id i id sales ≡ some x
      → IsOwn x sales
  unfolding sale_by_id
  sale_by_id-IsOwn none sales x h = cc
  sale_by_id-IsOwn (some id) sales x h =
      ((_, h), of_tenant x (text_of_id x.id == id) (found-test _ sales x h))

  sale_by_uuid-IsOwn :
      (uuid : Option String) (sales : List Sale) (x : Sale)
      → sale_by_uuid js text_of_id i uuid sales ≡ some x
      → IsOwn x sales
  unfolding sale_by_uuid
  sale_by_uuid-IsOwn none sales x h = cc
  sale_by_uuid-IsOwn (some uuid) sales x h = (
    (_, h),
    (eq_iff x.company_id i.ctx.company_id).0 (
        and-left (x.company_id == i.ctx.company_id) (x.local_uuid == uuid)
          (found-test _ sales x h)),
  )

  -- The sale of an event is one of the sales of the tenant.
  pub find_sale-IsOwn :
      (sales : List Sale) (x : Sale) → find_sale js text_of_id i sales ≡ some x → IsOwn x sales
  unfolding find_sale
  find_sale-IsOwn sales x h =
      elim (Option-cases (sale_by_id js text_of_id i (sale_id js text_of_id i) sales)) [
        | inl p ↦ sale_by_uuid-IsOwn (sale_uuid js text_of_id i) sales x (rw p at h)
        | inr p ↦ sale_by_id-IsOwn (sale_id js text_of_id i) sales x (p.1 ∙ (rw p.1 at h))
      ]
