-- ===== src/Shop/OrderItems/Totals.antt =====
-- The total of an item of an order.
use tatuzin.Prelude.{
  ℕ, String, ◌≡◌, ◌≢◌, sym, true, inl, inr, Option, none, some, [], ◌∷◌, Bool-cases, Option-cases,
  arith,
}
use tatuzin.Prelude.Int.{ℤ, pos}
use tatuzin.Payload.Json.{Runtime}
use tatuzin.Payload.Read.{first_int, non_negative_int}
use tatuzin.Prelude.{◌+◌, ◌*◌, ◌≤◌, ◌<◌, ◌-◌, leb}
use mathlib.Core.Path.{subst}
use tatuzin.Prelude.Int.{negsuc, leb_ℤ}
use tatuzin.Shop.Lookup.{Input}
use tatuzin.Shop.OrderItems.{thousandths, derived_total, item_total, non_negative}

-- `Math.round` of the thousandths is half a cent off at most, and rounds a half up.
pub thousandths-bounds :
    (n : ℕ) → (thousandths n * 1000 ≤ n + 500) × (n < thousandths n * 1000 + 500)
thousandths-bounds n = (omega arith, omega arith)

pub non_negative-value : (x t : ℤ) → non_negative x ≡ some t → x ≡ t
non_negative-value x t h = elim (Bool-cases (leb_ℤ (pos 0) x)) [
  | inl p ↦ let here : some x ≡ some t = rw p at h in cc
  | inr p ↦ let bad : none ≡ some t = rw p at h in cc
]

non_negative-bounds : (x t : ℤ) → non_negative x ≡ some t → leb_ℤ (pos 0) t ≡ true
non_negative-bounds x t h = elim (Bool-cases (leb_ℤ (pos 0) x)) [
  | inl p ↦ subst (λ z. leb_ℤ (pos 0) z ≡ true) (non_negative-value x t h) p
  | inr p ↦ let bad : none ≡ some t = rw p at h in cc
]

no_sign : (n : ℕ) → leb_ℤ (pos 0) (negsuc n) ≢ true
no_sign n h = ground (arith, h)

-- The total of a price, a quantity and a discount that are not negative is there where the discount
-- is at most the rounded price of the quantity; it is not negative, and with the discount it is the
-- exact price of the quantity, half a cent up or down at most.
pub derived_total-bounds :
    (price quantity discount : ℕ) (t : ℤ)
    → derived_total (pos price) (pos quantity) (pos discount) ≡ some t
    → (cents : ℕ) × (t ≡ pos cents)
      × ((cents + discount) * 1000 ≤ price * quantity + 500)
      × (price * quantity < (cents + discount) * 1000 + 500)
unfolding derived_total
derived_total-bounds price quantity discount t h =
    let whole = thousandths (price * quantity) in
    let near = thousandths-bounds (price * quantity) in
    elim (Bool-cases (leb discount whole)) [
      | inl p ↦
          let here : non_negative (pos (whole - discount)) ≡ some t = rw p at h in
          let same : t ≡ pos (whole - discount) =
            sym (non_negative-value (pos (whole - discount)) t here) in
          let less : discount ≤ whole = ground (arith, p) in
          (whole - discount, same, omega (arith, near.0, less), omega (arith, near.1, less))
      | inr p ↦
          let here : non_negative (negsuc (discount - whole - 1)) ≡ some t = rw p at h in
          let same : negsuc (discount - whole - 1) ≡ t =
            non_negative-value (negsuc (discount - whole - 1)) t here in
          let sign = non_negative-bounds (negsuc (discount - whole - 1)) t here in
          let bad : leb_ℤ (pos 0) (negsuc (discount - whole - 1)) ≡ true =
            subst (λ z. leb_ℤ (pos 0) z ≡ true) (sym same) sign in
          absurd (no_sign (discount - whole - 1) bad)
    ]

module _ (js : Runtime) (text_of_id : ℕ → String) (i : Input) where
  -- An item never gets a negative total, where the one it had before is not negative.
  pub item_total-bounds :
      (quantity : ℤ) (before : Option ℤ) (t : ℤ)
      → ((b : ℤ) → before ≡ some b → leb_ℤ (pos 0) b ≡ true)
      → item_total js text_of_id i quantity before ≡ some t
      → leb_ℤ (pos 0) t ≡ true
  unfolding item_total derived_total
  item_total-bounds quantity before t kept h =
      elim (Option-cases
        (first_int js i.payload ("totalCents" ∷ "totalPriceCents" ∷ "finalCents" ∷ []))) [
          | inr total ↦ non_negative-bounds total.0 t (rw (total.1, item_total) at h)
          | inl a ↦
              elim (Option-cases
                (first_int js i.payload ("subtotalCents" ∷ "subtotalPriceCents" ∷ []))) [
                  | inr subtotal ↦
                      non_negative-bounds subtotal.0 t (rw (a, subtotal.1, item_total) at h)
                  | inl b ↦ elim (Option-cases before) [
                    | inr c ↦
                        let here : some c.0 ≡ some t = rw (a, b, c.1, item_total) at h in
                        let same : c.0 ≡ t = cc in
                        subst (λ z. leb_ℤ (pos 0) z ≡ true) same (kept c.0 c.1)
                    | inl c ↦
                        elim (Option-cases
                          (non_negative_int js i.payload ("unitPriceCents" ∷ "priceCents" ∷ []))) [
                            | inl d ↦
                                let bad : none ≡ some t = rw (a, b, c, d, item_total) at h in cc
                            | inr price ↦
                                non_negative-bounds _ t (rw (a, b, c, price.1, item_total) at h)
                          ]
                  ]
                ]
        ]
