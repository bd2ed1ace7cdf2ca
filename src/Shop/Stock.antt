-- ===== src/Shop/Stock.antt =====
-- What the stock events read and write: `StockTarget` of stock.materializer.ts.
pub mod Balance
pub mod Conserved
use tatuzin.Prelude.{
  ℕ, suc, String, Bool, true, false, not, ◌&&◌, ◌||◌, Option, none, some, List, [], ◌∷◌, ◌++◌, ◌==◌,
  nat_eq, get_or, is_some, is_none, any, includes, find?, if◌then◌else◌,
}
use tatuzin.Prelude.Int.{ℤ, pos, ltb_ℤ, ◌-ℤ◌}
use tatuzin.Payload.Json.{Runtime}
use tatuzin.Payload.Read.{
  first_string, first_date, first_uuid, positive_int, abs_positive_int, invalid_remote_identity,
}
use tatuzin.Payload.Identity.{domain_identity_for}
use tatuzin.Exec.{Exec, Result, pure}
use tatuzin.Sync.Types.{Outcome}
use tatuzin.Sync.Tables.{update_first}
use tatuzin.Shop.Types.{Sale, Reservation, Deduction, Product, Variant, ShopTables}
use tatuzin.Shop.Lookup.{
  Input, accepted, duplicate, variant_keys, product_keys, remote_keys, variant_by_id, product_by_id,
  find_sale,
}

-- `StockTarget`
pub data StockTarget : Type 0 where
  of_variant : Variant → StockTarget
  of_product : Product → StockTarget

abbrev pub stock_of : StockTarget → ℤ
stock_of (of_variant v) = v.stock_mil
stock_of (of_product p) = p.stock_mil

abbrev pub product_of : StockTarget → ℕ
product_of (of_variant v) = v.product_id
product_of (of_product p) = p.id

abbrev pub variant_of : StockTarget → Option ℕ
variant_of (of_variant v) = some v.id
variant_of (of_product p) = none

abbrev pub id_of_sale : Option Sale → Option ℕ
id_of_sale none = none
id_of_sale (some x) = some x.id

-- `stockMil: { decrement: quantityMil }`, of the row of the target
abbrev pub decrement : StockTarget → ℕ → ShopTables → ShopTables
decrement (of_variant v) quantity s = record s {
  variants =
      update_first (λ x. nat_eq x.id v.id)
        (λ x. record x { stock_mil = x.stock_mil -ℤ pos quantity }) s.variants;
}
decrement (of_product p) quantity s = record s {
  products =
      update_first (λ x. nat_eq x.id p.id)
        (λ x. record x { stock_mil = x.stock_mil -ℤ pos quantity }) s.products;
}
