-- ===== src/Account/Plans/Ranks.antt =====
-- Plans are ordered: each includes what the ones before it include.
use tatuzin.Prelude.{ℕ, ◌≤◌, String, ◌≡◌, refl, ◌↔◌, true, Option, some, none, arith, leb}
use tatuzin.Payload.Json.{Runtime}
use tatuzin.Account.Plans.{
  PlanKey, free, basic, pro, FeatureKey, sales, cash, products, categories, customers_basic,
  fiado_create_sale, fiado_management, supplies, costs, suppliers, purchases, inventory_basic,
  inventory_advanced, reports_daily, reports_basic, reports_advanced, employees, permissions,
  multi_device, owner_web_panel, commissions, devices_management, plan_catalog,
  required_plan_for_feature, normalize_plan, get_plan_entitlements, has_feature,
}

-- the place of a plan in PLAN_KEYS
abbrev pub rank : PlanKey → ℕ
rank free = 0
rank basic = 1
rank pro = 2

abbrev pub rank_of : Option PlanKey → ℕ
rank_of none = 3
rank_of (some p) = rank p

-- A plan has a feature where it ranks as high as the required one.
abbrev IsRanked : FeatureKey → PlanKey → Type 0
IsRanked f p = (plan_catalog p).features f ≡ leb (rank_of (required_plan_for_feature f)) (rank p)

by_plan : (P : PlanKey → Type 0) → P free → P basic → P pro → (p : PlanKey) → P p
by_plan P a b c free = a
by_plan P a b c basic = b
by_plan P a b c pro = c

catalog-IsRanked : (f : FeatureKey) (p : PlanKey) → IsRanked f p
unfolding required_plan_for_feature
catalog-IsRanked sales = by_plan (IsRanked sales) refl refl refl
catalog-IsRanked cash = by_plan (IsRanked cash) refl refl refl
catalog-IsRanked products = by_plan (IsRanked products) refl refl refl
catalog-IsRanked categories = by_plan (IsRanked categories) refl refl refl
catalog-IsRanked customers_basic = by_plan (IsRanked customers_basic) refl refl refl
catalog-IsRanked fiado_create_sale = by_plan (IsRanked fiado_create_sale) refl refl refl
catalog-IsRanked fiado_management = by_plan (IsRanked fiado_management) refl refl refl
catalog-IsRanked supplies = by_plan (IsRanked supplies) refl refl refl
catalog-IsRanked costs = by_plan (IsRanked costs) refl refl refl
catalog-IsRanked suppliers = by_plan (IsRanked suppliers) refl refl refl
catalog-IsRanked purchases = by_plan (IsRanked purchases) refl refl refl
catalog-IsRanked inventory_basic = by_plan (IsRanked inventory_basic) refl refl refl
catalog-IsRanked inventory_advanced = by_plan (IsRanked inventory_advanced) refl refl refl
catalog-IsRanked reports_daily = by_plan (IsRanked reports_daily) refl refl refl
catalog-IsRanked reports_basic = by_plan (IsRanked reports_basic) refl refl refl
catalog-IsRanked reports_advanced = by_plan (IsRanked reports_advanced) refl refl refl
catalog-IsRanked employees = by_plan (IsRanked employees) refl refl refl
catalog-IsRanked permissions = by_plan (IsRanked permissions) refl refl refl
catalog-IsRanked multi_device = by_plan (IsRanked multi_device) refl refl refl
catalog-IsRanked owner_web_panel = by_plan (IsRanked owner_web_panel) refl refl refl
catalog-IsRanked commissions = by_plan (IsRanked commissions) refl refl refl
catalog-IsRanked devices_management = by_plan (IsRanked devices_management) refl refl refl

module _ (js : Runtime) where
  -- A plan has a feature exactly where it is the plan that the feature requires or a higher one.
  pub has_feature-rank :
      (raw : Option String) (f : FeatureKey)
      → (has_feature js raw f ≡ true)
        ↔ (rank_of (required_plan_for_feature f) ≤ rank (normalize_plan js raw))
  unfolding has_feature get_plan_entitlements
  has_feature-rank raw f =
      let same = catalog-IsRanked f (normalize_plan js raw) in
      ((λ h. ground (arith, same, h)), (λ h. ground (arith, same, h)))
