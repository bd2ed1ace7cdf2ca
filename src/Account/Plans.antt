-- ===== src/Account/Plans.antt =====
-- plan-catalog.service.ts: the plans, what they include, and their limits.
pub mod Ranks
use tatuzin.Prelude.{
  ℕ, String, Bool, Option, some, none, List, [], ◌∷◌, ◌++◌, ◌==◌, includes, find?, get_or,
  if◌then◌else◌,
}
use tatuzin.Prelude.Text.{trim}
use tatuzin.Payload.Json.{Runtime}

-- `PlanKey`
pub data PlanKey : Type 0 where
  free basic pro : PlanKey

-- `FeatureKey`
pub data FeatureKey : Type 0 where
  sales : FeatureKey
  cash : FeatureKey
  products : FeatureKey
  categories : FeatureKey
  customers_basic : FeatureKey
  fiado_create_sale : FeatureKey
  fiado_management : FeatureKey
  supplies : FeatureKey
  costs : FeatureKey
  suppliers : FeatureKey
  purchases : FeatureKey
  inventory_basic : FeatureKey
  inventory_advanced : FeatureKey
  reports_daily : FeatureKey
  reports_basic : FeatureKey
  reports_advanced : FeatureKey
  employees : FeatureKey
  permissions : FeatureKey
  multi_device : FeatureKey
  owner_web_panel : FeatureKey
  commissions : FeatureKey
  devices_management : FeatureKey

-- `ReportPeriodKey`
pub data ReportPeriodKey : Type 0 where
  daily weekly monthly yearly custom : ReportPeriodKey

-- `PlanLimits`
pub record PlanLimits : Type 0 where
  pub max_devices : ℕ
  pub max_employees : ℕ
  pub report_periods : List ReportPeriodKey

-- `PlanEntitlements`
pub record PlanEntitlements : Type 0 where
  pub plan : PlanKey
  pub features : FeatureKey → Bool
  pub limits : PlanLimits

-- the text of a feature key
abbrev key_of : FeatureKey → String
key_of sales = "sales"
key_of cash = "cash"
key_of products = "products"
key_of categories = "categories"
key_of customers_basic = "customersBasic"
key_of fiado_create_sale = "fiadoCreateSale"
key_of fiado_management = "fiadoManagement"
key_of supplies = "supplies"
key_of costs = "costs"
key_of suppliers = "suppliers"
key_of purchases = "purchases"
key_of inventory_basic = "inventoryBasic"
key_of inventory_advanced = "inventoryAdvanced"
key_of reports_daily = "reportsDaily"
key_of reports_basic = "reportsBasic"
key_of reports_advanced = "reportsAdvanced"
key_of employees = "employees"
key_of permissions = "permissions"
key_of multi_device = "multiDevice"
key_of owner_web_panel = "ownerWebPanel"
key_of commissions = "commissions"
key_of devices_management = "devicesManagement"

-- `FEATURE_KEYS`
abbrev feature_keys : List FeatureKey
feature_keys =
    sales ∷ cash ∷ products ∷ categories ∷ customers_basic ∷ fiado_create_sale ∷ fiado_management
    ∷ supplies ∷ costs ∷ suppliers ∷ purchases ∷ inventory_basic ∷ inventory_advanced
    ∷ reports_daily ∷ reports_basic ∷ reports_advanced ∷ employees ∷ permissions ∷ multi_device
    ∷ owner_web_panel ∷ commissions ∷ devices_management ∷ []

-- `PLAN_KEYS`
abbrev plan_keys : List PlanKey
plan_keys = free ∷ basic ∷ pro ∷ []

-- `FREE_FEATURES`
abbrev free_features : List FeatureKey
free_features =
    sales ∷ cash ∷ products ∷ categories ∷ customers_basic ∷ fiado_create_sale ∷ reports_daily
    ∷ inventory_basic ∷ []

-- `BASIC_FEATURES`
abbrev basic_features : List FeatureKey
basic_features =
    free_features
    ++ fiado_management ∷ supplies ∷ costs ∷ suppliers ∷ purchases ∷ inventory_advanced
      ∷ reports_basic ∷ []

abbrev keys_of : List FeatureKey → List String
keys_of [] = []
keys_of (f ∷ fs) = key_of f ∷ keys_of fs

-- `featuresRecord`
abbrev features_record : List FeatureKey → FeatureKey → Bool
features_record enabled f = includes (keys_of enabled) (key_of f)

-- `PLAN_CATALOG`
abbrev pub plan_catalog : PlanKey → PlanEntitlements
plan_catalog free = record {
  plan = free;
  features = features_record free_features;
  limits = record { max_devices = 1; max_employees = 0; report_periods = daily ∷ [] };
}
plan_catalog basic = record {
  plan = basic;
  features = features_record basic_features;
  limits = record {
    max_devices = 1;
    max_employees = 0;
    report_periods = daily ∷ weekly ∷ monthly ∷ [];
  };
}
plan_catalog pro = record {
  plan = pro;
  features = features_record feature_keys;
  limits = record {
    max_devices = 100;
    max_employees = 100;
    report_periods = daily ∷ weekly ∷ monthly ∷ yearly ∷ custom ∷ [];
  };
}

-- `requiredPlanForFeature`
unfoldable pub required_plan_for_feature : FeatureKey → Option PlanKey
required_plan_for_feature f = find? (λ plan. (plan_catalog plan).features f) plan_keys

abbrev plan_of : String → PlanKey
plan_of s =
    if s == "free" then free else if s == "basic" then basic else if s == "pro" then pro else free

module _ (js : Runtime) where
  -- `normalizePlan`
  unfoldable pub normalize_plan : Option String → PlanKey
  unfolding trim
  normalize_plan raw = plan_of (js.to_lower_case (trim (get_or raw "")))

  -- `getPlanEntitlements`
  unfoldable pub get_plan_entitlements : Option String → PlanEntitlements
  unfolding normalize_plan
  get_plan_entitlements raw = plan_catalog (normalize_plan raw)

  -- `hasFeature`
  unfoldable pub has_feature : Option String → FeatureKey → Bool
  unfolding get_plan_entitlements
  has_feature raw f = (get_plan_entitlements raw).features f
