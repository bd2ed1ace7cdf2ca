-- ===== src/Account/Permissions.antt =====
-- employee-permissions.ts: the permissions of an employee. `hasEmployeePermission` stands in
-- Cash/Permissions.
pub mod Effective
pub mod Roles
use tatuzin.Prelude.{
  String, Bool, ◌&&◌, not, Option, some, none, List, [], ◌∷◌, ◌++◌, ◌==◌, includes, get_or,
  if◌then◌else◌,
}
use tatuzin.Prelude.Text.{trim}
use tatuzin.Payload.Json.{Json, arr, str, Items, nil, cons, Runtime}

-- `EMPLOYEE_ROLES`
abbrev pub employee_roles : List String
employee_roles = "OWNER" ∷ "MANAGER" ∷ "CASHIER" ∷ "SELLER" ∷ "STOCK_OPERATOR" ∷ "READ_ONLY" ∷ []

-- `EMPLOYEE_STATUSES`
abbrev pub employee_statuses : List String
employee_statuses = "ACTIVE" ∷ "INVITED" ∷ "DISABLED" ∷ []

-- `EMPLOYEE_PERMISSIONS`
abbrev pub employee_permissions : List String
employee_permissions =
    "sales.create" ∷ "sales.cancel" ∷ "sales.discount" ∷ "cash.open" ∷ "cash.close"
    ∷ "cash.withdraw" ∷ "products.read" ∷ "products.write" ∷ "stock.adjust" ∷ "customers.read"
    ∷ "customers.write" ∷ "fiado.read" ∷ "fiado.receive" ∷ "reports.basic" ∷ "reports.advanced"
    ∷ "employees.manage" ∷ "devices.manage" ∷ "subscription.manage" ∷ []

-- `ROLE_DEFAULT_PERMISSIONS` and `defaultPermissionsForRole`
unfoldable pub default_permissions_for_role : String → List String
default_permissions_for_role role =
    if role == "OWNER"
    then employee_permissions
    else if role == "MANAGER"
    then "sales.create" ∷ "sales.cancel" ∷ "sales.discount" ∷ "cash.open" ∷ "cash.close"
      ∷ "cash.withdraw" ∷ "products.read" ∷ "products.write" ∷ "stock.adjust" ∷ "customers.read"
      ∷ "customers.write" ∷ "fiado.read" ∷ "fiado.receive" ∷ "reports.basic" ∷ "reports.advanced"
      ∷ "employees.manage" ∷ []
    else if role == "CASHIER"
    then "sales.create" ∷ "cash.open" ∷ "cash.close" ∷ "cash.withdraw" ∷ "products.read"
      ∷ "customers.read" ∷ "fiado.read" ∷ "fiado.receive" ∷ []
    else if role == "SELLER"
    then "sales.create" ∷ "customers.read" ∷ "customers.write" ∷ []
    else if role == "STOCK_OPERATOR"
    then "products.read" ∷ "stock.adjust" ∷ []
    else "products.read" ∷ "customers.read" ∷ "fiado.read" ∷ "reports.basic" ∷ []

-- the next permission of `normalizePermissions`, put into its set
abbrev pub put : List String → String → List String
put seen value =
    if includes employee_permissions value && not (includes seen value)
    then seen ++ value ∷ []
    else seen

abbrev pub put_all : List String → List String → List String
put_all seen [] = seen
put_all seen (p ∷ ps) = put_all (put seen (trim p)) ps

-- `normalizePermissions`
abbrev pub normalize_permissions : List String → List String
normalize_permissions raw = put_all [] raw

-- the texts of a JSON array
abbrev pub texts : Items → List String
texts nil = []
texts (cons (str s) items) = s ∷ texts items
texts (cons _ items) = texts items

-- `parseStoredPermissions`
abbrev pub parse_stored_permissions : Option Json → Option (List String)
parse_stored_permissions (some (arr items)) = some (normalize_permissions (texts items))
parse_stored_permissions _ = none

-- `roleFromMembershipRole`
abbrev pub role_from_membership_role : String → String
role_from_membership_role role =
    if role == "OWNER" then "OWNER" else if role == "ADMIN" then "MANAGER" else "CASHIER"

abbrev membership_of : Option String → String
membership_of none = "OPERATOR"
membership_of (some role) =
    if role == "OWNER" then "OWNER" else if role == "MANAGER" then "ADMIN" else "OPERATOR"

module _ (js : Runtime) where
  -- `normalizeEmployeeRole` and `normalizeEmployeeStatus`, for their lists
  abbrev one_of : List String → String → Option String
  one_of known value =
      let normalized = js.to_upper_case (trim value) in
      if includes known normalized then some normalized else none

  unfoldable pub normalize_employee_role : String → Option String
  unfolding trim
  normalize_employee_role value = one_of employee_roles value

  unfoldable pub normalize_employee_status : String → Option String
  unfolding trim
  normalize_employee_status value = one_of employee_statuses value

  -- `membershipRoleFromEmployeeRole`
  unfoldable pub membership_role_from_employee_role : String → String
  unfolding normalize_employee_role
  membership_role_from_employee_role role = membership_of (normalize_employee_role role)

  -- `effectivePermissionsForEmployee`
  unfoldable pub effective_permissions_for_employee :
      (role status : String) → Option Json → List String
  unfolding normalize_employee_role normalize_employee_status default_permissions_for_role
  effective_permissions_for_employee role status stored =
      let known = get_or (normalize_employee_role role) "READ_ONLY" in
      if get_or (normalize_employee_status status) "DISABLED" == "DISABLED"
      then []
      else if known == "OWNER"
      then default_permissions_for_role "OWNER"
      else get_or (parse_stored_permissions stored) (default_permissions_for_role known)
