-- ===== src/Account/Devices.antt =====
-- CompanyDeviceService of company-device.service.ts: the devices of a tenant.
pub mod Limit
use tatuzin.Prelude.{
  ℕ, suc, String, Bool, true, false, not, ◌&&◌, ◌||◌, Option, none, some, List, [], ◌∷◌, ◌++◌, ◌==◌,
  nat_eq, ltb, get_or, or_else, find?, filter, length, if◌then◌else◌,
}
use tatuzin.Prelude.Int.{ℤ, ltb_ℤ}
use tatuzin.Prelude.Text.{trim, is_empty}
use tatuzin.Payload.Json.{Runtime}
use tatuzin.Exec.{Exec, Result, Error, ok, err, app_error, pure, throw}
use tatuzin.Sync.Tables.{update_first}
use tatuzin.Account.Plans.{get_plan_entitlements}

-- `CompanyDeviceStatus`
pub data DeviceStatus : Type 0 where
  pending active blocked revoked : DeviceStatus

-- `CompanyDevice`
pub record Device : Type 0 where
  pub id : ℕ
  pub company_id : String
  pub user_id : String
  pub client_instance_id : String
  pub device_label : Option String
  pub platform : Option String
  pub app_version : Option String
  pub status : DeviceStatus
  pub approved_at : Option ℤ
  pub approved_by_user_id : Option String
  pub last_seen_at : Option ℤ
  pub revoked_at : Option ℤ
  pub revoked_reason : Option String

pub record DeviceTable : Type 0 where
  pub devices : List Device
  pub next_id : ℕ

-- `DeviceIdentityInput`
pub record DeviceIdentityInput : Type 0 where
  pub company_id : String
  pub user_id : String
  pub membership_role : String
  pub license_plan : Option String
  pub client_instance_id : String
  pub device_label : Option String
  pub platform : Option String
  pub app_version : Option String

abbrev pub is_active : Device → Bool
is_active d = elim d.status [ pending ↦ false | active ↦ true | blocked ↦ false | revoked ↦ false ]

-- `companyDevice.count` of the active devices of a tenant
abbrev pub active_devices : String → List Device → ℕ
active_devices company ds = length (filter (λ d. d.company_id == company && is_active d) ds)

-- `normalizeOptionalString`
unfoldable pub normalize_optional_string : Option String → Option String
unfolding trim
normalize_optional_string none = none
normalize_optional_string (some raw) = if is_empty (trim raw) then none else some (trim raw)

-- `throwIfDeviceCannotOperate`; `limited` where the details of the limit are given
abbrev pub throw_if_device_cannot_operate : DeviceStatus → Bool → Option Error
throw_if_device_cannot_operate active limited = none
throw_if_device_cannot_operate pending limited = some (app_error 403 "DEVICE_PENDING")
throw_if_device_cannot_operate blocked limited =
    some (if limited then app_error 409 "DEVICE_LIMIT_REACHED" else app_error 403 "DEVICE_BLOCKED")
throw_if_device_cannot_operate revoked limited = some (app_error 403 "DEVICE_REVOKED")

-- the answer for a device that was written
abbrev answer : Device → Bool → Result Device
answer d limited = elim (throw_if_device_cannot_operate d.status limited) [
  | none ↦ ok d
  | some e ↦ err e
]

-- the update of `updateExistingDevice`
unfoldable pub seen : DeviceIdentityInput → ℤ → Device → Device
unfolding normalize_optional_string
seen input now d = record d {
  user_id = if is_active d then input.user_id else d.user_id;
  last_seen_at = some now;
  device_label = or_else (normalize_optional_string input.device_label) d.device_label;
  platform = or_else (normalize_optional_string input.platform) d.platform;
  app_version = or_else (normalize_optional_string input.app_version) d.app_version;
}

-- the device of a client instance
abbrev pub is_device : String → String → Device → Bool
is_device company instance_id d = d.company_id == company && d.client_instance_id == instance_id

module _ (js : Runtime) (now : ℤ) (input : DeviceIdentityInput) where
  -- `canActivate`
  unfoldable pub can_activate : List Device → Bool
  unfolding get_plan_entitlements
  can_activate ds =
      let count = active_devices input.company_id ds in
      nat_eq count 0 && input.membership_role == "OWNER"
      || ltb count (get_plan_entitlements js input.license_plan).limits.max_devices

  -- the row of `companyDevice.create`
  unfoldable pub new_device : String → ℕ → Bool → Device
  unfolding normalize_optional_string
  new_device instance_id id activate = record {
    id = id;
    company_id = input.company_id;
    user_id = input.user_id;
    client_instance_id = instance_id;
    device_label = normalize_optional_string input.device_label;
    platform = normalize_optional_string input.platform;
    app_version = normalize_optional_string input.app_version;
    status = if activate then active else blocked;
    approved_at = if activate then some now else none;
    approved_by_user_id = if activate then some input.user_id else none;
    last_seen_at = some now;
    revoked_at = none;
    revoked_reason = if activate then none else some "device_limit_reached";
  }

  unfoldable with_existing : String → Option Device → Exec DeviceTable Device
  unfolding seen can_activate new_device
  with_existing instance_id (some d) s = (
    answer (seen input now d) false,
    record s { devices = update_first (λ x. nat_eq x.id d.id) (seen input now) s.devices },
  )
  with_existing instance_id none s =
      let new = new_device instance_id s.next_id (can_activate s.devices) in
      (answer new true, record s { devices = s.devices ++ new ∷ []; next_id = suc s.next_id })

  -- `registerOrResolve`
  unfoldable pub register_or_resolve : Exec DeviceTable Device
  unfolding with_existing trim
  register_or_resolve s =
      let instance_id = trim input.client_instance_id in
      if is_empty instance_id
      then (err (app_error 400 "DEVICE_REQUIRED"), s)
      else with_existing instance_id (find? (is_device input.company_id instance_id) s.devices) s

-- `assertLicenseCanRegisterDevice`: the refusal, or none
abbrev pub assert_license_can_register_device :
    (status : String) (expires_at : Option ℤ) (now : ℤ) → Option Error
assert_license_can_register_device status expires_at now =
    if status == "EXPIRED" || is_past expires_at
    then some (app_error 403 "LICENSE_EXPIRED")
    else if not (status == "ACTIVE") && not (status == "TRIAL")
    then some (app_error 403 "LICENSE_REQUIRED")
    else none
  where
    is_past : Option ℤ → Bool
    is_past none = false
    is_past (some at) = ltb_ℤ at now
