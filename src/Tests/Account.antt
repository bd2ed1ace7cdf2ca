-- ===== src/Tests/Account.antt =====
-- Plans, permissions and devices at concrete inputs.
use tatuzin.Prelude.{◌≤◌, ◌==◌, String, ◌≡◌, refl, ◌↔◌, true, none, some, [], ◌∷◌, arith}
use tatuzin.Prelude.Int.{pos}
use tatuzin.Payload.Json.{arr, str, cons, nil}
use tatuzin.Account.Plans.{
  employees, has_feature, required_plan_for_feature, normalize_plan, get_plan_entitlements,
}
use tatuzin.Account.Plans.Ranks.{rank, rank_of, has_feature-rank}
use tatuzin.Account.Permissions.{
  effective_permissions_for_employee, role_from_membership_role, membership_role_from_employee_role,
}
use tatuzin.Account.Permissions.Effective.{IsPermissionSet, effective-IsPermissionSet}
use tatuzin.Account.Permissions.Roles.{membership_role-role}
use tatuzin.Account.Devices.{
  Device, DeviceTable, blocked, active, DeviceIdentityInput, active_devices, register_or_resolve,
}
use tatuzin.Account.Devices.Limit.{
  HasStatus, register_or_resolve-bounds, register_or_resolve-HasStatus,
}
use tatuzin.Account.Deletion.{Request, DeletionTables, quarantine, cancel_quarantine}
use tatuzin.Account.Deletion.Restored.{statuses, cancel_quarantine-quarantine}
use tatuzin.Tests.Setting.{runtime}

has_feature-rank_example :
    (has_feature runtime (some "pro") employees ≡ true)
    ↔ (rank_of (required_plan_for_feature employees) ≤ rank (normalize_plan runtime (some "pro")))
has_feature-rank_example = has_feature-rank runtime (some "pro") employees

effective-IsPermissionSet_example : IsPermissionSet (
    effective_permissions_for_employee runtime "SELLER" "ACTIVE"
      (some (arr (cons (str "cash.open") (cons (str "cash.open") nil)))))
effective-IsPermissionSet_example =
    effective-IsPermissionSet runtime "SELLER" "ACTIVE"
      (some (arr (cons (str "cash.open") (cons (str "cash.open") nil))))

membership_role-role_example :
    membership_role_from_employee_role runtime (role_from_membership_role "ADMIN") ≡ "ADMIN"
membership_role-role_example = membership_role-role runtime "ADMIN" (λ role known. refl) refl

abbrev till : Device
till = record {
  id = 0;
  company_id = "shop";
  user_id = "ann";
  client_instance_id = "till";
  device_label = none;
  platform = none;
  app_version = none;
  status = active;
  approved_at = none;
  approved_by_user_id = none;
  last_seen_at = none;
  revoked_at = none;
  revoked_reason = none;
}

abbrev phone : Device
phone = record till { id = 1; client_instance_id = "phone"; status = blocked }

abbrev devices : DeviceTable
devices = record { devices = till ∷ phone ∷ []; next_id = 2 }

abbrev joining : String → DeviceIdentityInput
joining instance_id = record {
  company_id = "shop";
  user_id = "ann";
  membership_role = "OWNER";
  license_plan = some "basic";
  client_instance_id = instance_id;
  device_label = none;
  platform = none;
  app_version = none;
}

register_or_resolve-bounds_example :
    active_devices "shop" (register_or_resolve runtime (pos 5) (joining "tablet") devices).1.devices
    ≤ (get_plan_entitlements runtime (some "basic")).limits.max_devices
unfolding get_plan_entitlements normalize_plan
register_or_resolve-bounds_example =
    register_or_resolve-bounds runtime (pos 5) (joining "tablet") devices (omega arith)

register_or_resolve-HasStatus_example :
    HasStatus runtime
      (pos 5)
      (joining "phone")
      "shop"
      "phone"
      blocked
      (register_or_resolve runtime (pos 5) (joining "phone") devices).1
register_or_resolve-HasStatus_example =
    register_or_resolve-HasStatus runtime (pos 5) (joining "phone") "shop" "phone" blocked devices
      (phone, refl, refl)

abbrev leaving : Request
leaving = record {
  id = 3;
  company_id = "shop";
  status = "DRY_RUN_READY";
  active_company_guard = some "shop";
  identity_status = "VERIFIED";
  dry_run_generated_at = some (pos 4);
  cancelled_by = none;
  cancelled_at = none;
  cancellation_reason = none;
  updated_at = pos 4;
}

abbrev leaving_tables : DeletionTables
leaving_tables = record { requests = leaving ∷ []; devices = till ∷ phone ∷ []; sessions = [] }

cancel_quarantine-quarantine_example :
    let q = quarantine (pos 5) (λ user. user == "root") leaving leaving_tables in
    (q.0 ≡ true)
    × ((cancel_quarantine (pos 6) "root" "mistake" leaving q.1).0 ≡ true)
    × (statuses (cancel_quarantine (pos 6) "root" "mistake" leaving q.1).1.devices
        ≡ statuses (till ∷ phone ∷ []))
cancel_quarantine-quarantine_example =
    cancel_quarantine-quarantine (λ user. user == "root") (pos 5) (pos 6) "root" "mistake" leaving
      leaving_tables refl (refl, (refl, tt))
