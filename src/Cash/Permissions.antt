-- ===== src/Cash/Permissions.antt =====
-- sync-authorization.ts, and `hasEmployeePermission` of employee-permissions.ts.
use tatuzin.Prelude.{String, Bool, ◌||◌, Option, none, some, List, ◌==◌, includes, if◌then◌else◌}
use tatuzin.Prelude.Text.{trim}
use tatuzin.Payload.Json.{Runtime}
use tatuzin.Sync.Types.{Context, Outcome}

-- `hasEmployeePermission`
abbrev pub has_employee_permission : List String → String → Bool
has_employee_permission permissions permission =
    includes permissions "*" || includes permissions permission

module _ (js : Runtime) where
  unfoldable pub role_of : Context → String
  unfolding trim
  role_of ctx = js.to_upper_case (trim ctx.role)

  -- `isPrivilegedSyncRole`
  abbrev pub is_privileged_sync_role : Context → Bool
  is_privileged_sync_role ctx = role_of ctx == "PLATFORM_ADMIN"

  -- `requireSyncPermission`, with its default code: the refusal, or none
  unfoldable pub require_sync_permission : Context → String → Option Outcome
  require_sync_permission ctx permission =
      if is_privileged_sync_role ctx
      then none
      else if has_employee_permission ctx.permissions permission
      then none
      else some (Outcome.rejected "SYNC_PERMISSION_REQUIRED")

  -- `canManageOtherCashSessions`
  unfoldable pub can_manage_other_cash_sessions : Context → Bool
  can_manage_other_cash_sessions ctx =
      is_privileged_sync_role ctx || role_of ctx == "OWNER" || role_of ctx == "ADMIN"
