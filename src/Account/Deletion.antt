-- ===== src/Account/Deletion.antt =====
-- The quarantine of a tenant that asked for its deletion: the transactions of `quarantineRequest` and
-- `cancelQuarantine` of tenant-deletion.service.ts, past the checks before them and without
-- the events that they write for the audit.
pub mod Restored
use tatuzin.Prelude.{
  ℕ, String, Bool, true, false, not, ◌&&◌, Option, none, some, List, ◌==◌, nat_eq, is_some, is_none,
  find?, map, map_if, any, if◌then◌else◌,
}
use tatuzin.Prelude.Int.{ℤ}
use tatuzin.Sync.Tables.{update_first}
use tatuzin.Payload.Identity.{same}
use tatuzin.Account.Devices.{Device, DeviceStatus, pending, active, blocked, revoked}

-- TenantDeletionRequest, with the columns of the quarantine
pub record Request : Type 0 where
  pub id : ℕ
  pub company_id : String
  pub status : String
  pub active_company_guard : Option String
  pub identity_status : String
  pub dry_run_generated_at : Option ℤ
  pub cancelled_by : Option String
  pub cancelled_at : Option ℤ
  pub cancellation_reason : Option String
  pub updated_at : ℤ

-- DeviceSession, with the columns of the quarantine
pub record DeviceSession : Type 0 where
  pub company_id : String
  pub user_id : String
  pub client_type : String
  pub revoked_at : Option ℤ
  pub revoked_reason : Option String

pub record DeletionTables : Type 0 where
  pub requests : List Request
  pub devices : List Device
  pub sessions : List DeviceSession

abbrev pub reason_of : DeviceStatus → String
reason_of pending = "tenant_pending_deletion:PENDING"
reason_of active = "tenant_pending_deletion:ACTIVE"
reason_of blocked = "tenant_pending_deletion:BLOCKED"
reason_of revoked = "tenant_pending_deletion:REVOKED"

abbrev pub has_status : DeviceStatus → DeviceStatus → Bool
has_status pending pending = true
has_status active active = true
has_status blocked blocked = true
has_status revoked revoked = true
has_status _ _ = false

module _ (is_platform_admin : String → Bool) (company : String) where
  -- a row of `revokeDevicesForQuarantine`
  unfoldable pub revoke_one : (at : ℤ) → DeviceStatus → Device → Device
  revoke_one at previous d =
      if d.company_id == company
        && has_status d.status previous
        && not (is_platform_admin d.user_id)
      then record d {
        status = revoked;
        revoked_at = some at;
        revoked_reason = some (reason_of previous);
      }
      else d

  -- `revokeDevicesForQuarantine`
  unfoldable pub revoke_devices_for_quarantine : (at : ℤ) → DeviceStatus → List Device → List Device
  unfolding revoke_one
  revoke_devices_for_quarantine at previous ds = map (revoke_one at previous) ds

  -- the sessions of the tenant, but those of the platform's administrators
  abbrev revoke_sessions : ℤ → List DeviceSession → List DeviceSession
  revoke_sessions at =
      map_if
        (λ x.
          x.company_id == company
          && is_none x.revoked_at
          && not (x.client_type == "ADMIN_WEB" && is_platform_admin x.user_id))
        (λ x. record x { revoked_at = some at; revoked_reason = some "tenant_pending_deletion" })

  -- the three calls of `quarantineRequest`
  unfoldable pub revoke_all : ℤ → List Device → List Device
  unfolding revoke_devices_for_quarantine
  revoke_all at ds =
      revoke_devices_for_quarantine at blocked
        (revoke_devices_for_quarantine at pending (revoke_devices_for_quarantine at active ds))

module _ (company : String) where
  -- a row of `restoreQuarantinedDevices`
  unfoldable pub restore_one : DeviceStatus → Device → Device
  restore_one previous d =
      if d.company_id == company
        && has_status d.status revoked
        && same d.revoked_reason (some (reason_of previous))
      then record d { status = previous; revoked_at = none; revoked_reason = none }
      else d

  -- `restoreQuarantinedDevices`
  unfoldable pub restore_quarantined_devices : DeviceStatus → List Device → List Device
  unfolding restore_one
  restore_quarantined_devices previous ds = map (restore_one previous) ds

  -- the three calls of `cancelQuarantine`
  unfoldable pub restore_all : List Device → List Device
  unfolding restore_quarantined_devices
  restore_all ds =
      restore_quarantined_devices blocked
        (restore_quarantined_devices pending (restore_quarantined_devices active ds))

abbrev has_guard : String → Request → Bool
has_guard company r = same r.active_company_guard (some company)

-- the row that the quarantine of a request changes
abbrev may_start : (request row : Request) → Bool
may_start request row =
    nat_eq row.id request.id
    && row.status == "DRY_RUN_READY"
    && row.identity_status == "VERIFIED"
    && has_guard request.company_id row
    && is_some row.dry_run_generated_at

-- the row that the cancellation of a request changes
abbrev may_cancel : (request row : Request) → Bool
may_cancel request row =
    nat_eq row.id request.id
    && row.status == "FUTURE_PENDING_DELETION"
    && has_guard request.company_id row

module _ (at : ℤ) where
  -- the transaction of `quarantineRequest`: whether it was done, and the tables after it
  unfoldable pub quarantine :
      (is_platform_admin : String → Bool) → Request → DeletionTables → Bool × DeletionTables
  unfolding revoke_all
  quarantine is_platform_admin r s =
      if any (may_start r) s.requests
      then (
        true,
        record s {
          requests =
              update_first (may_start r)
                (λ x. record x { status = "FUTURE_PENDING_DELETION"; updated_at = at }) s.requests;
          devices = revoke_all is_platform_admin r.company_id at s.devices;
          sessions = revoke_sessions is_platform_admin r.company_id at s.sessions;
        },
      )
      else (false, s)

  -- the transaction of `cancelQuarantine`
  unfoldable pub cancel_quarantine :
      (actor reason : String) → Request → DeletionTables → Bool × DeletionTables
  unfolding restore_all
  cancel_quarantine actor reason r s =
      if any (may_cancel r) s.requests
      then (
        true,
        record s {
          requests =
              update_first (may_cancel r)
                (λ x. record x {
                  status = "CANCELLED";
                  active_company_guard = none;
                  cancelled_by = some actor;
                  cancelled_at = some at;
                  cancellation_reason = some reason;
                  updated_at = at;
                })
                s.requests;
          devices = restore_all r.company_id s.devices;
        },
      )
      else (false, s)
