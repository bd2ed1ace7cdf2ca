-- ===== src/Account/Deletion/Restored.antt =====
-- A quarantine that is cancelled gives every device its status back.
use tatuzin.Prelude.{
  String, ◌≡◌, refl, sym, ap, ◌∙◌, Bool, true, false, ◌&&◌, none, some, List, [], ◌∷◌, inl, inr,
  ◌==◌, any, nat_eq, is_some, and-left, and-right, All, Bool-cases, or-left, or-right, ◌||◌,
}
use tatuzin.Prelude.Int.{ℤ}
use tatuzin.Payload.Identity.{same}
use tatuzin.Sync.Tables.{update_first}
use tatuzin.Account.Devices.{Device, DeviceStatus, pending, active, blocked, revoked}
use tatuzin.Account.Deletion.{
  Request, DeletionTables, has_status, reason_of, revoke_one, restore_one,
  revoke_devices_for_quarantine, restore_quarantined_devices, revoke_all, restore_all, quarantine,
  cancel_quarantine, may_start, may_cancel,
}

-- A device that an earlier quarantine revoked and that was not restored.
abbrev pub is_left : Device → Bool
is_left d =
    has_status d.status revoked
    && (same d.revoked_reason (some (reason_of active))
        || same d.revoked_reason (some (reason_of pending))
        || same d.revoked_reason (some (reason_of blocked)))

abbrev pub statuses : List Device → List DeviceStatus
statuses [] = []
statuses (d ∷ ds) = d.status ∷ statuses ds

module _ (is_platform_admin : String → Bool) (company : String) (at : ℤ) where
  abbrev Skips : DeviceStatus → Device → Type 0
  Skips p d = revoke_one is_platform_admin company at p d ≡ d

  -- the device that a quarantine revoked
  abbrev gone : DeviceStatus → Device → Device
  gone p d = record d {
    status = revoked;
    revoked_at = some at;
    revoked_reason = some (reason_of p);
  }

  -- the device that was given its status back
  abbrev back : DeviceStatus → Device → Device
  back p d = record d { status = p; revoked_at = none; revoked_reason = none }

  revoke-hit :
      (p : DeviceStatus) (d : Device)
      → (d.company_id == company) ≡ true
      → has_status d.status p ≡ true
      → is_platform_admin d.user_id ≡ false
      → revoke_one is_platform_admin company at p d ≡ gone p d
  unfolding revoke_one
  revoke-hit p d own has free = rw (own, has, free) refl

  skip-company : (p : DeviceStatus) (d : Device) → (d.company_id == company) ≡ false → Skips p d
  unfolding revoke_one
  skip-company p d other = rw other refl

  skip-status : (p : DeviceStatus) (d : Device) → has_status d.status p ≡ false → Skips p d
  unfolding revoke_one
  skip-status p d hasnt = elim (Bool-cases (d.company_id == company)) [
    | inl c ↦ rw (c, hasnt) refl
    | inr c ↦ rw c refl
  ]

  skip-admin : (p : DeviceStatus) (d : Device) → is_platform_admin d.user_id ≡ true → Skips p d
  unfolding revoke_one
  skip-admin p d admin = elim (Bool-cases (d.company_id == company && has_status d.status p)) [
    | inl c ↦ rw (c, admin) refl
    | inr c ↦ rw c refl
  ]

  restore-hit :
      (p : DeviceStatus) (d : Device)
      → (d.company_id == company) ≡ true
      → same (some (reason_of p)) (some (reason_of p)) ≡ true
      → restore_one company p (gone p d) ≡ back p d
  unfolding restore_one
  restore-hit p d own named = rw (own, named) refl

  restore-status :
      (p : DeviceStatus) (d : Device)
      → has_status d.status revoked ≡ false
      → restore_one company p d ≡ d
  unfolding restore_one
  restore-status p d hasnt = elim (Bool-cases (d.company_id == company)) [
    | inl c ↦ rw (c, hasnt) refl
    | inr c ↦ rw c refl
  ]

  restore-reason :
      (p : DeviceStatus) (d : Device)
      → same d.revoked_reason (some (reason_of p)) ≡ false
      → restore_one company p d ≡ d
  unfolding restore_one
  restore-reason p d other =
      elim (Bool-cases (d.company_id == company && has_status d.status revoked)) [
        | inl c ↦ rw (c, other) refl
        | inr c ↦ rw c refl
      ]

  abbrev revoked_thrice : Device → Device
  revoked_thrice d = revoke_one is_platform_admin company at blocked (
      revoke_one is_platform_admin company at pending
        (revoke_one is_platform_admin company at active d))

  abbrev restored_thrice : Device → Device
  restored_thrice d =
      restore_one company blocked (restore_one company pending (restore_one company active d))

  -- A device that was not left by a quarantine is not touched by the restoration.
  untouched : (d : Device) → is_left d ≡ false → restored_thrice d ≡ d
  untouched d k = elim (Bool-cases (has_status d.status revoked)) [
    | inr p ↦
        rw (restore-status active d p)
          (rw (restore-status pending d p) (restore-status blocked d p))
    | inl p ↦
        let none_of = rw p at k in
        let a =
          or-left (same d.revoked_reason (some (reason_of active))) _
            (or-left _ (same d.revoked_reason (some (reason_of blocked))) none_of) in
        let b =
          or-right (same d.revoked_reason (some (reason_of active))) _
            (or-left _ (same d.revoked_reason (some (reason_of blocked))) none_of) in
        let c = or-right _ (same d.revoked_reason (some (reason_of blocked))) none_of in
        rw (restore-reason active d a)
          (rw (restore-reason pending d b) (restore-reason blocked d c))
  ]

  kept :
      (d : Device)
      → revoked_thrice d ≡ d
      → is_left d ≡ false
      → (restored_thrice (revoked_thrice d)).status ≡ d.status
  kept d same_device k = rw same_device (ap (λ (x : Device). x.status) (untouched d k))

  -- the round of a device of the status p, when the other two statuses pass it by
  round-active :
      (d : Device)
      → (d.company_id == company) ≡ true
      → d.status ≡ active
      → is_platform_admin d.user_id ≡ false
      → (restored_thrice (revoked_thrice d)).status ≡ active
  round-active d own here free = rw (revoke-hit active d own (rw here refl) free) (
      rw (skip-status pending (gone active d) refl) (
        rw (skip-status blocked (gone active d) refl) (
          rw (restore-hit active d own refl) (
            rw (restore-status pending (back active d) refl)
              (rw (restore-status blocked (back active d) refl) refl)))))

  round-pending :
      (d : Device)
      → (d.company_id == company) ≡ true
      → d.status ≡ pending
      → is_platform_admin d.user_id ≡ false
      → (restored_thrice (revoked_thrice d)).status ≡ pending
  round-pending d own here free = rw (skip-status active d (rw here refl)) (
      rw (revoke-hit pending d own (rw here refl) free) (
        rw (skip-status blocked (gone pending d) refl) (
          rw (restore-reason active (gone pending d) refl) (
            rw (restore-hit pending d own refl)
              (rw (restore-status blocked (back pending d) refl) refl)))))

  round-blocked :
      (d : Device)
      → (d.company_id == company) ≡ true
      → d.status ≡ blocked
      → is_platform_admin d.user_id ≡ false
      → (restored_thrice (revoked_thrice d)).status ≡ blocked
  round-blocked d own here free = rw (skip-status active d (rw here refl)) (
      rw (skip-status pending d (rw here refl)) (
        rw (revoke-hit blocked d own (rw here refl) free) (
          rw (restore-reason active (gone blocked d) refl) (
            rw (restore-reason pending (gone blocked d) refl)
              (rw (restore-hit blocked d own refl) refl)))))

  -- a device that the quarantine revokes
  round_own :
      (d : Device) (p : DeviceStatus)
      → d.status ≡ p
      → (d.company_id == company) ≡ true
      → is_platform_admin d.user_id ≡ false
      → is_left d ≡ false
      → (restored_thrice (revoked_thrice d)).status ≡ d.status
  round_own d active here own free _ = round-active d own here free ∙ sym here
  round_own d pending here own free _ = round-pending d own here free ∙ sym here
  round_own d blocked here own free _ = round-blocked d own here free ∙ sym here
  round_own d revoked here own free k =
      kept d
        (rw (skip-status active d (rw here refl))
          (rw (skip-status pending d (rw here refl)) (skip-status blocked d (rw here refl))))
        k

  round : (d : Device) → is_left d ≡ false → (restored_thrice (revoked_thrice d)).status ≡ d.status
  round d k = elim (Bool-cases (d.company_id == company)) [
    | inr other ↦
        kept d
          (rw (skip-company active d other)
            (rw (skip-company pending d other) (skip-company blocked d other)))
          k
    | inl own ↦ elim (Bool-cases (is_platform_admin d.user_id)) [
      | inl admin ↦
          kept d
            (rw (skip-admin active d admin)
              (rw (skip-admin pending d admin) (skip-admin blocked d admin)))
            k
      | inr free ↦ round_own d d.status refl own free k
    ]
  ]

  statuses-restore_all :
      (ds : List Device)
      → All (λ d. is_left d ≡ false) ds
      → statuses (restore_all company (revoke_all is_platform_admin company at ds)) ≡ statuses ds
  unfolding restore_all revoke_all restore_quarantined_devices revoke_devices_for_quarantine
  statuses-restore_all [] _ = refl
  statuses-restore_all (d ∷ ds) (k, ks) = rw (round d k, statuses-restore_all ds ks) refl

or-true : (b : Bool) → (b || true) ≡ true
or-true true = refl
or-true false = refl

-- A request that was quarantined may be cancelled.
may_cancel-quarantine :
    (at : ℤ) (request : Request) (rs : List Request)
    → any (may_start request) rs ≡ true
    → any (may_cancel request) (
        update_first
          (may_start request)
          (λ x. record x { status = "FUTURE_PENDING_DELETION"; updated_at = at })
          rs)
      ≡ true
may_cancel-quarantine at request [] found = found
may_cancel-quarantine at request (r ∷ rs) found = elim (Bool-cases (may_start request r)) [
  | inl p ↦
      let named =
        and-left (nat_eq r.id request.id) _
          (and-left _ _ (and-left _ _ (and-left _ (is_some r.dry_run_generated_at) p))) in
      let guarded =
        and-right _ (same r.active_company_guard (some request.company_id))
          (and-left _ (is_some r.dry_run_generated_at) p) in
      rw (p, named, guarded) refl
  | inr p ↦
      rw (p, may_cancel-quarantine at request rs (rw p at found)) (or-true (may_cancel request r))
]

-- Where a request may be quarantined and no device is one that an earlier quarantine left revoked:
-- the quarantine is done, its cancellation is done after it, and then every device has its status back.
pub cancel_quarantine-quarantine :
    (is_platform_admin : String → Bool) (at later : ℤ) (actor reason : String) (r : Request)
    (s : DeletionTables)
    → any (may_start r) s.requests ≡ true
    → All (λ d. is_left d ≡ false) s.devices
    → let q = quarantine at is_platform_admin r s in
      (q.0 ≡ true)
      × ((cancel_quarantine later actor reason r q.1).0 ≡ true)
      × (statuses (cancel_quarantine later actor reason r q.1).1.devices ≡ statuses s.devices)
unfolding quarantine cancel_quarantine
cancel_quarantine-quarantine is_platform_admin at later actor reason r s found fresh = rw found (
    rw (may_cancel-quarantine at r s.requests found)
      (refl, refl, statuses-restore_all is_platform_admin r.company_id at s.devices fresh))
