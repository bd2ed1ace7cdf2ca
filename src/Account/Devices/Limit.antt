-- ===== src/Account/Devices/Limit.antt =====
-- The limit of active devices, and what a registration leaves alone.
use tatuzin.Prelude.{
  ℕ, suc, ◌+◌, ◌≤◌, String, ◌≡◌, refl, ap, ◌∙◌, Bool, true, false, ◌&&◌, ◌||◌, Option, none, some,
  List, [], ◌∷◌, ◌++◌, inl, inr, ◌==◌, arith, nat_eq, nat_eq_iff, ltb, find?, filter, length,
  if◌then◌else◌, Bool-cases, eq_refl,
}
use tatuzin.Prelude.Int.{ℤ}
use tatuzin.Prelude.Text.{trim, is_empty}
use tatuzin.Payload.Json.{Runtime}
use tatuzin.Sync.Tables.{update_first}
use tatuzin.Cash.Session.Lists.{find-append, find-change}
use tatuzin.Account.Plans.{
  PlanKey, free, basic, pro, plan_catalog, normalize_plan, get_plan_entitlements,
}
use tatuzin.Account.Devices.{
  Device, DeviceTable, DeviceStatus, DeviceIdentityInput, is_active, active_devices, is_device,
  seen, can_activate, new_device, with_existing, register_or_resolve,
}

module _ {A : Type 0} (p : A → Bool) where
  count-change :
      (q : A → Bool) (f : A → A) (xs : List A)
      → ((x : A) → p (f x) ≡ p x)
      → length (filter p (update_first q f xs)) ≡ length (filter p xs)
  count-change q f [] keys = refl
  count-change q f (x ∷ xs) keys = elim (Bool-cases (q x)) [
    | inl s ↦ elim (Bool-cases (p x)) [
      | inl t ↦ rw s (rw (keys x) (rw t refl))
      | inr t ↦ rw s (rw (keys x) (rw t refl))
    ]
    | inr s ↦ elim (Bool-cases (p x)) [
      | inl t ↦ rw (s, t) (ap suc (count-change q f xs keys))
      | inr t ↦ rw (s, t) (count-change q f xs keys)
    ]
  ]

  count-append :
      (xs : List A) (x : A)
      → length (filter p (xs ++ x ∷ [])) ≡ length (filter p xs) + (if p x then 1 else 0)
  count-append [] x = elim (Bool-cases (p x)) [ inl t ↦ rw t refl | inr t ↦ rw t refl ]
  count-append (y ∷ xs) x = elim (Bool-cases (p y)) [
    | inl t ↦ rw t (omega (arith, count-append xs x))
    | inr t ↦ rw t (count-append xs x)
  ]

positive : (p : PlanKey) → 1 ≤ (plan_catalog p).limits.max_devices
positive free = omega arith
positive basic = omega arith
positive pro = omega arith

room_of :
    (count most : ℕ) (owner : Bool)
    → 1 ≤ most
    → (nat_eq count 0 && owner || ltb count most) ≡ true
    → count + 1 ≤ most
room_of count most owner one h = elim (Bool-cases (ltb count most)) [
  | inl p ↦ ground (arith, p)
  | inr p ↦ elim (Bool-cases (nat_eq count 0)) [
    | inl q ↦ let none_yet : count ≡ 0 = (nat_eq_iff count 0).0 q in omega (arith, none_yet, one)
    | inr q ↦ let bad : false ≡ true = rw (p, q) at h in cc
  ]
]

module _ (js : Runtime) (now : ℤ) (input : DeviceIdentityInput) where
  abbrev limit : ℕ
  limit = (get_plan_entitlements js input.license_plan).limits.max_devices

  abbrev counts : String → Device → Bool
  counts company d = d.company_id == company && is_active d

  seen-counts :
      (company : String) (d : Device) → counts company (seen input now d) ≡ counts company d
  unfolding seen
  seen-counts company d = refl

  limit-positive : 1 ≤ limit
  unfolding get_plan_entitlements
  limit-positive = positive (normalize_plan js input.license_plan)

  room :
      (ds : List Device)
      → can_activate js now input ds ≡ true
      → active_devices input.company_id ds + 1 ≤ limit
  unfolding can_activate
  room ds h =
      room_of (active_devices input.company_id ds) limit (input.membership_role == "OWNER")
        limit-positive h

  new-counts :
      (instance_id : String) (id : ℕ) (b : Bool)
      → counts input.company_id (new_device js now input instance_id id b) ≡ b
  unfolding new_device
  new-counts instance_id id true = rw (eq_refl input.company_id) refl
  new-counts instance_id id false = rw (eq_refl input.company_id) refl

  with_existing-bounds :
      (instance_id : String) (existing : Option Device) (s : DeviceTable)
      → active_devices input.company_id s.devices ≤ limit
      → active_devices input.company_id
          (with_existing js now input instance_id existing s).1.devices
        ≤ limit
  unfolding with_existing
  with_existing-bounds instance_id (some d) s h = omega (
    arith,
    h,
    count-change (counts input.company_id) (λ x. nat_eq x.id d.id) (seen input now) s.devices
        (seen-counts input.company_id),
  )
  with_existing-bounds instance_id none s h =
      let activate = can_activate js now input s.devices in
      let new = new_device js now input instance_id s.next_id activate in
      let sum = count-append (counts input.company_id) s.devices new in
      let counted = new-counts instance_id s.next_id activate in
      elim (Bool-cases activate) [
        | inl p ↦
            let one = ap {B = ℕ} (λ (b : Bool). if b then 1 else 0) (counted ∙ p) in
            omega (arith, sum, one, room s.devices p)
        | inr p ↦
            let zero_more = ap {B = ℕ} (λ (b : Bool). if b then 1 else 0) (counted ∙ p) in
            omega (arith, sum, zero_more, h)
      ]

  -- A registration leaves the tenant's active devices within the limit of its plan, where they were.
  pub register_or_resolve-bounds :
      (s : DeviceTable)
      → active_devices input.company_id s.devices
        ≤ (get_plan_entitlements js input.license_plan).limits.max_devices
      → active_devices input.company_id (register_or_resolve js now input s).1.devices
        ≤ (get_plan_entitlements js input.license_plan).limits.max_devices
  unfolding register_or_resolve
  register_or_resolve-bounds s h =
      let instance_id = trim input.client_instance_id in
      elim (Bool-cases (is_empty instance_id)) [
        | inl p ↦ rw p h
        | inr p ↦ rw p (
            with_existing-bounds instance_id
              (find? (is_device input.company_id instance_id) s.devices) s h)
      ]

  module _ (company instance_id : String) where
    seen-is_device :
        (d : Device)
        → is_device company instance_id (seen input now d) ≡ is_device company instance_id d
    unfolding seen
    seen-is_device d = refl

    seen_status : (d : Device) → (seen input now d).status ≡ d.status
    unfolding seen
    seen_status d = refl

    -- the device of the key is there, with the status
    abbrev pub HasStatus : DeviceStatus → DeviceTable → Type 0
    HasStatus status s =
        (d : Device) × (find? (is_device company instance_id) s.devices ≡ some d)
        × (d.status ≡ status)

    with_existing-HasStatus :
        (own : String) (existing : Option Device) (status : DeviceStatus) (s : DeviceTable)
        → HasStatus status s
        → HasStatus status (with_existing js now input own existing s).1
    unfolding with_existing
    with_existing-HasStatus own none status s (d, found, same) =
        (d, find-append (is_device company instance_id) s.devices _ d found, same)
    with_existing-HasStatus own (some e) status s (d, found, same) =
        elim (find-change (is_device company instance_id) (λ x. nat_eq x.id e.id) (seen input now)
          s.devices d seen-is_device found) [
            | inl kept ↦ (d, kept, same)
            | inr changed ↦ (seen input now d, changed.1, seen_status d ∙ same)
          ]

    -- A registration changes no device's status and removes none, of whichever tenant: a device that
    -- waits, is blocked or was revoked does not come back by registering again.
    pub register_or_resolve-HasStatus :
        (status : DeviceStatus) (s : DeviceTable)
        → HasStatus status s
        → HasStatus status (register_or_resolve js now input s).1
    unfolding register_or_resolve
    register_or_resolve-HasStatus status s h =
        let own = trim input.client_instance_id in
        elim (Bool-cases (is_empty own)) [
          | inl p ↦ rw p h
          | inr p ↦ rw p (
              with_existing-HasStatus own (find? (is_device input.company_id own) s.devices) status
                s h)
        ]
