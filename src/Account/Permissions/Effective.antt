-- ===== src/Account/Permissions/Effective.antt =====
-- Which permissions an employee ends up with.
use mathlib.Core.Path.{subst}
use tatuzin.Prelude.{
  String, ◌≡◌, ◌≢◌, refl, sym, ◌∙◌, Bool, true, false, not, ◌&&◌, Option, some, none, List, [], ◌∷◌,
  inl, inr, ◌==◌, includes, get_or, if◌then◌else◌, All, All-concat, Bool-cases, and-left, and-right,
  or-left, or-right, eq_iff,
}
use tatuzin.Prelude.Text.{trim}
use tatuzin.Payload.Json.{Json, arr, str, Runtime, null, bool, num, obj}
use tatuzin.Sync.Numbering.{Pairwise}
use tatuzin.Sync.Tables.Lists.{Pairwise-concat}
use tatuzin.Account.Permissions.{
  employee_permissions, put, put_all, normalize_permissions, texts, parse_stored_permissions,
  default_permissions_for_role, effective_permissions_for_employee, normalize_employee_role,
  normalize_employee_status,
}

-- Permissions of the list, without repetition.
pub record IsPermissionSet (xs : List String) : Type 0 where
  pub known : All (λ x. includes employee_permissions x ≡ true) xs
  pub apart : Pairwise (λ x y. x ≢ y) xs

absent-All : (xs : List String) (k : String) → includes xs k ≡ false → All (λ x. x ≢ k) xs
absent-All [] k h = tt
absent-All (x ∷ xs) k h = (
  (λ e. let bad : true ≡ false = sym ((eq_iff x k).1 e) ∙ or-left (x == k) _ h in cc),
  absent-All xs k (or-right (x == k) _ h),
)

not-false : (b : Bool) → not b ≡ true → b ≡ false
not-false false h = refl
not-false true h = cc

put-IsPermissionSet :
    (xs : List String) (v : String) → IsPermissionSet xs → IsPermissionSet (put xs v)
put-IsPermissionSet xs v h =
    elim (Bool-cases (includes employee_permissions v && not (includes xs v))) [
      | inr p ↦ rw p h
      | inl p ↦ rw p (record {
        known =
            All-concat (λ x. includes employee_permissions x ≡ true) xs h.known
              (and-left _ (not (includes xs v)) p);
        apart =
            Pairwise-concat (λ x y. x ≢ y) xs v h.apart
              (absent-All xs v (not-false _ (and-right (includes employee_permissions v) _ p)));
      })
    ]

put_all-IsPermissionSet :
    (xs raw : List String) → IsPermissionSet xs → IsPermissionSet (put_all xs raw)
put_all-IsPermissionSet xs [] h = h
put_all-IsPermissionSet xs (p ∷ ps) h =
    put_all-IsPermissionSet (put xs (trim p)) ps (put-IsPermissionSet xs (trim p) h)

pub normalized-IsPermissionSet : (raw : List String) → IsPermissionSet (normalize_permissions raw)
normalized-IsPermissionSet raw = put_all-IsPermissionSet [] raw (record { known = tt; apart = tt })

-- The defaults of a role are normal.
default-normal :
    (role : String)
    → normalize_permissions (default_permissions_for_role role) ≡ default_permissions_for_role role
unfolding trim default_permissions_for_role
default-normal role = elim (Bool-cases (role == "OWNER")) [
  | inl p ↦ rw p refl
  | inr p ↦ elim (Bool-cases (role == "MANAGER")) [
    | inl q ↦ rw (p, q) refl
    | inr q ↦ elim (Bool-cases (role == "CASHIER")) [
      | inl r ↦ rw (p, q, r) refl
      | inr r ↦ elim (Bool-cases (role == "SELLER")) [
        | inl s ↦ rw (p, q, r, s) refl
        | inr s ↦ elim (Bool-cases (role == "STOCK_OPERATOR")) [
          | inl t ↦ rw (p, q, r, s, t) refl
          | inr t ↦ rw (p, q, r, s, t) refl
        ]
      ]
    ]
  ]
]

default-IsPermissionSet : (role : String) → IsPermissionSet (default_permissions_for_role role)
default-IsPermissionSet role =
    subst IsPermissionSet (default-normal role)
      (normalized-IsPermissionSet (default_permissions_for_role role))

stored-IsPermissionSet :
    (stored : Option Json) (d : List String)
    → IsPermissionSet d
    → IsPermissionSet (get_or (parse_stored_permissions stored) d)
stored-IsPermissionSet none d h = h
stored-IsPermissionSet (some (arr items)) d h = normalized-IsPermissionSet (texts items)
stored-IsPermissionSet (some null) d h = h
stored-IsPermissionSet (some (bool b)) d h = h
stored-IsPermissionSet (some (num n)) d h = h
stored-IsPermissionSet (some (str s)) d h = h
stored-IsPermissionSet (some (obj fs)) d h = h

IsPermissionSet-if :
    (b : Bool) (xs ys : List String)
    → IsPermissionSet xs
    → IsPermissionSet ys
    → IsPermissionSet (if b then xs else ys)
IsPermissionSet-if true xs ys h k = h
IsPermissionSet-if false xs ys h k = k

-- Whatever is stored for an employee, the effective permissions are permissions of the list, each
-- once.
pub effective-IsPermissionSet :
    (js : Runtime) (role status : String) (stored : Option Json)
    → IsPermissionSet (effective_permissions_for_employee js role status stored)
unfolding effective_permissions_for_employee
effective-IsPermissionSet js role status stored =
    let known = get_or (normalize_employee_role js role) "READ_ONLY" in
    IsPermissionSet-if (get_or (normalize_employee_status js status) "DISABLED" == "DISABLED") [] _
      (record { known = tt; apart = tt })
      (IsPermissionSet-if (known == "OWNER") (default_permissions_for_role "OWNER")
        (get_or (parse_stored_permissions stored) (default_permissions_for_role known))
        (default-IsPermissionSet "OWNER")
        (stored-IsPermissionSet stored (default_permissions_for_role known)
          (default-IsPermissionSet known)))
