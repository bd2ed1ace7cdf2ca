-- ===== src/Account/Permissions/Roles.antt =====
-- The roles of employees and of memberships.
use tatuzin.Prelude.{
  String, ◌≡◌, refl, sym, true, false, [], ◌∷◌, inl, inr, ◌==◌, includes, Bool-cases, eq_iff,
}
use tatuzin.Prelude.Text.{trim}
use tatuzin.Payload.Json.{Runtime}
use tatuzin.Account.Permissions.{
  employee_roles, normalize_employee_role, role_from_membership_role,
  membership_role_from_employee_role,
}

-- With an upper-casing that leaves the names of the roles as they are: a membership role is what
-- the employee role made of it is turned back into.
pub membership_role-role :
    (js : Runtime) (membership : String)
    → ((role : String) → includes employee_roles role ≡ true → js.to_upper_case role ≡ role)
    → includes ("OWNER" ∷ "ADMIN" ∷ "OPERATOR" ∷ []) membership ≡ true
    → membership_role_from_employee_role js (role_from_membership_role membership) ≡ membership
unfolding membership_role_from_employee_role normalize_employee_role trim
membership_role-role js membership upper known = elim (Bool-cases ("OWNER" == membership)) [
  | inl p ↦
      let same : membership ≡ "OWNER" = sym ((eq_iff "OWNER" membership).0 p) in
      rw same (rw (upper "OWNER" refl) refl)
  | inr p ↦ elim (Bool-cases ("ADMIN" == membership)) [
    | inl q ↦
        let same : membership ≡ "ADMIN" = sym ((eq_iff "ADMIN" membership).0 q) in
        rw same (rw (upper "MANAGER" refl) refl)
    | inr q ↦ elim (Bool-cases ("OPERATOR" == membership)) [
      | inl r ↦
          let same : membership ≡ "OPERATOR" = sym ((eq_iff "OPERATOR" membership).0 r) in
          rw same (rw (upper "CASHIER" refl) refl)
      | inr r ↦ let bad : false ≡ true = rw (p, q, r) at known in cc
    ]
  ]
]
