-- ===== src/Kernel/Duties.antt =====
-- Which roles the guard lets through to the sensitive calls.
use fsf_acreditation_backend.Base.{◌≡◌, ◌↔◌, ◌⊎◌, true, false, Option, some, [], ◌∷◌, arith}
use fsf_acreditation_backend.Store.{StaffRole}
use fsf_acreditation_backend.Kernel.Permissions.{
  Permission, users_manage, requests_validate, accreditations_revoke, scan_perform,
  permissions_for_role, can_activate,
}

-- The guard lets a caller of a role through to a call that requires a permission.
abbrev pub Lets : Option StaffRole → Permission → Type 0
Lets role p = can_activate false (p ∷ []) (some (permissions_for_role role)) ≡ true

-- Accounts are managed by administrators only; requests are decided by administrators, the head of
-- accreditation and the commission; badges are revoked by the first two; and scans are made by
-- administrators and the agents at the gates. A person without a role passes none of these.
pub can_activate_duties :
    (role : Option StaffRole)
    → (Lets role users_manage ↔ (role ≡ some StaffRole.admin))
      × (Lets role requests_validate ↔ (
          (role ≡ some StaffRole.admin)
          ⊎ (role ≡ some StaffRole.responsable_accreditation)
          ⊎ (role ≡ some StaffRole.commission_validation)))
      × (Lets role accreditations_revoke
          ↔ ((role ≡ some StaffRole.admin) ⊎ (role ≡ some StaffRole.responsable_accreditation)))
      × (Lets role scan_perform
          ↔ ((role ≡ some StaffRole.admin) ⊎ (role ≡ some StaffRole.agent_controle)))
unfolding can_activate permissions_for_role
can_activate_duties role = (
  (λ h. ground arith, λ h. ground arith),
  (λ h. ground arith, λ h. ground arith),
  (λ h. ground arith, λ h. ground arith),
  (λ h. ground arith, λ h. ground arith),
)
