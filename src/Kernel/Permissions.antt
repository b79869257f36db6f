-- ===== src/Kernel/Permissions.antt =====
-- The rights of each role: src/shared/kernel/permissions/permission-catalog.ts and
-- src/shared/guards/permissions.guard.ts.
use fsf_acreditation_backend.Base.{
  Eq, Bool, true, false, List, [], ◌∷◌, Option, none, some, includes, ◌||◌,
}
use fsf_acreditation_backend.Store.{StaffRole}

-- `Permission`
pub data Permission : Type 0 where
  users_manage competitions_manage competitions_read media_manage media_read : Permission
  requests_read_any requests_read_own requests_write_own requests_complement_request : Permission
  requests_validate requests_attribute accreditations_generate accreditations_revoke : Permission
  scan_perform scan_read dashboard_read export_data audit_read : Permission

Permission-discrete : Discrete Permission
Permission-discrete = hlevel

instance unfoldable pub permission_eq : Eq Permission
unfolding Permission-discrete
permission_eq = record { dec = Permission-discrete }

unfoldable pub all_permissions : List Permission
all_permissions =
    users_manage ∷ competitions_manage ∷ competitions_read ∷ media_manage ∷ media_read
    ∷ requests_read_any ∷ requests_read_own ∷ requests_write_own ∷ requests_complement_request
    ∷ requests_validate ∷ requests_attribute ∷ accreditations_generate ∷ accreditations_revoke
    ∷ scan_perform ∷ scan_read ∷ dashboard_read ∷ export_data ∷ audit_read ∷ []

-- `ROLE_PERMISSIONS`
unfoldable pub role_permissions : StaffRole → List Permission
unfolding all_permissions
role_permissions StaffRole.admin = all_permissions
role_permissions StaffRole.responsable_accreditation =
    competitions_manage ∷ competitions_read ∷ media_manage ∷ media_read ∷ requests_read_any
    ∷ requests_complement_request ∷ requests_validate ∷ requests_attribute ∷ accreditations_generate
    ∷ accreditations_revoke ∷ scan_read ∷ dashboard_read ∷ export_data ∷ audit_read ∷ []
role_permissions StaffRole.commission_validation =
    competitions_read ∷ media_read ∷ requests_read_any ∷ requests_complement_request
    ∷ requests_validate ∷ requests_attribute ∷ accreditations_generate ∷ dashboard_read
    ∷ export_data ∷ audit_read ∷ []
role_permissions StaffRole.agent_controle = scan_perform ∷ scan_read ∷ dashboard_read ∷ []
role_permissions StaffRole.superviseur =
    competitions_read ∷ media_read ∷ requests_read_any ∷ scan_read ∷ dashboard_read ∷ export_data
    ∷ audit_read ∷ []

-- `permissionsForRole`
unfoldable pub permissions_for_role : Option StaffRole → List Permission
unfolding role_permissions
permissions_for_role none = requests_read_own ∷ requests_write_own ∷ []
permissions_for_role (some role) = role_permissions role

-- `user.permissions.some((p) => required.includes(p))`
unfoldable pub has_permission : List Permission → List Permission → Bool
has_permission [] required = false
has_permission (p ∷ ps) required = includes required p || has_permission ps required

-- `PermissionsGuard.canActivate`: the permissions of the caller, if there is one; `false` stands
-- for the `ForbiddenException`.
unfoldable pub can_activate : (is_public : Bool) → List Permission → Option (List Permission) → Bool
unfolding has_permission
can_activate true required caller = true
can_activate false [] caller = true
can_activate false (r ∷ rs) none = false
can_activate false (r ∷ rs) (some ps) = has_permission ps (r ∷ rs)
