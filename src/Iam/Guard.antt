-- ===== src/Iam/Guard.antt =====
-- `@RequirePermissions(permission)` of src/shared/decorators/permissions.decorator.ts, in front of a
-- handler.
use fsf_acreditation_backend.Base.{false, some, [], ◌∷◌, not}
use fsf_acreditation_backend.Kernel.Errors.{Failure}
use fsf_acreditation_backend.Kernel.Permissions.{Permission, can_activate}
use fsf_acreditation_backend.Store.{Action, throw_if, ◌>>◌}
use fsf_acreditation_backend.Iam.Auth.{AuthenticatedUser}

abbrev pub require_permission : {A : Type 0} → Permission → AuthenticatedUser → Action A → Action A
require_permission permission user handler =
    throw_if (not (can_activate false (permission ∷ []) (some user.permissions)))
      Failure.forbidden_exception
    >> handler
