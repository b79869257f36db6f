-- ===== src/Tests/Staff.antt =====
-- The calls of the staff.
use fsf_acreditation_backend.Base.{
  ◌≡◌, refl, ◌==◌, string_eq, false, All, some, none, [], ◌∷◌, List, arith, find, nat_eq, text,
}
use fsf_acreditation_backend.Kernel.Permissions.{permissions_for_role}
use fsf_acreditation_backend.Store.{in_memory, Database, User, UserKind, UserStatus, StaffRole}
use fsf_acreditation_backend.Iam.Users.{CreateStaffUser, PasswordHasher}
use fsf_acreditation_backend.Iam.Auth.{AuthenticatedUser}
use fsf_acreditation_backend.Iam.Calls.{Call, serve_calls, create, set_status, update, remove}
use fsf_acreditation_backend.Iam.OwnAccount.{IsOtherAccount, HasAccount, serve_calls-HasAccount}
use fsf_acreditation_backend.Staff.Routes.{StaffRoute, serve_staff}
use fsf_acreditation_backend.Staff.Supervision.{serve_staff_reads}
use fsf_acreditation_backend.Tests.Data.{env, start}

abbrev admin : User
admin = record {
  id = 22;
  email = text "c@x";
  password_hash = "";
  kind = UserKind.staff;
  role = some StaffRole.admin;
  status = UserStatus.active;
  display_name = none;
  last_login_at = none;
  failed_login_attempts = 0;
  locked_until = none;
}

abbrev actor : StaffRole → AuthenticatedUser
actor role = record {
  id = 22;
  email = text "c@x";
  kind = UserKind.staff;
  role = some role;
  requester_profile_id = none;
  permissions = permissions_for_role (some role);
}

abbrev office : Database
office = record start { users = admin ∷ [] }

abbrev hasher : PasswordHasher
hasher = record { hash = λ p. p; verify = λ stored given. stored == given }

abbrev agent : CreateStaffUser
agent = record {
  email = text "a@x";
  temporary_password = "secret12";
  role = StaffRole.agent_controle;
  display_name = none;
}

-- A new agent, then the attempts of the administrator to suspend and to delete the own account.
abbrev calls : List Call
calls =
    create hasher env agent
    ∷ set_status 22 UserStatus.suspended
    ∷ update 22 (record { role = some StaffRole.superviseur; display_name = none })
    ∷ remove (λ s. false) 22
    ∷ []

admin_there : HasAccount in_memory (actor StaffRole.admin) admin office
unfolding in_memory find
admin_there = (admin, ground arith, (refl, refl, refl))

others : All (IsOtherAccount in_memory (actor StaffRole.admin)) calls
others = (ground arith, (tt, (tt, (tt, tt))))

serve_calls-HasAccount_example :
    HasAccount in_memory
      (actor StaffRole.admin)
      admin
      (serve_calls in_memory (actor StaffRole.admin) calls office)
serve_calls-HasAccount_example =
    serve_calls-HasAccount in_memory (actor StaffRole.admin) calls admin office others admin_there

serve_staff_reads_example :
    serve_staff in_memory (actor StaffRole.superviseur) (StaffRoute.post_revoke 500 8 "lost") office
    ≡ office
serve_staff_reads_example =
    serve_staff_reads in_memory (StaffRoute.post_revoke 500 8 "lost") (actor StaffRole.superviseur)
      office refl
