-- ===== src/Iam/Calls.antt =====
-- The calls of users.controller.ts as data, and the database after them.
use fsf_acreditation_backend.Base.{Bool, List, [], ◌∷◌, nat_eq, String}
use fsf_acreditation_backend.Kernel.Listing.{Listing}
use fsf_acreditation_backend.Store.{
  Prisma, Database, Uuid, Instant, Env, User, LoginAttempt, UserStatus, user_status_eq,
}
use fsf_acreditation_backend.Iam.Auth.{AuthenticatedUser}
use fsf_acreditation_backend.Iam.Listings.{ListUsers, ListLoginAttempts}
use fsf_acreditation_backend.Iam.Users.{PasswordHasher, CreateStaffUser, UpdateStaffUser}
use fsf_acreditation_backend.Iam.Desk

-- The calls of the controller, with what each carries and reads from outside.
pub data Call : Type 0 where
  create : PasswordHasher → Env → CreateStaffUser → Call
  list : Listing User → ListUsers → Call
  list_attempts : Listing LoginAttempt → ListLoginAttempts → Call
  get : Uuid → Call
  get_login_history : Listing LoginAttempt → Uuid → ListLoginAttempts → Call
  update : Uuid → UpdateStaffUser → Call
  reset : PasswordHasher → Instant → Uuid → String → Call
  set_status : Uuid → UserStatus → Call
  remove : (Database → Bool) → Uuid → Call

module _ (db : Prisma) (actor : AuthenticatedUser) where
  -- The database after a call, whether it returned or threw.
  unfoldable pub serve_call : Call → Database → Database
  serve_call (create hasher env dto) s = (Desk.create db hasher env dto actor s).1
  serve_call (list listing query) s = (Desk.list db listing query actor s).1
  serve_call (list_attempts listing query) s = (Desk.list_attempts db listing query actor s).1
  serve_call (get id) s = (Desk.get db id actor s).1
  serve_call (get_login_history listing id query) s =
      (Desk.get_login_history db listing id query actor s).1
  serve_call (update id dto) s = (Desk.update db id dto actor s).1
  serve_call (reset hasher now id new_password) s =
      (Desk.reset db hasher now id new_password actor s).1
  serve_call (set_status id status) s = (Desk.set_status db id status actor s).1
  serve_call (remove has_history id) s = (Desk.remove db has_history id actor s).1

  unfoldable pub serve_calls : List Call → Database → Database
  serve_calls [] s = s
  serve_calls (c ∷ cs) s = serve_calls cs (serve_call c s)
