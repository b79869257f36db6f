-- ===== src/Iam/OwnAccount.antt =====
-- What a person who manages the accounts can do to the own account.
use mathlib.Core.Option
use fsf_acreditation_backend.Base.{
  ◌≡◌, ◌≢◌, refl, ap, ◌∙◌, true, false, Bool, Option, some, List, [], ◌∷◌, nat_eq, arith, All,
  subst, none, select, String, apply_if, not, ◌==◌, find-select,
}
use fsf_acreditation_backend.Kernel.Permissions.{Permission}
use fsf_acreditation_backend.Kernel.Listing.{list_page}
use fsf_acreditation_backend.Store.{
  Prisma, Database, Action, Uuid, Instant, Env, User, UserStatus, user_status_eq, user_key,
  or_throw_rule, throw_if_rule, when_rule, then_rule, pure, ◌>>◌, StaffRole,
  find_unique-update_rows, find_unique-create_other, find_unique-true,
}
use fsf_acreditation_backend.Iam.Auth.{AuthenticatedUser}
use fsf_acreditation_backend.Iam.Guard.{require_permission}
use fsf_acreditation_backend.Iam.Listings.{
  safe_user, get_by_id, list_users, list_login_attempts_for_user, list_login_attempts,
}
use fsf_acreditation_backend.Iam.Users.{
  PasswordHasher, CreateStaffUser, UpdateStaffUser, create_staff_user, update_staff_user,
  update_status, reset_password, delete_staff_user, find_by_id, find_by_email, with_user_status,
  publish_role, patch_user, with_password,
}
use fsf_acreditation_backend.Iam.Desk
use fsf_acreditation_backend.Iam.Calls.{
  Call, create, list, list_attempts, get, get_login_history, update, reset, set_status, remove,
  serve_call, serve_calls,
}

module _ (db : Prisma) (actor : AuthenticatedUser) where
  -- A new account does not get the identifier of the caller.
  abbrev pub IsOtherAccount : Call → Type 0
  IsOtherAccount (create hasher env dto) = env.new_id ≢ actor.id
  IsOtherAccount _ = Unit

  -- Two rows that agree on the status, the address and the kind.
  abbrev pub SameAccount : User → User → Type 0
  SameAccount u v = (u.status ≡ v.status) × (u.email ≡ v.email) × (u.kind ≡ v.kind)

  -- The account of the caller is there, and agrees with another row.
  abbrev pub HasAccount : User → Database → Type 0
  HasAccount old s =
      (u : User) × (db.find_unique (user_key actor.id) s.users ≡ some u) × SameAccount u old

  -- A write to accounts, which leaves the status, the address and the kind of the caller.
  written :
      (p : User → Bool) (f : User → User) (old : User) (rows : List User)
      → ((x : User) → (f x).id ≡ x.id)
      → ((x : User) → p x ≡ true → x.id ≡ actor.id → SameAccount (f x) x)
      → (u : User) × (db.find_unique (user_key actor.id) rows ≡ some u) × SameAccount u old
      → (u : User) × (db.find_unique (user_key actor.id) (db.update_rows p f rows) ≡ some u)
        × SameAccount u old
  written p f old rows ids same (u, found, (status, email, kind)) = (
    apply_if p f u,
    find_unique-update_rows db (user_key actor.id) p f rows (λ x t. rw (ids x) refl)
        ∙ ap (Option.map (apply_if p f)) found,
    fields (p u) refl,
  )
    where
      fields : (b : Bool) → p u ≡ b → SameAccount (apply_if p f u) old
      fields true e =
          let (s', e', k') =
            same u e (ground (arith, find_unique-true db (user_key actor.id) rows u found)) in
          rw e (s' ∙ status, e' ∙ email, k' ∙ kind)
      fields false e = rw e (status, email, kind)

  -- The guard of permissions, in front of a handler that keeps the account.
  guarded :
      {A : Type 0} (p : Permission) (m : Action A) (old : User) (s : Database)
      → HasAccount old s
      → HasAccount old (m s).1
      → HasAccount old (require_permission p actor m s).1
  guarded p m old s before after =
      throw_if_rule (λ o. HasAccount old o.1) _ _ m s (λ barred. before) (λ passed. after)

  -- The columns that the answer leaves out do not matter.
  handed :
      (m : Action User) (old : User) (s : Database)
      → HasAccount old (m s).1
      → HasAccount old (Desk.safely m s).1
  handed m old s has =
      then_rule (λ o. HasAccount old o.1) m (λ u. pure (safe_user u)) s
        (λ e s' h. subst (λ o. HasAccount old o.1) h has)
        (λ u s' h. subst (λ o. HasAccount old o.1) h has)

  own_create :
      (hasher : PasswordHasher) (env : Env) (dto : CreateStaffUser) (old : User) (s : Database)
      → env.new_id ≢ actor.id
      → HasAccount old s
      → HasAccount old (create_staff_user db hasher env dto actor.id s).1
  unfolding create_staff_user find_by_email
  own_create hasher env dto old s fresh (u, found, same) =
      throw_if_rule (λ o. HasAccount old o.1) _ _ _ s (λ taken. (u, found, same))
        λ free. (
          u,
          find_unique-create_other db (user_key actor.id) _ s.users (ground arith) ∙ found,
          same,
        )

  own_status :
      (status : UserStatus) (id : Uuid) (old : User) (s : Database)
      → HasAccount old s
      → HasAccount old (update_status db id status actor.id s).1
  unfolding update_status find_by_id
  own_status status id old s has =
      or_throw_rule (λ o. HasAccount old o.1) _ _ _ s (λ missing. has)
        λ u found.
          throw_if_rule (λ o. HasAccount old o.1) _ _ _ s (λ own. has)
            λ other.
              written (user_key id) (with_user_status status) old s.users (λ x. ground arith)
                (λ x k e. ground arith) has

  told :
      (id : Uuid) (r o : Option StaffRole) (v old : User) (s : Database)
      → HasAccount old s
      → HasAccount old ((publish_role db id r o actor.id >> pure v) s).1
  told id r none v old s has = has
  told id r (some new) v old s has =
      when_rule (λ o. HasAccount old o.1) _ _ (pure v) s (λ d. has) (λ n. has)

  own_update :
      (id : Uuid) (dto : UpdateStaffUser) (old : User) (s : Database)
      → HasAccount old s
      → HasAccount old (update_staff_user db id dto actor.id s).1
  unfolding update_staff_user find_by_id
  own_update id dto old s has =
      or_throw_rule (λ o. HasAccount old o.1) _ _ _ s (λ missing. has)
        λ u found.
          throw_if_rule (λ o. HasAccount old o.1) _ _ _ s (λ barred. has)
            λ passed. told id u.role dto.role _ old _ (
              written (user_key id) (patch_user dto) old s.users (λ x. refl)
                (λ x k e. (refl, refl, refl)) has)

  own_reset :
      (hasher : PasswordHasher) (now : Instant) (id : Uuid) (password : String) (old : User)
      (s : Database)
      → HasAccount old s
      → HasAccount old (reset_password db hasher now id password actor.id s).1
  unfolding reset_password find_by_id
  own_reset hasher now id password old s has =
      or_throw_rule (λ o. HasAccount old o.1) _ _ _ s (λ missing. has)
        λ u found.
          written (user_key id) (with_password (hasher.hash password)) old s.users (λ x. refl)
            (λ x k e. (refl, refl, refl)) has

  own_delete :
      (has_history : Database → Bool) (id : Uuid) (old : User) (s : Database)
      → HasAccount old s
      → HasAccount old (delete_staff_user db has_history id actor.id s).1
  unfolding delete_staff_user find_by_id
  own_delete has_history id old s (u, found, same) =
      or_throw_rule (λ o. HasAccount old o.1) _ _ _ s (λ missing. (u, found, same))
        λ v there.
          throw_if_rule (λ o. HasAccount old o.1) _ _ _ s (λ own. (u, found, same))
            λ other.
              throw_if_rule (λ o. HasAccount old o.1) _ _ _ s (λ used. (u, found, same))
                (λ unused. (u, left id other ∙ found, same))
    where
      left :
          (i : Uuid)
          → (i == actor.id) ≡ false
          → db.find_unique (user_key actor.id) (db.find_many (λ x. not (x.id == i)) s.users)
            ≡ db.find_unique (user_key actor.id) s.users
      left i other =
          rw
            (
              db.find_many_lem (λ x. not (x.id == i)) s.users,
              db.find_unique_lem (user_key actor.id) (select (λ x. not (x.id == i)) s.users),
              db.find_unique_lem (user_key actor.id) s.users,
            )
            (find-select (user_key actor.id) (λ x. not (x.id == i)) s.users (λ x k. ground arith))

  call_keeps :
      (call : Call) (old : User) (s : Database)
      → IsOtherAccount call
      → HasAccount old s
      → HasAccount old (serve_call db actor call s)
  unfolding serve_call Desk.create Desk.list Desk.list_attempts Desk.get Desk.get_login_history
      Desk.update Desk.reset Desk.set_status Desk.remove list_users list_login_attempts
      list_login_attempts_for_user list_page get_by_id
  call_keeps (create hasher env dto) old s other has = guarded _ _ old s has (
      handed (create_staff_user db hasher env dto actor.id) old s
        (own_create hasher env dto old s other has))
  call_keeps (list listing query) old s other has = guarded _ _ old s has has
  call_keeps (list_attempts listing query) old s other has = guarded _ _ old s has has
  call_keeps (get id) old s other has =
      guarded _ _ old s has
        (or_throw_rule (λ o. HasAccount old o.1) _ _ _ s (λ missing. has) (λ u found. has))
  call_keeps (get_login_history listing id query) old s other has = guarded _ _ old s has has
  call_keeps (update id dto) old s other has =
      guarded _ _ old s has
        (handed (update_staff_user db id dto actor.id) old s (own_update id dto old s has))
  call_keeps (reset hasher now id password) old s other has =
      guarded _ _ old s has (own_reset hasher now id password old s has)
  call_keeps (set_status id status) old s other has =
      guarded _ _ old s has
        (handed (update_status db id status actor.id) old s (own_status status id old s has))
  call_keeps (remove has_history id) old s other has =
      guarded _ _ old s has (own_delete has_history id old s has)

  -- Whatever list of calls one person makes of the controller of accounts, with new accounts getting
  -- other identifiers, and whether each call returns or throws, the account of that person is still
  -- there at the end, with the status, the address and the kind it had.
  pub serve_calls-HasAccount :
      (calls : List Call) (old : User) (s : Database)
      → All IsOtherAccount calls
      → HasAccount old s
      → HasAccount old (serve_calls db actor calls s)
  unfolding serve_calls
  serve_calls-HasAccount [] old s others has = has
  serve_calls-HasAccount (c ∷ cs) old s (other, others) has =
      serve_calls-HasAccount cs old (serve_call db actor c s) others (call_keeps c old s other has)
