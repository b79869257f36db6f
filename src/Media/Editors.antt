-- ===== src/Media/Editors.antt =====
-- What an editor in chief can do for other people.
use fsf_acreditation_backend.Base.{
  ◌≡◌, refl, sym, ◌∙◌, true, some, List, nat_eq, Bool-cases, Option-cases, inl, inr, ap, ◌⊎◌,
  String,
}
use fsf_acreditation_backend.Kernel.Errors.{Failure}
use fsf_acreditation_backend.Store.{
  Prisma, Database, ok, err, Outcome, Uuid, Text, Env, RequesterProfile, User, profile_of_user,
  or_throw_rule, throw_if_rule, then_rule, or_throw-some, or_throw-none, throw_if-true,
  throw_if-false, then_ok, then_err,
}
use fsf_acreditation_backend.Iam.Users.{PasswordHasher, create_requester_account, find_by_email}
use fsf_acreditation_backend.Media.Service.{get_media}
use fsf_acreditation_backend.Media.Profiles.{
  CreateRequesterProfile, create_requester_profile, get_requester_profile_by_user_id,
}
use fsf_acreditation_backend.Media.Desk.{AddJournalist, assert_editor, add_journalist}

module _ (db : Prisma) where
  -- The profile of an editor in chief, by the account of the caller.
  abbrev pub IsEditor : Database → Uuid → RequesterProfile → Type 0
  IsEditor s user_id e =
      (db.find_unique (profile_of_user user_id) s.profiles ≡ some e) × (e.is_editor_in_chief ≡ true)

  -- What the addition of a journalist can lead to.
  abbrev pub Added : Database → Uuid → Outcome RequesterProfile → Type 0
  Added s user_id (ok p, s') =
      (e : RequesterProfile) × IsEditor s user_id e
      × (p.media_id ≡ e.media_id)
      × (s'.profiles ≡ db.create p s.profiles)
  Added s user_id (err f, s') = s'.profiles ≡ s.profiles

  IsEditor-cases :
      (user_id : Uuid) (s : Database)
      → (assert_editor db user_id s ≡ (err Failure.forbidden_exception, s))
        ⊎ ((e : RequesterProfile) × IsEditor s user_id e × (assert_editor db user_id s ≡ (ok e, s)))
  unfolding assert_editor get_requester_profile_by_user_id
  IsEditor-cases user_id s =
      elim (Option-cases (db.find_unique (profile_of_user user_id) s.profiles)) [
        | inl missing ↦ inl (or_throw-none _ _ s missing)
        | inr (e, found) ↦ elim (Bool-cases e.is_editor_in_chief) [
          | inl yes_flag ↦ inr (
            e,
            (found, yes_flag),
            or_throw-some _ _ s found ∙ throw_if-false _ _ s (rw yes_flag refl),
          )
          | inr no_flag ↦ inl (or_throw-some _ _ s found ∙ throw_if-true _ _ s (rw no_flag refl))
        ]
      ]

  -- A call that leaves the profiles alone.
  abbrev Aside : {A : Type 0} → Database → Outcome A → Type 0
  Aside s o = o.1.profiles ≡ s.profiles

  account-Aside :
      (hasher : PasswordHasher) (env : Env) (email : Text) (password : String) (s : Database)
      → Aside s (create_requester_account db hasher env email password s)
  unfolding create_requester_account find_by_email
  account-Aside hasher env email password s =
      throw_if_rule (Aside s) _ _ _ s (λ taken. refl) (λ free. refl)

  profile-Added :
      (id user_id caller : Uuid) (dto : CreateRequesterProfile) (s0 s : Database)
      (e : RequesterProfile)
      → IsEditor s0 caller e
      → s.profiles ≡ s0.profiles
      → dto.media_id ≡ e.media_id
      → Added s0 caller (create_requester_profile db id user_id dto s)
  unfolding create_requester_profile get_media
  profile-Added id user_id caller dto s0 s e editor same media =
      or_throw_rule (Added s0 caller) _ _ _ s (λ missing. same)
        (λ m found. (e, editor, media, rw same refl))

  -- Whatever an editor in chief asks for, and whatever medium the request names, a call of
  -- `addJournalist` that returns has added exactly one profile, which belongs to the medium of the
  -- caller, and the caller was an editor in chief; a call that throws has added none.
  pub add_journalist-Added :
      (hasher : PasswordHasher) (env : Env) (profile_id user_id : Uuid) (dto : AddJournalist)
      (s : Database)
      → Added s user_id (add_journalist db hasher env profile_id user_id dto s)
  unfolding add_journalist
  add_journalist-Added hasher env profile_id user_id dto s = elim (IsEditor-cases user_id s) [
    | inl refused ↦ rw (then_err (assert_editor db user_id) _ s refused) refl
    | inr (e, editor, passed) ↦ rw (then_ok (assert_editor db user_id) _ s passed) (
        then_rule (Added s user_id)
          (create_requester_account db hasher env dto.email dto.temporary_password) _ s
          (λ f s' went. ap Aside_of (sym went) ∙ aside)
          (λ u s' went.
            profile-Added profile_id u.id user_id _ s s' e editor (ap Aside_of (sym went) ∙ aside)
              refl))
  ]
    where
      Aside_of : Outcome User → List RequesterProfile
      Aside_of o = o.1.profiles

      aside : Aside s (create_requester_account db hasher env dto.email dto.temporary_password s)
      aside = account-Aside hasher env dto.email dto.temporary_password s
