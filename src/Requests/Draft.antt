-- ===== src/Requests/Draft.antt =====
-- src/modules/requests/application/commands/save-draft-request.usecase.ts.
use fsf_acreditation_backend.Base.{
  Bool, false, Option, none, some, List, [], ◌&&◌, ◌==◌, nat_eq, list_eq, is_some, get_or, or_else,
  String,
}
use fsf_acreditation_backend.Kernel.Errors.{ErrorCode, ErrorKind, throws}
use fsf_acreditation_backend.Store.{
  Prisma, Action, pure, gets, or_throw, modify, ◌>>=◌, ◌>>◌, Uuid, Text, AccreditationRequest,
  RequestStatus, request_status_eq, RoleInEvent, request_key, Env,
}
use fsf_acreditation_backend.Competitions.Matches.{get_match}
use fsf_acreditation_backend.Quotas.Service.{get_category}
use fsf_acreditation_backend.Accreditations.Numbering.{candidate, request_prefix, first_free}

pub record SaveDraftInput : Type 0 where
  pub requester_id : Uuid
  pub match_id : Uuid
  pub category_requested_id : Uuid
  pub role_in_event : Option RoleInEvent
  pub needs_desk : Option Bool
  pub needs_power : Option Bool
  pub needs_lan_wifi : Option Bool
  pub car_plate_number : Option String
  pub preferred_zone_ids : Option (List Uuid)

-- The `data` of the update: what the input leaves out is left alone.
abbrev pub redraft : SaveDraftInput → AccreditationRequest → AccreditationRequest
redraft input r = record r {
  category_requested_id = input.category_requested_id;
  role_in_event = or_else input.role_in_event r.role_in_event;
  needs_desk = get_or input.needs_desk r.needs_desk;
  needs_power = get_or input.needs_power r.needs_power;
  needs_lan_wifi = get_or input.needs_lan_wifi r.needs_lan_wifi;
  car_plate_number = or_else input.car_plate_number r.car_plate_number;
  preferred_zone_ids = get_or input.preferred_zone_ids r.preferred_zone_ids;
}

-- The `data` of the creation, with the defaults of the schema.
abbrev pub new_draft : Env → SaveDraftInput → Text → AccreditationRequest
new_draft env input reference = record {
  id = env.new_id;
  unique_reference = reference;
  requester_id = input.requester_id;
  match_id = input.match_id;
  category_requested_id = input.category_requested_id;
  status = RequestStatus.draft;
  role_in_event = input.role_in_event;
  needs_desk = get_or input.needs_desk false;
  needs_power = get_or input.needs_power false;
  needs_lan_wifi = get_or input.needs_lan_wifi false;
  car_plate_number = input.car_plate_number;
  preferred_zone_ids = get_or input.preferred_zone_ids [];
  submitted_at = none;
  decision_at = none;
  decision_by_id = none;
  decision_reason = none;
  duplicate_of_id = none;
}

abbrev pub is_draft_of : (requester_id match_id : Uuid) → AccreditationRequest → Bool
is_draft_of requester_id match_id r =
    r.requester_id == requester_id && (r.match_id == match_id && r.status == RequestStatus.draft)

module _ (db : Prisma) where
  -- `generateUniqueReference`
  unfoldable pub generate_unique_reference : Env → Action Text
  unfolding first_free
  generate_unique_reference env = do
    rows ← gets (λ s. s.requests)
    or_throw
        (first_free 5 (λ n. is_some (db.find_unique (λ r. r.unique_reference == n) rows))
          (candidate request_prefix env.year) env.draw 0)
        (throws ErrorCode.reference_generation_failed ErrorKind.conflict)

  -- The branch on `existingDraft`.
  unfoldable pub write_draft :
      Env → SaveDraftInput → Option AccreditationRequest → Action AccreditationRequest
  unfolding generate_unique_reference
  write_draft env input (some existing) = do
    modify (λ s. record s {
      requests = db.update_rows (request_key existing.id) (redraft input) s.requests;
    })
    pure (redraft input existing)
  write_draft env input none = do
    reference ← generate_unique_reference env
    let created = new_draft env input reference
    modify (λ s. record s { requests = db.create created s.requests })
    pure created

  -- `SaveDraftRequestUseCase.execute`
  unfoldable pub save_draft : Env → SaveDraftInput → Action AccreditationRequest
  unfolding write_draft
  save_draft env input = do
    get_match db input.match_id
    get_category db input.category_requested_id
    existing ← gets (λ s. db.find_first (is_draft_of input.requester_id input.match_id) s.requests)
    write_draft env input existing
