-- ===== src/Notifications/Listener.antt =====
-- notification.listener.ts.
use fsf_acreditation_backend.Base.{
  ℕ, suc, Bool, true, false, Option, none, some, List, [], ◌∷◌, ◌++◌, map, not, ◌&&◌, ◌==◌, nat_eq,
  includes, String, text,
}
use mathlib.Core.Option
use fsf_acreditation_backend.Store.{
  Prisma, Action, Database, pure, gets, ◌>>=◌, ◌>>◌, Uuid, Text, AccreditationRequest, Match,
  Accreditation, User, RequestStatus, request_status_eq, MatchField, Event, NotificationEvent,
  request_key, match_key, accreditation_key, profile_key, user_key, request_submitted,
  request_complement_requested, request_decided, accreditation_generated, accreditation_revoked,
  match_updated, user_account_created,
}
use fsf_acreditation_backend.Notifications.Service.{SendNotification, Variables, Outside, send}

pub record Recipient : Type 0 where
  pub email : Text
  pub user_id : Uuid

abbrev pub recipient_of : User → Recipient
recipient_of u = record { email = u.email; user_id = u.id }

abbrev pub message : NotificationEvent → Recipient → Variables → SendNotification
message event recipient variables = record {
  event = event;
  recipient_email = recipient.email;
  recipient_user_id = some recipient.user_id;
  variables = variables;
}

-- `request?.uniqueReference`
abbrev pub reference_of : Option AccreditationRequest → Option Text
reference_of request = Option.map (λ r. r.unique_reference) request

abbrev pub match_label : Match → Text
match_label m = text m.home_team ++ (text " vs " ++ text m.away_team)

abbrev pub field_name : MatchField → Text
field_name MatchField.kickoff_at = text "kickoffAt"
field_name MatchField.stadium = text "stadium"
field_name MatchField.city = text "city"
field_name MatchField.status = text "status"
field_name MatchField.requests_close_at = text "requestsCloseAt"

-- `texts.join(', ')`
abbrev pub join_comma : List Text → Text
join_comma [] = []
join_comma (t ∷ []) = t
join_comma (t ∷ u ∷ ts) = t ++ (text ", " ++ join_comma (u ∷ ts))

-- `distinct: ['requesterId']`: of the rows of one requester the first.
unfoldable pub distinct : List Uuid → List Uuid
distinct [] = []
distinct (id ∷ ids) = id ∷ drop_id id (distinct ids)
  where
    drop_id : Uuid → List Uuid → List Uuid
    drop_id id [] = []
    drop_id id (x ∷ xs) = elim (x == id) [ true ↦ drop_id id xs | false ↦ x ∷ drop_id id xs ]

-- `{ matchId, status: { notIn: ['REJECTED', 'CANCELLED'] } }`
abbrev pub is_concerned : Uuid → AccreditationRequest → Bool
is_concerned match_id r =
    r.match_id == match_id
    && not (includes (RequestStatus.rejected ∷ RequestStatus.cancelled ∷ []) r.status)

-- `event.decision === 'VALIDATED' ? REQUEST_VALIDATED : REQUEST_REJECTED`
abbrev pub decision_event : RequestStatus → NotificationEvent
decision_event decision = elim (decision == RequestStatus.validated) [
  | true ↦ NotificationEvent.request_validated
  | false ↦ NotificationEvent.request_rejected
]

module _ (db : Prisma) where
  -- `resolveRequesterRecipient`; the account of a profile is there, by its foreign key.
  unfoldable pub resolve_requester_recipient : Uuid → Action (Option Recipient)
  resolve_requester_recipient requester_id = gets (λ s.
      elim (db.find_unique (profile_key requester_id) s.profiles) [
        | none ↦ none
        | some p ↦ Option.map recipient_of (db.find_unique (user_key p.user_id) s.users)
      ])

  -- `if (!recipient) return`, then the mail.
  unfoldable pub send_to :
      Outside → NotificationEvent → Variables → Option Recipient → Action (Unit {0})
  unfolding send
  send_to outside event variables none = pure tt
  send_to outside event variables (some recipient) =
      send db outside (message event recipient variables)

  -- `onRequestSubmitted`
  unfoldable pub on_request_submitted :
      Outside → (request_id requester_id : Uuid) → Action (Unit {0})
  unfolding resolve_requester_recipient send_to
  on_request_submitted outside request_id requester_id = do
    recipient ← resolve_requester_recipient requester_id
    request ← gets (λ s. db.find_unique (request_key request_id) s.requests)
    send_to outside NotificationEvent.request_received
        ((text "reference", reference_of request) ∷ []) recipient

  -- `onComplementRequested`
  unfoldable pub on_complement_requested :
      Outside → (request_id requester_id : Uuid) → (missing_item : String) → Action (Unit {0})
  unfolding resolve_requester_recipient send_to
  on_complement_requested outside request_id requester_id missing_item = do
    recipient ← resolve_requester_recipient requester_id
    request ← gets (λ s. db.find_unique (request_key request_id) s.requests)
    send_to outside NotificationEvent.complement_requested
        ((text "reference", reference_of request)
          ∷ (text "missingItem", some (text missing_item))
          ∷ [])
        recipient

  -- `onRequestDecided`
  unfoldable pub on_request_decided :
      Outside → (request_id requester_id : Uuid) → RequestStatus → Option String → Action (Unit {0})
  unfolding resolve_requester_recipient send_to
  on_request_decided outside request_id requester_id decision reason = do
    recipient ← resolve_requester_recipient requester_id
    request ← gets (λ s. db.find_unique (request_key request_id) s.requests)
    send_to outside (decision_event decision)
        ((text "reference", reference_of request) ∷ (text "reason", Option.map text reason) ∷ [])
        recipient

  -- `onAccreditationGenerated`
  unfoldable pub on_accreditation_generated : Outside → (requester_id : Uuid) → Action (Unit {0})
  unfolding resolve_requester_recipient send_to
  on_accreditation_generated outside requester_id = do
    recipient ← resolve_requester_recipient requester_id
    send_to outside NotificationEvent.badge_available [] recipient

  -- The request of a badge that was revoked, where the badge is known.
  unfoldable pub notify_revoked :
      Outside
      → (reason : String) → Option Accreditation
      → Option AccreditationRequest
      → Action (Unit {0})
  unfolding resolve_requester_recipient send_to
  notify_revoked outside reason (some a) (some r) = do
    recipient ← resolve_requester_recipient r.requester_id
    send_to outside NotificationEvent.accreditation_revoked
        ((text "reference", some a.number) ∷ (text "reason", some (text reason)) ∷ []) recipient
  notify_revoked outside reason _ _ = pure tt

  abbrev request_of : Database → Option Accreditation → Option AccreditationRequest
  request_of s none = none
  request_of s (some a) = db.find_unique (request_key a.request_id) s.requests

  -- `onAccreditationRevoked`
  unfoldable pub on_accreditation_revoked :
      Outside → (accreditation_id : Uuid) → (reason : String) → Action (Unit {0})
  unfolding notify_revoked
  on_accreditation_revoked outside accreditation_id reason = do
    accreditation ← gets (λ s. db.find_unique (accreditation_key accreditation_id) s.accreditations)
    request ← gets (λ s. request_of s accreditation)
    notify_revoked outside reason accreditation request

  -- The loop over the requesters, each with its own log and answer of the mailer.
  unfoldable pub notify_requesters : (ℕ → Outside) → ℕ → Variables → List Uuid → Action (Unit {0})
  unfolding resolve_requester_recipient send_to
  notify_requesters outside i variables [] = pure tt
  notify_requesters outside i variables (id ∷ ids) = do
    recipient ← resolve_requester_recipient id
    send_to (outside i) NotificationEvent.match_updated variables recipient
    notify_requesters outside (suc i) variables ids

  -- `onMatchUpdated`, where the match is known.
  unfoldable pub notify_match :
      (ℕ → Outside) → Uuid → List MatchField → Option Match → Action (Unit {0})
  unfolding notify_requesters distinct
  notify_match outside match_id changed_fields none = pure tt
  notify_match outside match_id changed_fields (some m) = do
    requesters ← gets (λ s.
        distinct (map (λ r. r.requester_id) (db.find_many (is_concerned match_id) s.requests)))
    notify_requesters outside 0
        ((text "matchLabel", some (match_label m))
          ∷ (text "changedFields", some (join_comma (map field_name changed_fields)))
          ∷ [])
        requesters

  -- `onMatchUpdated`
  unfoldable pub on_match_updated : (ℕ → Outside) → Uuid → List MatchField → Action (Unit {0})
  unfolding notify_match
  on_match_updated outside match_id changed_fields = do
    match ← gets (λ s. db.find_unique (match_key match_id) s.matches)
    notify_match outside match_id changed_fields match

  -- The handlers of the class, by the event that each is registered for.
  unfoldable pub on_event : (ℕ → Outside) → Event → Action (Unit {0})
  unfolding send on_request_submitted on_complement_requested on_request_decided
      on_accreditation_generated on_accreditation_revoked on_match_updated
  on_event outside (user_account_created user_id email kind role actor_id) =
      send db (outside 0) (record {
        event = NotificationEvent.account_created;
        recipient_email = email;
        recipient_user_id = some user_id;
        variables = [];
      })
  on_event outside (request_submitted request_id requester_id) =
      on_request_submitted (outside 0) request_id requester_id
  on_event outside (request_complement_requested request_id requester_id missing_item) =
      on_complement_requested (outside 0) request_id requester_id missing_item
  on_event outside (request_decided request_id requester_id decision reason zone_ids) =
      on_request_decided (outside 0) request_id requester_id decision reason
  on_event outside (accreditation_generated accreditation_id request_id requester_id) =
      on_accreditation_generated (outside 0) requester_id
  on_event outside (accreditation_revoked accreditation_id request_id reason) =
      on_accreditation_revoked (outside 0) accreditation_id reason
  on_event outside (match_updated match_id changed_fields) =
      on_match_updated outside match_id changed_fields
  on_event outside _ = pure tt
