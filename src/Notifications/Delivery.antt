-- ===== src/Notifications/Delivery.antt =====
-- What becomes of a notification.
use fsf_acreditation_backend.Base.{
  ℕ, suc, ◌≡◌, ◌≢◌, ◌⊎◌, ◌==◌, inl, inr, Bool-cases, refl, ap, ◌∙◌, true, Option, none, some, List,
  [], ◌∷◌, nat_eq, arith, String, text,
}
use mathlib.Core.Option
use fsf_acreditation_backend.Store.{
  Prisma, Database, Action, Outcome, ok, ◌>>◌, Uuid, User, RequesterProfile, RequestStatus,
  request_status_eq, NotificationLog, NotificationEvent, NotificationStatus, Event,
  user_account_created, request_submitted, request_complement_requested, accreditation_generated,
  accreditation_revoked, match_updated, MatchField, Match, Accreditation, AccreditationRequest,
  request_key, request_decided, profile_key, user_key, then_ok, find_unique-create,
  find_unique-update_rows_self,
}
use fsf_acreditation_backend.Notifications.Templates.{default_templates, template_key}
use fsf_acreditation_backend.Notifications.Service.{
  SendNotification, Variables, Delivery, accepted, thrown, Outside, choose_source, log_key, new_log,
  settle, mail_of, send,
}
use fsf_acreditation_backend.Notifications.Listener.{
  Recipient, recipient_of, message, reference_of, decision_event, resolve_requester_recipient,
  send_to, on_request_submitted, on_complement_requested, on_request_decided,
  on_accreditation_generated, notify_revoked, on_accreditation_revoked, notify_requesters,
  notify_match, on_match_updated, on_event,
}

module _ (db : Prisma) where
  -- A call that returned and wrote nothing but the log of notifications.
  abbrev pub OnlyLogs : Database → Outcome (Unit {0}) → Type 0
  OnlyLogs s o = (o.0 ≡ ok tt) × (o.1 ≡ record s { notification_logs = o.1.notification_logs })

  OnlyLogs-send :
      (outside : Outside) (input : SendNotification) (s : Database)
      → OnlyLogs s (send db outside input s)
  unfolding send
  OnlyLogs-send outside input s = (refl, refl)

  OnlyLogs-send_to :
      (outside : Outside) (event : NotificationEvent) (variables : Variables) (r : Option Recipient)
      (s : Database)
      → OnlyLogs s (send_to db outside event variables r s)
  unfolding send_to
  OnlyLogs-send_to outside event variables none s = (refl, refl)
  OnlyLogs-send_to outside event variables (some r) s =
      OnlyLogs-send outside (message event r variables) s

  abbrev with_logs : List NotificationLog → Database → Database
  with_logs logs s = record s { notification_logs = logs }

  OnlyLogs-then :
      (m k : Action (Unit {0})) (s : Database)
      → OnlyLogs s (m s)
      → ((t : Database) → OnlyLogs t (k t))
      → OnlyLogs s ((m >> k) s)
  OnlyLogs-then m k s first rest =
      let t = (m s).1 in
      let went : (m >> k) s ≡ k t = then_ok m _ s (ap (λ r. (r, t)) first.0) in
      rw went ((rest t).0, (rest t).1 ∙ ap (with_logs (k t).1.notification_logs) first.1)

  OnlyLogs-notify_requesters :
      (outside : ℕ → Outside) (i : ℕ) (variables : Variables) (ids : List Uuid) (s : Database)
      → OnlyLogs s (notify_requesters db outside i variables ids s)
  unfolding notify_requesters resolve_requester_recipient
  OnlyLogs-notify_requesters outside i variables [] s = (refl, refl)
  OnlyLogs-notify_requesters outside i variables (id ∷ ids) s =
      OnlyLogs-then (send_to db (outside i) NotificationEvent.match_updated variables _) _ s
        (OnlyLogs-send_to (outside i) NotificationEvent.match_updated variables _ s)
        (λ t. OnlyLogs-notify_requesters outside (suc i) variables ids t)

  OnlyLogs-notify_match :
      (outside : ℕ → Outside) (id : Uuid) (fields : List MatchField) (m : Option Match)
      (s : Database)
      → OnlyLogs s (notify_match db outside id fields m s)
  unfolding notify_match
  OnlyLogs-notify_match outside id fields none s = (refl, refl)
  OnlyLogs-notify_match outside id fields (some m) s = OnlyLogs-notify_requesters outside 0 _ _ s

  -- The account behind a requester.
  abbrev pub resolved : Uuid → Database → Option Recipient
  resolved requester_id s = elim (db.find_unique (profile_key requester_id) s.profiles) [
    | none ↦ none
    | some p ↦ Option.map recipient_of (db.find_unique (user_key p.user_id) s.users)
  ]

  OnlyLogs-notify_revoked :
      (outside : Outside) (reason : String) (a : Option Accreditation)
      (r : Option AccreditationRequest) (s : Database)
      → OnlyLogs s (notify_revoked db outside reason a r s)
  unfolding notify_revoked resolve_requester_recipient
  OnlyLogs-notify_revoked outside reason none r s = (refl, refl)
  OnlyLogs-notify_revoked outside reason (some a) none s = (refl, refl)
  OnlyLogs-notify_revoked outside reason (some a) (some r) s =
      OnlyLogs-send_to outside NotificationEvent.accreditation_revoked
        ((text "reference", some a.number) ∷ (text "reason", some (text reason)) ∷ [])
        (resolved r.requester_id s) s

  -- Whatever the event, and whatever the mailer answers, the handler returns and writes nothing
  -- but the log of notifications: a mail that fails never fails the call that published the event.
  pub on_event-OnlyLogs :
      (outside : ℕ → Outside) (event : Event) (s : Database)
      → OnlyLogs s (on_event db outside event s)
  unfolding on_event on_request_submitted on_complement_requested on_request_decided
      on_accreditation_generated on_accreditation_revoked on_match_updated
      resolve_requester_recipient
  on_event-OnlyLogs outside (user_account_created user_id email kind role actor_id) s = (refl, refl)
  on_event-OnlyLogs outside (request_submitted id requester_id) s =
      OnlyLogs-send_to (outside 0) NotificationEvent.request_received
        ((text "reference", reference_of (db.find_unique (request_key id) s.requests)) ∷ [])
        (resolved requester_id s) s
  on_event-OnlyLogs outside (request_complement_requested id requester_id missing_item) s =
      OnlyLogs-send_to (outside 0) NotificationEvent.complement_requested
        ((text "reference", reference_of (db.find_unique (request_key id) s.requests))
          ∷ (text "missingItem", some (text missing_item))
          ∷ [])
        (resolved requester_id s) s
  on_event-OnlyLogs outside (request_decided id requester_id decision reason zone_ids) s =
      OnlyLogs-send_to (outside 0) (decision_event decision)
        ((text "reference", reference_of (db.find_unique (request_key id) s.requests))
          ∷ (text "reason", Option.map text reason)
          ∷ [])
        (resolved requester_id s) s
  on_event-OnlyLogs outside (accreditation_generated id request_id requester_id) s =
      OnlyLogs-send_to (outside 0) NotificationEvent.badge_available [] (resolved requester_id s) s
  on_event-OnlyLogs outside (accreditation_revoked id request_id reason) s =
      OnlyLogs-notify_revoked (outside 0) reason _ _ s
  on_event-OnlyLogs outside (match_updated id fields) s =
      OnlyLogs-notify_match outside id fields _ s
  on_event-OnlyLogs outside _ s = (refl, refl)

  -- A mail that is sent has one log, which the answer of the mailer settles.
  send-log :
      (outside : Outside) (input : SendNotification) (s : Database)
      → db.find_unique (log_key outside.log_id) (send db outside input s).1.notification_logs
        ≡ some (
            settle outside.now
              (outside.mailer (
                mail_of
                  (choose_source
                    (db.find_unique (template_key input.event) s.templates)
                    (default_templates input.event))
                  input))
              (new_log outside.log_id input))
  unfolding send
  send-log outside input s =
      find_unique-update_rows_self db (log_key outside.log_id) _
        (db.create (new_log outside.log_id input) s.notification_logs)
        (new_log outside.log_id input) (λ x t. settled_key outside.log_id x _ t)
        (find_unique-create db (log_key outside.log_id) (new_log outside.log_id input)
          s.notification_logs (ground arith))
    where
      settled_key :
          (id : Uuid) (x : NotificationLog) (d : Delivery)
          → log_key id x ≡ true
          → log_key id (settle outside.now d x) ≡ true
      settled_key id x (accepted response) t = t
      settled_key id x (thrown message) t = t

  -- After the decision of a request, of which the requester has a profile and an account, the
  -- handler returns and one log is there for the mail: it is addressed to that account, its event is
  -- the validation of a request if the decision was to validate and the rejection otherwise, and it
  -- is no longer pending, whatever the mailer answered.
  pub on_event_decided :
      (outside : ℕ → Outside) (request_id requester_id : Uuid) (decision : RequestStatus)
      (reason : Option String) (zone_ids : List Uuid) (s : Database) (p : RequesterProfile)
      (u : User)
      → db.find_unique (profile_key requester_id) s.profiles ≡ some p
      → db.find_unique (user_key p.user_id) s.users ≡ some u
      → let (result, s') =
          on_event db outside
            (request_decided request_id requester_id decision reason zone_ids)
            s in
        (result ≡ ok tt)
        × ((log : NotificationLog) × (db.find_unique
                (log_key (outside 0).log_id)
                s'.notification_logs
              ≡ some log)
            × (log.recipient_address ≡ u.email)
            × (log.recipient_user_id ≡ some u.id)
            × (((decision ≡ RequestStatus.validated)
                  × (log.event ≡ NotificationEvent.request_validated))
                ⊎ ((decision ≢ RequestStatus.validated)
                    × (log.event ≡ NotificationEvent.request_rejected)))
            × (log.status ≢ NotificationStatus.pending))
  unfolding on_event on_request_decided resolve_requester_recipient send_to
  on_event_decided outside request_id requester_id decision reason zone_ids s p u found found_u =
      let input = message (decision_event decision) (recipient_of u) (
        (text "reference", reference_of (db.find_unique (request_key request_id) s.requests))
        ∷ (text "reason", Option.map text reason)
        ∷ []) in
      let source =
        choose_source (db.find_unique (template_key input.event) s.templates)
          (default_templates input.event) in
      let answer = (outside 0).mailer (mail_of source input) in
      let (returned, _) = OnlyLogs-send (outside 0) input s in
      let (address, user, event, status) =
        settled (outside 0).now answer (new_log (outside 0).log_id input) in
      rw (found, found_u)
        (
          returned,
          (
            settle (outside 0).now answer (new_log (outside 0).log_id input),
            send-log (outside 0) input s,
            address,
            user,
            rw event right_event,
            status,
          ),
        )
    where
      right_event :
          ((decision ≡ RequestStatus.validated)
            × (decision_event decision ≡ NotificationEvent.request_validated))
          ⊎ ((decision ≢ RequestStatus.validated)
              × (decision_event decision ≡ NotificationEvent.request_rejected))
      right_event = elim (Bool-cases (decision == RequestStatus.validated)) [
        | inl e ↦ inl (ground arith, ground arith)
        | inr e ↦ inr ((λ h. ground arith), ground arith)
      ]

      settled :
          (now : _) (d : Delivery) (l : NotificationLog)
          → ((settle now d l).recipient_address ≡ l.recipient_address)
            × ((settle now d l).recipient_user_id ≡ l.recipient_user_id)
            × ((settle now d l).event ≡ l.event)
            × ((settle now d l).status ≢ NotificationStatus.pending)
      settled now (accepted response) l = (refl, refl, refl, λ e. ground arith)
      settled now (thrown message) l = (refl, refl, refl, λ e. ground arith)
