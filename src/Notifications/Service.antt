-- ===== src/Notifications/Service.antt =====
-- notifications.service.ts.
use fsf_acreditation_backend.Base.{
  Bool, true, false, Option, none, some, List, [], ◌∷◌, ◌==◌, nat_eq, list_eq, String,
}
use fsf_acreditation_backend.Store.{
  Prisma, Action, gets, modify, ◌>>=◌, ◌>>◌, Uuid, Instant, Text, NotificationTemplate,
  NotificationLog, NotificationEvent, NotificationChannel, NotificationStatus,
}
use fsf_acreditation_backend.Notifications.Renderer.{render}
use fsf_acreditation_backend.Notifications.Templates.{Source, default_templates, template_key}

-- The values of the variables, by name; a name that is not there has no value.
abbrev pub Variables : Type 0
Variables = List (Text × Option Text)

abbrev pub value_of : Variables → Text → Option Text
value_of [] key = none
value_of ((k, v) ∷ rest) key = elim (k == key) [ true ↦ v | false ↦ value_of rest key ]

-- `SendNotificationInput`
pub record SendNotification : Type 0 where
  pub event : NotificationEvent
  pub recipient_email : Text
  pub recipient_user_id : Option Uuid
  pub variables : Variables

pub record Mail : Type 0 where
  pub to : Text
  pub subject : Text
  pub html : Text

-- The answer of the mailer: it takes the mail, or it throws.
pub data Delivery : Type 0 where
  accepted : (provider_response : Option String) → Delivery
  thrown : (message : String) → Delivery

-- What one call reads from outside: the clock, the identifier of its log and the mailer.
pub record Outside : Type 0 where
  pub now : Instant
  pub log_id : Uuid
  pub mailer : Mail → Delivery

-- `template?.active && template.subject ? template : DEFAULT_TEMPLATES[event]`; an empty subject
-- counts as none.
unfoldable pub choose_source : Option NotificationTemplate → Source → Source
choose_source none fallback = fallback
choose_source (some t) fallback = elim t.active [
  | false ↦ fallback
  | true ↦ elim t.subject [
    | none ↦ fallback
    | some [] ↦ fallback
    | some (c ∷ cs) ↦ record { subject = c ∷ cs; body = t.body_template }
  ]
]

abbrev pub log_key : Uuid → NotificationLog → Bool
log_key id l = l.id == id

abbrev pub new_log : Uuid → SendNotification → NotificationLog
new_log id input = record {
  id = id;
  event = input.event;
  channel = NotificationChannel.email;
  recipient_user_id = input.recipient_user_id;
  recipient_address = input.recipient_email;
  status = NotificationStatus.pending;
  provider_response = none;
  sent_at = none;
}

-- The `data` of the update, after a delivery and in the `catch`.
abbrev pub settle : Instant → Delivery → NotificationLog → NotificationLog
settle now (accepted response) l = record l {
  status = NotificationStatus.sent;
  sent_at = some now;
  provider_response = response;
}
settle now (thrown message) l = record l {
  status = NotificationStatus.failed;
  provider_response = some message;
}

abbrev pub mail_of : Source → SendNotification → Mail
mail_of source input = record {
  to = input.recipient_email;
  subject = render source.subject (value_of input.variables);
  html = render source.body (value_of input.variables);
}

module _ (db : Prisma) where
  -- `send`
  unfoldable pub send : Outside → SendNotification → Action (Unit {0})
  unfolding choose_source
  send outside input = do
    template ← gets (λ s. db.find_unique (template_key input.event) s.templates)
    let source = choose_source template (default_templates input.event)
    modify (λ s. record s {
      notification_logs = db.create (new_log outside.log_id input) s.notification_logs;
    })
    modify (λ s. record s {
      notification_logs =
          db.update_rows (log_key outside.log_id)
            (settle outside.now (outside.mailer (mail_of source input))) s.notification_logs;
    })
