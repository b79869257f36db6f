-- ===== src/Notifications/Templates.antt =====
-- default-templates.ts and notification-templates.service.ts.
use fsf_acreditation_backend.Base.{
  Bool, true, false, Option, none, some, List, [], ◌∷◌, ◌&&◌, ◌==◌, string_eq, String, get_or,
  or_else, text,
}
use fsf_acreditation_backend.Store.{
  Prisma, Action, pure, gets, modify, ◌>>=◌, ◌>>◌, Text, NotificationTemplate, NotificationEvent,
  notification_event_eq, NotificationChannel, notification_channel_eq,
}

pub record Source : Type 0 where
  pub subject : Text
  pub body : Text

abbrev source : String → String → Source
source subject body = record { subject = text subject; body = text body }

-- `DEFAULT_TEMPLATES`
unfoldable pub default_templates : NotificationEvent → Source
default_templates NotificationEvent.account_created =
    source "Bienvenue sur la plateforme d'accreditation FSF"
      "<p>Bonjour,</p><p>Votre compte a bien ete cree. Vous pouvez desormais soumettre vos demandes d'accreditation.</p>"
default_templates NotificationEvent.request_received =
    source "Demande d'accreditation recue — {{reference}}"
      "<p>Votre demande {{reference}} a bien ete recue et est en cours de traitement.</p>"
default_templates NotificationEvent.complement_requested =
    source "Complement demande pour votre dossier {{reference}}"
      "<p>Un element est manquant sur votre dossier {{reference}} : <strong>{{missingItem}}</strong>.</p><p>Merci de le fournir depuis votre espace demandeur.</p>"
default_templates NotificationEvent.request_validated =
    source "Demande {{reference}} validee"
      "<p>Votre demande {{reference}} a ete validee. Votre badge est en cours de generation.</p>"
default_templates NotificationEvent.request_rejected =
    source "Demande {{reference}} refusee"
      "<p>Votre demande {{reference}} a ete refusee.</p><p>Motif : {{reason}}</p>"
default_templates NotificationEvent.badge_available =
    source "Votre badge est disponible — {{reference}}"
      "<p>Votre accreditation est prete. Vous pouvez la telecharger depuis votre espace demandeur.</p>"
default_templates NotificationEvent.match_updated =
    source "Modification du match {{matchLabel}}"
      "<p>Une information a change concernant le match {{matchLabel}} : {{changedFields}}.</p>"
default_templates NotificationEvent.closure_reminder =
    source "Cloture prochaine des demandes — {{matchLabel}}"
      "<p>La periode de depot des demandes pour {{matchLabel}} se termine bientot.</p>"
default_templates NotificationEvent.accreditation_revoked =
    source "Votre accreditation a ete revoquee"
      "<p>Votre accreditation {{reference}} a ete revoquee.</p><p>Motif : {{reason}}</p>"

-- The events of `DEFAULT_TEMPLATES`, in order.
abbrev pub all_events : List NotificationEvent
all_events =
    NotificationEvent.account_created ∷ NotificationEvent.request_received
    ∷ NotificationEvent.complement_requested ∷ NotificationEvent.request_validated
    ∷ NotificationEvent.request_rejected ∷ NotificationEvent.badge_available
    ∷ NotificationEvent.match_updated ∷ NotificationEvent.closure_reminder
    ∷ NotificationEvent.accreditation_revoked ∷ []

-- `UpsertTemplateDto`
pub record UpsertTemplate : Type 0 where
  pub subject : Option Text
  pub body_template : Text
  pub active : Option Bool

-- `@@unique([event, channel, locale])`, for French mails.
abbrev pub template_key : NotificationEvent → NotificationTemplate → Bool
template_key event t =
    t.event == event && (t.channel == NotificationChannel.email && t.locale == "fr")

pub record EffectiveTemplate : Type 0 where
  pub event : NotificationEvent
  pub subject : Text
  pub body_template : Text
  pub customized : Bool
  pub active : Bool

abbrev pub new_template : NotificationEvent → UpsertTemplate → NotificationTemplate
new_template event dto = record {
  event = event;
  channel = NotificationChannel.email;
  locale = "fr";
  subject = dto.subject;
  body_template = dto.body_template;
  active = get_or dto.active true;
}

abbrev pub patch_template : UpsertTemplate → NotificationTemplate → NotificationTemplate
patch_template dto t = record t {
  subject = or_else dto.subject t.subject;
  body_template = dto.body_template;
  active = get_or dto.active t.active;
}

-- `byEvent.get(event)`: of the templates of an event the last one.
unfoldable pub last_of : NotificationEvent → List NotificationTemplate → Option NotificationTemplate
last_of event [] = none
last_of event (t ∷ ts) = elim (last_of event ts) [
  | some later ↦ some later
  | none ↦ elim (t.event == event) [ true ↦ some t | false ↦ none ]
]

unfoldable pub effective :
    NotificationEvent → Source → Option NotificationTemplate → EffectiveTemplate
effective event fallback none = record {
  event = event;
  subject = fallback.subject;
  body_template = fallback.body;
  customized = false;
  active = true;
}
effective event fallback (some custom) = record {
  event = event;
  subject = get_or custom.subject fallback.subject;
  body_template = custom.body_template;
  customized = true;
  active = custom.active;
}

unfoldable pub effective_all :
    List NotificationTemplate → List NotificationEvent → List EffectiveTemplate
unfolding last_of effective default_templates
effective_all customized [] = []
effective_all customized (event ∷ events) =
    effective event (default_templates event) (last_of event customized)
    ∷ effective_all customized events

module _ (db : Prisma) where
  -- `list`, less the order.
  unfoldable pub list_templates : Action (List NotificationTemplate)
  list_templates = gets (λ s. db.find_many (λ t. true) s.templates)

  -- `listEffective`
  unfoldable pub list_effective : Action (List EffectiveTemplate)
  unfolding list_templates effective_all
  list_effective = do customized ← list_templates; pure (effective_all customized all_events)

  -- `upsert`
  unfoldable pub upsert_template : NotificationEvent → UpsertTemplate → Action NotificationTemplate
  upsert_template event dto s = elim (db.find_unique (template_key event) s.templates) [
    | none ↦
        (modify (λ x. record x { templates = db.create (new_template event dto) x.templates })
            >> pure (new_template event dto))
          s
    | some t ↦
        (modify (λ x. record x {
          templates = db.update_rows (template_key event) (patch_template dto) x.templates;
        })
            >> pure (patch_template dto t))
          s
  ]
