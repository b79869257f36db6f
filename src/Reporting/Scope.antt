-- ===== src/Reporting/Scope.antt =====
-- exports.service.ts: what a report says about itself.
use fsf_acreditation_backend.Base.{
  Option, none, some, List, [], ◌∷◌, ◌++◌, nat_eq, option_eq, list_eq, text,
}
use fsf_acreditation_backend.Store.{
  Prisma, Action, Database, gets, Uuid, Instant, Text, scan_result_eq, request_status_eq, match_key,
  category_key, media_key, competition_key,
}
use fsf_acreditation_backend.Notifications.Listener.{match_label}
use fsf_acreditation_backend.Reporting.Dashboard.{DashboardFilter}
use fsf_acreditation_backend.Reporting.Labels.{DateFormat}

module _ (db : Prisma) (dates : DateFormat) where
  -- The parts of `describeScope`.
  abbrev match_part : Database → Option Uuid → Option Uuid → List Text
  match_part s (some id) competition_id = elim (db.find_unique (match_key id) s.matches) [
    | none ↦ text "Match : inconnu" ∷ []
    | some m ↦
        (text "Match : "
          ++ (match_label m
              ++ (text " ("
                  ++ (text m.stadium
                      ++ (text ", " ++ (dates.to_french_date m.kickoff_at ++ text ")"))))))
        ∷ []
  ]
  match_part s none (some id) = elim (db.find_unique (competition_key id) s.competitions) [
    | none ↦ text "Competition : inconnue" ∷ []
    | some c ↦
        (text "Competition : " ++ (text c.name ++ (text " (" ++ (text c.season ++ text ")")))) ∷ []
  ]
  match_part s none none = []

  abbrev media_part : Database → Option Uuid → List Text
  media_part s none = []
  media_part s (some id) = elim (db.find_unique (media_key id) s.media) [
    | none ↦ text "Media : inconnu" ∷ []
    | some m ↦ (text "Media : " ++ m.name) ∷ []
  ]

  abbrev category_part : Database → Option Uuid → List Text
  category_part s none = []
  category_part s (some id) = elim (db.find_unique (category_key id) s.categories) [
    | none ↦ text "Categorie : inconnue" ∷ []
    | some c ↦ (text "Categorie : " ++ text c.label) ∷ []
  ]

  abbrev join_dash : List Text → Text
  join_dash [] = text "Tous matchs, medias et categories confondus"
  join_dash (t ∷ []) = t
  join_dash (t ∷ u ∷ ts) = t ++ (text " — " ++ join_dash (u ∷ ts))

  -- `describeScope`
  unfoldable pub describe_scope : DashboardFilter → Action Text
  describe_scope filter = gets (λ s. join_dash (
      match_part s filter.match_id filter.competition_id
      ++ (media_part s filter.media_id ++ category_part s filter.category_id)))

  -- `metadataLines`
  unfoldable pub metadata_lines :
      (now : Instant) → (title scope generated_by : Text) → (role : Option Text) → List Text
  metadata_lines now title scope generated_by role =
      (text "Rapport : " ++ title)
      ∷ (text "Perimetre : " ++ scope)
      ∷ (text "Genere le "
          ++ (dates.to_iso_string now ++ (text " par " ++ (generated_by ++ in_parentheses role))))
      ∷ text "Confidentialite : usage interne FSF — donnees personnelles, ne pas diffuser"
      ∷ []
    where
      in_parentheses : Option Text → Text
      in_parentheses none = []
      in_parentheses (some role) = text " (" ++ (role ++ text ")")
