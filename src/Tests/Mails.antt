-- ===== src/Tests/Mails.antt =====
-- Templates, notifications and figures.
use fsf_acreditation_backend.Base.{
  count, not, ◌&&◌, select, ℕ, ◌+◌, ◌≤◌, ◌≡◌, ◌≢◌, ◌⊎◌, false, some, none, Option, [], ◌∷◌, List,
  arith, find, ◌==◌, nat_eq, All, text,
}
use fsf_acreditation_backend.Store.{
  ScanLog, ScanSource, in_memory, Database, ok, Text, User, UserKind, UserStatus, RequesterProfile,
  RequesterStatus, RequestStatus, request_status_eq, NotificationLog, NotificationStatus,
  NotificationEvent, ScanResult, scan_result_eq, request_decided, profile_key, user_key,
}
use fsf_acreditation_backend.Notifications.Renderer.{is_word, render}
use fsf_acreditation_backend.Notifications.Pieces.{
  Piece, literal, variable, IsPiece, print, fill, render-print,
}
use fsf_acreditation_backend.Notifications.Service.{Outside, accepted, log_key, value_of}
use fsf_acreditation_backend.Notifications.Listener.{on_event}
use fsf_acreditation_backend.Notifications.Delivery.{on_event_decided}
use fsf_acreditation_backend.Requests.Cancellation.{took_slot}
use fsf_acreditation_backend.Reporting.Dashboard.{
  DashboardFilter, GlobalStats, get_global_stats, request_filter,
}
use fsf_acreditation_backend.Reporting.Figures.{IsRate, get_global_stats_bounds}
use fsf_acreditation_backend.Reporting.Labels.{ScanKind}
use fsf_acreditation_backend.Reporting.Reports.{find_scans}
use fsf_acreditation_backend.Reporting.Partition.{IsByMatch, Recognised, on_match, find_scans_lem}
use fsf_acreditation_backend.Tests.Data.{start}

abbrev variables : Text → Option Text
variables = value_of ((text "reference", some (text "FSF-1")) ∷ [])

abbrev pieces : List Piece
pieces = literal (text "No ") ∷ variable 1 (text "reference") 0 ∷ variable 0 (text "reason") 2 ∷ []

pieces-All : All IsPiece pieces
unfolding is_word
pieces-All = ground arith

render-print_example : render (print pieces) variables ≡ fill variables pieces
render-print_example = render-print variables pieces pieces-All

abbrev reader : User
reader = record {
  id = 22;
  email = text "c@x";
  password_hash = "";
  kind = UserKind.requester;
  role = none;
  status = UserStatus.active;
  display_name = none;
  last_login_at = none;
  failed_login_attempts = 0;
  locked_until = none;
}

abbrev profile : RequesterProfile
profile = record {
  id = 7;
  user_id = 22;
  media_id = 70;
  first_name = [];
  last_name = [];
  birth_date = none;
  nationality = none;
  phone = "";
  address = none;
  function = "";
  specialty = none;
  press_card_number = none;
  professional_phone = none;
  professional_email = none;
  status = RequesterStatus.validated;
  is_editor_in_chief = false;
}

abbrev office : Database
office = record start { users = reader ∷ []; profiles = profile ∷ [] }

abbrev outside : ℕ → Outside
outside k = record { now = 500; log_id = k; mailer = λ mail. accepted none }

profile_found : in_memory.find_unique (profile_key 7) office.profiles ≡ some profile
unfolding in_memory find
profile_found = ground arith

reader_found : in_memory.find_unique (user_key 22) office.users ≡ some reader
unfolding in_memory find
reader_found = ground arith

on_event_decided_example :
    let (result, s') =
      on_event in_memory outside (request_decided 5 7 RequestStatus.rejected none []) office in
    (result ≡ ok tt)
    × ((log : NotificationLog) × (in_memory.find_unique (log_key 0) s'.notification_logs ≡ some log)
        × (log.recipient_address ≡ text "c@x")
        × (log.recipient_user_id ≡ some 22)
        × (((RequestStatus.rejected ≡ RequestStatus.validated)
              × (log.event ≡ NotificationEvent.request_validated))
            ⊎ ((RequestStatus.rejected ≢ RequestStatus.validated)
                × (log.event ≡ NotificationEvent.request_rejected)))
        × (log.status ≢ NotificationStatus.pending))
on_event_decided_example =
    on_event_decided in_memory outside 5 7 RequestStatus.rejected none [] office profile reader
      profile_found reader_found

abbrev of_match : DashboardFilter
of_match = record {
  match_id = some 10;
  category_id = none;
  competition_id = none;
  media_id = some 70;
}

get_global_stats_bounds_example :
    (stats : GlobalStats) × (get_global_stats in_memory of_match office ≡ (ok stats, office))
    × (stats.requests.pending + stats.requests.validated + stats.requests.rejected
          + stats.requests.incomplete
        ≤ stats.requests.total)
    × (stats.used ≤ stats.generated)
    × (stats.requests.validated
        ≡ count
            (λ r. request_filter in_memory office of_match r && took_slot r.status)
            office.requests)
    × IsRate stats.requests.validated stats.requests.total stats.completion_rate
get_global_stats_bounds_example = get_global_stats_bounds in_memory of_match office

-- One scan of an unknown token and one of a badge that is not stored any more.
abbrev seen : ScanLog
seen = record {
  accreditation_id = none;
  scanned_token_hash = "x";
  match_id = 10;
  zone_id = none;
  gate = none;
  device_id = "d";
  scanned_by_id = 2;
  result = ScanResult.invalid;
  reason = none;
  source = ScanSource.online;
  scanned_at = 500;
  synced_at = none;
}

abbrev gates : Database
gates = record office { scan_logs = seen ∷ record seen { result = ScanResult.valid } ∷ [] }

abbrev of_one : DashboardFilter
of_one = record of_match { media_id = none }

find_scans_lem_example :
    let entries = find_scans in_memory of_one ScanKind.entries gates in
    let anomalies = find_scans in_memory of_one ScanKind.anomalies gates in
    (IsByMatch of_one
      × (entries
          ≡ select (λ x. on_match (some 10) x && x.result == ScanResult.valid) gates.scan_logs)
      × (anomalies
          ≡ select
              (λ x. on_match (some 10) x && not (x.result == ScanResult.valid))
              gates.scan_logs))
    ⊎ ((¬ IsByMatch of_one)
        × All (λ x. Recognised of_one x × (x.result ≡ ScanResult.valid)) entries
        × All (λ x. Recognised of_one x × (x.result ≢ ScanResult.valid)) anomalies)
find_scans_lem_example = find_scans_lem in_memory of_one gates
