-- ===== src/AccessControl/Devices.antt =====
-- src/modules/access-control/access-control.service.ts: devices that scan without a connection.
use fsf_acreditation_backend.Base.{
  ℕ, ◌+◌, Bool, true, false, Option, none, some, List, [], ◌∷◌, map, ◌&&◌, ◌==◌, nat_eq, string_eq,
  option_eq, String, if◌then◌else◌,
}
use fsf_acreditation_backend.Store.{
  Prisma, Action, Database, pure, gets, ◌>>=◌, ◌>>◌, Uuid, Instant, Accreditation,
  AccreditationStatus, accreditation_status_eq, ScanLog, ScanResult, scan_result_eq, ScanSource,
  accreditation_key, request_key,
}
use fsf_acreditation_backend.Kernel.Listing.{Listing}
use fsf_acreditation_backend.AccessControl.Service.{log_scan}

-- `OfflineScanRecordDto`
pub record OfflineScan : Type 0 where
  pub accreditation_id : Uuid
  pub match_id : Uuid
  pub zone_id : Option Uuid
  pub device_id : String
  pub gate : Option String
  pub result : ScanResult
  pub scanned_at : Instant

-- The `where` of the search for an earlier copy of a scan.
abbrev pub is_copy_of : OfflineScan → ScanLog → Bool
is_copy_of scan l =
    l.accreditation_id == some scan.accreditation_id
    && (l.device_id == scan.device_id && l.scanned_at == scan.scanned_at)

-- An entry of `exportForOfflineUse`.
pub record OfflineBadge : Type 0 where
  pub accreditation_id : Uuid
  pub qr_token_hash : String
  pub expires_at : Instant
  pub zone_ids : List Uuid

abbrev pub hash_of : Option Accreditation → String
hash_of none = "unknown"
hash_of (some a) = a.qr_token_hash

abbrev pub offline_row : Instant → Uuid → OfflineScan → Option Accreditation → ScanLog
offline_row now scanned_by_id scan accreditation = record {
  accreditation_id = some scan.accreditation_id;
  scanned_token_hash = hash_of accreditation;
  match_id = scan.match_id;
  zone_id = scan.zone_id;
  gate = scan.gate;
  device_id = scan.device_id;
  scanned_by_id = scanned_by_id;
  result = scan.result;
  reason = none;
  source = ScanSource.offline_synced;
  scanned_at = scan.scanned_at;
  synced_at = some now;
}

module _ (db : Prisma) where
  -- One round of `syncOfflineScans`: whether the scan was inserted.
  unfoldable pub sync_scan : Instant → Uuid → OfflineScan → Action Bool
  sync_scan now scanned_by_id scan s = elim (db.find_first (is_copy_of scan) s.scan_logs) [
    | some earlier ↦ (pure false) s
    | none ↦
        let a = db.find_unique (accreditation_key scan.accreditation_id) s.accreditations in
        (log_scan db (offline_row now scanned_by_id scan a) >> pure true) s
  ]

  -- `syncOfflineScans`: the numbers of scans inserted and skipped.
  unfoldable pub sync_from : Instant → Uuid → ℕ → ℕ → List OfflineScan → Action (ℕ × ℕ)
  unfolding sync_scan
  sync_from now scanned_by_id inserted skipped [] = pure (inserted, skipped)
  sync_from now scanned_by_id inserted skipped (scan ∷ scans) = do
    fresh ← sync_scan now scanned_by_id scan
    sync_from now scanned_by_id (if fresh then inserted + 1 else inserted)
        (if fresh then skipped else skipped + 1) scans

  unfoldable pub sync_offline_scans : Instant → Uuid → List OfflineScan → Action (ℕ × ℕ)
  unfolding sync_from
  sync_offline_scans now scanned_by_id scans = sync_from now scanned_by_id 0 0 scans

  -- `exportForOfflineUse`
  abbrev for_match : Database → Uuid → Accreditation → Bool
  for_match s match_id a = elim (db.find_unique (request_key a.request_id) s.requests) [
    | none ↦ false
    | some r ↦ r.match_id == match_id
  ]

  abbrev offline_badge : Database → Accreditation → OfflineBadge
  offline_badge s a = record {
    accreditation_id = a.id;
    qr_token_hash = a.qr_token_hash;
    expires_at = a.expires_at;
    zone_ids =
        map (λ z. z.zone_id) (db.find_many (λ z. z.accreditation_id == a.id) s.accreditation_zones);
  }

  unfoldable pub export_for_offline_use : Uuid → Action (List OfflineBadge)
  export_for_offline_use match_id = gets (λ s. map (offline_badge s) (
      db.find_many (λ a. a.status == AccreditationStatus.active && for_match s match_id a)
        s.accreditations))

  -- `listForMatch`: the latest 200 scans, by the order of the listing.
  unfoldable pub list_scans : Listing ScanLog → Uuid → Action (List ScanLog)
  list_scans listing match_id = gets (λ s.
      listing.find_page (λ x. x.match_id == match_id) (record { skip = 0; take = 200 }) s.scan_logs)
