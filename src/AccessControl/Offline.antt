-- ===== src/AccessControl/Offline.antt =====
-- The upload of scans that a device made offline, and its repetition.
use fsf_acreditation_backend.Base.{
  ℕ, ◌+◌, ◌≤◌, ◌≡◌, Bool, false, nat_eq, string_eq, option_eq, none, List, ◌∷◌, ◌++◌, ◌&&◌, ◌⊎◌,
  count, All, length,
}
use fsf_acreditation_backend.Kernel.Errors.{Failure}
use fsf_acreditation_backend.Store.{
  Prisma, Database, ok, err, has_row, has_optional_row, match_key, zone_key, user_key, Uuid,
  Instant, ScanLog, accreditation_key,
}
use fsf_acreditation_backend.AccessControl.Devices.{OfflineScan, is_copy_of, offline_row, sync_from}

-- The history has a copy of a scan.
abbrev pub Logged : List ScanLog → OfflineScan → Type 0
Logged logs scan = 1 ≤ count (is_copy_of scan) logs

module _ (db : Prisma) (now : Instant) (by : Uuid) where
  -- The badge, the match and the zone of a scan are stored, and so is the person who uploads it.
  unfoldable pub stored_scan : Database → OfflineScan → Bool
  stored_scan s scan =
      has_row db (accreditation_key scan.accreditation_id) s.accreditations
      && (has_row db (match_key scan.match_id) s.matches
          && (has_optional_row db zone_key scan.zone_id s.zones
              && has_row db (user_key by) s.users))

  -- The row that a round writes.
  abbrev row_of : OfflineScan → Database → ScanLog
  row_of scan s =
      offline_row now by scan
        (db.find_unique (accreditation_key scan.accreditation_id) s.accreditations)

  -- The history is another, and the other tables are the same.
  abbrev pub with_history : Database → List ScanLog → Database
  with_history s logs = record s { scan_logs = logs }

  -- How an upload can end: every scan is in the history and was inserted or skipped, or the first
  -- scan whose rows are not stored is not in the history, and those before it are.
  abbrev Ended : ℕ → ℕ → List OfflineScan → Database → List ScanLog → Type 0
  Ended inserted skipped scans s logs =
      ((i : ℕ) × (k : ℕ) × (sync_from db now by inserted skipped scans s
          ≡ (ok (i, k), with_history s logs))
        × (i + k ≡ inserted + skipped + length scans)
        × All (Logged logs) scans)
      ⊎ ((before : List OfflineScan) × (bad : OfflineScan) × (after : List OfflineScan) × (scans
            ≡ before ++ bad ∷ after)
          × All (Logged logs) before
          × (db.find_first (is_copy_of bad) logs ≡ none)
          × (stored_scan s bad ≡ false)
          × (sync_from db now by inserted skipped scans s
              ≡ (err Failure.foreign_key_violation, with_history s logs)))
