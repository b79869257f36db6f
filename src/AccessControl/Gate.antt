-- ===== src/AccessControl/Gate.antt =====
-- What a gate promises, without badges' rows and logs: it knows the badge of each token and which
-- scans it serves, and remembers which badge was let into which zone.
use fsf_acreditation_backend.Base.{
  Bool, true, false, Option, none, some, List, [], ◌∷◌, not, ◌&&◌, ◌||◌, ◌==◌, leb, nat_eq,
  option_eq, String,
}
use fsf_acreditation_backend.Store.{Uuid, Instant, AccreditationStatus, accreditation_status_eq}
use fsf_acreditation_backend.AccessControl.Service.{VerifyScan, Detail, is_uncovered}

-- Which badge was let into which zone.
abbrev pub Passes : Type 0
Passes = Uuid → Option Uuid → Bool

-- One scan: when, what and by whom.
pub record Scan : Type 0 where
  pub now : Instant
  pub dto : VerifyScan
  pub scanned_by_id : Uuid

-- The badge is active, not past its end, for this match and for this zone.
unfoldable pub admits : Scan → Detail → Bool
admits scan d =
    d.badge.status == AccreditationStatus.active
    && (leb scan.now d.badge.expires_at
        && (d.request.match_id == scan.dto.match_id
            && not (is_uncovered scan.dto.zone_id d.zone_ids)))

-- The answer, and what is remembered after it.
pub record Answer : Type 0 where
  pub admitted : Bool
  pub passes : Passes

abbrev pub refuse : Passes → Answer
refuse passes = record { admitted = false; passes = passes }

abbrev pub remember : Uuid → Option Uuid → Passes → Passes
remember badge wanted passes id z = passes id z || (badge == id && wanted == z)

abbrev pub admit_if : Bool → Uuid → Option Uuid → Passes → Answer
admit_if true badge wanted passes = record {
  admitted = true;
  passes = remember badge wanted passes;
}
admit_if false badge wanted passes = refuse passes

module _ (lookup : String → Option Detail) (serves : Scan → Bool) where
  unfoldable pub gate_step : Scan → Passes → Answer
  unfolding admits
  gate_step scan passes = elim (lookup scan.dto.token) [
    | none ↦ refuse passes
    | some d ↦
        admit_if (serves scan && (admits scan d && not (passes d.badge.id scan.dto.zone_id)))
          d.badge.id scan.dto.zone_id passes
  ]

  -- The answers of a gate to a sequence of scans.
  unfoldable pub gate_run : List Scan → Passes → List Bool
  unfolding gate_step
  gate_run [] passes = []
  gate_run (scan ∷ scans) passes =
      let answer = gate_step scan passes in answer.admitted ∷ gate_run scans answer.passes
