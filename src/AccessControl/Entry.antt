-- ===== src/AccessControl/Entry.antt =====
-- A scan at a gate: its answer, the row that it leaves, and a second scan of the same badge.
use mathlib.Core.Bool.{false≢true}
use fsf_acreditation_backend.Base.{
  ℕ, ◌≡◌, ◌≢◌, ◌↔◌, sym, ap, subst, ◌∙◌, Bool, ◌==◌, ◌&&◌, true, false, refl, nat_eq, ltb,
  option_eq, string_eq, Option, some, ◌∷◌, map, arith, count, if◌then◌else◌, String,
}
use fsf_acreditation_backend.Kernel.Errors.{Failure}
use fsf_acreditation_backend.Store.{
  Prisma, Database, Outcome, ok, err, or_throw, throw_if, pure, ◌>>◌, ScanLog, has_row,
  has_optional_row, has_row-found, match_key, zone_key, user_key, accreditation_key, Uuid, Instant,
  Accreditation, AccreditationRequest, accreditation_status_eq, ScanResult, scan_result_eq,
  request_key,
}
use fsf_acreditation_backend.Accreditations.Service.{Crypto, find_by_raw_token}
use fsf_acreditation_backend.AccessControl.Service.{
  VerifyScan, ScanVerdict, Detail, evaluate, is_use_of, scan_row, verdict, with_holder, load_detail,
  judge, log_scan, scan_refers, check_badge, verify_scan, was_already_used,
}
use fsf_acreditation_backend.AccessControl.Scans.{Admissible, evaluate_iff}

-- The result of a call that is one of two.
pub if_first :
    {A B : Type 0} (b : Bool) (x y : A × B) → (if b then x else y).0 ≡ (if b then x.0 else y.0)
if_first true x y = refl
if_first false x y = refl

module _ (db : Prisma) where
  -- The end of a scan: its row is written and its answer given, or the database refuses the row.
  pub log_scan_run :
      {A : Type 0} (row : ScanLog) (b : Bool) (v : A) (s : Database)
      → scan_refers db s row ≡ b
      → (log_scan db row >> pure v) s ≡ (
          if b
          then (ok v, record s { scan_logs = row ∷ s.scan_logs })
          else (err Failure.foreign_key_violation, s))
  unfolding log_scan throw_if
  log_scan_run row true v s h =
      rw (log_scan, h)
        (ap (λ rows. (ok v, record s { scan_logs = rows })) (db.create_lem row s.scan_logs))
  log_scan_run row false v s h = rw (log_scan, h) refl

module _ (db : Prisma) (crypto : Crypto) where
  -- The badge of a token.
  abbrev pub token_of : String → Accreditation → Bool
  token_of token a = a.qr_token_hash == crypto.hash token

  -- The badge with its request and its zones.
  abbrev pub detail_of : Database → Accreditation → AccreditationRequest → Detail
  detail_of s a r = record {
    badge = a;
    request = r;
    zone_ids =
        map (λ z. z.zone_id) (db.find_many (λ z. z.accreditation_id == a.id) s.accreditation_zones);
  }

  -- The number of times that a badge was let into a zone.
  abbrev pub uses : Database → Uuid → Option Uuid → ℕ
  uses s id zone_id = db.count_rows (is_use_of id zone_id) s.scan_logs

  abbrev judged : Instant → VerifyScan → Database → Detail → ScanVerdict
  judged now dto s detail =
      if (evaluate now detail dto).result == ScanResult.valid
        && ltb 0 (uses s detail.badge.id dto.zone_id)
      then verdict ScanResult.already_used "Cette accreditation a deja ete utilisee pour cette zone"
      else evaluate now detail dto

  judged_iff :
      (now : Instant) (dto : VerifyScan) (s : Database) (detail : Detail)
      → ((judged now dto s detail).result ≡ ScanResult.valid)
        ↔ (Admissible now detail dto × (uses s detail.badge.id dto.zone_id ≡ 0))
  judged_iff now dto s detail =
      let (to, from) = evaluate_iff now detail dto in
      (λ h. (to (ground arith), ground arith), λ h. ground (arith, from h.0))

  holder_kept :
      (detail : Detail) (v : ScanVerdict)
      → ((with_holder detail v).result ≡ v.result) × ((with_holder detail v).reason ≡ v.reason)
  holder_kept detail v = ground arith

  -- The match and the zone that a scan names, and the agent who makes it, are stored.
  unfoldable pub served : Database → VerifyScan → Uuid → Bool
  served s dto by =
      has_row db (match_key dto.match_id) s.matches
      && (has_optional_row db zone_key dto.zone_id s.zones && has_row db (user_key by) s.users)

  -- The database with the row of a scan.
  abbrev pub logged : Database → Instant → Uuid → VerifyScan → Option Uuid → ScanVerdict → Database
  logged s now by dto id v = record s {
    scan_logs = scan_row now by dto id (crypto.hash dto.token) v.result v.reason ∷ s.scan_logs;
  }

  -- The answer of a scan of the token of a badge whose request is stored is valid exactly if the
  -- badge is admissible and was not let into the zone before. Where the match and the zone that the
  -- scan names and its agent are stored, the scan returns that answer, and whatever it is, adds
  -- one row with it to the history of scans and changes nothing else; otherwise it throws, and
  -- nothing is written.
  pub verify_scan_iff :
      (now : Instant) (dto : VerifyScan) (by : Uuid) (s : Database) (a : Accreditation)
      (r : AccreditationRequest)
      → db.find_unique (token_of dto.token) s.accreditations ≡ some a
      → db.find_unique (request_key a.request_id) s.requests ≡ some r
      → (v : ScanVerdict) × (verify_scan db crypto now dto by s ≡ (
          if served s dto by
          then (ok v, logged s now by dto (some a.id) v)
          else (err Failure.foreign_key_violation, s)))
        × ((v.result ≡ ScanResult.valid)
            ↔ (Admissible now (detail_of s a r) dto × (uses s a.id dto.zone_id ≡ 0)))
  unfolding verify_scan check_badge find_by_raw_token load_detail or_throw judge was_already_used
      served scan_refers
  verify_scan_iff now dto by s a r found_a found_r =
      let detail = detail_of s a r in
      let v = judged now dto s detail in
      let (same_result, same_reason) = holder_kept detail v in
      (
        with_holder detail v,
        rw (found_a, found_r)
            (rw (same_result, same_reason)
              (log_scan_run db
                (scan_row now by dto (some a.id) (crypto.hash dto.token) v.result v.reason)
                (served s dto by) (with_holder detail v) s
                (rw
                  (has_row-found db (token_of dto.token) (accreditation_key a.id) s.accreditations a
                    found_a (ground arith))
                  refl))),
        rw same_result (judged_iff now dto s detail),
      )

  -- A scan that returned was one that the foreign keys let through.
  returned_served :
      (b : Bool) (x : Outcome ScanVerdict) (f : Failure) (s s' : Database) (v : ScanVerdict)
      → (if b then x else (err f, s)) ≡ (ok v, s')
      → (b ≡ true) × (x ≡ (ok v, s'))
  returned_served true x f s s' v h = (refl, h)
  returned_served false x f s s' v h =
      absurd (false≢true (ap (λ o. elim o.0 [ ok w ↦ true | err e ↦ false ]) h))

  logged-uses :
      (s : Database) (now : Instant) (by : Uuid) (dto : VerifyScan) (id : Uuid) (v : ScanVerdict)
      (zone_id : Option Uuid)
      → v.result ≡ ScanResult.valid
      → zone_id ≡ dto.zone_id
      → uses (logged s now by dto (some id) v) id zone_id ≢ 0
  unfolding count
  logged-uses s now by dto id v zone_id let_in zone h =
      let counted : count (is_use_of id zone_id) (logged s now by dto (some id) v).scan_logs ≡ 0 =
        sym (db.count_rows_lem (is_use_of id zone_id) (logged s now by dto (some id) v).scan_logs)
        ∙ h in
      ground arith

  -- After a scan that said valid, of the token of a badge whose request is stored, a second scan of
  -- the same token for the same zone, at any time, gate and match, does not say valid: it returns
  -- another answer where the match that it names and its agent are stored too, and throws
  -- otherwise.
  pub verify_scan_twice :
      (now later : Instant) (dto dto' : VerifyScan) (by by' : Uuid) (s s' : Database)
      (a : Accreditation) (r : AccreditationRequest) (v : ScanVerdict)
      → db.find_unique (token_of dto.token) s.accreditations ≡ some a
      → db.find_unique (request_key a.request_id) s.requests ≡ some r
      → verify_scan db crypto now dto by s ≡ (ok v, s')
      → v.result ≡ ScanResult.valid
      → dto'.token ≡ dto.token
      → dto'.zone_id ≡ dto.zone_id
      → (v' : ScanVerdict) × ((verify_scan db crypto later dto' by' s').0
          ≡ (if served s dto' by' then ok v' else err Failure.foreign_key_violation))
        × (v'.result ≢ ScanResult.valid)
  unfolding served
  verify_scan_twice now later dto dto' by by' s s' a r v found_a found_r first let_in token zone =
      let (v1, e1, iff1) = verify_scan_iff now dto by s a r found_a found_r in
      let (reached, same) = returned_served (served s dto by) _ _ s s' v (sym e1 ∙ first) in
      let same_state : s' ≡ logged s now by dto (some a.id) v1 = ap (λ o. o.1) (sym same) in
      let same_verdict : v ≡ v1 = ap (λ o. elim o.0 [ ok w ↦ w | err e ↦ v ]) (sym same) in
      let (v2, e2, iff2) =
        verify_scan_iff later dto' by' (logged s now by dto (some a.id) v1) a r
          (subst (λ k. db.find_unique (token_of k) s.accreditations ≡ some a) (sym token) found_a)
          found_r in
      (
        v2,
        ap (λ t. (verify_scan db crypto later dto' by' t).0) same_state
            ∙ ap (λ o. o.0) e2
            ∙ if_first (served s dto' by') _ _,
        λ h.
            logged-uses s now by dto a.id v1 dto'.zone_id
              (sym (ap (λ w. w.result) same_verdict) ∙ let_in) zone (iff2.0 h).1,
      )
