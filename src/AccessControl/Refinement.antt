-- ===== src/AccessControl/Refinement.antt =====
-- The service implements the gate.
use mathlib.Core.Path.{fun_ext}
use fsf_acreditation_backend.Base.{
  ◌≡◌, ◌↔◌, refl, sym, ap, ◌∙◌, Bool, true, false, Option, none, some, List, [], ◌∷◌, not, ◌&&◌,
  ◌||◌, ◌==◌, ltb, nat_eq, option_eq, string_eq, String, arith, count, Option-cases, Bool-cases,
  if◌then◌else◌, inl, inr,
}
use fsf_acreditation_backend.Kernel.Errors.{ErrorCode, ErrorKind, Failure, throws}
use fsf_acreditation_backend.Store.{
  Prisma, Database, Result, ok, err, Outcome, or_throw, Uuid, Accreditation, AccreditationRequest,
  accreditation_status_eq, ScanResult, scan_result_eq, request_key,
}
use fsf_acreditation_backend.Accreditations.Service.{Crypto, find_by_raw_token}
use fsf_acreditation_backend.AccessControl.Service.{
  ScanVerdict, Detail, evaluate, is_use_of, verdict, load_detail, scan_refers, scan_row,
  check_badge, verify_scan,
}
use fsf_acreditation_backend.AccessControl.Scans.{Admissible, evaluate_iff}
use fsf_acreditation_backend.AccessControl.Entry.{
  token_of, detail_of, uses, logged, served, log_scan_run, verify_scan_iff,
}
use fsf_acreditation_backend.AccessControl.Gate.{
  Passes, Scan, admits, refuse, admit_if, gate_step, gate_run,
}

module _ (lookup : String → Option Detail) (serves : Scan → Bool) (scan : Scan)
    (passes : Passes) where
  gate_step-none :
      lookup scan.dto.token ≡ none → gate_step lookup serves scan passes ≡ refuse passes
  unfolding gate_step
  gate_step-none h = rw (gate_step, h) refl

  gate_step-some :
      {d : Detail}
      → lookup scan.dto.token ≡ some d
      → gate_step lookup serves scan passes
        ≡ admit_if
            (serves scan && (admits scan d && not (passes d.badge.id scan.dto.zone_id)))
            d.badge.id
            scan.dto.zone_id
            passes
  unfolding gate_step
  gate_step-some h = rw (gate_step, h) refl

admitted_if :
    (b : Bool) (badge : Uuid) (wanted : Option Uuid) (passes : Passes)
    → (admit_if b badge wanted passes).admitted ≡ b
admitted_if true badge wanted passes = refl
admitted_if false badge wanted passes = refl

passes_if :
    (b : Bool) (badge : Uuid) (wanted : Option Uuid) (passes : Passes) (id : Uuid) (z : Option Uuid)
    → (admit_if b badge wanted passes).passes id z
      ≡ (passes id z || (some badge == some id && (wanted == z && b)))
passes_if true badge wanted passes id z = ground arith
passes_if false badge wanted passes id z = ground arith

module _ {A : Type 0} (x y : A) where
  if_true : {b : Bool} → b ≡ true → (if b then x else y) ≡ x
  if_true e = rw e refl

  if_false : {b : Bool} → b ≡ false → (if b then x else y) ≡ y
  if_false e = rw e refl

module _ (db : Prisma) (crypto : Crypto) where
  -- What the gate knows, in the tables: the badge of a token, with its request and zones.
  abbrev pub registry : Database → String → Option Detail
  registry s token = elim (db.find_unique (token_of db crypto token) s.accreditations) [
    | none ↦ none
    | some a ↦ elim (db.find_unique (request_key a.request_id) s.requests) [
      | none ↦ none
      | some r ↦ some (detail_of db crypto s a r)
    ]
  ]

  -- What the gate remembers, in the history of scans.
  abbrev pub passes_of : Database → Passes
  passes_of s id zone_id = ltb 0 (uses db crypto s id zone_id)

  -- The match and the zone that a scan names and its agent are stored.
  abbrev pub serves : Database → Scan → Bool
  serves s scan = served db crypto s scan.dto scan.scanned_by_id

  -- A call that throws lets nobody in.
  abbrev pub let_in : Result ScanVerdict → Bool
  let_in (ok v) = v.result == ScanResult.valid
  let_in (err e) = false

  abbrev scanned : Scan → Database → Outcome ScanVerdict
  scanned scan s = verify_scan db crypto scan.now scan.dto scan.scanned_by_id s

  -- The answers of the service to a sequence of scans.
  unfoldable pub run_scans : List Scan → Database → List Bool
  run_scans [] s = []
  run_scans (scan ∷ scans) s =
      let o = verify_scan db crypto scan.now scan.dto scan.scanned_by_id s in
      let_in o.0 ∷ run_scans scans o.1

  evaluate-admits :
      (scan : Scan) (d : Detail)
      → ((evaluate scan.now d scan.dto).result == ScanResult.valid) ≡ admits scan d
  unfolding evaluate admits
  evaluate-admits scan d = ground arith

  -- One scan of the service is one step of the gate.
  abbrev Matches : Scan → Database → Type 0
  Matches scan s =
      let o = scanned scan s in
      let answer = gate_step (registry s) (serves s) scan (passes_of s) in
      (let_in o.0 ≡ answer.admitted)
      × (passes_of o.1 ≡ answer.passes)
      × (registry o.1 ≡ registry s)
      × (serves o.1 ≡ serves s)

  verify_unknown :
      (scan : Scan) (s : Database)
      → db.find_unique (token_of db crypto scan.dto.token) s.accreditations ≡ none
      → (v : ScanVerdict) × (v.result ≡ ScanResult.invalid)
        × (scanned scan s ≡ (
            if serves s scan
            then (ok v, logged db crypto s scan.now scan.scanned_by_id scan.dto none v)
            else (err Failure.foreign_key_violation, s)))
  unfolding verify_scan check_badge find_by_raw_token served scan_refers
  verify_unknown scan s missing =
      let v = verdict ScanResult.invalid "Jeton inconnu" in
      (
        v,
        refl,
        rw missing (
            log_scan_run db
              (scan_row scan.now scan.scanned_by_id scan.dto none (crypto.hash scan.dto.token)
                v.result v.reason)
              (serves s scan) v s refl),
      )

  verify_orphan :
      (scan : Scan) (s : Database) (a : Accreditation)
      → db.find_unique (token_of db crypto scan.dto.token) s.accreditations ≡ some a
      → db.find_unique (request_key a.request_id) s.requests ≡ none
      → scanned scan s ≡ (err (throws ErrorCode.request_not_found ErrorKind.not_found), s)
  unfolding verify_scan check_badge find_by_raw_token load_detail or_throw
  verify_orphan scan s a found missing = rw (found, missing) refl

  -- One more row in the history is one more pass, if it says valid.
  passes-logged :
      (s : Database) (scan : Scan) (badge : Option Uuid) (v : ScanVerdict) (id : Uuid)
      (z : Option Uuid)
      → passes_of (logged db crypto s scan.now scan.scanned_by_id scan.dto badge v) id z ≡ (
          passes_of s id z
          || (badge == some id && (scan.dto.zone_id == z && v.result == ScanResult.valid)))
  unfolding count
  passes-logged s scan badge v id z =
      rw
        (
          db.count_rows_lem (is_use_of id z) s.scan_logs,
          db.count_rows_lem (is_use_of id z)
              (logged db crypto s scan.now scan.scanned_by_id scan.dto badge v).scan_logs,
        )
        (ground arith)

  -- A scan that the database refuses to log leaves everything as it was, and lets nobody in.
  blocked :
      (scan : Scan) (s : Database)
      → scanned scan s ≡ (err Failure.foreign_key_violation, s)
      → gate_step (registry s) (serves s) scan (passes_of s) ≡ refuse (passes_of s)
      → Matches scan s
  blocked scan s went refused = rw (went, refused) (refl, refl, refl, refl)

  unknown_token :
      (scan : Scan) (s : Database)
      → db.find_unique (token_of db crypto scan.dto.token) s.accreditations ≡ none
      → Matches scan s
  unfolding served
  unknown_token scan s missing =
      let (v, invalid_one, went) = verify_unknown scan s missing in
      let lost : registry s scan.dto.token ≡ none = rw (registry, missing) refl in
      let refused = gate_step-none (registry s) (serves s) scan (passes_of s) lost in
      elim (Bool-cases (serves s scan)) [
        | inl e ↦
            rw (went ∙ if_true _ _ e, refused)
              (
                ground arith,
                fun_ext λ id. fun_ext λ z. passes-logged s scan none v id z ∙ ground arith,
                refl,
                refl,
              )
        | inr e ↦ blocked scan s (went ∙ if_false _ _ e) refused
      ]

  orphan :
      (scan : Scan) (s : Database) (a : Accreditation)
      → db.find_unique (token_of db crypto scan.dto.token) s.accreditations ≡ some a
      → db.find_unique (request_key a.request_id) s.requests ≡ none
      → Matches scan s
  orphan scan s a found missing =
      let lost : registry s scan.dto.token ≡ none = rw (registry, found, missing) refl in
      rw
        (
          verify_orphan scan s a found missing,
          gate_step-none (registry s) (serves s) scan (passes_of s) lost,
        )
        (refl, refl, refl, refl)

  -- A verdict is valid exactly where the gate admits.
  verdict-admits :
      (scan : Scan) (s : Database) (a : Accreditation) (r : AccreditationRequest) (v : ScanVerdict)
      → ((v.result ≡ ScanResult.valid) ↔ (
          Admissible scan.now (detail_of db crypto s a r) scan.dto
          × (uses db crypto s a.id scan.dto.zone_id ≡ 0)))
      → (v.result == ScanResult.valid)
        ≡ (admits scan (detail_of db crypto s a r) && not (passes_of s a.id scan.dto.zone_id))
  verdict-admits scan s a r v (to, from) =
      let d = detail_of db crypto s a r in
      let (admissible, back) = evaluate_iff scan.now d scan.dto in
      let forth : v.result ≡ ScanResult.valid
          → ((evaluate scan.now d scan.dto).result == ScanResult.valid
              && not (passes_of s a.id scan.dto.zone_id))
            ≡ true =
        λ h. let (good, unused) = to h in ground (arith, back good, unused) in
      let hence : (evaluate scan.now d scan.dto).result ≡ ScanResult.valid
          → uses db crypto s a.id scan.dto.zone_id ≡ 0
          → v.result ≡ ScanResult.valid =
        λ e u. from (admissible e, u) in
      rw (sym (evaluate-admits scan d)) (
        same (λ h. forth (ground arith)) (λ h. ground (arith, hence (ground arith) (ground arith))))
    where
      same : {a b : Bool} → (a ≡ true → b ≡ true) → (b ≡ true → a ≡ true) → a ≡ b
      same {a = true} {b = b} f g = sym (f refl)
      same {a = false} {b = true} f g = g refl
      same {a = false} {b = false} f g = refl

  known_badge :
      (scan : Scan) (s : Database) (a : Accreditation) (r : AccreditationRequest)
      → db.find_unique (token_of db crypto scan.dto.token) s.accreditations ≡ some a
      → db.find_unique (request_key a.request_id) s.requests ≡ some r
      → Matches scan s
  unfolding served
  known_badge scan s a r found found_r =
      let (v, went, verdict_iff) =
        verify_scan_iff db crypto scan.now scan.dto scan.scanned_by_id s a r found found_r in
      let known : registry s scan.dto.token ≡ some (detail_of db crypto s a r) =
        rw (registry, found, found_r) refl in
      let agreed = verdict-admits scan s a r v verdict_iff in
      let asked = gate_step-some (registry s) (serves s) scan (passes_of s) known in
      elim (Bool-cases (serves s scan)) [
        | inl e ↦
            rw (went ∙ if_true _ _ e, asked, e, sym agreed)
              (
                sym (
                    admitted_if (v.result == ScanResult.valid) a.id scan.dto.zone_id (passes_of s)),
                fun_ext λ id. fun_ext λ z.
                    passes-logged s scan (some a.id) v id z
                    ∙ sym (
                        passes_if (v.result == ScanResult.valid) a.id scan.dto.zone_id (passes_of s)
                          id z),
                refl,
                refl,
              )
        | inr e ↦ blocked scan s (went ∙ if_false _ _ e) (asked ∙ rw e refl)
      ]

  step-Matches : (scan : Scan) (s : Database) → Matches scan s
  step-Matches scan s =
      elim (Option-cases (db.find_unique (token_of db crypto scan.dto.token) s.accreditations)) [
        | inl missing ↦ unknown_token scan s missing
        | inr (a, found) ↦
            elim (Option-cases (db.find_unique (request_key a.request_id) s.requests)) [
              | inl gone ↦ orphan scan s a found gone
              | inr (r, found_r) ↦ known_badge scan s a r found found_r
            ]
      ]

  run_matches :
      (scans : List Scan) (s : Database) (lookup : String → Option Detail) (served_by : Scan → Bool)
      (passes : Passes)
      → registry s ≡ lookup
      → serves s ≡ served_by
      → passes_of s ≡ passes
      → run_scans scans s ≡ gate_run lookup served_by scans passes
  unfolding run_scans gate_run
  run_matches [] s lookup served_by passes e f p = refl
  run_matches (scan ∷ scans) s lookup served_by passes e f p =
      let (answer, remembered, known, open_to) = step-Matches scan s in
      let eq : gate_step (registry s) (serves s) scan (passes_of s)
          ≡ gate_step lookup served_by scan passes =
        ap (λ l. gate_step l (serves s) scan (passes_of s)) e
        ∙ ap (λ g. gate_step lookup g scan (passes_of s)) f
        ∙ ap (gate_step lookup served_by scan) p in
      let rest =
        run_matches scans (scanned scan s).1 lookup served_by
          (gate_step lookup served_by scan passes).passes (known ∙ e) (open_to ∙ f)
          (remembered ∙ ap (λ o. o.passes) eq) in
      ap (λ b. b ∷ run_scans scans (scanned scan s).1) (answer ∙ ap (λ o. o.admitted) eq)
      ∙ ap (λ bs. (gate_step lookup served_by scan passes).admitted ∷ bs) rest

  -- The service implements the gate: on any sequence of scans, of known and unknown tokens, from
  -- any database, it lets in exactly those that the gate lets in, which knows the badges of the
  -- tables, serves only the matches, zones and agents of the tables, and remembers, of the history,
  -- only which badge was let into which zone.
  pub run_scans-gate_run :
      (scans : List Scan) (s : Database)
      → run_scans scans s ≡ gate_run (registry s) (serves s) scans (passes_of s)
  run_scans-gate_run scans s =
      run_matches scans s (registry s) (serves s) (passes_of s) refl refl refl
