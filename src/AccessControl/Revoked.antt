-- ===== src/AccessControl/Revoked.antt =====
-- A scan after the revocation of the badge, and after the cancellation of its request.
use fsf_acreditation_backend.Base.{
  ◌≡◌, ◌≢◌, refl, sym, ap, subst, ◌∙◌, false, nat_eq, string_eq, option_eq, some, String, arith,
  true, if◌then◌else◌,
}
use fsf_acreditation_backend.Kernel.Errors.{Failure}
use fsf_acreditation_backend.Store.{
  Prisma, Database, ok, err, Uuid, Instant, Accreditation, AccreditationRequest, MatchCategoryQuota,
  AccreditationStatus, accreditation_status_eq, ScanResult, scan_result_eq, RequestStatus,
  or_throw-some, throw_if-false, request_key, accreditation_key, quota_of, find_unique-update_rows,
  find_unique-update_rows_self, find_unique-true,
}
use fsf_acreditation_backend.Accreditations.Service.{Crypto, revoked_by, revoke, is_foreign}
use fsf_acreditation_backend.Requests.Machine.{Allowed}
use fsf_acreditation_backend.Requests.Transition.{with_status}
use fsf_acreditation_backend.Requests.Cancel.{CancelRequestInput, cancel_request}
use fsf_acreditation_backend.Requests.Effects.{found_by_id}
use fsf_acreditation_backend.Requests.Cancellation.{cancel_request_run, cancelled_with}
use fsf_acreditation_backend.AccessControl.Service.{VerifyScan, ScanVerdict, verify_scan}
use fsf_acreditation_backend.AccessControl.Scans.{Admissible}
use fsf_acreditation_backend.AccessControl.Entry.{
  if_first, served, token_of, detail_of, uses, verify_scan_iff,
}

module _ (db : Prisma) (crypto : Crypto) where
  -- The revocation of a badge that is not revoked yet returns, and every later scan of its token,
  -- with the request still stored, is not valid: it returns another answer where the match and the
  -- zone that it names and its agent are stored, and throws otherwise.
  pub revoke-verify_scan :
      (now later : Instant) (reason : String) (actor by : Uuid) (dto : VerifyScan) (s : Database)
      (a : Accreditation) (r : AccreditationRequest)
      → db.find_unique (accreditation_key a.id) s.accreditations ≡ some a
      → db.find_unique (token_of db crypto dto.token) s.accreditations ≡ some a
      → db.find_unique (request_key a.request_id) s.requests ≡ some r
      → a.status ≢ AccreditationStatus.revoked
      → ((revoke db now a.id reason actor s).0 ≡ ok (revoked_by now reason actor a))
        × ((v : ScanVerdict) × ((verify_scan db crypto later dto by
                (revoke db now a.id reason actor s).1).0
              ≡ (if served db crypto s dto by then ok v else err Failure.foreign_key_violation))
            × (v.result ≢ ScanResult.valid))
  unfolding revoke served
  revoke-verify_scan now later reason actor by dto s a r found found_token found_r live =
      let went = or_throw-some _ _ s found ∙ throw_if-false _ _ s (ground arith) in
      let s' = (revoke db now a.id reason actor s).1 in
      let rows =
        find_unique-update_rows db (token_of db crypto dto.token) (accreditation_key a.id)
          (revoked_by now reason actor) s.accreditations (λ x h. refl) in
      let token : db.find_unique (token_of db crypto dto.token) s'.accreditations
          ≡ some (revoked_by now reason actor a) =
        ap (λ o. db.find_unique (token_of db crypto dto.token) o.1.accreditations) went
        ∙ rows
        ∙ rw found_token (ground arith) in
      let request : db.find_unique (request_key a.request_id) s'.requests ≡ some r =
        ap (λ o. db.find_unique (request_key a.request_id) o.1.requests) went ∙ found_r in
      let (v, e, valid_iff) =
        verify_scan_iff db crypto later dto by s' (revoked_by now reason actor a) r token request in
      (
        ap (λ o. o.0) went,
        (
          v,
          ap (λ o. o.0) e
              ∙ if_first (served db crypto s' dto by) _ _
              ∙ ap
                  (λ o.
                    if served db crypto o.1 dto by then ok v else err Failure.foreign_key_violation)
                  went,
          λ h. (valid_iff.0 h).0.not_revoked refl,
        ),
      )

  -- The cancellation of a request does not touch its badge: where a scan, for a match and a zone that
  -- are stored and by a stored agent, would have said valid before, it says valid after the
  -- cancellation too.
  pub cancel-verify_scan :
      (now : Instant) (by : Uuid) (dto : VerifyScan) (input : CancelRequestInput) (s : Database)
      (a : Accreditation) (r : AccreditationRequest) (q : MatchCategoryQuota)
      → db.find_unique (token_of db crypto dto.token) s.accreditations ≡ some a
      → db.find_unique (request_key a.request_id) s.requests ≡ some r
      → Admissible now (detail_of db crypto s a r) dto
      → uses db crypto s a.id dto.zone_id ≡ 0
      → served db crypto s dto by ≡ true
      → input.request_id ≡ a.request_id
      → is_foreign input.requester_id r.requester_id ≡ false
      → Allowed r.status RequestStatus.cancelled
      → db.find_unique (quota_of r.match_id r.category_requested_id) s.quotas ≡ some q
      → ((cancel_request db input s).0 ≡ ok (with_status RequestStatus.cancelled r))
        × ((v : ScanVerdict) × ((verify_scan db crypto now dto by (cancel_request db input s).1).0
              ≡ ok v)
            × (v.result ≡ ScanResult.valid))
  unfolding served
  cancel-verify_scan now by dto input s a r q found_token found_r admissible unused reached same
        owned allowed found_q =
      let found : db.find_unique (request_key input.request_id) s.requests ≡ some r =
        subst (λ k. db.find_unique (request_key k) s.requests ≡ some r) (sym same) found_r in
      let (rows, went, row) = cancel_request_run db input s r q found owned allowed found_q in
      let t = cancelled_with db input r rows s in
      let r' = with_status RequestStatus.cancelled r in
      let request : db.find_unique (request_key a.request_id) t.requests ≡ some r' =
        let key : r.id ≡ a.request_id =
          ground (arith, find_unique-true db (request_key a.request_id) s.requests r found_r) in
        subst (λ k. db.find_unique (request_key k) t.requests ≡ some r') key
          (find_unique-update_rows_self db (request_key r.id) (with_status RequestStatus.cancelled)
            s.requests r (λ x h. h) (found_by_id db input.request_id r s found)) in
      let (v, e, valid_iff) = verify_scan_iff db crypto now dto by t a r' found_token request in
      let still : Admissible now (detail_of db crypto t a r') dto = record {
        not_revoked = admissible.not_revoked;
        not_expired = admissible.not_expired;
        in_time = admissible.in_time;
        right_match = admissible.right_match;
        in_zone = admissible.in_zone;
      } in
      (
        ap (λ o. o.0) went,
        (
          v,
          ap (λ o. (verify_scan db crypto now dto by o.1).0) went
              ∙ ap (λ o. o.0) e
              ∙ rw reached refl,
          valid_iff.1 (still, unused),
        ),
      )
