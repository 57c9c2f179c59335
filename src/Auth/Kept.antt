-- ===== src/Auth/Kept.antt =====
-- Ids of sessions and users, over requestPhoneCode, refreshSession and logout of `AuthService`
-- (backend/apps/api/src/services/auth.service.ts).
use frendly.Common.{
  ℕ, ◌+◌, ◌-◌, leb, ltb, ◌==◌, String, Option, none, some, List, change, count, count-change, ◌≡◌,
  refl, arith, Option-cases, inl, inr, if◌then◌else◌,
}
use frendly.Common.Action.{ApiError, Result, ◌>>◌, pure, raise, raise_if, gets, modify}
use frendly.Common.Keeps.{Keeps, Keeps-bind, Keeps-gets, Keeps-raise_if, Keeps-if, keeps}
use frendly.Auth.Tables.{
  AuditKind, AuditResult, AuditMetadata, AuthRequestMeta, PhoneOtpChallenge, Session, Auth,
  write_audit_event,
}
use frendly.Auth.Codes.{
  OtpContext, PhoneOtpPayload, PhoneOtpDeliveryResult, hash_request_key, phone_otp_cooldown_ms,
  phone_otp_max_requests_per_context,
}
use frendly.Auth.Numbers.{normalize_phone}
use frendly.Auth.Phone.{
  request_phone_code, request_normalized, issue_within_limit, issue_challenge, cool_down,
  save_challenge, update_challenge, of_delivery, is_recent, refuse_context, PhoneCodeView, latest,
  is_open_for, last_issued, audit,
}
use frendly.Auth.Sessions.{
  Jwt, RefreshTokenPayload, rotate, refresh_found, refresh_session, logout, is_unrevoked, is_stale,
  forget_session, new_pair, refuse_refresh, session_audit, can_rotate, revoked,
  verify_refresh_token,
}
use frendly.Common.Text.{is_empty}
use frendly.Auth.Fresh.{
  holders_of, Held, Held-untouched, write_audit_event-Keeps, after_rotation-Held,
}

module _ (limit : ℕ → ℕ) (from : ℕ) where
  pub change_challenges-Keeps :
      (f : List PhoneOtpChallenge → List PhoneOtpChallenge)
      → Keeps (Held limit from) (modify (λ s. record s { challenges = f s.challenges }))
  change_challenges-Keeps f = record {
    after = λ s h. Held-untouched limit from s _ h refl refl (omega arith);
  }

  pub update_challenge-Keeps :
      (id : ℕ) (f : PhoneOtpChallenge → PhoneOtpChallenge)
      → Keeps (Held limit from) (update_challenge id f)
  update_challenge-Keeps id f =
      Keeps-bind (Held limit from) (gets (λ s. count (λ c. c.id == id) s.challenges)) _
        (Keeps-gets (Held limit from) _)
        (λ rows.
          Keeps-bind (Held limit from) (raise_if (rows == 0) ApiError.record_missing) _
            (Keeps-raise_if (Held limit from) (rows == 0) ApiError.record_missing)
            (λ _. change_challenges-Keeps (change (λ c. c.id == id) f)))

  of_delivery-Keeps : (r : Result PhoneOtpDeliveryResult) → Keeps (Held limit from) (of_delivery r)
  of_delivery-Keeps r = record { after = λ s h. h }

  save_challenge-Keeps :
      (active : Option PhoneOtpChallenge) (user : Option ℕ) (phone : String)
      (payload : PhoneOtpPayload) (key : Option String) (now : ℕ)
      → Keeps (Held limit from) (save_challenge active user phone payload key now)
  save_challenge-Keeps none user phone payload key now = record {
    after = λ s h. Held-untouched limit from s _ h refl refl (omega arith);
  }
  save_challenge-Keeps (some c) user phone payload key now =
      search (keeps, update_challenge-Keeps c.id)

  rotate-Keeps :
      (jwt : Jwt) (p : RefreshTokenPayload) (x : Session) (meta : AuthRequestMeta) (now : ℕ)
      → Keeps (Held limit from) (rotate jwt p x meta now)
  unfolding rotate
  rotate-Keeps jwt p x meta now = record {
    after = λ s h.
        (answer_Keeps (count (can_rotate p x) s.sessions) s.next_id).after _
          (after_rotation-Held limit from p x now s h);
  }
    where
      answer_Keeps :
          (updated next : ℕ)
          → Keeps (Held limit from) (
              if updated == 0
              then refuse_refresh meta (some x.user_id) (some x.id) "rotation_conflict"
              else (write_audit_event (
                    session_audit AuditKind.refresh AuditResult.success meta
                      (some x.user_id)
                      (some x.id)
                      none)
                  >> pure (new_pair jwt x.user_id x.id next now)))
      answer_Keeps updated next = search (keeps, write_audit_event-Keeps limit from)

  pub refresh_session-Keeps :
      (jwt : Jwt) (token : String) (meta : AuthRequestMeta) (now : ℕ)
      → Keeps (Held limit from) (refresh_session jwt token meta now)
  unfolding refresh_session
  refresh_session-Keeps jwt token meta now =
      elim (Option-cases (verify_refresh_token jwt token now)) [
        | inl bad ↦ rw bad (search (keeps, write_audit_event-Keeps limit from))
        | inr (p, good) ↦
            rw good
              (Keeps-bind (Held limit from) _ _ (Keeps-gets (Held limit from) _) (found_Keeps p))
      ]
    where
      found_Keeps :
          (p : RefreshTokenPayload) (x : Option Session)
          → Keeps (Held limit from) (refresh_found jwt p x meta now)
      found_Keeps p none = search (keeps, write_audit_event-Keeps limit from)
      found_Keeps p (some x) =
          Keeps-if (Held limit from) (is_stale p x) (refuse_refresh meta _ _ _)
            (rotate jwt p x meta now) (search (keeps, write_audit_event-Keeps limit from))
            (rotate-Keeps jwt p x meta now)

  revoke-Keeps :
      (id now : ℕ)
      → Keeps
          (Held limit from)
          (modify (λ s. record s { sessions = change (is_unrevoked id) (revoked now) s.sessions }))
  revoke-Keeps id now = record {
    after = λ s h. record {
      since = omega (arith, h.since);
      small = h.small;
      allowed = h.allowed;
      within = λ t. rw (same t s) (h.within t);
      fresh = λ t le. rw (same t s) (h.fresh t le);
      users = h.users;
    };
  }
    where
      same :
          (t : ℕ) (s : Auth)
          → count (λ x. x.refresh_token_id == t) (change (is_unrevoked id) (revoked now) s.sessions)
            ≡ holders_of t s
      same t s =
          count-change (λ x. x.refresh_token_id == t) (is_unrevoked id) (revoked now) s.sessions
            (λ x e. refl)

  forget_session-Keeps : (id : ℕ) → Keeps (Held limit from) (forget_session id)
  forget_session-Keeps id = record {
    after = λ s h. Held-untouched limit from s _ h refl refl (omega arith);
  }

  pub logout-Keeps :
      (id : Option ℕ) (meta : AuthRequestMeta) (now : ℕ)
      → Keeps (Held limit from) (logout id meta now)
  unfolding logout
  logout-Keeps none meta now = search keeps
  logout-Keeps (some id) meta now =
      search (keeps, write_audit_event-Keeps limit from, revoke-Keeps, forget_session-Keeps)

  issue_challenge-Keeps :
      (context : OtpContext) (active : Option PhoneOtpChallenge) (key : Option String)
      (salt : String) (meta : AuthRequestMeta) (phone : String) (now : ℕ)
      → Keeps (Held limit from) (issue_challenge context active key salt meta phone now)
  unfolding issue_challenge
  issue_challenge-Keeps context active key salt meta phone now =
      search (keeps, of_delivery-Keeps, write_audit_event-Keeps limit from, save_challenge-Keeps)

  issue_within_limit-Keeps :
      (context : OtpContext) (active : Option PhoneOtpChallenge) (key : Option String)
      (salt : String) (meta : AuthRequestMeta) (phone : String) (now : ℕ)
      → Keeps (Held limit from) (issue_within_limit context active key salt meta phone now)
  unfolding issue_within_limit
  issue_within_limit-Keeps context active none salt meta phone now =
      issue_challenge-Keeps context active none salt meta phone now
  issue_within_limit-Keeps context active (some key) salt meta phone now =
      Keeps-bind (Held limit from) (gets (λ s. count (is_recent key now) s.challenges)) _
        (Keeps-gets (Held limit from) _)
        (λ recent.
          Keeps-if (Held limit from) (leb phone_otp_max_requests_per_context recent)
            (refuse_context meta phone)
            (issue_challenge context active (some key) salt meta phone now)
            (search (keeps, write_audit_event-Keeps limit from))
            (issue_challenge-Keeps context active (some key) salt meta phone now))

  cool_down-Keeps :
      (context : OtpContext) (c : PhoneOtpChallenge) (wait : ℕ) (meta : AuthRequestMeta)
      (phone : String)
      → Keeps (Held limit from) (cool_down context c wait meta phone)
  unfolding cool_down
  cool_down-Keeps context c wait meta phone = search (keeps, write_audit_event-Keeps limit from)

  pub request_phone_code-Keeps :
      (context : OtpContext) (salt : String) (meta : AuthRequestMeta) (phone : String) (now : ℕ)
      → Keeps (Held limit from) (request_phone_code context salt meta phone now)
  unfolding request_phone_code
  request_phone_code-Keeps context salt meta raw now =
      Keeps-if (Held limit from) (is_empty (normalize_phone raw)) _ _ refused (
        Keeps-bind (Held limit from)
          (gets (λ s. latest (is_open_for (normalize_phone raw) now) s.challenges)) _
          (Keeps-gets (Held limit from) _) requested)
    where
      refused : Keeps (Held limit from) (
          write_audit_event (
            audit AuditKind.start AuditResult.rejected meta none
              (AuditMetadata.of_reason "invalid_phone_number"))
          >> raise {A = PhoneCodeView} ApiError.invalid_phone_number)
      refused = search (keeps, write_audit_event-Keeps limit from)

      requested :
          (active : Option PhoneOtpChallenge)
          → Keeps
              (Held limit from)
              (request_normalized context active salt meta (normalize_phone raw) now)
      requested none =
          issue_within_limit-Keeps context none (hash_request_key context meta) salt meta
            (normalize_phone raw) now
      requested (some c) =
          Keeps-if (Held limit from) (ltb now (last_issued context c + phone_otp_cooldown_ms))
            (cool_down context c (last_issued context c + phone_otp_cooldown_ms - now) meta
              (normalize_phone raw))
            _ (cool_down-Keeps context c _ meta (normalize_phone raw))
            (issue_within_limit-Keeps context (some c) (hash_request_key context meta) salt meta
              (normalize_phone raw) now)
