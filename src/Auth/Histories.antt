-- ===== src/Auth/Histories.antt =====
-- Sequences of calls of `AuthService` (backend/apps/api/src/services/auth.service.ts).
use frendly.Common.{
  is_none, ℕ, suc, leb, ltb, ◌==◌, String, Bool, not, ◌||◌, subst, sym, Option, none, some, List,
  [], ◌∷◌, find, change, count, count-append, refl, arith, Bool-cases, Option-cases, inl, inr,
}
use frendly.Common.Action.{ApiError, Result, ok, err, Transaction, settle, ◌>>◌, raise, gets}
use frendly.Common.Keeps.{Keeps, Keeps-bind, Keeps-then_do, Keeps-gets, Keeps-if, keeps}
use frendly.Auth.Tables.{
  draw_id, AuditKind, AuditResult, AuditMetadata, AuthRequestMeta, AuditParams, PhoneOtpChallenge,
  User, Auth, take_back, write_audit_event,
}
use frendly.Auth.Codes.{verify_code, phone_otp_max_attempts, OtpContext}
use frendly.Auth.Numbers.{mask_phone_number}
use frendly.Auth.Phone.{audit, has_phone, request_phone_code, audit}
use frendly.Auth.Sessions.{Jwt, refresh_session, logout}
use frendly.Auth.Verify.{
  SignedIn, verify_phone_code, verify_in_transaction, verify_found, verify_open, claim, sign_in,
  change_challenges, claimed_challenge, is_claimable, is_unconsumed, exhausted, missed,
  refuse_exhausted, refuse_code_as, missed_audit, missed_error, or_failed, unless_unique, first_of,
  refuse_challenge, find_or_create_user, register_unless_found, ensure_user, refuse_code,
}
use frendly.Auth.Kept.{
  update_challenge-Keeps, refresh_session-Keeps, logout-Keeps, request_phone_code-Keeps,
  change_challenges-Keeps,
}
use frendly.Auth.Fresh.{
  Held, Held-untouched, write_audit_event-Keeps, create_session_record-Keeps,
  record_legal_acceptance-Keeps,
}

pub data AuthCall : Type 0 where
  request : String → AuthRequestMeta → String → ℕ → AuthCall
  verify : ℕ → String → AuthRequestMeta → ℕ → AuthCall
  refresh : String → AuthRequestMeta → ℕ → AuthCall
  sign_out : Option ℕ → AuthRequestMeta → ℕ → AuthCall

module _ (context : OtpContext) (jwt : Jwt) (tx : Transaction Auth take_back) where
  unfoldable pub perform : AuthCall → Auth → Auth
  perform (AuthCall.request salt meta phone now) s =
      (request_phone_code context salt meta phone now s).1
  perform (AuthCall.verify id code meta now) s =
      (verify_phone_code context jwt tx id code meta now s).1
  perform (AuthCall.refresh token meta now) s = (refresh_session jwt token meta now s).1
  perform (AuthCall.sign_out id meta now) s = (logout id meta now s).1

  unfoldable pub perform_all : List AuthCall → Auth → Auth
  perform_all [] s = s
  perform_all (c ∷ cs) s = perform_all cs (perform c s)

module _ (limit : ℕ → ℕ) (from : ℕ) where
  -- A new user has the id that was drawn.
  ensure_user-Held :
      (phone : String) (s : Auth)
      → Held limit from s
      → Held limit from (unless_unique (ensure_user s.next_id phone (draw_id s).1)).1
  unfolding ensure_user
  ensure_user-Held phone s h =
      elim (Option-cases
        (first_of (find (λ u. u.id == s.next_id) s.users) (find (has_phone phone) s.users))) [
          | inr (u, found) ↦ rw found (Held-untouched limit from s _ h refl refl (omega arith))
          | inl new ↦ elim (Bool-cases (ltb 0 (count (has_phone phone) s.users))) [
            | inl taken ↦ rw (new, taken) (Held-untouched limit from s _ h refl refl (omega arith))
            | inr free ↦
                rw (new, free)
                  (record {
                    since = omega (arith, h.since);
                    small = h.small;
                    allowed = λ t le. h.allowed t (omega arith);
                    within = h.within;
                    fresh = λ t le. h.fresh t (omega arith);
                    users = λ id le.
                        rw (count-append (λ u. u.id == id) s.users _) (ground (arith, h.users id));
                  })
          ]
        ]

  find_or_create_user-Keeps : (phone : String) → Keeps (Held limit from) (find_or_create_user phone)
  unfolding find_or_create_user
  find_or_create_user-Keeps phone =
      Keeps-bind (Held limit from) (gets (λ s. find (has_phone phone) s.users)) _
        (Keeps-gets (Held limit from) _) registered
    where
      answered : (u : Option User) (is_new : Bool) → Keeps (Held limit from) (or_failed u is_new)
      answered none is_new = search keeps
      answered (some u) is_new = search keeps

      registered : (u : Option User) → Keeps (Held limit from) (register_unless_found u phone)
      registered (some u) = search keeps
      registered none = record {
        after = λ s h.
            Keeps-then_do (Held limit from) _
              (λ created.
                Keeps-bind (Held limit from) (gets (λ s. find (has_phone phone) s.users)) _
                  (Keeps-gets (Held limit from) _) (λ u. answered u (not (is_none created))))
              (unless_unique (ensure_user s.next_id phone (draw_id s).1))
              (ensure_user-Held phone s h);
      }

  sign_in-Keeps :
      (context : OtpContext) (jwt : Jwt) (c : PhoneOtpChallenge) (meta : AuthRequestMeta) (now : ℕ)
      → Keeps (Held limit from) (sign_in context jwt c meta now)
  unfolding sign_in
  sign_in-Keeps context jwt c meta now =
      search
        (
          keeps,
          write_audit_event-Keeps limit from,
          find_or_create_user-Keeps,
          update_challenge-Keeps limit from,
          record_legal_acceptance-Keeps limit from,
          create_session_record-Keeps limit from,
        )
        depth 12

  claim-Keeps :
      (context : OtpContext) (jwt : Jwt) (c : PhoneOtpChallenge) (meta : AuthRequestMeta) (now : ℕ)
      → Keeps (Held limit from) (claim context jwt c meta now)
  unfolding claim
  claim-Keeps context jwt c meta now =
      Keeps-bind (Held limit from) (gets (λ s. count (is_claimable c.id now) s.challenges)) _
        (Keeps-gets (Held limit from) _)
        (λ consumed.
          Keeps-bind (Held limit from)
            (change_challenges (is_claimable c.id now) (claimed_challenge now)) _
            (change_challenges-Keeps limit from
              (change (is_claimable c.id now) (claimed_challenge now)))
            (λ _.
              Keeps-if (Held limit from) (consumed == 0)
                (refuse_challenge meta (some (mask_phone_number c.phone_number)) "claim_failed")
                (sign_in context jwt c meta now)
                (search (keeps, write_audit_event-Keeps limit from))
                (sign_in-Keeps context jwt c meta now)))

  verify_in_transaction-Keeps :
      (context : OtpContext) (jwt : Jwt) (id : ℕ) (code : String) (meta : AuthRequestMeta) (now : ℕ)
      → Keeps (Held limit from) (verify_in_transaction context jwt id code meta now)
  unfolding verify_in_transaction
  verify_in_transaction-Keeps context jwt id code meta now =
      Keeps-bind (Held limit from) (gets (λ s. find (λ c. c.id == id) s.challenges)) _
        (Keeps-gets (Held limit from) _) found_Keeps
    where
      refused_tail :
          (params : AuditParams) (e : ApiError)
          → Keeps (Held limit from) (write_audit_event params >> raise {A = SignedIn} e)
      refused_tail params e = search (keeps, write_audit_event-Keeps limit from)

      refused_after :
          (p : PhoneOtpChallenge → Bool) (f : PhoneOtpChallenge → PhoneOtpChallenge)
          (params : AuditParams) (e : ApiError)
          → Keeps
              (Held limit from)
              (change_challenges p f >> (write_audit_event params >> raise {A = SignedIn} e))
      refused_after p f params e =
          Keeps-bind (Held limit from) (change_challenges p f)
            (λ _. write_audit_event params >> raise {A = SignedIn} e)
            (change_challenges-Keeps limit from (change p f)) (λ _. refused_tail params e)

      exhausted_Keeps :
          (c : PhoneOtpChallenge) → Keeps (Held limit from) (refuse_exhausted c meta now)
      exhausted_Keeps c =
          refused_after (is_unconsumed c.id) (exhausted now)
            (audit AuditKind.verify AuditResult.rate_limited meta
              (some (mask_phone_number c.phone_number)) (AuditMetadata.of_reason "max_attempts"))
            ApiError.phone_otp_rate_limited

      code_Keeps :
          (c : PhoneOtpChallenge) (limited : Bool)
          → Keeps (Held limit from) (refuse_code_as limited c meta now)
      code_Keeps c limited =
          refused_after (is_unconsumed c.id) (missed limited now) (missed_audit limited c meta)
            (missed_error limited)

      open_Keeps :
          (c : PhoneOtpChallenge)
          → Keeps (Held limit from) (verify_open context jwt c code meta now)
      open_Keeps c =
          Keeps-if (Held limit from) (leb phone_otp_max_attempts c.attempt_count)
            (refuse_exhausted c meta now) _ (exhausted_Keeps c)
            (Keeps-if (Held limit from) (verify_code context code c.code_salt c.code_hash)
              (claim context jwt c meta now) (refuse_code c meta now)
              (claim-Keeps context jwt c meta now)
              (code_Keeps c (leb phone_otp_max_attempts (suc c.attempt_count))))

      refused_Keeps :
          Keeps (Held limit from) (refuse_challenge {A = SignedIn} meta none "invalid_challenge")
      refused_Keeps = search (keeps, write_audit_event-Keeps limit from)

      found_Keeps :
          (c : Option PhoneOtpChallenge)
          → Keeps (Held limit from) (verify_found context jwt c code meta now)
      found_Keeps none = refused_Keeps
      found_Keeps (some c) =
          Keeps-if (Held limit from) (not (is_none c.consumed_at) || leb c.expires_at now)
            (refuse_challenge meta none "invalid_challenge")
            (verify_open context jwt c code meta now) refused_Keeps (open_Keeps c)

  -- A transaction that is refused leaves the tables, and the counter where it came to.
  settled-Held :
      {A : Type 0} (s : Auth) (r : Result A × Auth)
      → Held limit from s
      → Held limit s.next_id r.1
      → Held limit from (settle take_back s r).1
  settled-Held s (ok a, s') h kept = record {
    since = omega (arith, h.since, kept.since);
    small = kept.small;
    allowed = kept.allowed;
    within = kept.within;
    fresh = kept.fresh;
    users = kept.users;
  }
  settled-Held s (err e, s') h kept = Held-untouched limit from s _ h refl refl kept.since

module _ (limit : ℕ → ℕ) (from : ℕ) (context : OtpContext) (jwt : Jwt)
    (tx : Transaction Auth take_back) where
  pub verify_phone_code-Keeps :
      (id : ℕ) (code : String) (meta : AuthRequestMeta) (now : ℕ)
      → Keeps (Held limit from) (verify_phone_code context jwt tx id code meta now)
  unfolding verify_phone_code
  verify_phone_code-Keeps id code meta now = record {
    after = λ s h.
        subst (λ (r : Result SignedIn × Auth). Held limit from r.1)
          (sym (tx.run_settles SignedIn (verify_in_transaction context jwt id code meta now) s))
          (settled-Held limit from s _ h (
            (verify_in_transaction-Keeps limit s.next_id context jwt id code meta now).after s
              (record {
                since = omega arith;
                small = h.small;
                allowed = h.allowed;
                within = h.within;
                fresh = h.fresh;
                users = h.users;
              })));
  }

  perform-Held :
      (c : AuthCall) (s : Auth) → Held limit from s → Held limit from (perform context jwt tx c s)
  unfolding perform
  perform-Held (AuthCall.request salt meta phone now) s h =
      (request_phone_code-Keeps limit from context salt meta phone now).after s h
  perform-Held (AuthCall.verify id code meta now) s h =
      (verify_phone_code-Keeps id code meta now).after s h
  perform-Held (AuthCall.refresh token meta now) s h =
      (refresh_session-Keeps limit from jwt token meta now).after s h
  perform-Held (AuthCall.sign_out id meta now) s h = (logout-Keeps limit from id meta now).after s h

  pub perform_all-Held :
      (cs : List AuthCall) (s : Auth)
      → Held limit from s
      → Held limit from (perform_all context jwt tx cs s)
  unfolding perform_all
  perform_all-Held [] s h = h
  perform_all-Held (c ∷ cs) s h = perform_all-Held cs _ (perform-Held c s h)
