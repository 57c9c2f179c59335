-- ===== src/Auth/Verify.antt =====
-- `verifyPhoneCode`, with findOrCreateUserByPhoneNumber and ensureUser
-- (backend/apps/api/src/services/auth.service.ts).
use frendly.Common.Text.{text_drop, text_length}
use frendly.Common.{
  is_none, ℕ, suc, ◌-◌, ◌==◌, leb, ltb, String, Bool, false, not, ◌&&◌, ◌||◌, Option, none, some,
  [], ◌∷◌, ◌++◌, find, change, count, if◌then◌else◌,
}
use frendly.Common.Action.{
  Action, ApiError, Result, ok, err, pure, raise, gets, ◌>>=◌, ◌>>◌, raise_if, modify, Transaction,
}
use frendly.Auth.Tables.{
  AuthProvider, AuditKind, AuditResult, AuditMetadata, AuditParams, AuthRequestMeta,
  PhoneOtpChallenge, User, Auth, take_back, draw_id, write_audit_event,
}
use frendly.Auth.Codes.{OtpContext, phone_otp_max_attempts, verify_code}
use frendly.Auth.Numbers.{mask_phone_number, only_digits}
use frendly.Auth.Phone.{audit, has_phone, update_challenge}
use frendly.Auth.Sessions.{Jwt, TokenPair, record_legal_acceptance, create_session_record}
use Prim.Native.String.{◌++◌ as concat}

-- `catch` of P2002 alone: another refusal is thrown again.
abbrev pub unless_unique : {A : Type 0} → Result A × Auth → Result (Option A) × Auth
unless_unique (ok a, s) = (ok (some a), s)
unless_unique (err ApiError.unique_violation, s) = (ok none, s)
unless_unique (err e, s) = (err e, s)

-- `buildRegistrationPreset(phoneNumber).displayName`
abbrev display_name : String → String
display_name phone =
    let digits = only_digits phone in
    concat "Пользователь " (text_drop (text_length digits - 4) digits)

abbrev pub new_user : ℕ → String → User
new_user id phone = record {
  id = id;
  display_name = display_name phone;
  phone_number = some phone;
  legal_accepted_at = none;
  legal_terms_version = none;
}

-- `user.create`: the phone number is unique.
abbrev pub create_user : ℕ → String → Action Auth User
create_user id phone = do
  taken ← gets (λ s. count (has_phone phone) s.users)
  raise_if (ltb 0 taken) ApiError.unique_violation
  modify (λ s. record s { users = s.users ++ (new_user id phone ∷ []) })
  pure (new_user id phone)

abbrev pub first_of : Option User → Option User → Option User
first_of none b = b
first_of (some a) b = some a

abbrev pub or_create : Option User → ℕ → String → Action Auth User
or_create (some u) id phone = pure u
or_create none id phone = create_user id phone

-- `ensureUser` with a phone number
unfoldable pub ensure_user : ℕ → String → Action Auth User
ensure_user id phone = do
  existing ← gets (λ s. find (λ u. u.id == id) s.users)
  by_phone ← gets (λ s. find (has_phone phone) s.users)
  or_create (first_of existing by_phone) id phone

abbrev pub or_failed : Option User → Bool → Action Auth (User × Bool)
or_failed none is_new = raise ApiError.auth_user_create_failed
or_failed (some u) is_new = pure (u, is_new)

abbrev pub register_unless_found : Option User → String → Action Auth (User × Bool)
register_unless_found (some u) phone = pure (u, false)
register_unless_found none phone = do
  id ← draw_id
  created ← (λ s. unless_unique (ensure_user id phone s))
  user ← gets (λ s. find (has_phone phone) s.users)
  or_failed user (not (is_none created))

-- `findOrCreateUserByPhoneNumber`
unfoldable pub find_or_create_user : String → Action Auth (User × Bool)
find_or_create_user phone = do
  user ← gets (λ s. find (has_phone phone) s.users)
  register_unless_found user phone

-- What `verifyPhoneCode` returns.
pub record SignedIn : Type 0 where
  pub tokens : TokenPair
  pub user_id : ℕ
  pub is_new_user : Bool

abbrev pub is_claimable : ℕ → ℕ → PhoneOtpChallenge → Bool
is_claimable id now c = c.id == id && is_none c.consumed_at && ltb now c.expires_at

abbrev pub is_unconsumed : ℕ → PhoneOtpChallenge → Bool
is_unconsumed id c = c.id == id && is_none c.consumed_at

abbrev pub exhausted : ℕ → PhoneOtpChallenge → PhoneOtpChallenge
exhausted now c = record c { consumed_at = some now; last_attempt_at = some now }

abbrev pub missed : Bool → ℕ → PhoneOtpChallenge → PhoneOtpChallenge
missed limited now c = record c {
  attempt_count = suc c.attempt_count;
  last_attempt_at = some now;
  consumed_at = if limited then some now else c.consumed_at;
}

abbrev pub claimed_challenge : ℕ → PhoneOtpChallenge → PhoneOtpChallenge
claimed_challenge now c = record c {
  consumed_at = some now;
  last_attempt_at = some now;
  attempt_count = suc c.attempt_count;
}

abbrev pub with_user : ℕ → PhoneOtpChallenge → PhoneOtpChallenge
with_user user c = record c { user_id = some user }

abbrev pub change_challenges :
    (PhoneOtpChallenge → Bool) → (PhoneOtpChallenge → PhoneOtpChallenge) → Action Auth (Unit {0})
change_challenges p f = modify (λ s. record s { challenges = change p f s.challenges })

abbrev pub audit_verify :
    AuditResult → AuthRequestMeta → Option String → AuditMetadata → Action Auth (Unit {0})
audit_verify result meta masked metadata =
    write_audit_event (audit AuditKind.verify result meta masked metadata)

abbrev pub refuse_challenge :
    {A : Type 0} → AuthRequestMeta → Option String → String → Action Auth A
refuse_challenge meta masked reason =
    audit_verify AuditResult.rejected meta masked (AuditMetadata.of_reason reason)
    >> raise ApiError.invalid_otp_challenge

abbrev pub refuse_exhausted : PhoneOtpChallenge → AuthRequestMeta → ℕ → Action Auth SignedIn
refuse_exhausted c meta now = do
  change_challenges (is_unconsumed c.id) (exhausted now)
  audit_verify AuditResult.rate_limited meta (some (mask_phone_number c.phone_number))
      (AuditMetadata.of_reason "max_attempts")
  raise ApiError.phone_otp_rate_limited

abbrev pub missed_audit : Bool → PhoneOtpChallenge → AuthRequestMeta → AuditParams
missed_audit limited c meta =
    audit AuditKind.verify (if limited then AuditResult.rate_limited else AuditResult.rejected) meta
      (some (mask_phone_number c.phone_number))
      (AuditMetadata.of_attempts (if limited then "max_attempts" else "invalid_code")
        (suc c.attempt_count))

abbrev pub missed_error : Bool → ApiError
missed_error limited =
    if limited then ApiError.phone_otp_rate_limited else ApiError.invalid_otp_code

abbrev pub refuse_code_as : Bool → PhoneOtpChallenge → AuthRequestMeta → ℕ → Action Auth SignedIn
refuse_code_as limited c meta now = do
  change_challenges (is_unconsumed c.id) (missed limited now)
  write_audit_event (missed_audit limited c meta)
  raise (missed_error limited)

abbrev pub refuse_code : PhoneOtpChallenge → AuthRequestMeta → ℕ → Action Auth SignedIn
refuse_code c meta now =
    refuse_code_as (leb phone_otp_max_attempts (suc c.attempt_count)) c meta now

module _ (context : OtpContext) (jwt : Jwt) where
  -- The challenge is consumed: the user and the session.
  unfoldable pub sign_in : PhoneOtpChallenge → AuthRequestMeta → ℕ → Action Auth SignedIn
  sign_in c meta now = do
    found ← find_or_create_user c.phone_number
    update_challenge c.id (with_user found.0.id)
    record_legal_acceptance found.0.id now
    session ← create_session_record jwt found.0.id AuthProvider.phone_otp now
    write_audit_event
        (record (audit AuditKind.verify AuditResult.success meta
          (some (mask_phone_number c.phone_number)) (AuditMetadata.of_sign_in found.1)) {
            user_id = some found.0.id;
            session_id = some session.0;
          })
    pure (record { tokens = session.1; user_id = found.0.id; is_new_user = found.1 })

  unfoldable pub claim : PhoneOtpChallenge → AuthRequestMeta → ℕ → Action Auth SignedIn
  claim c meta now = do
    consumed ← gets (λ s. count (is_claimable c.id now) s.challenges)
    change_challenges (is_claimable c.id now) (claimed_challenge now)
    (if consumed == 0
        then refuse_challenge meta (some (mask_phone_number c.phone_number)) "claim_failed"
        else sign_in c meta now)

  abbrev pub verify_open : PhoneOtpChallenge → String → AuthRequestMeta → ℕ → Action Auth SignedIn
  verify_open c code meta now =
      if leb phone_otp_max_attempts c.attempt_count
      then refuse_exhausted c meta now
      else (if verify_code context code c.code_salt c.code_hash
          then claim c meta now
          else refuse_code c meta now)

  abbrev pub verify_found :
      Option PhoneOtpChallenge → String → AuthRequestMeta → ℕ → Action Auth SignedIn
  verify_found none code meta now = refuse_challenge meta none "invalid_challenge"
  verify_found (some c) code meta now =
      if not (is_none c.consumed_at) || leb c.expires_at now
      then refuse_challenge meta none "invalid_challenge"
      else verify_open c code meta now

  -- The callback of the transaction of `verifyPhoneCode`.
  unfoldable pub verify_in_transaction : ℕ → String → AuthRequestMeta → ℕ → Action Auth SignedIn
  verify_in_transaction id code meta now = do
    c ← gets (λ s. find (λ c. c.id == id) s.challenges)
    verify_found c code meta now

  -- `verifyPhoneCode`
  unfoldable pub verify_phone_code :
      Transaction Auth take_back → ℕ → String → AuthRequestMeta → ℕ → Action Auth SignedIn
  verify_phone_code tx id code meta now = tx.run SignedIn (verify_in_transaction id code meta now)
