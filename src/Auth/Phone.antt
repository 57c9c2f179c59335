-- ===== src/Auth/Phone.antt =====
-- Phone codes in `AuthService` (backend/apps/api/src/services/auth.service.ts): requestPhoneCode and
-- verifyPhoneCode, with the user and the session that a right code gives.
use Prim.Native.String.{String}
use frendly.Common.{
  is_none, ℕ, ◌+◌, ◌-◌, ◌/◌, ◌==◌, leb, ltb, Bool, true, false, not, ◌&&◌, Option, none, some, List,
  [], ◌∷◌, ◌++◌, if◌then◌else◌, find, change, count, str_eq,
}
use frendly.Common.Text.{is_empty}
use frendly.Common.Action.{
  Action, ApiError, Result, pure, raise, gets, ◌>>=◌, ◌>>◌, raise_if, modify,
}
use frendly.Auth.Tables.{
  AuthProvider, AuditKind, AuditResult, AuditMetadata, AuthRequestMeta, AuditParams,
  PhoneOtpChallenge, User, Auth, draw_id, write_audit_event,
}
use frendly.Auth.Numbers.{normalize_phone, mask_phone_number}
use frendly.Auth.Codes.{
  OtpContext, phone_otp_cooldown_ms, phone_otp_request_window_ms,
  phone_otp_max_requests_per_context, create_payload, local_code_hint, deliver_code,
  hash_request_key, PhoneOtpPayload, PhoneOtpDeliveryResult,
}

-- An audit event of the phone code.
abbrev pub audit :
    AuditKind → AuditResult → AuthRequestMeta → Option String → AuditMetadata → AuditParams
audit kind result meta masked metadata = record {
  provider = AuthProvider.phone_otp;
  kind = kind;
  result = result;
  meta = meta;
  user_id = none;
  session_id = none;
  masked_phone = masked;
  metadata = some metadata;
}

abbrev pub is_open_for : String → ℕ → PhoneOtpChallenge → Bool
is_open_for phone now c =
    str_eq c.phone_number phone && is_none c.consumed_at && ltb now c.expires_at

-- `orderBy: { createdAt: 'desc' }`: the latest row that passes.
abbrev pub newer : PhoneOtpChallenge → Option PhoneOtpChallenge → PhoneOtpChallenge
newer c none = c
newer c (some d) = if ltb c.created_at d.created_at then d else c

unfoldable pub latest :
    (PhoneOtpChallenge → Bool) → List PhoneOtpChallenge → Option PhoneOtpChallenge
latest p [] = none
latest p (c ∷ cs) = let rest = latest p cs in if p c then some (newer c rest) else rest

abbrev pub or_time : Option ℕ → ℕ → ℕ
or_time none t = t
or_time (some u) t = u

-- What `requestPhoneCode` returns.
pub record PhoneCodeView : Type 0 where
  pub challenge_id : ℕ
  pub masked_phone : String
  pub resend_after_seconds : ℕ
  pub local_code_hint : Option String

abbrev pub same_key : Option String → Option String → Bool
same_key none none = true
same_key none (some b) = false
same_key (some a) none = false
same_key (some a) (some b) = str_eq a b

-- `createdAt > now - window`, where a time before 1970 is none.
abbrev pub is_recent : String → ℕ → PhoneOtpChallenge → Bool
is_recent key now c =
    same_key c.request_key_hash (some key) && ltb now (c.created_at + phone_otp_request_window_ms)

-- `Math.ceil(ms / 1000)`
abbrev pub ceil_seconds : ℕ → ℕ
ceil_seconds ms = (ms + 999) / 1000

abbrev pub has_phone : String → User → Bool
has_phone phone u = elim u.phone_number [ none ↦ false | some p ↦ str_eq p phone ]

abbrev pub id_of : Option User → Option ℕ
id_of none = none
id_of (some u) = some u.id

abbrev pub or_previous : Option ℕ → Option ℕ → Option ℕ
or_previous none old = old
or_previous (some a) old = some a

abbrev pub of_delivery : Result PhoneOtpDeliveryResult → Action Auth PhoneOtpDeliveryResult
of_delivery r s = (r, s)

abbrev pub reissued :
    Option ℕ → PhoneOtpPayload → Option String → ℕ → PhoneOtpChallenge → PhoneOtpChallenge
reissued user payload key now c = record c {
  user_id = or_previous user c.user_id;
  code_hash = payload.code_hash;
  code_salt = payload.code_salt;
  request_key_hash = key;
  attempt_count = 0;
  last_attempt_at = none;
  last_issued_at = some now;
  expires_at = payload.expires_at;
}

abbrev pub new_challenge :
    Option ℕ → String → PhoneOtpPayload → Option String → ℕ → ℕ → PhoneOtpChallenge
new_challenge user phone payload key now id = record {
  id = id;
  user_id = user;
  phone_number = phone;
  code_hash = payload.code_hash;
  code_salt = payload.code_salt;
  request_key_hash = key;
  attempt_count = 0;
  last_attempt_at = none;
  last_issued_at = some now;
  expires_at = payload.expires_at;
  consumed_at = none;
  created_at = now;
}

-- `phoneOtpChallenge.update` by the id: refused where no row has it.
abbrev pub update_challenge : ℕ → (PhoneOtpChallenge → PhoneOtpChallenge) → Action Auth (Unit {0})
update_challenge id f = do
  rows ← gets (λ s. count (λ c. c.id == id) s.challenges)
  raise_if (rows == 0) ApiError.record_missing
  modify (λ s. record s { challenges = change (λ c. c.id == id) f s.challenges })

-- The challenge of a request: the open one with a new code, or a new one.
abbrev pub save_challenge :
    Option PhoneOtpChallenge
    → Option ℕ
    → String
    → PhoneOtpPayload
    → Option String
    → ℕ
    → Action Auth ℕ
save_challenge (some c) user phone payload key now = do
  update_challenge c.id (reissued user payload key now)
  pure c.id
save_challenge none user phone payload key now = do
  id ← draw_id
  modify (λ s. record s {
    challenges = s.challenges ++ (new_challenge user phone payload key now id ∷ []);
  })
  pure id

abbrev pub refuse_context : AuthRequestMeta → String → Action Auth PhoneCodeView
refuse_context meta phone = do
  write_audit_event (
      audit AuditKind.start AuditResult.rate_limited meta (some (mask_phone_number phone))
        (AuditMetadata.of_reason "request_context_limit"))
  raise ApiError.phone_otp_rate_limited

module _ (context : OtpContext) where
  -- A code is derived, delivered and saved.
  unfoldable pub issue_challenge :
      Option PhoneOtpChallenge
      → Option String
      → String
      → AuthRequestMeta
      → String
      → ℕ
      → Action Auth PhoneCodeView
  issue_challenge active key salt meta phone now = do
    delivery ← of_delivery (deliver_code context phone (create_payload context salt now).code)
    existing ← gets (λ s. find (has_phone phone) s.users)
    id ← save_challenge active (id_of existing) phone (create_payload context salt now) key now
    write_audit_event
        (record (audit AuditKind.start AuditResult.issued meta (some (mask_phone_number phone))
          (AuditMetadata.of_issue delivery.provider (not (is_none active)))) {
            user_id = id_of existing;
          })
    pure (record {
      challenge_id = id;
      masked_phone = mask_phone_number phone;
      resend_after_seconds = ceil_seconds phone_otp_cooldown_ms;
      local_code_hint = delivery.local_code_hint;
    })

  -- The limit on the requests of one address and browser.
  unfoldable pub issue_within_limit :
      Option PhoneOtpChallenge
      → Option String
      → String
      → AuthRequestMeta
      → String
      → ℕ
      → Action Auth PhoneCodeView
  issue_within_limit active none salt meta phone now =
      issue_challenge active none salt meta phone now
  issue_within_limit active (some key) salt meta phone now = do
    recent ← gets (λ s. count (is_recent key now) s.challenges)
    (if leb phone_otp_max_requests_per_context recent
        then refuse_context meta phone
        else issue_challenge active (some key) salt meta phone now)

  -- The answer of a request within the cooldown of the open challenge.
  unfoldable pub cool_down :
      PhoneOtpChallenge → ℕ → AuthRequestMeta → String → Action Auth PhoneCodeView
  cool_down c retry_after_ms meta phone = do
    write_audit_event (
        audit AuditKind.start AuditResult.rate_limited meta (some (mask_phone_number phone))
          (AuditMetadata.of_cooldown (ceil_seconds retry_after_ms)))
    pure (record {
      challenge_id = c.id;
      masked_phone = mask_phone_number phone;
      resend_after_seconds = ceil_seconds retry_after_ms;
      local_code_hint = local_code_hint context c.code_salt;
    })

  abbrev pub last_issued : PhoneOtpChallenge → ℕ
  last_issued c = or_time c.last_issued_at c.created_at

  abbrev pub request_normalized :
      Option PhoneOtpChallenge → String → AuthRequestMeta → String → ℕ → Action Auth PhoneCodeView
  request_normalized none salt meta phone now =
      issue_within_limit none (hash_request_key context meta) salt meta phone now
  request_normalized (some c) salt meta phone now =
      if ltb now (last_issued c + phone_otp_cooldown_ms)
      then cool_down c (last_issued c + phone_otp_cooldown_ms - now) meta phone
      else issue_within_limit (some c) (hash_request_key context meta) salt meta phone now

  -- `requestPhoneCode`
  unfoldable pub request_phone_code :
      String → AuthRequestMeta → String → ℕ → Action Auth PhoneCodeView
  request_phone_code salt meta raw now =
      let phone = normalize_phone raw in
      let refused : Action Auth PhoneCodeView =
        write_audit_event (
          audit AuditKind.start AuditResult.rejected meta none
            (AuditMetadata.of_reason "invalid_phone_number"))
        >> raise ApiError.invalid_phone_number in
      let requested : Action Auth PhoneCodeView =
        gets (λ s. latest (is_open_for phone now) s.challenges) >>= λ active.
        request_normalized active salt meta phone now in
      if is_empty phone then refused else requested
