-- ===== src/Auth/Sessions.antt =====
-- Sessions in `AuthService` (backend/apps/api/src/services/auth.service.ts): createSessionRecord,
-- refreshSession, logout and recordLegalAcceptance, with the tokens of
-- backend/packages/database/src/auth-tokens.ts.
use frendly.Common.{
  is_none, ℕ, ◌+◌, ◌<◌, ◌==◌, String, Bool, not, ◌&&◌, ◌||◌, Option, none, some, [], ◌∷◌, ◌++◌,
  find, change, count, keep, if◌then◌else◌, ◌≡◌,
}
use frendly.Common.Action.{Action, ApiError, pure, raise, gets, ◌>>=◌, ◌>>◌, modify}
use frendly.Auth.Tables.{
  AuthProvider, AuditKind, AuditResult, AuditMetadata, AuthRequestMeta, AuditParams, User, Session,
  Auth, draw_id, write_audit_event,
}

-- The payload of a token, by its `kind`.
pub data Claims : Type 0 where
  of_access : ℕ → ℕ → Claims
  of_refresh : ℕ → ℕ → ℕ → Claims
  of_other : Claims

-- `jsonwebtoken` with `getJwtConfig`, which the program does not implement: a token that was signed
-- is verified under the same secret until it expires, and the claims are in the token: at no time is it
-- verified with others.
pub record Jwt : Type 0 where
  pub access_secret : String
  pub refresh_secret : String
  pub access_ttl : ℕ
  pub refresh_ttl : ℕ
  pub sign : String → ℕ → ℕ → Claims → String
  pub verify : String → ℕ → String → Option Claims
  pub verify_signed :
      (secret : String) (ttl now later : ℕ) (claims : Claims)
      → later < now + ttl
      → verify secret later (sign secret ttl now claims) ≡ some claims
  pub verify_stable :
      (secret : String) (token : String) (now later : ℕ) (claims claims' : Claims)
      → verify secret now token ≡ some claims
      → verify secret later token ≡ some claims'
      → claims ≡ claims'

-- `TokenPair`
pub record TokenPair : Type 0 where
  pub access_token : String
  pub refresh_token : String

-- `RefreshTokenPayload`
pub record RefreshTokenPayload : Type 0 where
  pub user_id : ℕ
  pub session_id : ℕ
  pub refresh_token_id : ℕ

-- `isRefreshTokenPayload`
abbrev pub refresh_payload : Option Claims → Option RefreshTokenPayload
refresh_payload none = none
refresh_payload (some (Claims.of_access user session)) = none
refresh_payload (some (Claims.of_refresh user session token)) =
    some (record { user_id = user; session_id = session; refresh_token_id = token })
refresh_payload (some Claims.of_other) = none

-- An audit event of a session.
abbrev pub session_audit :
    AuditKind
    → AuditResult
    → AuthRequestMeta
    → Option ℕ
    → Option ℕ
    → Option AuditMetadata
    → AuditParams
session_audit kind result meta user session metadata = record {
  provider = AuthProvider.session;
  kind = kind;
  result = result;
  meta = meta;
  user_id = user;
  session_id = session;
  masked_phone = none;
  metadata = metadata;
}

abbrev pub is_stale : RefreshTokenPayload → Session → Bool
is_stale p x =
    not (x.user_id == p.user_id)
    || not (is_none x.revoked_at)
    || not (x.refresh_token_id == p.refresh_token_id)

abbrev pub is_unrevoked : ℕ → Session → Bool
is_unrevoked id x = x.id == id && is_none x.revoked_at

abbrev pub can_rotate : RefreshTokenPayload → Session → Session → Bool
can_rotate p x y = is_unrevoked x.id y && y.refresh_token_id == p.refresh_token_id

abbrev pub rotated : ℕ → ℕ → Session → Session
rotated token now x = record x { refresh_token_id = token; last_used_at = some now }

abbrev pub revoked : ℕ → Session → Session
revoked now x = record x { revoked_at = some now }

abbrev pub accepted : ℕ → User → User
accepted now u = record u { legal_accepted_at = some now; legal_terms_version = some "2026-06-02" }

-- `recordLegalAcceptance`
unfoldable pub record_legal_acceptance : ℕ → ℕ → Action Auth (Unit {0})
record_legal_acceptance user now =
    modify (λ s. record s { users = change (λ u. u.id == user) (accepted now) s.users })

-- `sessionCacheKey` and `redisCache.delete`
abbrev pub forget_session : ℕ → Action Auth (Unit {0})
forget_session id = modify (λ s. record s { cached = keep (λ x. not (x == id)) s.cached })

-- `logout`
unfoldable pub logout : Option ℕ → AuthRequestMeta → ℕ → Action Auth (Unit {0})
logout none meta now = pure tt
logout (some id) meta now = do
  live ← gets (λ s. count (is_unrevoked id) s.sessions)
  modify (λ s. record s { sessions = change (is_unrevoked id) (revoked now) s.sessions })
  write_audit_event (
      session_audit AuditKind.logout
        (if live == 0 then AuditResult.success else AuditResult.revoked) meta none (some id)
        (some (AuditMetadata.of_logout (live == 0))))
  forget_session id

abbrev pub refuse_refresh :
    {A : Type 0} → AuthRequestMeta → Option ℕ → Option ℕ → String → Action Auth A
refuse_refresh meta user session reason =
    write_audit_event (
      session_audit AuditKind.refresh AuditResult.rejected meta user session
        (some (AuditMetadata.of_reason reason)))
    >> raise ApiError.invalid_refresh_token

module _ (jwt : Jwt) where
  abbrev pub sign_access_token : ℕ → ℕ → ℕ → String
  sign_access_token user session now =
      jwt.sign jwt.access_secret jwt.access_ttl now (Claims.of_access user session)

  abbrev pub sign_refresh_token : ℕ → ℕ → ℕ → ℕ → String
  sign_refresh_token user session token now =
      jwt.sign jwt.refresh_secret jwt.refresh_ttl now (Claims.of_refresh user session token)

  abbrev pub verify_refresh_token : String → ℕ → Option RefreshTokenPayload
  verify_refresh_token token now = refresh_payload (jwt.verify jwt.refresh_secret now token)

  abbrev pub new_pair : ℕ → ℕ → ℕ → ℕ → TokenPair
  new_pair user session token now = record {
    access_token = sign_access_token user session now;
    refresh_token = sign_refresh_token user session token now;
  }

  -- `createSessionRecord`: the session's id, and its tokens.
  unfoldable pub create_session_record : ℕ → AuthProvider → ℕ → Action Auth (ℕ × TokenPair)
  create_session_record user provider now = do
    id ← draw_id
    token ← draw_id
    modify (λ s. record s {
      sessions =
          s.sessions
          ++ (record {
            id = id;
            user_id = user;
            refresh_token_id = token;
            provider = provider;
            last_used_at = none;
            revoked_at = none;
          }
              ∷ []);
    })
    pure (id, new_pair user id token now)

  -- The rotation of a session that was read, and the answer.
  unfoldable pub rotate :
      RefreshTokenPayload → Session → AuthRequestMeta → ℕ → Action Auth TokenPair
  rotate p x meta now = do
    next ← draw_id
    updated ← gets (λ s. count (can_rotate p x) s.sessions)
    modify (λ s. record s { sessions = change (can_rotate p x) (rotated next now) s.sessions })
    (if updated == 0
        then refuse_refresh meta (some x.user_id) (some x.id) "rotation_conflict"
        else (write_audit_event (
              session_audit AuditKind.refresh AuditResult.success meta (some x.user_id) (some x.id)
                none)
            >> pure (new_pair x.user_id x.id next now)))

  abbrev pub refresh_found :
      RefreshTokenPayload → Option Session → AuthRequestMeta → ℕ → Action Auth TokenPair
  refresh_found p none meta now =
      refuse_refresh meta (some p.user_id) (some p.session_id) "stale_session"
  refresh_found p (some x) meta now =
      if is_stale p x
      then refuse_refresh meta (some p.user_id) (some p.session_id) "stale_session"
      else rotate p x meta now

  abbrev pub refresh_verified :
      Option RefreshTokenPayload → AuthRequestMeta → ℕ → Action Auth TokenPair
  refresh_verified none meta now = refuse_refresh meta none none "invalid_payload"
  refresh_verified (some p) meta now = do
    session ← gets (λ s. find (λ x. x.id == p.session_id) s.sessions)
    refresh_found p session meta now

  -- `refreshSession`
  unfoldable pub refresh_session : String → AuthRequestMeta → ℕ → Action Auth TokenPair
  refresh_session token meta now = refresh_verified (verify_refresh_token token now) meta now
