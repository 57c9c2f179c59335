-- ===== src/Auth/Tables.antt =====
-- The tables of the sign-in, after backend/packages/database/prisma/schema.prisma (PhoneOtpChallenge,
-- Session, User, AuthAuditEvent), and the reads and writes that
-- backend/apps/api/src/services/auth.service.ts shares among its methods.
-- Ids are numbers from one counter, which stands for `randomUUID` and the default `cuid()`: they are
-- new whenever they are drawn, also after a rollback.
use frendly.Common.{ℕ, suc, String, Bool, Option, List, [], ◌∷◌, ◌++◌}
use frendly.Common.Action.{Action, pure, gets, modify, ◌>>=◌, ◌>>◌}

pub data AuthProvider : Type 0 where
  dev phone_otp session telegram google yandex apple : AuthProvider

pub data AuditKind : Type 0 where
  start verify refresh logout : AuditKind

pub data AuditResult : Type 0 where
  issued success rejected conflict rate_limited revoked : AuditResult

-- The JSON objects that the service writes into the column `metadata`.
pub data AuditMetadata : Type 0 where
  of_reason : String → AuditMetadata
  of_cooldown : ℕ → AuditMetadata
  of_attempts : String → ℕ → AuditMetadata
  of_issue : String → Bool → AuditMetadata
  of_sign_in : Bool → AuditMetadata
  of_logout : Bool → AuditMetadata

-- `AuthRequestMeta`
pub record AuthRequestMeta : Type 0 where
  pub request_id : Option String
  pub ip : Option String
  pub user_agent : Option String

pub record AuditParams : Type 0 where
  pub provider : AuthProvider
  pub kind : AuditKind
  pub result : AuditResult
  pub meta : AuthRequestMeta
  pub user_id : Option ℕ
  pub session_id : Option ℕ
  pub masked_phone : Option String
  pub metadata : Option AuditMetadata

pub record AuthAuditEvent : Type 0 where
  pub id : ℕ
  pub params : AuditParams

pub record PhoneOtpChallenge : Type 0 where
  pub id : ℕ
  pub user_id : Option ℕ
  pub phone_number : String
  pub code_hash : String
  pub code_salt : String
  pub request_key_hash : Option String
  pub attempt_count : ℕ
  pub last_attempt_at : Option ℕ
  pub last_issued_at : Option ℕ
  pub expires_at : ℕ
  pub consumed_at : Option ℕ
  pub created_at : ℕ

-- The three columns of an acceptance are written together, with the version of the terms.
pub record User : Type 0 where
  pub id : ℕ
  pub display_name : String
  pub phone_number : Option String
  pub legal_accepted_at : Option ℕ
  pub legal_terms_version : Option String

pub record Session : Type 0 where
  pub id : ℕ
  pub user_id : ℕ
  pub refresh_token_id : ℕ
  pub provider : AuthProvider
  pub last_used_at : Option ℕ
  pub revoked_at : Option ℕ

-- `cached` holds the sessions with a key in Redis.
pub record Auth : Type 0 where
  pub challenges : List PhoneOtpChallenge
  pub users : List User
  pub sessions : List Session
  pub audit_events : List AuthAuditEvent
  pub cached : List ℕ
  pub next_id : ℕ

-- A rollback takes back the tables; ids that were drawn stay drawn.
abbrev pub take_back : Auth → Auth → Auth
take_back before at_throw = record before { next_id = at_throw.next_id }

abbrev pub draw_id : Action Auth ℕ
draw_id = do id ← gets (λ s. s.next_id); modify (λ s. record s { next_id = suc s.next_id }); pure id

-- `writeAuditEvent`
unfoldable pub write_audit_event : AuditParams → Action Auth (Unit {0})
write_audit_event params = do
  id ← draw_id
  modify (λ s. record s {
    audit_events = s.audit_events ++ (record { id = id; params = params } ∷ []);
  })
