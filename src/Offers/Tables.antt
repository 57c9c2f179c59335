-- ===== src/Offers/Tables.antt =====
-- The tables that partner offer codes read and write, after
-- backend/packages/database/prisma/schema.prisma (PartnerOfferCode, EveningSession,
-- EveningSessionParticipant, EveningRouteStep), and the state of `PartnerOfferCodeService`.
-- Ids are numbers: the program only compares them. A time is in milliseconds.
use frendly.Common.{ℕ, String, Bool, Option, List}

pub data OfferCodeStatus : Type 0 where
  issued activated expired : OfferCodeStatus

-- A row without the column of the user agent, which is only written.
pub record PartnerOfferCode : Type 0 where
  pub id : ℕ
  pub code_hash : String
  pub user_id : ℕ
  pub session_id : ℕ
  pub route_id : ℕ
  pub route_template_id : Option ℕ
  pub step_id : ℕ
  pub partner_id : ℕ
  pub venue_id : ℕ
  pub offer_id : ℕ
  pub status : OfferCodeStatus
  pub activated_at : Option ℕ
  pub expires_at : ℕ
  pub activated_ip_hash : Option String

-- `timezone` is a column of the session's route.
pub record EveningSession : Type 0 where
  pub id : ℕ
  pub route_id : ℕ
  pub route_template_id : Option ℕ
  pub host_user_id : ℕ
  pub starts_at : Option ℕ
  pub timezone : Option String

pub record Participant : Type 0 where
  pub session_id : ℕ
  pub user_id : ℕ
  pub is_joined : Bool

pub record PartnerOffer : Type 0 where
  pub id : ℕ
  pub partner_id : ℕ
  pub venue_id : ℕ

pub record EveningRouteStep : Type 0 where
  pub id : ℕ
  pub route_id : ℕ
  pub partner_offer_id : Option ℕ
  pub partner_offer : Option PartnerOffer

-- `ActivationBucket` with its key in the map
pub record ActivationBucket : Type 0 where
  pub key : Option String
  pub reset_at : ℕ
  pub count : ℕ

pub data OfferEvent : Type 0 where
  code_issued : ℕ → Bool → OfferCodeStatus → OfferEvent
  code_viewed : ℕ → OfferCodeStatus → OfferEvent
  offer_activated : ℕ → OfferEvent

-- `events` are the analytics of a code's id; `random` is the stream of new ids.
pub record Offers : Type 0 where
  pub codes : List PartnerOfferCode
  pub sessions : List EveningSession
  pub participants : List Participant
  pub steps : List EveningRouteStep
  pub buckets : List ActivationBucket
  pub events : List OfferEvent
  pub random : ℕ → ℕ
  pub drawn : ℕ
