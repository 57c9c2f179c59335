-- ===== src/Offers/Issue.antt =====
-- `issueCode` and `loadIssueContext`
-- (backend/apps/api/src/services/partner-offer-code.service.ts).
use frendly.Common.{
  ℕ, zero, suc, ◌==◌, ltb, Bool, true, false, not, ◌&&◌, ◌||◌, Option, none, some, List, [], ◌∷◌,
  ◌++◌, find, count, str_eq, if◌then◌else◌,
}
use frendly.Common.Action.{
  Action, ApiError, pure, raise, gets, or_raise, ◌>>=◌, ◌>>◌, raise_if, modify,
}
use frendly.Offers.Tables.{
  OfferCodeStatus, PartnerOfferCode, EveningSession, Participant, PartnerOffer, EveningRouteStep,
  OfferEvent, Offers,
}
use frendly.Offers.Codes.{OfferContext, code_for_id, hash_code, compute_offer_code_expires_at}
use frendly.Offers.Service.{CodeView, track, resolve_code_status, map_code}

-- What `loadIssueContext` returns, as far as it is used.
pub record IssueContext : Type 0 where
  pub session : EveningSession
  pub starts_at : ℕ
  pub offer : PartnerOffer

abbrev pub is_participant : ℕ → EveningSession → List Participant → Bool
is_participant user session participants =
    session.host_user_id == user
    || ltb 0
        (count (λ p. p.session_id == session.id && p.user_id == user && p.is_joined) participants)

-- The offer of a step, where it is the one that is asked for.
abbrev pub offer_of : ℕ → EveningRouteStep → Option PartnerOffer
offer_of offer step = elim step.partner_offer_id [
  | none ↦ none
  | some id ↦ if id == offer then step.partner_offer else none
]

unfoldable pub load_issue_context : ℕ → ℕ → ℕ → ℕ → Action Offers IssueContext
load_issue_context user session_id step_id offer_id = do
  found ← gets (λ s. find (λ x. x.id == session_id) s.sessions)
  session ← or_raise found ApiError.evening_session_not_found
  member ← gets (λ s. is_participant user session s.participants)
  raise_if (not member) ApiError.evening_session_membership_required
  starts_at ← or_raise session.starts_at ApiError.evening_session_start_missing
  step ← gets (λ s. find (λ x. x.id == step_id && x.route_id == session.route_id) s.steps)
  existing ← or_raise step ApiError.evening_step_not_found
  offer ← or_raise (offer_of offer_id existing) ApiError.partner_offer_not_found
  pure (record { session = session; starts_at = starts_at; offer = offer })

-- The unique columns of a user's code for an offer.
abbrev pub is_for : ℕ → ℕ → ℕ → ℕ → ℕ → PartnerOfferCode → Bool
is_for user session partner step offer c =
    c.user_id == user
    && c.session_id == session
    && c.partner_id == partner
    && c.step_id == step
    && c.offer_id == offer

-- `createCodeId`
abbrev pub draw_id : Action Offers ℕ
draw_id = do
  id ← gets (λ s. s.random s.drawn)
  modify (λ s. record s { drawn = suc s.drawn })
  pure id

abbrev pub add_code : PartnerOfferCode → Action Offers (Unit {0})
add_code c = modify (λ s. record s { codes = s.codes ++ (c ∷ []) })

module _ (context : OfferContext) where
  abbrev pub new_code : IssueContext → ℕ → ℕ → ℕ → ℕ → PartnerOfferCode
  new_code i user step offer id = record {
    id = id;
    code_hash = hash_code context (code_for_id context id);
    user_id = user;
    session_id = i.session.id;
    route_id = i.session.route_id;
    route_template_id = i.session.route_template_id;
    step_id = step;
    partner_id = i.offer.partner_id;
    venue_id = i.offer.venue_id;
    offer_id = offer;
    status = OfferCodeStatus.issued;
    activated_at = none;
    expires_at = compute_offer_code_expires_at context i.starts_at i.session.timezone;
    activated_ip_hash = none;
  }

  -- Whether a new row breaks a unique column.
  abbrev pub is_taken : PartnerOfferCode → List PartnerOfferCode → Bool
  is_taken new codes = ltb 0 (
      count
        (λ c.
          c.id == new.id
          || str_eq c.code_hash new.code_hash
          || is_for new.user_id new.session_id new.partner_id new.step_id new.offer_id c)
        codes)

  abbrev pub tell : PartnerOfferCode → Bool → ℕ → Action Offers CodeView
  tell c reused now =
      track (OfferEvent.code_issued c.id reused (resolve_code_status c now))
      >> pure (map_code context c now)

  -- The answer of the duplicate, or the next attempt.
  abbrev pub duplicate_or :
      Option PartnerOfferCode → ℕ → Action Offers CodeView → Action Offers CodeView
  duplicate_or none now next = next
  duplicate_or (some c) now next = tell c true now

  -- The attempts of `issueCode`: a unique column that refuses the row leads to the next one.
  unfoldable pub attempts : ℕ → IssueContext → ℕ → ℕ → ℕ → ℕ → Action Offers CodeView
  attempts zero i user step offer now = raise ApiError.partner_offer_code_generation_failed
  attempts (suc n) i user step offer now = do
    id ← draw_id
    taken ← gets (λ s. is_taken (new_code i user step offer id) s.codes)
    duplicate ← gets (λ s. find (is_for user i.session.id i.offer.partner_id step offer) s.codes)
    (if taken
        then duplicate_or duplicate now (attempts n i user step offer now)
        else (add_code (new_code i user step offer id)
            >> tell (new_code i user step offer id) false now))

  -- `issueCode`
  unfoldable pub issue_code : ℕ → ℕ → ℕ → ℕ → ℕ → Action Offers CodeView
  issue_code user session step offer now = do
    i ← load_issue_context user session step offer
    existing ← gets (λ s. find (is_for user session i.offer.partner_id step offer) s.codes)
    duplicate_or existing now (attempts 3 i user step offer now)
