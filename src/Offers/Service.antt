-- ===== src/Offers/Service.antt =====
-- `PartnerOfferCodeService` (backend/apps/api/src/services/partner-offer-code.service.ts): issueCode,
-- getCodeStatus and activateCode. The titles of a result are those of the rows that a code names and
-- are left out: a result has the code's id instead.
use Prim.Native.String.{String}
use frendly.Common.{
  is_none, ℕ, suc, ◌+◌, ◌==◌, leb, ltb, Bool, true, false, ◌&&◌, Option, none, some, List, [], ◌∷◌,
  ◌++◌, find, change, count, str_eq, if◌then◌else◌,
}
use frendly.Common.Text.{trim, is_empty}
use frendly.Common.Action.{Action, ApiError, pure, raise, gets, ◌>>=◌, ◌>>◌, raise_if, modify}
use frendly.Auth.Phone.{same_key}
use frendly.Offers.Tables.{OfferCodeStatus, PartnerOfferCode, ActivationBucket, OfferEvent, Offers}
use frendly.Offers.Codes.{OfferContext, code_for_id, hash_code, hash_nullable}

-- `resolveStatus` of a row, at a time
abbrev pub resolve_code_status : PartnerOfferCode → ℕ → OfferCodeStatus
resolve_code_status c now = elim c.status [
  | OfferCodeStatus.activated ↦ OfferCodeStatus.activated
  | OfferCodeStatus.expired ↦ OfferCodeStatus.expired
  | OfferCodeStatus.issued ↦
      if leb c.expires_at now then OfferCodeStatus.expired else OfferCodeStatus.issued
]

-- `PartnerOfferCodeDto`
pub record CodeView : Type 0 where
  pub id : ℕ
  pub code : String
  pub status : OfferCodeStatus
  pub expires_at : ℕ
  pub activated_at : Option ℕ

pub data PublicStatus : Type 0 where
  not_found already_activated too_late done : PublicStatus

-- `PublicPartnerOfferCodeActivationDto`; `too_late` is `expired` and `done` is `activated`.
pub record ActivationView : Type 0 where
  pub status : PublicStatus
  pub code_id : Option ℕ
  pub activated_at : Option ℕ

abbrev pub track : OfferEvent → Action Offers (Unit {0})
track e = modify (λ s. record s { events = s.events ++ (e ∷ []) })

-- `updateMany` of the rows of a code that are issued and not activated.
abbrev pub is_open : ℕ → PartnerOfferCode → Bool
is_open id c =
    c.id == id
    && elim c.status [ OfferCodeStatus.issued ↦ true | _ ↦ false ]
    && is_none c.activated_at

abbrev pub expire : PartnerOfferCode → PartnerOfferCode
expire c = record c { status = OfferCodeStatus.expired }

abbrev pub marked_activated : ℕ → Option String → PartnerOfferCode → PartnerOfferCode
marked_activated now ip_hash c = record c {
  status = OfferCodeStatus.activated;
  activated_at = some now;
  activated_ip_hash = ip_hash;
}

-- `markExpired`
unfoldable pub mark_expired : ℕ → Action Offers (Unit {0})
mark_expired id = modify (λ s. record s { codes = change (is_open id) expire s.codes })

abbrev pub public_result : PublicStatus → Option PartnerOfferCode → ActivationView
public_result status none = record { status = status; code_id = none; activated_at = none }
public_result status (some c) = record {
  status = status;
  code_id = some c.id;
  activated_at = c.activated_at;
}

-- The answer where another activation came between.
abbrev pub overtaken : Option PartnerOfferCode → PartnerOfferCode → ℕ → ActivationView
overtaken none c now = public_result PublicStatus.too_late (some c)
overtaken (some latest) c now = elim (resolve_code_status latest now) [
  | OfferCodeStatus.activated ↦ public_result PublicStatus.already_activated (some latest)
  | _ ↦ public_result PublicStatus.too_late (some latest)
]

abbrev pub bumped : ActivationBucket → ActivationBucket
bumped b = record b { count = suc b.count }

-- `Map.set`
abbrev pub set_bucket : ActivationBucket → List ActivationBucket → List ActivationBucket
set_bucket b [] = b ∷ []
set_bucket b (c ∷ cs) = if same_key c.key b.key then b ∷ cs else c ∷ set_bucket b cs

module _ (context : OfferContext) where
  -- `activationRateLimitKey`: `none` is `ip:unknown`.
  abbrev pub rate_limit_key : Option String → Option String
  rate_limit_key ip = hash_nullable context ip

  abbrev pub new_bucket : Option String → ℕ → ActivationBucket
  new_bucket key now = record {
    key = key;
    reset_at = now + context.activation_window_ms;
    count = 1;
  }

  abbrev pub limit_with : Option ActivationBucket → Option String → ℕ → Action Offers (Unit {0})
  limit_with none key now =
      modify (λ s. record s { buckets = set_bucket (new_bucket key now) s.buckets })
  limit_with (some b) key now =
      if leb b.reset_at now
      then modify (λ s. record s { buckets = set_bucket (new_bucket key now) s.buckets })
      else (modify (λ s. record s { buckets = set_bucket (bumped b) s.buckets })
          >> raise_if (ltb context.max_activation_attempts_per_window (suc b.count))
              ApiError.partner_offer_code_rate_limited)

  -- `assertActivationRateLimit`
  unfoldable pub assert_activation_rate_limit : Option String → ℕ → Action Offers (Unit {0})
  assert_activation_rate_limit ip now = do
    current ← gets (λ s. find (λ b. same_key b.key (rate_limit_key ip)) s.buckets)
    limit_with current (rate_limit_key ip) now

  -- The activation of a code that was issued and has not expired.
  unfoldable pub activate_issued :
      PartnerOfferCode → Option String → ℕ → Action Offers ActivationView
  activate_issued c ip now = do
    updated ← gets (λ s. count (is_open c.id) s.codes)
    modify (λ s. record s {
      codes = change (is_open c.id) (marked_activated now (hash_nullable context ip)) s.codes;
    })
    (if updated == 0
        then gets (λ s. overtaken (find (λ d. d.id == c.id) s.codes) c now)
        else (track (OfferEvent.offer_activated c.id)
            >> pure (public_result PublicStatus.done (some (marked_activated now none c)))))

  abbrev pub activate_as :
      OfferCodeStatus → PartnerOfferCode → Option String → ℕ → Action Offers ActivationView
  activate_as OfferCodeStatus.activated c ip now =
      pure (public_result PublicStatus.already_activated (some c))
  activate_as OfferCodeStatus.expired c ip now =
      mark_expired c.id >> pure (public_result PublicStatus.too_late (some c))
  activate_as OfferCodeStatus.issued c ip now = activate_issued c ip now

  abbrev pub activate_found :
      Option PartnerOfferCode → Option String → ℕ → Action Offers ActivationView
  activate_found none ip now = pure (public_result PublicStatus.not_found none)
  activate_found (some c) ip now = activate_as (resolve_code_status c now) c ip now

  abbrev pub activate_normalized : String → Option String → ℕ → Action Offers ActivationView
  activate_normalized code ip now = do
    assert_activation_rate_limit ip now
    found ← gets (λ s. find (λ c. str_eq c.code_hash (hash_code context code)) s.codes)
    activate_found found ip now

  -- `activateCode`
  unfoldable pub activate_code : String → Option String → ℕ → Action Offers ActivationView
  activate_code raw ip now =
      let code = context.to_upper_case (trim raw) in
      if is_empty code
      then pure (public_result PublicStatus.not_found none)
      else activate_normalized code ip now

  -- `mapCode`
  abbrev pub map_code : PartnerOfferCode → ℕ → CodeView
  map_code c now = record {
    id = c.id;
    code = code_for_id context c.id;
    status = resolve_code_status c now;
    expires_at = c.expires_at;
    activated_at = c.activated_at;
  }

  abbrev pub viewed : Option PartnerOfferCode → ℕ → Action Offers CodeView
  viewed none now = raise ApiError.partner_offer_code_not_found
  viewed (some c) now =
      track (OfferEvent.code_viewed c.id (resolve_code_status c now)) >> pure (map_code c now)

  -- `getCodeStatus`
  unfoldable pub get_code_status : ℕ → ℕ → ℕ → Action Offers CodeView
  get_code_status user id now = do
    found ← gets (λ s. find (λ c. c.id == id && c.user_id == user) s.codes)
    viewed found now
