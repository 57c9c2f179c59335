-- ===== src/Tests/Evenings.antt =====
-- Drafts of evening routes and offer codes at concrete inputs. `to_lower_case` keeps the text here.
use Prim.Native.String.{String}
use frendly.Common.{
  ◌/◌, ◌%◌, false, Option, none, some, List, [], ◌∷◌, min, All, ◌≡◌, ◌↔◌, ◌⊎◌, refl, arith,
}
use frendly.Common.Int.{pos}
use frendly.Common.Action.{ApiError, ok, err}
use frendly.Payments.Tables.{Json, Items, Fields, Number}
use frendly.Evening.Validator.{
  EveningRouteAiCandidateVenue, EveningRouteAiValidationBrief, EveningRouteAiDraftStepInput,
  EveningRouteAiDraftInput, ValidationStatus, validate_draft, steps_of, compute_score, check_steps,
  candidate_by_id,
}
use frendly.Common.Text.{trim}
use frendly.Evening.Hours.{is_time_inside_opening_hours, parse_time}
use frendly.Evening.Route.{IsRoute, validate_draft-IsRoute}
use frendly.Offers.Tables.{Offers}
use frendly.Offers.Codes.{
  OfferContext, hash_code, code_for_id, base32_encode, compute_offer_code_expires_at, approach,
}
use frendly.Calendar.{month_start, days_to_year, days_to_month}
use frendly.Offers.Issue.{issue_code, load_issue_context, attempts}
use frendly.Offers.Service.{
  ActivationView, PublicStatus, activate_code, activate_issued, assert_activation_rate_limit,
}
use frendly.Offers.Histories.{OfferCall, perform, perform_all, perform_all-kept, IsClean}
use frendly.Offers.Once.{activate_code_once, IsClean-IsKept}
use frendly.Offers.Rate.{passing, passing_lem}

-- Open from ten in the evening to two in the morning, every day.
abbrev night : Json
night = Json.object (
    Fields.field "daily"
      (Json.array (
        Items.item
          (Json.array
            (Items.item (Json.text "22:00") (Items.item (Json.text "2:00") Items.no_items)))
          Items.no_items))
      Fields.no_fields)

abbrev place : Option Number
place = some (Number.integer (pos 55))

abbrev candidates : List EveningRouteAiCandidateVenue
candidates =
    record { id = "bar"; lat = place; lng = place; opening_hours = some night }
    ∷ record { id = "roof"; lat = place; lng = none; opening_hours = none }
    ∷ []

abbrev brief : EveningRouteAiValidationBrief
brief = record {
  min_steps = 1;
  max_steps = 2;
  budget = none;
  mood = none;
  allow_repeat_venues = false;
}

abbrev step : String → String → EveningRouteAiDraftStepInput
step venue time = record {
  venue_id = some venue;
  partner_offer_id = none;
  time_label = some time;
  walk_min = some (pos 5);
}

abbrev draft : List EveningRouteAiDraftStepInput → EveningRouteAiDraftInput
draft steps = record { vibe = none; mood = none; budget = none; steps = some steps }

abbrev good : EveningRouteAiDraftInput
good = draft (step " bar " "01:30" ∷ [])

validate_draft-IsRoute_example :
    let r = validate_draft (λ t. t) brief candidates good in
    ((r.errors ≡ []) ↔ IsRoute brief candidates (steps_of good))
    × ((r.status ≡ ValidationStatus.invalid) ↔ ¬ (r.errors ≡ []))
validate_draft-IsRoute_example = validate_draft-IsRoute (λ t. t) brief candidates good

good_score : (validate_draft (λ t. t) brief candidates good).score ≡ 100
unfolding validate_draft compute_score check_steps trim candidate_by_id is_time_inside_opening_hours
    parse_time
good_score = refl

-- Twice the same bar, an unknown venue, and one step too many.
bad_score :
    (validate_draft
      (λ t. t)
      brief
      candidates
      (draft (step "bar" "23:00" ∷ step "bar" "12:00" ∷ step "club" "23:00" ∷ []))).score
    ≡ 10
unfolding validate_draft compute_score check_steps trim candidate_by_id is_time_inside_opening_hours
    parse_time
bad_score = refl

abbrev offer_context : OfferContext
offer_context = record {
  secret = "secret";
  activation_window_ms = 60_000;
  max_activation_attempts_per_window = 2;
  hmac = λ key id. id ∷ id ∷ id ∷ id ∷ id ∷ id ∷ id ∷ id ∷ id ∷ [];
  sha256 = λ t. t;
  to_upper_case = λ t. t;
  zoned_parts = λ zone t. record {
    year = 0;
    month = 0;
    day = t / 86_400_000;
    hour = t / 3_600_000 % 24;
    minute = t / 60_000 % 60;
    second = t / 1000 % 60;
  };
}

abbrev evening : Offers
evening = record {
  codes = [];
  sessions =
      record {
        id = 5;
        route_id = 3;
        route_template_id = none;
        host_user_id = 7;
        starts_at = some 70_000_000;
        timezone = some "UTC";
      }
      ∷ [];
  participants = [];
  steps =
      record {
        id = 4;
        route_id = 3;
        partner_offer_id = some 2;
        partner_offer = some (record { id = 2; partner_id = 1; venue_id = 9 });
      }
      ∷ [];
  buckets = [];
  events = [];
  random = λ n. 66;
  drawn = 0;
}

-- Three attempts in a window of two.
passing_lem_example :
    passing offer_context (some "10.0.0.1") (5000 ∷ 6000 ∷ 64_999 ∷ []) evening ≡ min 3 2
passing_lem_example =
    passing_lem offer_context (some "10.0.0.1") 5000 (6000 ∷ 64_999 ∷ []) evening (omega arith)
      (λ b h. absurd (cc)) (omega arith, (omega arith, tt))

abbrev issued : Offers
issued = perform_all offer_context (OfferCall.issue 7 5 4 2 1000 ∷ []) evening

abbrev activated : Offers
activated = (activate_code offer_context " IJBEEQSCIJBEE" none 2000 issued).1

abbrev shown : ActivationView
shown = record { status = PublicStatus.done; code_id = some 66; activated_at = some 2000 }

returned : activate_code offer_context " IJBEEQSCIJBEE" none 2000 issued ≡ (ok shown, activated)
unfolding activate_code trim assert_activation_rate_limit perform_all perform issue_code
    load_issue_context attempts hash_code code_for_id base32_encode compute_offer_code_expires_at
    approach month_start days_to_year days_to_month activate_issued
returned = refl

clean : All IsClean issued.codes
clean =
    perform_all-kept (All IsClean) IsClean-IsKept offer_context (OfferCall.issue 7 5 4 2 1000 ∷ [])
      evening tt

activate_code_once_example :
    let r = activate_code offer_context " IJBEEQSCIJBEE" (some "10.0.0.1") 90_000 (
      perform_all offer_context
        (OfferCall.issue 7 5 4 2 3000 ∷ OfferCall.view 7 66 4000 ∷ [])
        activated) in
    (r.0 ≡ err ApiError.partner_offer_code_rate_limited)
    ⊎ ((w : ActivationView) × ((r.0 ≡ ok w) × (w.status ≡ PublicStatus.already_activated)))
activate_code_once_example =
    activate_code_once offer_context " IJBEEQSCIJBEE" none 2000 issued activated shown clean
      returned refl (OfferCall.issue 7 5 4 2 3000 ∷ OfferCall.view 7 66 4000 ∷ []) (some "10.0.0.1")
      90_000
