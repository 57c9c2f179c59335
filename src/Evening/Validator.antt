-- ===== src/Evening/Validator.antt =====
-- `EveningRouteAiValidatorService.validateDraft`
-- (backend/apps/api/src/services/evening-route-ai-validator.service.ts). `toLowerCase` is a parameter.
-- A walk is in minutes, rounded up.
use Prim.Native.String.{String}
use Prim.Native.String.{◌++◌ as concat}
use frendly.Common.{
  ℕ, suc, ◌+◌, ◌-◌, ◌*◌, ◌==◌, ltb, Bool, true, false, not, ◌&&◌, ◌||◌, Option, none, some, List,
  [], ◌∷◌, ◌++◌, length, count, min, str_eq, if◌then◌else◌,
}
use frendly.Common.Int.{ℤ, pos, ltb_ℤ}
use frendly.Common.Text.{trim, is_empty, starts_with}
use frendly.Payments.Tables.{Json, Number}
use frendly.Evening.Hours.{is_time_inside_opening_hours}

pub record EveningRouteAiCandidateVenue : Type 0 where
  pub id : String
  pub lat : Option Number
  pub lng : Option Number
  pub opening_hours : Option Json

pub record EveningRouteAiValidationBrief : Type 0 where
  pub min_steps : ℕ
  pub max_steps : ℕ
  pub budget : Option String
  pub mood : Option String
  pub allow_repeat_venues : Bool

-- A text or number is `none` where the value has another type.
pub record EveningRouteAiDraftStepInput : Type 0 where
  pub venue_id : Option String
  pub partner_offer_id : Option String
  pub time_label : Option String
  pub walk_min : Option ℤ

pub record EveningRouteAiDraftInput : Type 0 where
  pub vibe : Option String
  pub mood : Option String
  pub budget : Option String
  pub steps : Option (List EveningRouteAiDraftStepInput)

pub data Severity : Type 0 where
  error warning : Severity

pub data IssueCode : Type 0 where
  ai_route_steps_below_min ai_route_steps_above_max ai_route_unknown_venue : IssueCode
  ai_route_duplicate_venue ai_route_missing_coordinates : IssueCode
  ai_route_opening_hours_missing ai_route_outside_opening_hours ai_route_walk_time_high : IssueCode

-- An issue without its message, which its code determines.
pub record EveningRouteAiValidationIssue : Type 0 where
  pub severity : Severity
  pub code : IssueCode
  pub step_index : Option ℕ
  pub venue_id : Option String

pub data ValidationStatus : Type 0 where
  valid warned invalid : ValidationStatus

pub record EveningRouteAiValidationResult : Type 0 where
  pub status : ValidationStatus
  pub score : ℕ
  pub issues : List EveningRouteAiValidationIssue
  pub errors : List EveningRouteAiValidationIssue
  pub warnings : List EveningRouteAiValidationIssue

abbrev pub Issues : Type 0
Issues = List EveningRouteAiValidationIssue

abbrev pub new_issue :
    Severity → IssueCode → Option ℕ → Option String → EveningRouteAiValidationIssue
new_issue severity code index venue = record {
  severity = severity;
  code = code;
  step_index = index;
  venue_id = venue;
}

-- `array.push` under a condition
abbrev pub issue_if : Bool → EveningRouteAiValidationIssue → Issues
issue_if b i = if b then i ∷ [] else []

abbrev pub text_or_empty : Option String → String
text_or_empty none = ""
text_or_empty (some s) = trim s

-- `new Map(candidates.map(...)).get(id)`: the last candidate of an id.
abbrev pub later_or :
    Option EveningRouteAiCandidateVenue
    → Bool
    → EveningRouteAiCandidateVenue
    → Option EveningRouteAiCandidateVenue
later_or (some w) b v = some w
later_or none b v = if b then some v else none

unfoldable pub candidate_by_id :
    String → List EveningRouteAiCandidateVenue → Option EveningRouteAiCandidateVenue
candidate_by_id id [] = none
candidate_by_id id (v ∷ vs) = later_or (candidate_by_id id vs) (str_eq v.id id) v

-- `venueId ? candidateById.get(venueId) : null`
abbrev pub venue_of :
    List EveningRouteAiCandidateVenue
    → EveningRouteAiDraftStepInput
    → Option EveningRouteAiCandidateVenue
venue_of candidates step =
    let id = text_or_empty step.venue_id in
    if is_empty id then none else candidate_by_id id candidates

abbrev pub has_value : Option Number → Bool
has_value none = false
has_value (some n) = true

abbrev pub has_coordinates : EveningRouteAiCandidateVenue → Bool
has_coordinates v = has_value v.lat && has_value v.lng

abbrev pub contains : String → List String → Bool
contains id [] = false
contains id (x ∷ xs) = str_eq x id || contains id xs

-- JavaScript's truth of a JSON value
abbrev is_zero : Number → Bool
is_zero (Number.integer n) = not (ltb_ℤ n (pos 0)) && not (ltb_ℤ (pos 0) n)
is_zero Number.fraction = false
is_zero Number.not_finite = true

abbrev is_truthy : Json → Bool
is_truthy Json.null = false
is_truthy (Json.boolean b) = b
is_truthy (Json.number n) = not (is_zero n)
is_truthy (Json.text s) = not (is_empty s)
is_truthy (Json.array xs) = true
is_truthy (Json.object fs) = true

abbrev pub hours_issue : Option String → Option Json → Option IssueCode
hours_issue label none = some IssueCode.ai_route_opening_hours_missing
hours_issue label (some hours) =
    if not (is_truthy hours)
    then some IssueCode.ai_route_opening_hours_missing
    else (if is_time_inside_opening_hours label hours
        then none
        else some IssueCode.ai_route_outside_opening_hours)

abbrev pub is_high_walk : Option ℤ → Bool
is_high_walk none = false
is_high_walk (some minutes) = ltb_ℤ (pos 20) minutes

abbrev pub warning_of : ℕ → String → Option IssueCode → Issues
warning_of index id none = []
warning_of index id (some code) = new_issue Severity.warning code (some index) (some id) ∷ []

abbrev pub venue_errors :
    EveningRouteAiValidationBrief → ℕ → List String → EveningRouteAiCandidateVenue → Issues
venue_errors brief index seen v =
    issue_if (not brief.allow_repeat_venues && contains v.id seen)
      (new_issue Severity.error IssueCode.ai_route_duplicate_venue (some index) (some v.id))
    ++ issue_if (not (has_coordinates v))
        (new_issue Severity.error IssueCode.ai_route_missing_coordinates (some index) (some v.id))

abbrev pub venue_warnings : ℕ → EveningRouteAiDraftStepInput → EveningRouteAiCandidateVenue → Issues
venue_warnings index step v =
    warning_of index v.id (hours_issue step.time_label v.opening_hours)
    ++ issue_if (is_high_walk step.walk_min)
        (new_issue Severity.warning IssueCode.ai_route_walk_time_high (some index) (some v.id))

-- `venueId || null`
abbrev pub id_or_null : String → Option String
id_or_null s = if is_empty s then none else some s

-- One round of the loop: the errors, the warnings and the venues that were seen.
abbrev pub check_step :
    EveningRouteAiValidationBrief
    → ℕ
    → List String
    → EveningRouteAiDraftStepInput
    → Option EveningRouteAiCandidateVenue
    → Issues × Issues × List String
check_step brief index seen step none = (
  new_issue Severity.error IssueCode.ai_route_unknown_venue (some index)
        (id_or_null (text_or_empty step.venue_id))
      ∷ [],
  [],
  seen,
)
check_step brief index seen step (some v) =
    (venue_errors brief index seen v, venue_warnings index step v, v.id ∷ seen)

unfoldable pub check_steps :
    EveningRouteAiValidationBrief
    → List EveningRouteAiCandidateVenue
    → ℕ
    → List String
    → List EveningRouteAiDraftStepInput
    → Issues × Issues
check_steps brief candidates index seen [] = ([], [])
check_steps brief candidates index seen (step ∷ steps) =
    let (errors, warnings, seen') = check_step brief index seen step (venue_of candidates step) in
    let rest = check_steps brief candidates (suc index) seen' steps in
    (errors ++ rest.0, warnings ++ rest.1)

abbrev pub matches_budget : EveningRouteAiValidationBrief → EveningRouteAiDraftInput → Bool
matches_budget brief draft = elim brief.budget [
  | none ↦ true
  | some b ↦ is_empty b || elim draft.budget [ none ↦ false | some d ↦ str_eq d b ]
]

-- `[draft.mood, draft.vibe].filter(isString).join(' ')`
abbrev pub joined : Option String → Option String → String
joined none none = ""
joined none (some v) = v
joined (some m) none = m
joined (some m) (some v) = concat m (concat " " v)

-- `haystack.includes(needle)`
abbrev pub includes : String → String → Bool
includes needle String.[] = is_empty needle
includes needle (String.◌∷◌ c s) = starts_with needle (String.◌∷◌ c s) || includes needle s

abbrev pub steps_of : EveningRouteAiDraftInput → List EveningRouteAiDraftStepInput
steps_of draft = elim draft.steps [ none ↦ [] | some steps ↦ steps ]

abbrev pub has_offer : EveningRouteAiDraftStepInput → Bool
has_offer step = not (is_empty (text_or_empty step.partner_offer_id))

abbrev pub is_penalized : EveningRouteAiValidationIssue → Bool
is_penalized i = elim i.code [
  | IssueCode.ai_route_opening_hours_missing ↦ true
  | IssueCode.ai_route_walk_time_high ↦ true
  | _ ↦ false
]

abbrev pub status_of : Issues → Issues → ValidationStatus
status_of [] [] = ValidationStatus.valid
status_of [] (w ∷ ws) = ValidationStatus.warned
status_of (e ∷ es) ws = ValidationStatus.invalid

module _ (to_lower_case : String → String) where
  unfoldable pub matches_mood : EveningRouteAiValidationBrief → EveningRouteAiDraftInput → Bool
  matches_mood brief draft = elim brief.mood [
    | none ↦ true
    | some mood ↦
        is_empty mood
        || includes (to_lower_case mood) (to_lower_case (joined draft.mood draft.vibe))
  ]

  -- The points are 100 less 30 for each error and 10 for some warnings, and 10 more for a partner's
  -- offer; a score below 0 is 0, as the subtraction is.
  unfoldable pub compute_score :
      EveningRouteAiValidationBrief → EveningRouteAiDraftInput → Issues → Issues → Bool → ℕ
  compute_score brief draft errors warnings has_partner_offer =
      let bonus : ℕ =
        if has_partner_offer
          && length errors == 0
          && matches_budget brief draft
          && matches_mood brief draft
        then 10
        else 0 in
      min 100 (100 + bonus - (length errors * 30 + count is_penalized warnings * 10))

  unfoldable pub validate_draft :
      EveningRouteAiValidationBrief
      → List EveningRouteAiCandidateVenue
      → EveningRouteAiDraftInput
      → EveningRouteAiValidationResult
  validate_draft brief candidates draft =
      let steps = steps_of draft in
      let (step_errors, warnings) = check_steps brief candidates 0 [] steps in
      let errors =
        issue_if (ltb (length steps) brief.min_steps)
          (new_issue Severity.error IssueCode.ai_route_steps_below_min none none)
        ++ issue_if (ltb brief.max_steps (length steps))
            (new_issue Severity.error IssueCode.ai_route_steps_above_max none none)
        ++ step_errors in
      record {
        status = status_of errors warnings;
        score = compute_score brief draft errors warnings (ltb 0 (count has_offer steps));
        issues = errors ++ warnings;
        errors = errors;
        warnings = warnings;
      }
