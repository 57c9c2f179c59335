-- ===== src/Evening/Route.antt =====
-- Which drafts the validator takes without an error
-- (backend/apps/api/src/services/evening-route-ai-validator.service.ts).
use Prim.Native.String.{String}
use frendly.Common.{
  ℕ, suc, ◌≤◌, ltb, Bool, true, false, not, ◌&&◌, Option, none, some, List, [], ◌∷◌, ◌++◌, All,
  length, str_eq, eq_iff, ◌≡◌, ◌↔◌, refl, sym, ◌∙◌, arith, Bool-cases, Option-cases, inl, inr,
}
use frendly.Evening.Validator.{
  EveningRouteAiCandidateVenue, EveningRouteAiValidationBrief, EveningRouteAiDraftStepInput,
  EveningRouteAiDraftInput, EveningRouteAiValidationIssue, ValidationStatus, Severity, IssueCode,
  Issues, venue_of, has_coordinates, contains, check_steps, venue_errors, issue_if, new_issue,
  steps_of, validate_draft, status_of,
}

abbrev Venues : Type 0
Venues = List EveningRouteAiCandidateVenue

-- The step's venue is a candidate with coordinates.
abbrev pub HasPlace : Venues → EveningRouteAiDraftStepInput → Type 0
HasPlace candidates step =
    (v : EveningRouteAiCandidateVenue) × ((venue_of candidates step ≡ some v)
      × (has_coordinates v ≡ true))

abbrev add_id : Option EveningRouteAiCandidateVenue → List String → List String
add_id none ids = ids
add_id (some v) ids = v.id ∷ ids

-- The venues of a route, in its order.
abbrev pub venue_ids : Venues → List EveningRouteAiDraftStepInput → List String
venue_ids candidates [] = []
venue_ids candidates (step ∷ steps) = add_id (venue_of candidates step) (venue_ids candidates steps)

abbrev pub Distinct : List String → Type 0
Distinct [] = Unit
Distinct (x ∷ xs) = (contains x xs ≡ false) × Distinct xs

-- What a draft without errors is.
pub record IsRoute (brief : EveningRouteAiValidationBrief) (candidates : Venues)
    (steps : List EveningRouteAiDraftStepInput) : Type 0 where
  pub enough : brief.min_steps ≤ length steps
  pub not_more : length steps ≤ brief.max_steps
  pub places : All (HasPlace candidates) steps
  pub distinct : brief.allow_repeat_venues ≡ false → Distinct (venue_ids candidates steps)

append_nil : {A : Type 0} (xs ys : List A) → (xs ++ ys ≡ []) ↔ ((xs ≡ []) × (ys ≡ []))
append_nil [] ys = (λ h. (refl, h), λ h. h.1)
append_nil (x ∷ xs) ys = (λ h. absurd (cc), λ h. absurd (cc))

issue_if_nil : (b : Bool) (i : EveningRouteAiValidationIssue) → (issue_if b i ≡ []) ↔ (b ≡ false)
issue_if_nil true i = (λ h. absurd (cc), λ h. absurd (cc))
issue_if_nil false i = (λ h. refl, λ h. refl)

ifs_nil :
    (a b : Bool) (i j : EveningRouteAiValidationIssue) (zs : Issues)
    → (issue_if a i ++ issue_if b j ++ zs ≡ []) ↔ ((a ≡ false) × ((b ≡ false) × (zs ≡ [])))
ifs_nil a b i j zs = (
  λ h.
      let p = (append_nil (issue_if a i ++ issue_if b j) zs).0 h in
      let q = (append_nil (issue_if a i) (issue_if b j)).0 p.0 in
      ((issue_if_nil a i).0 q.0, ((issue_if_nil b j).0 q.1, p.1)),
  λ h. rw (h.0, h.1.0, h.1.1),
)

status_of-invalid : (es ws : Issues) → (status_of es ws ≡ ValidationStatus.invalid) ↔ ¬ (es ≡ [])
status_of-invalid [] [] = (λ h. absurd (cc), λ h. absurd (h refl))
status_of-invalid [] (w ∷ ws) = (λ h. absurd (cc), λ h. absurd (h refl))
status_of-invalid (e ∷ es) ws = (λ h k. absurd (cc), λ h. refl)

-- Ids that are new to those seen, one after the other.
abbrev AllNew : List String → List String → Type 0
AllNew seen [] = Unit
AllNew seen (x ∷ xs) = (contains x seen ≡ false) × AllNew (x ∷ seen) xs

str_eq_sym : (a b : String) → str_eq a b ≡ str_eq b a
str_eq_sym a b = elim (Bool-cases (str_eq a b)) [
  | inl t ↦ t ∙ sym ((eq_iff b a).1 (sym ((eq_iff a b).0 t)))
  | inr f ↦ elim (Bool-cases (str_eq b a)) [
    | inl t ↦ (eq_iff a b).1 (sym ((eq_iff b a).0 t)) ∙ sym t
    | inr g ↦ f ∙ sym g
  ]
]

-- New to `x` and to those seen: the list lacks `x`, and is new to those seen.
new_cons :
    (x : String) (seen xs : List String)
    → All (λ y. contains y (x ∷ seen) ≡ false) xs
      ↔ ((contains x xs ≡ false) × All (λ y. contains y seen ≡ false) xs)
new_cons x seen [] = (λ h. (refl, tt), λ h. tt)
new_cons x seen (y ∷ ys) = (
  λ h.
      let rest = (new_cons x seen ys).0 h.1 in
      (ground (arith, h.0, rest.0, str_eq_sym x y), (ground (arith, h.0), rest.1)),
  λ h. (
    ground (arith, h.0, h.1.0, str_eq_sym x y),
    (new_cons x seen ys).1 (ground (arith, h.0), h.1.1),
  ),
)

AllNew-Distinct :
    (seen xs : List String) → AllNew seen xs ↔ (All (λ x. contains x seen ≡ false) xs × Distinct xs)
AllNew-Distinct seen [] = (λ h. (tt, tt), λ h. tt)
AllNew-Distinct seen (x ∷ xs) = (
  λ h.
      let rest = (AllNew-Distinct (x ∷ seen) xs).0 h.1 in
      let parts = (new_cons x seen xs).0 rest.0 in ((h.0, parts.1), (parts.0, rest.1)),
  λ h. (h.0.0, (AllNew-Distinct (x ∷ seen) xs).1 ((new_cons x seen xs).1 (h.1.0, h.0.1), h.1.1)),
)

nothing_seen : (xs : List String) → All (λ x. contains x [] ≡ false) xs
nothing_seen [] = tt
nothing_seen (x ∷ xs) = (refl, nothing_seen xs)

module _ (brief : EveningRouteAiValidationBrief) (candidates : Venues) where
  -- A round without errors has a venue with coordinates, new where it must be.
  venue_errors_nil :
      (index : ℕ) (seen : List String) (v : EveningRouteAiCandidateVenue)
      → (venue_errors brief index seen v ≡ []) ↔ (
          (has_coordinates v ≡ true)
          × (brief.allow_repeat_venues ≡ false → contains v.id seen ≡ false))
  venue_errors_nil index seen v = (
    λ h.
        let p = (append_nil (issue_if repeats again) (issue_if unplaced lacking)).0 h in
        let first = (issue_if_nil repeats again).0 p.0 in
        let placed = (issue_if_nil unplaced lacking).0 p.1 in
        (ground (arith, placed), λ e. ground (arith, first, e)),
    λ h.
        let first : repeats ≡ false = elim (Bool-cases brief.allow_repeat_venues) [
          | inl e ↦ rw e
          | inr e ↦ rw (e, h.1 e)
        ] in
        (append_nil (issue_if repeats again) (issue_if unplaced lacking)).1
          ((issue_if_nil repeats again).1 first, (issue_if_nil unplaced lacking).1 (rw h.0)),
  )
    where
      repeats : Bool
      repeats = not brief.allow_repeat_venues && contains v.id seen

      unplaced : Bool
      unplaced = not (has_coordinates v)

      again : EveningRouteAiValidationIssue
      again = new_issue Severity.error IssueCode.ai_route_duplicate_venue (some index) (some v.id)

      lacking : EveningRouteAiValidationIssue
      lacking =
          new_issue Severity.error IssueCode.ai_route_missing_coordinates (some index) (some v.id)

  check_steps_nil :
      (index : ℕ) (seen : List String) (steps : List EveningRouteAiDraftStepInput)
      → ((check_steps brief candidates index seen steps).0 ≡ []) ↔ (
          All (HasPlace candidates) steps
          × (brief.allow_repeat_venues ≡ false → AllNew seen (venue_ids candidates steps)))
  unfolding check_steps
  check_steps_nil index seen [] = (λ h. (tt, λ e. tt), λ h. refl)
  check_steps_nil index seen (step ∷ steps) = elim (Option-cases (venue_of candidates step)) [
    | inl unknown ↦ rw unknown (λ h. absurd (cc), λ h. let e = h.0.0.1.0 in absurd (cc))
    | inr (v, known) ↦ rw known (
      λ h.
          let p = (append_nil (venue_errors brief index seen v) _).0 h in
          let here = (venue_errors_nil index seen v).0 p.0 in
          let rest = (check_steps_nil (suc index) (v.id ∷ seen) steps).0 p.1 in
          (((v, (refl, here.0)), rest.0), λ e. (here.1 e, rest.1 e)),
      λ h.
          let has = h.0.0.1.0 in
          let same : v ≡ h.0.0.0 = cc in
          let placed : has_coordinates v ≡ true = rw same h.0.0.1.1 in
          (append_nil (venue_errors brief index seen v) _).1 (
            (venue_errors_nil index seen v).1 (placed, λ e. (h.1 e).0),
            (check_steps_nil (suc index) (v.id ∷ seen) steps).1 (h.0.1, λ e. (h.1 e).1),
          ),
    )
  ]

module _ (to_lower_case : String → String) where
  -- A draft is validated without an error exactly when it is a route of the brief: it has as many steps
  -- as the brief asks for, each step's venue is a candidate with coordinates, and no venue comes twice
  -- unless the brief allows it. The status is invalid exactly when there is an error.
  pub validate_draft-IsRoute :
      (brief : EveningRouteAiValidationBrief) (candidates : Venues)
      (draft : EveningRouteAiDraftInput)
      → let r = validate_draft to_lower_case brief candidates draft in
        ((r.errors ≡ []) ↔ IsRoute brief candidates (steps_of draft))
        × ((r.status ≡ ValidationStatus.invalid) ↔ ¬ (r.errors ≡ []))
  unfolding validate_draft
  validate_draft-IsRoute brief candidates draft = (
    (
      λ h.
          let p = (ifs_nil (ltb n brief.min_steps) (ltb brief.max_steps n) below above _).0 h in
          let q = (check_steps_nil brief candidates 0 [] (steps_of draft)).0 p.1.1 in
          record {
            enough = ground (arith, p.0);
            not_more = ground (arith, p.1.0);
            places = q.0;
            distinct =
                λ e. ((AllNew-Distinct [] (venue_ids candidates (steps_of draft))).0 (q.1 e)).1;
          },
      λ h. (ifs_nil (ltb n brief.min_steps) (ltb brief.max_steps n) below above _).1 (
        ground (arith, h.enough),
        (
          ground (arith, h.not_more),
          (check_steps_nil brief candidates 0 [] (steps_of draft)).1 (
            h.places,
            λ e.
                (AllNew-Distinct [] (venue_ids candidates (steps_of draft))).1
                  (nothing_seen (venue_ids candidates (steps_of draft)), h.distinct e),
          ),
        ),
      ),
    ),
    status_of-invalid _ _,
  )
    where
      n : ℕ
      n = length (steps_of draft)

      below : EveningRouteAiValidationIssue
      below = new_issue Severity.error IssueCode.ai_route_steps_below_min none none

      above : EveningRouteAiValidationIssue
      above = new_issue Severity.error IssueCode.ai_route_steps_above_max none none
