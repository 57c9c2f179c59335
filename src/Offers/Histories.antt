-- ===== src/Offers/Histories.antt =====
-- What every call of `PartnerOfferCodeService` keeps of the codes
-- (backend/apps/api/src/services/partner-offer-code.service.ts).
use Prim.Native.String.{String}
use frendly.Common.{
  ℕ, zero, suc, ◌==◌, leb, ltb, Bool, true, false, ◌&&◌, Option, none, some, List, [], ◌∷◌, ◌++◌,
  find, change, count, str_eq, ◌≡◌, ◌⊎◌, refl, sym, Bool-cases, inl, inr, subst,
}
use frendly.Common.Text.{trim, is_empty}
use frendly.Common.Action.{ApiError, Result, ok, err, Action, gets, ◌>>◌, raise_if}
use frendly.Common.Keeps.{Keeps, Keeps-bind, Keeps-if, Keeps-gets, keeps}
use frendly.Auth.Phone.{same_key}
use frendly.Offers.Tables.{OfferCodeStatus, PartnerOfferCode, ActivationBucket, OfferEvent, Offers}
use frendly.Offers.Codes.{OfferContext, hash_code, hash_nullable}
use frendly.Offers.Service.{
  resolve_code_status, is_open, expire, marked_activated, track, mark_expired, limit_with,
  rate_limit_key, assert_activation_rate_limit, activate_issued, activate_found, activate_code,
  get_code_status, viewed, activate_as, CodeView,
}
use frendly.Offers.Issue.{
  IssueContext, load_issue_context, attempts, issue_code, add_code, new_code, is_taken, is_for,
  duplicate_or, tell, draw_id,
}

pub data OfferCall : Type 0 where
  issue : ℕ → ℕ → ℕ → ℕ → ℕ → OfferCall
  view : ℕ → ℕ → ℕ → OfferCall
  activation : String → Option String → ℕ → OfferCall

module _ (context : OfferContext) where
  unfoldable pub perform : OfferCall → Offers → Offers
  perform (OfferCall.issue user session step offer now) s =
      (issue_code context user session step offer now s).1
  perform (OfferCall.view user id now) s = (get_code_status context user id now s).1
  perform (OfferCall.activation raw ip now) s = (activate_code context raw ip now s).1

  unfoldable pub perform_all : List OfferCall → Offers → Offers
  perform_all [] s = s
  perform_all (c ∷ cs) s = perform_all cs (perform c s)

-- What a call that a limit of attempts may refuse did to the codes.
pub record Limited (s : Offers) (r : Result (Unit {0}) × Offers) : Type 0 where
  pub answer : (r.0 ≡ ok tt) ⊎ (r.0 ≡ err ApiError.partner_offer_code_rate_limited)
  pub codes : r.1.codes ≡ s.codes

raised :
    (b : Bool) (e : ApiError) (s : Offers)
    → ((raise_if b e s).0 ≡ ok tt) ⊎ ((raise_if b e s).0 ≡ err e)
raised true e s = inr refl
raised false e s = inl refl

pub assert_activation_rate_limit-Limited :
    (context : OfferContext) (ip : Option String) (now : ℕ) (s : Offers)
    → Limited s (assert_activation_rate_limit context ip now s)
unfolding assert_activation_rate_limit
assert_activation_rate_limit-Limited context ip now s =
    by_bucket (find (λ b. same_key b.key (rate_limit_key context ip)) s.buckets)
  where
    by_bucket :
        (b : Option ActivationBucket)
        → Limited s (limit_with context b (rate_limit_key context ip) now s)
    by_bucket none = record { answer = inl refl; codes = refl }
    by_bucket (some b) = elim (Bool-cases (leb b.reset_at now)) [
      | inl old ↦ rw old (record { answer = inl refl; codes = refl })
      | inr live ↦ rw live (record {
        answer =
            raised (ltb context.max_activation_attempts_per_window (suc b.count))
              ApiError.partner_offer_code_rate_limited s;
        codes = refl;
      })
    ]

-- The rows that are issued have no time of an activation.
abbrev pub IsClean : PartnerOfferCode → Type 0
IsClean c = c.status ≡ OfferCodeStatus.issued → c.activated_at ≡ none

-- An invariant of the codes alone, kept by new codes and by the two updates of open codes.
pub record IsKept (I : List PartnerOfferCode → Type 0) : Type 0 where
  pub added :
      (context : OfferContext) (i : IssueContext) (user step offer id : ℕ)
      (codes : List PartnerOfferCode)
      → I codes
      → I (codes ++ (new_code context i user step offer id ∷ []))
  pub expired :
      (id : ℕ) (codes : List PartnerOfferCode) → I codes → I (change (is_open id) expire codes)
  pub activated :
      (id now : ℕ) (ip : Option String) (codes : List PartnerOfferCode)
      → I codes
      → I (change (is_open id) (marked_activated now ip) codes)

module _ (I : List PartnerOfferCode → Type 0) (k : IsKept I) (context : OfferContext) where
  abbrev J : Offers → Type 0
  J s = I s.codes

  track-Keeps : (e : OfferEvent) → Keeps J (track e)
  track-Keeps e = record { after = λ s h. h }

  load_issue_context-Keeps :
      (user session step offer : ℕ) → Keeps J (load_issue_context user session step offer)
  unfolding load_issue_context
  load_issue_context-Keeps user session step offer = search keeps depth 20

  tell-Keeps :
      (c : PartnerOfferCode) (reused : Bool) (now : ℕ) → Keeps J (tell context c reused now)
  tell-Keeps c reused now = search (keeps, track-Keeps)

  duplicate_or-Keeps :
      (c : Option PartnerOfferCode) (now : ℕ) (next : Action Offers CodeView)
      → Keeps J next
      → Keeps J (duplicate_or context c now next)
  duplicate_or-Keeps none now next h = h
  duplicate_or-Keeps (some c) now next h = tell-Keeps c true now

  add_code-Keeps :
      (i : IssueContext) (user step offer id : ℕ)
      → Keeps J (add_code (new_code context i user step offer id))
  add_code-Keeps i user step offer id = record {
    after = λ s h. k.added context i user step offer id s.codes h;
  }

  attempts-Keeps :
      (n : ℕ) (i : IssueContext) (user step offer now : ℕ)
      → Keeps J (attempts context n i user step offer now)
  unfolding attempts
  attempts-Keeps zero i user step offer now = search keeps
  attempts-Keeps (suc n) i user step offer now =
      Keeps-bind J draw_id _ (record { after = λ s h. h })
        (λ id.
          Keeps-bind J
            (gets (λ s. is_taken context (new_code context i user step offer id) s.codes)) _
            (Keeps-gets J _)
            (λ taken.
              Keeps-bind J
                (gets (λ s. find (is_for user i.session.id i.offer.partner_id step offer) s.codes))
                _ (Keeps-gets J _)
                (λ duplicate.
                  Keeps-if J taken _
                    (add_code (new_code context i user step offer id)
                      >> tell context (new_code context i user step offer id) false now)
                    (duplicate_or-Keeps duplicate now _ (attempts-Keeps n i user step offer now))
                    (search (keeps, add_code-Keeps i user step offer, tell-Keeps)))))

  issue_code-Keeps :
      (user session step offer now : ℕ) → Keeps J (issue_code context user session step offer now)
  unfolding issue_code
  issue_code-Keeps user session step offer now =
      Keeps-bind J (load_issue_context user session step offer) _
        (load_issue_context-Keeps user session step offer)
        (λ i.
          Keeps-bind J
            (gets (λ s. find (is_for user session i.offer.partner_id step offer) s.codes)) _
            (Keeps-gets J _)
            (λ existing.
              duplicate_or-Keeps existing now _ (attempts-Keeps 3 i user step offer now)))

  get_code_status-Keeps : (user id now : ℕ) → Keeps J (get_code_status context user id now)
  unfolding get_code_status
  get_code_status-Keeps user id now =
      Keeps-bind J (gets (λ s. find (λ c. c.id == id && c.user_id == user) s.codes)) _
        (Keeps-gets J _) viewed_Keeps
    where
      viewed_Keeps : (c : Option PartnerOfferCode) → Keeps J (viewed context c now)
      viewed_Keeps none = search keeps
      viewed_Keeps (some c) = search (keeps, track-Keeps)

  activate_issued-Keeps :
      (c : PartnerOfferCode) (ip : Option String) (now : ℕ)
      → Keeps J (activate_issued context c ip now)
  unfolding activate_issued
  activate_issued-Keeps c ip now = record {
    after = λ s h. elim (Bool-cases (count (is_open c.id) s.codes == 0)) [
      | inl none_open ↦ rw none_open (k.activated c.id now (hash_nullable context ip) s.codes h)
      | inr some_open ↦ rw some_open (k.activated c.id now (hash_nullable context ip) s.codes h)
    ];
  }

  activate_found-Keeps :
      (c : Option PartnerOfferCode) (ip : Option String) (now : ℕ)
      → Keeps J (activate_found context c ip now)
  unfolding mark_expired
  activate_found-Keeps none ip now = search keeps
  activate_found-Keeps (some c) ip now = by_status (resolve_code_status c now)
    where
      by_status : (status : OfferCodeStatus) → Keeps J (activate_as context status c ip now)
      by_status OfferCodeStatus.activated = record { after = λ s h. h }
      by_status OfferCodeStatus.expired = record { after = λ s h. k.expired c.id s.codes h }
      by_status OfferCodeStatus.issued = activate_issued-Keeps c ip now

  activate_code-Keeps :
      (raw : String) (ip : Option String) (now : ℕ) → Keeps J (activate_code context raw ip now)
  unfolding activate_code
  activate_code-Keeps raw ip now =
      Keeps-if J (is_empty (context.to_upper_case (trim raw))) _ _ (record { after = λ s h. h })
        (Keeps-bind J (assert_activation_rate_limit context ip now) _
          (record {
            after = λ s h.
                subst I (sym (assert_activation_rate_limit-Limited context ip now s).codes) h;
          })
          (λ _.
            Keeps-bind J
              (gets (λ s.
                find
                  (λ c. str_eq c.code_hash (hash_code context (context.to_upper_case (trim raw))))
                  s.codes))
              _ (Keeps-gets J _) (λ found. activate_found-Keeps found ip now)))

  perform-kept : (c : OfferCall) (s : Offers) → J s → J (perform context c s)
  unfolding perform
  perform-kept (OfferCall.issue user session step offer now) s h =
      (issue_code-Keeps user session step offer now).after s h
  perform-kept (OfferCall.view user id now) s h = (get_code_status-Keeps user id now).after s h
  perform-kept (OfferCall.activation raw ip now) s h = (activate_code-Keeps raw ip now).after s h

  pub perform_all-kept : (cs : List OfferCall) (s : Offers) → J s → J (perform_all context cs s)
  unfolding perform_all
  perform_all-kept [] s h = h
  perform_all-kept (c ∷ cs) s h = perform_all-kept cs _ (perform-kept c s h)
