-- ===== src/Offers/Once.antt =====
-- A code is activated once (`activateCode` of
-- backend/apps/api/src/services/partner-offer-code.service.ts).
use Prim.Native.String.{String}
use frendly.Common.{
  ℕ, ◌==◌, true, false, Option, none, some, List, All, All-append, All-change, All-find, find,
  find-append_found, change, count, str_eq, ◌≡◌, ◌⊎◌, refl, ap, ◌∙◌, arith, Bool-cases, inl, inr,
  subst,
}
use frendly.Common.Text.{trim, is_empty}
use frendly.Common.Action.{ApiError, Result, ok, err, then_do}
use frendly.Tokens.Money.{find-change}
use frendly.Offers.Tables.{OfferCodeStatus, PartnerOfferCode, Offers}
use frendly.Offers.Codes.{OfferContext, hash_code, hash_nullable}
use frendly.Offers.Service.{
  ActivationView, PublicStatus, resolve_code_status, is_open, expire, marked_activated,
  mark_expired, assert_activation_rate_limit, activate_issued, activate_found, activate_as,
  activate_code, public_result, overtaken,
}
use frendly.Offers.Histories.{
  OfferCall, perform_all, perform_all-kept, IsKept, IsClean, Limited,
  assert_activation_rate_limit-Limited,
}

-- The first code of a hash was activated.
abbrev pub Activated : String → List PartnerOfferCode → Type 0
Activated hash codes =
    (c : PartnerOfferCode) × ((find (λ d. str_eq d.code_hash hash) codes ≡ some c)
      × (c.status ≡ OfferCodeStatus.activated))

is_open-activated :
    (id : ℕ) (c : PartnerOfferCode) → c.status ≡ OfferCodeStatus.activated → is_open id c ≡ false
is_open-activated id c h = ground (arith, h)

-- An update of open codes does not reach a code that was activated.
unreached :
    (hash : String) (id : ℕ) (f : PartnerOfferCode → PartnerOfferCode)
    (codes : List PartnerOfferCode)
    → ((c : PartnerOfferCode) → (f c).code_hash ≡ c.code_hash)
    → Activated hash codes
    → Activated hash (change (is_open id) f codes)
unreached hash id f codes same a = (
  a.0,
  (
    find-change (λ d. str_eq d.code_hash hash) (is_open id) f codes a.0
          (λ d. ap (λ t. str_eq t hash) (same d)) a.1.0
        ∙ rw (is_open-activated id a.0 a.1.1),
    a.1.1,
  ),
)

Activated-IsKept : (hash : String) → IsKept (Activated hash)
Activated-IsKept hash = record {
  added = λ context i user step offer id codes a.
      (a.0, (find-append_found (λ d. str_eq d.code_hash hash) codes _ a.0 a.1.0, a.1.1));
  expired = λ id codes a. unreached hash id expire codes (λ c. refl) a;
  activated = λ id now ip codes a. unreached hash id (marked_activated now ip) codes (λ c. refl) a;
}

-- Rows that are issued have no time of an activation: every call keeps that.
pub IsClean-IsKept : IsKept (All IsClean)
IsClean-IsKept = record {
  added = λ context i user step offer id codes a. All-append IsClean codes _ a (λ issued. refl, tt);
  expired = λ id codes a.
      All-change IsClean (is_open id) expire codes (λ c clean t issued. absurd (cc)) a;
  activated = λ id now ip codes a.
      All-change IsClean (is_open id) (marked_activated now ip) codes
        (λ c clean t issued. absurd (cc)) a;
}

resolve_code_status-issued :
    (c : PartnerOfferCode) (now : ℕ)
    → resolve_code_status c now ≡ OfferCodeStatus.issued
    → c.status ≡ OfferCodeStatus.issued
resolve_code_status-issued c now h = ground (arith, h)

resolve_code_status-activated :
    (c : PartnerOfferCode) (now : ℕ)
    → c.status ≡ OfferCodeStatus.activated
    → resolve_code_status c now ≡ OfferCodeStatus.activated
resolve_code_status-activated c now h = ground (arith, h)

overtaken_not_done :
    (latest : Option PartnerOfferCode) (c : PartnerOfferCode) (now : ℕ)
    → ¬ ((overtaken latest c now).status ≡ PublicStatus.done)
overtaken_not_done none c now h = absurd (cc)
overtaken_not_done (some d) c now h = by_status (resolve_code_status d now) refl
  where
    by_status : (st : OfferCodeStatus) → resolve_code_status d now ≡ st → ⊥
    by_status OfferCodeStatus.activated e = let r = rw (e, overtaken) at h in absurd (cc)
    by_status OfferCodeStatus.expired e = let r = rw (e, overtaken) at h in absurd (cc)
    by_status OfferCodeStatus.issued e = let r = rw (e, overtaken) at h in absurd (cc)

-- The answer of a call that returned.
answer_of :
    {A S : Type 0} (a b : A) (s s' : S) → ◌≡◌ {A = Result A × S} (ok a, s) (ok b, s') → a ≡ b
answer_of a b s s' h = cc

module _ (context : OfferContext) where
  abbrev hash_of : String → String
  hash_of raw = hash_code context (context.to_upper_case (trim raw))

  -- An answer that a code was activated comes from an update of the code that was found.
  found_done :
      (hash : String) (c : Option PartnerOfferCode) (ip : Option String) (now : ℕ) (s s' : Offers)
      (v : ActivationView)
      → find (λ d. str_eq d.code_hash hash) s.codes ≡ c
      → All IsClean s.codes
      → activate_found context c ip now s ≡ (ok v, s')
      → v.status ≡ PublicStatus.done
      → Activated hash s'.codes
  unfolding mark_expired activate_issued
  found_done hash none ip now s s' v found clean h done = absurd (cc)
  found_done hash (some c) ip now s s' v found clean h done =
      by_status (resolve_code_status c now) refl h
    where
      by_status :
          (st : OfferCodeStatus)
          → resolve_code_status c now ≡ st
          → activate_as context st c ip now s ≡ (ok v, s')
          → Activated hash s'.codes
      by_status OfferCodeStatus.activated e h =
          let f =
            ap (λ v. v.status)
              (answer_of (public_result PublicStatus.already_activated (some c)) v s s' h)
            ∙ done in
          absurd (cc)
      by_status OfferCodeStatus.expired e h =
          let f =
            ap (λ v. v.status) (answer_of (public_result PublicStatus.too_late (some c)) v _ s' h)
            ∙ done in
          absurd (cc)
      by_status OfferCodeStatus.issued e h = elim (Bool-cases (count (is_open c.id) s.codes == 0)) [
        | inl none_open ↦
            let r = rw none_open at h in
            absurd (overtaken_not_done _ c now (ap (λ v. v.status) (answer_of _ v _ s' r) ∙ done))
        | inr some_open ↦
            let r = rw some_open at h in
            let issued = resolve_code_status-issued c now e in
            let fresh =
              All-find IsClean (λ d. str_eq d.code_hash hash) s.codes c found clean issued in
            let mine : is_open c.id c ≡ true = ground (arith, issued, fresh) in
            subst (Activated hash) (ap (λ r. r.1.codes) r) (
              marked_activated now (hash_nullable context ip) c,
              (
                find-change (λ d. str_eq d.code_hash hash) (is_open c.id)
                      (marked_activated now (hash_nullable context ip)) s.codes c (λ d. refl) found
                    ∙ rw mine,
                refl,
              ),
            )
      ]

  -- A code that was activated is not activated again.
  again :
      (hash : String) (ip : Option String) (now : ℕ) (s : Offers)
      → Activated hash s.codes
      → (v : ActivationView) × (((activate_found context
              (find (λ d. str_eq d.code_hash hash) s.codes)
              ip
              now
              s).0
            ≡ ok v)
          × (v.status ≡ PublicStatus.already_activated))
  again hash ip now s a =
      rw (a.1.0, resolve_code_status-activated a.0 now a.1.1)
        (public_result PublicStatus.already_activated (some a.0), (refl, refl))

  -- The two calls behind the limit of attempts.
  call_done :
      (hash : String) (ip : Option String) (now : ℕ) (s s' : Offers) (v : ActivationView)
      (r : Result (Unit {0}) × Offers)
      → Limited s r
      → All IsClean s.codes
      → then_do
          (λ _ t. activate_found context (find (λ d. str_eq d.code_hash hash) t.codes) ip now t)
          r
        ≡ (ok v, s')
      → v.status ≡ PublicStatus.done
      → Activated hash s'.codes
  call_done hash ip now s s' v (err e, t) l clean h done = absurd (cc)
  call_done hash ip now s s' v (ok u, t) l clean h done =
      found_done hash _ ip now t s' v refl (rw l.codes clean) h done

  call_again :
      (hash : String) (ip : Option String) (now : ℕ) (s : Offers) (r : Result (Unit {0}) × Offers)
      → Limited s r
      → Activated hash s.codes
      → let q =
          then_do
            (λ _ t. activate_found context (find (λ d. str_eq d.code_hash hash) t.codes) ip now t)
            r in
        (q.0 ≡ err ApiError.partner_offer_code_rate_limited)
        ⊎ ((w : ActivationView) × ((q.0 ≡ ok w) × (w.status ≡ PublicStatus.already_activated)))
  call_again hash ip now s (err e, t) l a = elim l.answer [
    | inl fine ↦ absurd (cc)
    | inr limited ↦ inl (ground (arith, limited))
  ]
  call_again hash ip now s (ok u, t) l a = inr (again hash ip now t (rw l.codes a))

  -- Where issued codes have no time of an activation: after a call that activated a code, any
  -- sequence of issued, viewed and activated codes is followed by no second activation. The same
  -- text is answered as already activated at any later time, or refused by the limit of attempts.
  pub activate_code_once :
      (raw : String) (ip : Option String) (now : ℕ) (s s' : Offers) (v : ActivationView)
      → All IsClean s.codes
      → activate_code context raw ip now s ≡ (ok v, s')
      → v.status ≡ PublicStatus.done
      → (calls : List OfferCall) (ip' : Option String) (later : ℕ)
      → let r = activate_code context raw ip' later (perform_all context calls s') in
        (r.0 ≡ err ApiError.partner_offer_code_rate_limited)
        ⊎ ((w : ActivationView) × ((r.0 ≡ ok w) × (w.status ≡ PublicStatus.already_activated)))
  unfolding activate_code
  activate_code_once raw ip now s s' v clean h done calls ip' later =
      elim (Bool-cases (is_empty (context.to_upper_case (trim raw)))) [
        | inl empty ↦
            let r = rw empty at h in
            let f = ap (λ v. v.status) (answer_of _ v s s' r) ∙ done in absurd (cc)
        | inr present ↦
            let now_active =
              call_done (hash_of raw) ip now s s' v (assert_activation_rate_limit context ip now s)
                (assert_activation_rate_limit-Limited context ip now s) clean (rw present at h)
                done in
            let still =
              perform_all-kept (Activated (hash_of raw)) (Activated-IsKept (hash_of raw)) context
                calls s' now_active in
            rw present (
              call_again (hash_of raw) ip' later (perform_all context calls s')
                (assert_activation_rate_limit context ip' later (perform_all context calls s'))
                (assert_activation_rate_limit-Limited context ip' later
                  (perform_all context calls s'))
                still)
      ]
