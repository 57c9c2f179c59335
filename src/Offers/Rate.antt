-- ===== src/Offers/Rate.antt =====
-- The limit of attempts on the activations of one address (`assertActivationRateLimit` of
-- backend/apps/api/src/services/partner-offer-code.service.ts).
use Prim.Native.String.{String}
use frendly.Common.{
  ℕ, suc, ◌+◌, ◌-◌, ◌≤◌, ◌<◌, leb, ltb, min, true, false, Option, none, some, List, [], ◌∷◌, All,
  find, length, eq_iff, ◌≡◌, refl, arith, Bool-cases, Option-cases, inl, inr,
}
use frendly.Common.Action.{Result, ok, err}
use frendly.Auth.Phone.{same_key}
use frendly.Offers.Tables.{ActivationBucket, Offers}
use frendly.Offers.Codes.{OfferContext}
use frendly.Offers.Service.{
  set_bucket, new_bucket, bumped, rate_limit_key, assert_activation_rate_limit,
}

same_key_refl : (k : Option String) → same_key k k ≡ true
same_key_refl none = refl
same_key_refl (some k) = (eq_iff k k).1 refl

-- The bucket that was set is found.
find-set_bucket :
    (b : ActivationBucket) (bs : List ActivationBucket)
    → find (λ c. same_key c.key b.key) (set_bucket b bs) ≡ some b
find-set_bucket b [] = rw (same_key_refl b.key)
find-set_bucket b (c ∷ cs) = elim (Bool-cases (same_key c.key b.key)) [
  | inl same ↦ rw same (rw (same_key_refl b.key))
  | inr other ↦ rw other (rw other (find-set_bucket b cs))
]

abbrev passed : {A : Type 0} → Result A → ℕ
passed (ok a) = 1
passed (err e) = 0

module _ (context : OfferContext) (ip : Option String) where
  -- How many of the attempts at some times pass.
  unfoldable pub passing : List ℕ → Offers → ℕ
  passing [] s = 0
  passing (t ∷ ts) s =
      let r = assert_activation_rate_limit context ip t s in passed r.0 + passing ts r.1

  -- The address has a bucket with so many attempts until a time.
  abbrev Has : ℕ → ℕ → Offers → Type 0
  Has n reset s =
      find (λ b. same_key b.key (rate_limit_key context ip)) s.buckets
      ≡ some (record { key = rate_limit_key context ip; reset_at = reset; count = n })

  passing_in_window :
      (times : List ℕ) (n reset : ℕ) (s : Offers)
      → All (λ t. t < reset) times
      → Has n reset s
      → passing times s ≡ min (length times) (context.max_activation_attempts_per_window - n)
  unfolding passing assert_activation_rate_limit
  passing_in_window [] n reset s early has = omega arith
  passing_in_window (t ∷ ts) n reset s early has =
      let b : ActivationBucket = record {
        key = rate_limit_key context ip;
        reset_at = reset;
        count = n;
      } in
      let after : Offers = record s { buckets = set_bucket (bumped b) s.buckets } in
      let rest =
        passing_in_window ts (suc n) reset after early.1 (find-set_bucket (bumped b) s.buckets) in
      let live : leb reset t ≡ false = ground (arith, early.0) in
      elim (Bool-cases (ltb context.max_activation_attempts_per_window (suc n))) [
        | inl most ↦ rw (has, live, most) (ground (arith, rest, most))
        | inr fewer ↦ rw (has, live, fewer) (ground (arith, rest, fewer))
      ]

  -- An address without a live bucket: of the attempts at a first time and at later ones of its window,
  -- as many pass as the limit allows, which is at least one, and no more.
  pub passing_lem :
      (first : ℕ) (times : List ℕ) (s : Offers)
      → 1 ≤ context.max_activation_attempts_per_window
      → ((b : ActivationBucket)
          → find (λ b. same_key b.key (rate_limit_key context ip)) s.buckets ≡ some b
          → b.reset_at ≤ first)
      → All (λ t. t < first + context.activation_window_ms) times
      → passing (first ∷ times) s
        ≡ min (suc (length times)) context.max_activation_attempts_per_window
  unfolding passing assert_activation_rate_limit
  passing_lem first times s some_allowed none_live early =
      let after : Offers = record s {
        buckets = set_bucket (new_bucket context (rate_limit_key context ip) first) s.buckets;
      } in
      let rest =
        passing_in_window times 1 (first + context.activation_window_ms) after early
          (find-set_bucket (new_bucket context (rate_limit_key context ip) first) s.buckets) in
      let all : 1 + passing times after
          ≡ min (suc (length times)) context.max_activation_attempts_per_window =
        ground (arith, rest, some_allowed) in
      elim (Option-cases (find (λ b. same_key b.key (rate_limit_key context ip)) s.buckets)) [
        | inl no_bucket ↦ rw no_bucket all
        | inr (b, had) ↦
            let old : leb b.reset_at first ≡ true = ground (arith, none_live b had) in
            rw (had, old) all
      ]
