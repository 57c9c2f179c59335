-- ===== src/Common/Action.antt =====
-- A service call over a state `S`: an `async` method returns or throws, and what it has written
-- stays written unless a transaction takes it back.
use frendly.Common.{Bool, true, false, Option, none, some, if◌then◌else◌, ◌≡◌, refl}

-- The `code` of an `ApiError` (backend/apps/api/src/common/api-error.ts), and the two refusals of
-- the database that the services meet: P2002 (a unique column) and P2025 (no row to update).
pub data ApiError : Type 0 where
  tokens_insufficient invalid_token_promotion_target token_promotion_forbidden : ApiError
  invalid_token_promotion_option invalid_token_pack invalid_subscription_plan : ApiError
  payment_product_not_found payment_order_not_found payment_amount_mismatch : ApiError
  payment_not_initialized tbank_terminal_mismatch tbank_invalid_token tbank_invalid_payload :
      ApiError
  invalid_drops_ticket_count drops_monthly_limit_reached drops_task_limit_reached : ApiError
  drops_verification_required drops_reward_not_found drops_reward_not_pending : ApiError
  drop_not_found drop_status_invalid drop_has_no_tickets : ApiError
  invalid_phone_number phone_otp_rate_limited phone_auth_unavailable phone_auth_delivery_failed :
      ApiError
  invalid_otp_challenge invalid_otp_code auth_user_create_failed invalid_refresh_token : ApiError
  evening_session_not_found evening_session_membership_required : ApiError
  evening_session_start_missing evening_step_not_found partner_offer_not_found : ApiError
  partner_offer_code_generation_failed partner_offer_code_not_found : ApiError
  partner_offer_code_rate_limited dating_swipe_rate_limited dating_rewind_unavailable : ApiError
  unique_violation record_missing : ApiError

pub data Result (A : Type 0) : Type 0 where
  ok : A → Result A
  err : ApiError → Result A

abbrev pub Action : Type 0 → Type 0 → Type 0
Action S A = S → Result A × S

module _ {S A : Type 0} where
  abbrev pub pure : A → Action S A
  pure a s = (ok a, s)

  abbrev pub raise : ApiError → Action S A
  raise e s = (err e, s)

  abbrev pub gets : (S → A) → Action S A
  gets f s = (ok (f s), s)

  abbrev pub or_raise : Option A → ApiError → Action S A
  or_raise none e s = (err e, s)
  or_raise (some a) e s = (ok a, s)

abbrev pub then_do : {S A B : Type 0} → (A → Action S B) → Result A × S → Result B × S
then_do f (ok a, s) = f a s
then_do f (err e, s) = (err e, s)

infixl 5 ◌>>=◌ ◌>>◌
abbrev pub ◌>>=◌ : {S A B : Type 0} → Action S A → (A → Action S B) → Action S B
◌>>=◌ m f s = then_do f (m s)

abbrev pub ◌>>◌ : {S A B : Type 0} → Action S A → Action S B → Action S B
m >> k = m >>= λ _. k

module _ {S : Type 0} where
  abbrev pub raise_if : Bool → ApiError → Action S (Unit {0})
  raise_if c e s = (if c then err e else ok tt, s)

  abbrev pub caught : {A : Type 0} → Result A × S → Result (Option A) × S
  caught (ok a, s) = (ok (some a), s)
  caught (err e, s) = (ok none, s)

  abbrev pub modify : (S → S) → Action S (Unit {0})
  modify f s = (ok tt, f s)

  -- `try { … } catch { }`: what was written before the throw stays.
  abbrev pub attempt : {A : Type 0} → Action S A → Action S (Option A)
  attempt m s = caught (m s)

-- What aborts an open transaction of the database: the refusal of a statement.
abbrev pub is_unique_violation : ApiError → Bool
is_unique_violation ApiError.unique_violation = true
is_unique_violation _ = false

abbrev pub aborts : {A : Type 0} → Result A → Bool
aborts (ok a) = false
aborts (err e) = is_unique_violation e

module _ {S : Type 0} where
  abbrev pub caught_within : {A : Type 0} → Result A × S → Result (Option A) × S
  caught_within (ok a, s) = (ok (some a), s)
  caught_within (err e, s) = (if is_unique_violation e then err e else ok none, s)

  -- `try { … } catch { }` within an open transaction. PostgreSQL refuses every statement after one
  -- that it refused, and rolls back instead of the commit: the refusal goes on to the caller.
  abbrev pub attempt_within : {A : Type 0} → Action S A → Action S (Option A)
  attempt_within m s = caught_within (m s)

  pub caught_within_ok :
      {A : Type 0} (r : Result A × S)
      → aborts r.0 ≡ false
      → (x : Option A) × (caught_within r ≡ (ok x, r.1))
  caught_within_ok (ok a, s) h = (some a, refl)
  caught_within_ok (err e, s) h = (none, rw h refl)

-- A call on a part of the state: another service's tables.
abbrev pub on : {S T A : Type 0} → (S → T) → (S → T → S) → Action T A → Action S A
on part put m s = let (r, t) = m (part s) in (r, put s t)

-- How a transaction ends: it commits, or what `back` says of the state before and the state at the
-- throw is left.
abbrev pub settle : {S A : Type 0} → (S → S → S) → S → Result A × S → Result A × S
settle back s (ok a, s') = (ok a, s')
settle back s (err e, s') = (err e, back s s')

-- Prisma's interactive transaction `client.$transaction(callback)`, which the program does not
-- implement: it runs the callback, commits if that returns, and rolls back and throws again if it
-- throws. `back` says what the database takes back.
pub record Transaction (S : Type 0) (back : S → S → S) : Type 1 where
  pub run : (A : Type 0) → Action S A → Action S A
  pub run_settles : (A : Type 0) (m : Action S A) (s : S) → run A m s ≡ settle back s (m s)

-- A transaction that does so.
abbrev pub settling : (S : Type 0) (back : S → S → S) → Transaction S back
settling S back = record { run = λ A m s. settle back s (m s); run_settles = λ A m s. refl }

-- A call that returns is committed as it is.
pub settle_ok :
    {S A : Type 0} (back : S → S → S) (s : S) (r : Result A × S) (a : A)
    → r.0 ≡ ok a
    → settle back s r ≡ r
settle_ok back s (ok b, s') a h = refl
settle_ok back s (err e, s') a h = cc

-- A call that throws throws the same after its rollback.
pub settled_error :
    {S A : Type 0} (back : S → S → S) (s : S) (r : Result A × S) (e : ApiError)
    → r.0 ≡ err e
    → (settle back s r).0 ≡ err e
settled_error back s (ok b, s') e h = cc
settled_error back s (err e', s') e h = h
