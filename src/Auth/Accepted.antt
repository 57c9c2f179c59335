-- ===== src/Auth/Accepted.antt =====
-- A right code in `verifyPhoneCode` (backend/apps/api/src/services/auth.service.ts).
use frendly.Common.{
  is_none, ℕ, suc, ◌==◌, ◌<◌, leb, ltb, String, Bool, true, false, not, ◌||◌, none, some, [], ◌∷◌,
  ◌++◌, find, find-append, find-passes, find-none_of_count, change, count, count-zero_of_find,
  count-pos_of_find, ◌≡◌, refl, sym, ap, ◌∙◌, arith, Option-cases, inl, inr, eq_iff, subst,
}
use frendly.Common.Action.{ApiError, Result, ok, err, Transaction, settle_ok, settled_error}
use frendly.Tokens.Money.{find-change}
use frendly.Auth.Tables.{
  AuthRequestMeta, PhoneOtpChallenge, User, Auth, take_back, write_audit_event,
}
use frendly.Auth.Codes.{OtpContext, phone_otp_max_attempts, verify_code}
use frendly.Auth.Phone.{has_phone}
use frendly.Auth.Sessions.{Jwt, record_legal_acceptance, create_session_record}
use frendly.Auth.Verify.{
  SignedIn, find_or_create_user, ensure_user, new_user, sign_in, claim, claimed_challenge,
  with_user, is_claimable, verify_in_transaction, verify_phone_code,
}
use frendly.Auth.Fresh.{Held, Held-untouched}

-- A user with the phone number is found or made, and the challenges stay.
pub record Found (phone : String) (s : Auth) : Type 0 where
  pub user : User
  pub is_new : Bool
  pub state : Auth
  pub returned : find_or_create_user phone s ≡ (ok (user, is_new), state)
  pub challenges : state.challenges ≡ s.challenges

find_or_create_user-Found :
    (limit : ℕ → ℕ) (from : ℕ) (phone : String) (s : Auth) → Held limit from s → Found phone s
unfolding find_or_create_user ensure_user
find_or_create_user-Found limit from phone s held =
    elim (Option-cases (find (has_phone phone) s.users)) [
      | inr (u, found) ↦ record {
        user = u;
        is_new = false;
        state = s;
        returned = rw found;
        challenges = refl;
      }
      | inl nobody ↦ record {
        user = new_user s.next_id phone;
        is_new = true;
        state = record s {
          users = s.users ++ (new_user s.next_id phone ∷ []);
          next_id = suc s.next_id;
        };
        returned = rw (
          nobody,
          find-none_of_count (λ u. u.id == s.next_id) s.users (held.users s.next_id (omega arith)),
          nobody,
          count-zero_of_find (has_phone phone) s.users nobody,
          find-append (has_phone phone) s.users (new_user s.next_id phone ∷ []) nobody,
          (eq_iff phone phone).1 refl,
        );
        challenges = refl;
      }
    ]

module _ (context : OtpContext) (jwt : Jwt) where
  -- A right code was taken: the challenge is consumed, and no code is taken for it again.
  pub record Accepted (id now : ℕ) (r : Result SignedIn × Auth) : Type 0 where
    pub view : SignedIn
    pub answer : r.0 ≡ ok view
    pub challenge : PhoneOtpChallenge
    pub found : find (λ c. c.id == id) r.1.challenges ≡ some challenge
    pub consumed : challenge.consumed_at ≡ some now

  sign_in-Accepted :
      (limit : ℕ → ℕ) (from : ℕ) (c d : PhoneOtpChallenge) (meta : AuthRequestMeta) (now : ℕ)
      (s : Auth)
      → Held limit from s
      → find (λ c. c.id == d.id) s.challenges ≡ some c
      → c.consumed_at ≡ some now
      → Accepted d.id now (sign_in context jwt d meta now s)
  unfolding sign_in write_audit_event record_legal_acceptance create_session_record
  sign_in-Accepted limit from c d meta now s held here consumed =
      let f = find_or_create_user-Found limit from d.phone_number s held in
      let same : find (λ c. c.id == d.id) f.state.challenges ≡ some c = rw f.challenges here in
      let rows =
        count-pos_of_find (λ c. c.id == d.id) (λ c. c.id == d.id) f.state.challenges c same
          (find-passes (λ c. c.id == d.id) f.state.challenges c same) in
      let some_rows : (count (λ c. c.id == d.id) f.state.challenges == 0) ≡ false = ground arith in
      rw (f.returned, sign_in)
        (rw some_rows (record {
          view = _;
          answer = refl;
          challenge = with_user f.user.id c;
          found =
              find-change (λ c. c.id == d.id) (λ c. c.id == d.id) (with_user f.user.id)
                f.state.challenges c (λ c. refl) same
              ∙ rw (find-passes (λ c. c.id == d.id) f.state.challenges c same);
          consumed = consumed;
        }))

  claim-Accepted :
      (limit : ℕ → ℕ) (from : ℕ) (c : PhoneOtpChallenge) (meta : AuthRequestMeta) (now : ℕ)
      (s : Auth)
      → Held limit from s
      → find (λ d. d.id == c.id) s.challenges ≡ some c
      → is_none c.consumed_at ≡ true
      → ltb now c.expires_at ≡ true
      → Accepted c.id now (claim context jwt c meta now s)
  unfolding claim
  claim-Accepted limit from c meta now s held here fresh early =
      let mine : is_claimable c.id now c ≡ true =
        ground (arith, find-passes (λ d. d.id == c.id) s.challenges c here) in
      let rows =
        count-pos_of_find (λ d. d.id == c.id) (is_claimable c.id now) s.challenges c here mine in
      let some_rows : (count (is_claimable c.id now) s.challenges == 0) ≡ false = ground arith in
      let after : Auth = record s {
        challenges = change (is_claimable c.id now) (claimed_challenge now) s.challenges;
      } in
      rw some_rows (
        sign_in-Accepted limit from (claimed_challenge now c) c meta now after
          (Held-untouched limit from s after held refl refl (omega arith))
          (find-change (λ d. d.id == c.id) (is_claimable c.id now) (claimed_challenge now)
              s.challenges c (λ d. refl) here
            ∙ rw mine)
          refl)

  -- The code is right for the challenge, which is open and not exhausted.
  pub record IsRight (id : ℕ) (code : String) (now : ℕ) (s : Auth) : Type 0 where
    pub challenge : PhoneOtpChallenge
    pub found : find (λ c. c.id == id) s.challenges ≡ some challenge
    pub unconsumed : challenge.consumed_at ≡ none
    pub early : now < challenge.expires_at
    pub attempts : challenge.attempt_count < phone_otp_max_attempts
    pub right : verify_code context code challenge.code_salt challenge.code_hash ≡ true

  verify_in_transaction-Accepted :
      (limit : ℕ → ℕ) (from id : ℕ) (code : String) (meta : AuthRequestMeta) (now : ℕ) (s : Auth)
      → Held limit from s
      → IsRight id code now s
      → Accepted id now (verify_in_transaction context jwt id code meta now s)
  unfolding verify_in_transaction
  verify_in_transaction-Accepted limit from id code meta now s held h =
      let c = h.challenge in
      let same : c.id ≡ id = ground (arith, find-passes (λ c. c.id == id) s.challenges c h.found) in
      let is_open : (not (is_none c.consumed_at) || leb c.expires_at now) ≡ false =
        ground (arith, h.unconsumed, h.early) in
      let allowed : leb phone_otp_max_attempts c.attempt_count ≡ false =
        ground (arith, h.attempts) in
      rw (h.found, is_open, allowed, h.right)
        (subst (λ i. Accepted i now (claim context jwt c meta now s)) same
          (claim-Accepted limit from c meta now s held
            (subst (λ i. find (λ d. d.id == i) s.challenges ≡ some c) (sym same) h.found)
            (rw h.unconsumed) (ground (arith, h.early))))

  -- Once a code was taken, every code is refused.
  refused_after :
      (id now : ℕ) (r : Result SignedIn × Auth)
      → Accepted id now r
      → (code : String) (meta : AuthRequestMeta) (later : ℕ)
      → (verify_in_transaction context jwt id code meta later r.1).0
        ≡ err ApiError.invalid_otp_challenge
  unfolding verify_in_transaction write_audit_event
  refused_after id now r h code meta later = rw (h.found, h.consumed)

  module _ (tx : Transaction Auth take_back) where
    -- A right code for an open challenge, in a state where the ids of the users and of the refresh
    -- tokens are below the counter of the ids, is taken: the call returns, the challenge is consumed
    -- at its time, and at any later time every code is refused for the challenge.
    pub verify_phone_code-Accepted :
        (limit : ℕ → ℕ) (from id : ℕ) (code : String) (meta : AuthRequestMeta) (now : ℕ) (s : Auth)
        → Held limit from s
        → IsRight id code now s
        → let r = verify_phone_code context jwt tx id code meta now s in
          Accepted id now r
          × ((code' : String) (meta' : AuthRequestMeta) (later : ℕ)
              → (verify_phone_code context jwt tx id code' meta' later r.1).0
                ≡ err ApiError.invalid_otp_challenge)
    unfolding verify_phone_code
    verify_phone_code-Accepted limit from id code meta now s held right =
        let m = verify_in_transaction context jwt id code meta now in
        let a = verify_in_transaction-Accepted limit from id code meta now s held right in
        let run : verify_phone_code context jwt tx id code meta now s ≡ m s =
          tx.run_settles SignedIn m s ∙ settle_ok take_back s (m s) a.view a.answer in
        rw run (
          a,
          λ code' meta' later.
              ap (λ r. r.0)
                (tx.run_settles SignedIn (verify_in_transaction context jwt id code' meta' later)
                  (m s).1)
              ∙ settled_error take_back (m s).1
                  (verify_in_transaction context jwt id code' meta' later (m s).1)
                  ApiError.invalid_otp_challenge (refused_after id now (m s) a code' meta' later),
        )
