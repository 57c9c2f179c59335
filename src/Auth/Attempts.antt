-- ===== src/Auth/Attempts.antt =====
-- Wrong codes in `verifyPhoneCode` (backend/apps/api/src/services/auth.service.ts): the attempts are
-- counted in the transaction that the refusal rolls back.
use frendly.Common.{
  is_none, ℕ, suc, ◌==◌, leb, String, false, not, ◌||◌, some, List, [], ◌∷◌, All, find, ◌≡◌, refl,
  ap, ◌∙◌, Bool-cases, inl, inr,
}
use frendly.Common.Action.{ApiError, Result, ok, err, Transaction, settle}
use frendly.Auth.Tables.{AuthRequestMeta, PhoneOtpChallenge, Auth, take_back, write_audit_event}
use frendly.Auth.Codes.{OtpContext, phone_otp_max_attempts, verify_code}
use frendly.Auth.Sessions.{Jwt}
use frendly.Auth.Verify.{SignedIn, verify_in_transaction, verify_phone_code, missed_error}
use frendly.Auth.Fresh.{Held}
use frendly.Auth.Histories.{verify_phone_code-Keeps}
use frendly.Auth.Accepted.{Accepted, IsRight, verify_phone_code-Accepted}

-- A call that the program makes with a code for a challenge.
pub record Guess : Type 0 where
  pub code : String
  pub meta : AuthRequestMeta
  pub at : ℕ

module _ (context : OtpContext) (jwt : Jwt) (tx : Transaction Auth take_back) (id : ℕ) where
  unfoldable pub guess_all : List Guess → Auth → Auth
  guess_all [] s = s
  guess_all (g ∷ gs) s = guess_all gs (verify_phone_code context jwt tx id g.code g.meta g.at s).1

  -- The codes are wrong for the challenge that a state has.
  abbrev pub AllWrong : PhoneOtpChallenge → List Guess → Type 0
  AllWrong c = All (λ g. verify_code context g.code c.code_salt c.code_hash ≡ false)

  wrong_throws :
      (c : PhoneOtpChallenge) (g : Guess) (s : Auth)
      → find (λ d. d.id == id) s.challenges ≡ some c
      → verify_code context g.code c.code_salt c.code_hash ≡ false
      → (e : ApiError) × ((verify_in_transaction context jwt id g.code g.meta g.at s).0 ≡ err e)
  unfolding verify_in_transaction write_audit_event
  wrong_throws c g s found wrong =
      elim (Bool-cases (not (is_none c.consumed_at) || leb c.expires_at g.at)) [
        | inl closed ↦ (ApiError.invalid_otp_challenge, rw (found, closed))
        | inr is_open ↦ elim (Bool-cases (leb phone_otp_max_attempts c.attempt_count)) [
          | inl most ↦ (ApiError.phone_otp_rate_limited, rw (found, is_open, most))
          | inr fewer ↦ (
            missed_error (leb phone_otp_max_attempts (suc c.attempt_count)),
            rw (found, is_open, fewer, wrong),
          )
        ]
      ]

  rolled_back :
      {A : Type 0} (s : Auth) (r : Result A × Auth) (e : ApiError)
      → r.0 ≡ err e
      → (settle take_back s r).1.challenges ≡ s.challenges
  rolled_back s (ok a, s') e h = absurd (cc)
  rolled_back s (err e', s') e h = refl

  -- A refused code leaves the challenges as they were.
  wrong_keeps :
      (c : PhoneOtpChallenge) (g : Guess) (s : Auth)
      → find (λ d. d.id == id) s.challenges ≡ some c
      → verify_code context g.code c.code_salt c.code_hash ≡ false
      → (verify_phone_code context jwt tx id g.code g.meta g.at s).1.challenges ≡ s.challenges
  unfolding verify_phone_code
  wrong_keeps c g s found wrong =
      let m = verify_in_transaction context jwt id g.code g.meta g.at in
      let thrown = wrong_throws c g s found wrong in
      ap (λ r. r.1.challenges) (tx.run_settles SignedIn m s) ∙ rolled_back s (m s) thrown.0 thrown.1

  guesses_keep :
      (c : PhoneOtpChallenge) (limit : ℕ → ℕ) (from : ℕ) (gs : List Guess) (s : Auth)
      → find (λ d. d.id == id) s.challenges ≡ some c
      → AllWrong c gs
      → Held limit from s
      → ((guess_all gs s).challenges ≡ s.challenges) × Held limit from (guess_all gs s)
  unfolding guess_all
  guesses_keep c limit from [] s found wrong held = (refl, held)
  guesses_keep c limit from (g ∷ gs) s found wrong held =
      let one = wrong_keeps c g s found wrong.0 in
      let rest =
        guesses_keep c limit from gs (verify_phone_code context jwt tx id g.code g.meta g.at s).1
          (rw one found) wrong.1
          ((verify_phone_code-Keeps limit from context jwt tx id g.code g.meta g.at).after s
            held) in
      (rest.0 ∙ one, rest.1)

  -- However many wrong codes are tried for an open challenge, in a state where the ids of the users
  -- and of the refresh tokens are below the counter, the right code is still taken afterwards, in
  -- its time: the count of the attempts is rolled back with every refusal.
  pub guess_all-Accepted :
      (limit : ℕ → ℕ) (from : ℕ) (guesses : List Guess) (code : String) (meta : AuthRequestMeta)
      (now : ℕ) (s : Auth)
      → Held limit from s
      → (right : IsRight context jwt id code now s) → AllWrong right.challenge guesses
      → Accepted context jwt id now
          (verify_phone_code context jwt tx id code meta now (guess_all guesses s))
  guess_all-Accepted limit from guesses code meta now s held right wrong =
      let kept = guesses_keep right.challenge limit from guesses s right.found wrong held in
      (verify_phone_code-Accepted context jwt tx limit from id code meta now (guess_all guesses s)
        kept.1
        (record {
          challenge = right.challenge;
          found = rw kept.0 right.found;
          unconsumed = right.unconsumed;
          early = right.early;
          attempts = right.attempts;
          right = right.right;
        })).0
