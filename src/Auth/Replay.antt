-- ===== src/Auth/Replay.antt =====
-- Refresh tokens over sequences of calls (`refreshSession` of
-- backend/apps/api/src/services/auth.service.ts).
use frendly.Common.{
  ℕ, ◌+◌, ◌==◌, ◌≤◌, ◌<◌, String, Bool, true, false, Option, none, some, List, [], ◌∷◌, find,
  change, count, count-pos_of_find, count_mono, subst, ◌≡◌, refl, sym, ap, arith, Bool-cases,
  Option-cases, inl, inr, if◌then◌else◌,
}
use frendly.Common.Action.{ApiError, ok, err, Transaction}
use frendly.Auth.Tables.{AuthRequestMeta, Session, Auth, take_back, write_audit_event}
use frendly.Auth.Codes.{OtpContext}
use frendly.Auth.Sessions.{
  Jwt, TokenPair, RefreshTokenPayload, refresh_payload, verify_refresh_token, refresh_found,
  refresh_session, rotate, can_rotate, rotated, is_stale,
}
use frendly.Auth.Fresh.{Held, Held-untouched, after_rotation, after_rotation-Held, holders_of}
use frendly.Auth.Histories.{AuthCall, perform_all, perform_all-Held}

-- Rows that pass, changed so that they do not, are taken off the count.
count-change_none :
    {A : Type 0} (q p : A → Bool) (f : A → A) (xs : List A)
    → ((x : A) → p x ≡ true → q x ≡ true)
    → ((x : A) → p x ≡ true → q (f x) ≡ false)
    → count q (change p f xs) + count p xs ≡ count q xs
count-change_none q p f [] h k = refl
count-change_none q p f (x ∷ xs) h k = ground (arith, h x, k x, count-change_none q p f xs h k)

-- Only the token that was spent is limited to no session.
abbrev pub spent : ℕ → ℕ → ℕ
spent token t = if t == token then 0 else 1

module _ (jwt : Jwt) where
  payload_stable :
      (token : String) (now later : ℕ) (p p' : RefreshTokenPayload)
      → verify_refresh_token jwt token now ≡ some p
      → verify_refresh_token jwt token later ≡ some p'
      → p ≡ p'
  payload_stable token now later p p' h k =
      elim (Option-cases (jwt.verify jwt.refresh_secret now token)) [
        | inl none_now ↦ let r = rw none_now at h in absurd (cc)
        | inr (c, had) ↦ elim (Option-cases (jwt.verify jwt.refresh_secret later token)) [
          | inl none_later ↦ let r = rw none_later at k in absurd (cc)
          | inr (c', has) ↦
              let same : c ≡ c' =
                jwt.verify_stable jwt.refresh_secret token now later c c' had has in
              let a : refresh_payload (some c) ≡ some p = rw had at h in
              let b : refresh_payload (some c') ≡ some p' = rw has at k in cc
        ]
      ]

  -- A rotation of rows that hold the token leaves it to no session.
  spent_by_rotation :
      (p : RefreshTokenPayload) (y : Session) (now : ℕ) (s : Auth)
      → (count (can_rotate p y) s.sessions == 0) ≡ false
      → Held (λ _. 1) 0 s
      → Held (spent p.refresh_token_id) 0 (after_rotation (λ _. 1) 0 p y now s)
  spent_by_rotation p y now s some_rotate held = record {
    since = omega arith;
    small = λ t. ground arith;
    allowed = λ t le. ground (arith, drawn);
    within = λ t. ground (arith, next.within t, gone);
    fresh = next.fresh;
    users = next.users;
  }
    where
      next : Held (λ _. 1) 0 (after_rotation (λ _. 1) 0 p y now s)
      next = after_rotation-Held (λ _. 1) 0 p y now s held

      rotates_holders : count (can_rotate p y) s.sessions ≤ holders_of p.refresh_token_id s
      rotates_holders =
          count_mono (can_rotate p y) (λ x. x.refresh_token_id == p.refresh_token_id) s.sessions
            (λ x t. ground arith)

      drawn : p.refresh_token_id < s.next_id
      drawn = ground (arith, held.fresh p.refresh_token_id, rotates_holders)

      gone : holders_of p.refresh_token_id (after_rotation (λ _. 1) 0 p y now s) ≡ 0
      gone = ground (
        arith,
        count-change_none (λ x. x.refresh_token_id == p.refresh_token_id) (can_rotate p y)
            (rotated s.next_id now) s.sessions (λ x t. ground arith) (λ x t. ground (arith, drawn)),
        held.within p.refresh_token_id,
      )

  -- A refresh that returned has rotated the session's token.
  refreshed :
      (p : RefreshTokenPayload) (x : Option Session) (meta : AuthRequestMeta) (now : ℕ)
      (s s' : Auth) (pair : TokenPair)
      → refresh_found jwt p x meta now s ≡ (ok pair, s')
      → Held (λ _. 1) 0 s
      → Held (spent p.refresh_token_id) 0 s'
  unfolding write_audit_event rotate
  refreshed p none meta now s s' pair h held = absurd (cc)
  refreshed p (some y) meta now s s' pair h held = elim (Bool-cases (is_stale p y)) [
    | inl stale ↦ let r = rw stale at h in absurd (cc)
    | inr live ↦ elim (Bool-cases (count (can_rotate p y) s.sessions == 0)) [
      | inl nothing ↦ let r = rw (live, nothing) at h in absurd (cc)
      | inr some_rotate ↦
          let r = rw (live, some_rotate) at h in
          subst (Held (spent p.refresh_token_id) 0) (ap (λ r. r.1) r) (
            Held-untouched (spent p.refresh_token_id) 0 (after_rotation (λ _. 1) 0 p y now s) _
              (spent_by_rotation p y now s some_rotate held) refl refl (omega arith))
    ]
  ]

  refused_when_spent :
      (p : RefreshTokenPayload) (x : Option Session) (meta : AuthRequestMeta) (now : ℕ) (s : Auth)
      → find (λ x. x.id == p.session_id) s.sessions ≡ x
      → Held (spent p.refresh_token_id) 0 s
      → (refresh_found jwt p x meta now s).0 ≡ err ApiError.invalid_refresh_token
  unfolding write_audit_event
  refused_when_spent p none meta now s found held = refl
  refused_when_spent p (some y) meta now s found held = elim (Bool-cases (is_stale p y)) [
    | inl stale ↦ rw stale
    | inr live ↦ absurd (
        ground (
          arith,
          count-pos_of_find (λ x. x.id == p.session_id)
              (λ x. x.refresh_token_id == p.refresh_token_id) s.sessions y found,
          held.within p.refresh_token_id,
        ))
  ]

-- In a state where every refresh token id is that of at most one session and below the counter of
-- the ids, a call that refreshes a token and returns spends it: after any sequence of code requests,
-- code checks, refreshes and logouts, refreshing the same token is refused at any time.
pub refresh_session_once :
    (context : OtpContext) (jwt : Jwt) (tx : Transaction Auth take_back) (token : String)
    (meta : AuthRequestMeta) (now : ℕ) (s s' : Auth) (pair : TokenPair)
    → Held (λ _. 1) 0 s
    → refresh_session jwt token meta now s ≡ (ok pair, s')
    → (calls : List AuthCall) (meta' : AuthRequestMeta) (later : ℕ)
    → (refresh_session jwt token meta' later (perform_all context jwt tx calls s')).0
      ≡ err ApiError.invalid_refresh_token
unfolding refresh_session write_audit_event
refresh_session_once context jwt tx token meta now s s' pair held h calls meta' later =
    elim (Option-cases (verify_refresh_token jwt token later)) [
      | inl expired ↦ rw expired
      | inr (p', valid) ↦ elim (Option-cases (verify_refresh_token jwt token now)) [
        | inl bad ↦ let r = rw bad at h in absurd (cc)
        | inr (p, good) ↦
            let same : p ≡ p' = payload_stable jwt token now later p p' good valid in
            let spent_now : Held (spent p.refresh_token_id) 0 s' =
              refreshed jwt p (find (λ x. x.id == p.session_id) s.sessions) meta now s s' pair
                (rw good at h) held in
            let spent_later =
              perform_all-Held (spent p.refresh_token_id) 0 context jwt tx calls s' spent_now in
            rw (valid, sym same)
              (refused_when_spent jwt p _ meta' later (perform_all context jwt tx calls s') refl
                spent_later)
      ]
    ]
