-- ===== src/Auth/Fresh.antt =====
-- Ids of sessions and users, over every call of `AuthService`
-- (backend/apps/api/src/services/auth.service.ts).
use frendly.Common.{
  ℕ, suc, ◌+◌, ◌==◌, ◌≤◌, Bool, false, List, [], ◌∷◌, change, count, count-append, count-change,
  count-change-le, count_mono, ◌≡◌, refl, arith, Bool-cases, inl, inr,
}
use frendly.Common.Keeps.{Keeps}
use frendly.Auth.Tables.{AuthProvider, AuditParams, Session, Auth, write_audit_event}
use frendly.Auth.Sessions.{
  Jwt, RefreshTokenPayload, create_session_record, can_rotate, rotated, accepted,
  record_legal_acceptance,
}

abbrev pub holders_of : ℕ → Auth → ℕ
holders_of token s = count (λ x. x.refresh_token_id == token) s.sessions

-- Every refresh token id is that of at most `limit` sessions, and ids that were not drawn yet are of
-- none.
pub record Held (limit : ℕ → ℕ) (from : ℕ) (s : Auth) : Type 0 where
  pub since : from ≤ s.next_id
  pub small : (token : ℕ) → limit token ≤ 1
  pub allowed : (token : ℕ) → s.next_id ≤ token → limit token ≡ 1
  pub within : (token : ℕ) → holders_of token s ≤ limit token
  pub fresh : (token : ℕ) → s.next_id ≤ token → holders_of token s ≡ 0
  pub users : (id : ℕ) → s.next_id ≤ id → count (λ u. u.id == id) s.users ≡ 0

-- Changes of rows that pass count at most the rows they change.
count-change_some :
    {A : Type 0} (q p : A → Bool) (f : A → A) (xs : List A)
    → count q (change p f xs) ≤ count p xs + count q xs
count-change_some q p f [] = omega arith
count-change_some q p f (x ∷ xs) = ground (arith, count-change_some q p f xs)

module _ (limit : ℕ → ℕ) (from : ℕ) where
  -- What neither sessions nor users change of.
  pub Held-untouched :
      (s s' : Auth)
      → Held limit from s
      → s'.sessions ≡ s.sessions
      → s'.users ≡ s.users
      → s.next_id ≤ s'.next_id
      → Held limit from s'
  Held-untouched s s' h sessions users grows = record {
    since = omega (arith, h.since);
    small = h.small;
    allowed = λ t le. h.allowed t (omega arith);
    within = λ t. rw sessions (h.within t);
    fresh = λ t le. rw sessions (h.fresh t (omega arith));
    users = λ id le. rw users (h.users id (omega arith));
  }

  pub write_audit_event-Keeps :
      (params : AuditParams) → Keeps (Held limit from) (write_audit_event params)
  unfolding write_audit_event
  write_audit_event-Keeps params = record {
    after = λ s h. Held-untouched s _ h refl refl (omega arith);
  }

  pub create_session_record-Keeps :
      (jwt : Jwt) (user : ℕ) (provider : AuthProvider) (now : ℕ)
      → Keeps (Held limit from) (create_session_record jwt user provider now)
  unfolding create_session_record
  create_session_record-Keeps jwt user provider now = record {
    after = λ s h. record {
      since = omega (arith, h.since);
      small = h.small;
      allowed = λ t le. h.allowed t (omega arith);
      within = λ t.
          rw (count-append (λ x. x.refresh_token_id == t) s.sessions _)
            (ground (arith, h.within t, h.fresh t, h.allowed t));
      fresh = λ t le.
          rw (count-append (λ x. x.refresh_token_id == t) s.sessions _) (ground (arith, h.fresh t));
      users = λ id le. h.users id (omega arith);
    };
  }

  pub record_legal_acceptance-Keeps :
      (user now : ℕ) → Keeps (Held limit from) (record_legal_acceptance user now)
  unfolding record_legal_acceptance
  record_legal_acceptance-Keeps user now = record {
    after = λ s h. record {
      since = omega (arith, h.since);
      small = h.small;
      allowed = h.allowed;
      within = h.within;
      fresh = h.fresh;
      users = λ id le.
          rw
            (count-change (λ u. u.id == id) (λ u. u.id == user) (accepted now) s.users
              (λ u e. refl))
            (h.users id le);
    };
  }

  -- The sessions after a rotation.
  abbrev pub after_rotation : RefreshTokenPayload → Session → ℕ → Auth → Auth
  after_rotation p x now s = record s {
    next_id = suc s.next_id;
    sessions = change (can_rotate p x) (rotated s.next_id now) s.sessions;
  }

  pub after_rotation-Held :
      (p : RefreshTokenPayload) (x : Session) (now : ℕ) (s : Auth)
      → Held limit from s
      → Held limit from (after_rotation p x now s)
  after_rotation-Held p x now s h = record {
    since = omega (arith, h.since);
    small = h.small;
    allowed = λ t le. h.allowed t (omega arith);
    within = λ t. elim (Bool-cases (s.next_id == t)) [
      | inl same ↦ ground (arith, one t, h.allowed t, h.fresh t)
      | inr other ↦ ground (arith, others t other, h.within t)
    ];
    fresh = λ t le. ground (arith, others t, h.fresh t);
    users = λ id le. h.users id (omega arith);
  }
    where
      rotates : ℕ
      rotates = count (can_rotate p x) s.sessions

      at_most_one : rotates ≤ 1
      at_most_one = ground (
        arith,
        count_mono (can_rotate p x) (λ y. y.refresh_token_id == p.refresh_token_id) s.sessions
            (λ y t. ground arith),
        h.within p.refresh_token_id,
        h.small p.refresh_token_id,
      )

      one : (t : ℕ) → holders_of t (after_rotation p x now s) ≤ 1 + holders_of t s
      one t = omega (
        arith,
        at_most_one,
        count-change_some (λ y. y.refresh_token_id == t) (can_rotate p x) (rotated s.next_id now)
            s.sessions,
      )

      others :
          (t : ℕ)
          → (s.next_id == t) ≡ false
          → holders_of t (after_rotation p x now s) ≤ holders_of t s
      others t other =
          count-change-le (λ y. y.refresh_token_id == t) (can_rotate p x) (rotated s.next_id now)
            s.sessions (λ y c e. absurd (cc))
