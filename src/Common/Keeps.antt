-- ===== src/Common/Keeps.antt =====
-- Invariants of a service: what a call keeps, whether it returns or throws.
use frendly.Common.{subst, sym, Bool, true, false, if◌then◌else◌, Option, none, some}
use frendly.Common.Action.{
  Action, ApiError, pure, raise, gets, or_raise, raise_if, modify, Result, ok, err, ◌>>=◌, then_do,
  attempt, caught, attempt_within, caught_within, settle, Transaction,
}

pub record Keeps {S A : Type 0} (I : S → Type 0) (m : Action S A) : Type 0 where
  pub after : (s : S) → I s → I (m s).1

module _ {S : Type 0} (I : S → Type 0) where
  pub Keeps-then_do :
      {A B : Type 0} (f : A → Action S B)
      → ((a : A) → Keeps I (f a))
      → (r : Result A × S) → I r.1
      → I (then_do f r).1
  Keeps-then_do f l (ok a, s) h = (l a).after s h
  Keeps-then_do f l (err e, s) h = h

  Keeps-caught : {A : Type 0} (r : Result A × S) → I r.1 → I (caught r).1
  Keeps-caught (ok a, s) h = h
  Keeps-caught (err e, s) h = h

  Keeps-settle :
      {A : Type 0} (back : S → S → S)
      → ((s s' : S) → I s → I (back s s'))
      → (s : S) (r : Result A × S) → I s
      → I r.1
      → I (settle back s r).1
  Keeps-settle back b s (ok a, s') h h' = h'
  Keeps-settle back b s (err e, s') h h' = b s s' h

  pub Keeps-bind :
      {A B : Type 0} (m : Action S A) (f : A → Action S B)
      → Keeps I m
      → ((a : A) → Keeps I (f a))
      → Keeps I (m >>= f)
  Keeps-bind m f k l = record { after = λ s h. Keeps-then_do f l (m s) (k.after s h) }

  pub Keeps-attempt : {A : Type 0} (m : Action S A) → Keeps I m → Keeps I (attempt m)
  Keeps-attempt m k = record { after = λ s h. Keeps-caught (m s) (k.after s h) }

  Keeps-caught_within : {A : Type 0} (r : Result A × S) → I r.1 → I (caught_within r).1
  Keeps-caught_within (ok a, s) h = h
  Keeps-caught_within (err e, s) h = h

  pub Keeps-attempt_within : {A : Type 0} (m : Action S A) → Keeps I m → Keeps I (attempt_within m)
  Keeps-attempt_within m k = record { after = λ s h. Keeps-caught_within (m s) (k.after s h) }

  -- A transaction keeps what its callback keeps, if a rollback does.
  pub Keeps-run :
      {A : Type 0} {back : S → S → S} (tx : Transaction S back) (m : Action S A)
      → ((s s' : S) → I s → I (back s s'))
      → Keeps I m
      → Keeps I (tx.run A m)
  Keeps-run {A} {back} tx m b k = record {
    after = λ s h.
        subst (λ (r : Result A × S). I r.1) (sym (tx.run_settles A m s))
          (Keeps-settle back b s (m s) h (k.after s h));
  }

  pub Keeps-if :
      {A : Type 0} (b : Bool) (m k : Action S A)
      → Keeps I m
      → Keeps I k
      → Keeps I (if b then m else k)
  Keeps-if true m k h h' = h
  Keeps-if false m k h h' = h'

  pub Keeps-raise_if : (b : Bool) (e : ApiError) → Keeps I (raise_if {S = S} b e)
  Keeps-raise_if b e = record { after = λ s h. h }

  pub Keeps-raise : {A : Type 0} (e : ApiError) → Keeps I (raise {S = S} {A = A} e)
  Keeps-raise e = record { after = λ s h. h }

  pub Keeps-or_raise : {A : Type 0} (o : Option A) (e : ApiError) → Keeps I (or_raise {S = S} o e)
  Keeps-or_raise none e = record { after = λ s h. h }
  Keeps-or_raise (some a) e = record { after = λ s h. h }

  pub Keeps-pure : {A : Type 0} (a : A) → Keeps I (pure {S = S} a)
  Keeps-pure a = record { after = λ s h. h }

  pub Keeps-gets : {A : Type 0} (f : S → A) → Keeps I (gets f)
  Keeps-gets f = record { after = λ s h. h }

  pub Keeps-modify : (f : S → S) → ((s : S) → I s → I (f s)) → Keeps I (modify f)
  Keeps-modify f k = record { after = k }

-- The rules that follow the code of a call.
pub ruleset keeps = (
  Keeps-bind, Keeps-attempt, Keeps-attempt_within, Keeps-if, Keeps-pure, Keeps-gets, Keeps-raise_if,
  Keeps-raise, Keeps-or_raise,
)
