-- ===== src/Common/Lists.antt =====
-- Lists measured by native numbers, under the library's names, and the table operations that the
-- services ask of the database: count, find, keep, change.
use Prim.Native.Nat.{ℕ, zero, suc, ◌+◌, ◌≤◌, min}
use mathlib.Core.Path.{◌≡◌, refl, sym, ap, ◌∙◌, subst}
use mathlib.Core.Bool.{Bool, true, false}
use mathlib.Core.List.{List, [], ◌∷◌, ◌++◌}
use mathlib.Core.Option.{Option, none, some}
use native.Mathlib.Omega.{arith}
use mathlib.Core.Logic.{◌⊎◌, inl, inr}
use frendly.Common.Tests.{if◌then◌else◌, Bool-cases}

-- A predicate that holds of every member.
abbrev pub All {ℓ κ} : {A : Type ℓ} → (A → Type κ) → List A → Type κ
All P [] = Unit
All P (x ∷ xs) = P x × All P xs

pub All-mono {ℓ κ} :
    {A : Type ℓ} (P Q : A → Type κ) (xs : List A) → ((x : A) → P x → Q x) → All P xs → All Q xs
All-mono P Q [] f a = tt
All-mono P Q (x ∷ xs) f a = (f x a.0, All-mono P Q xs f a.1)

-- A row that a list holds.
abbrev pub IsIn : {A : Type 0} → A → List A → Type 0
IsIn x [] = ⊥
IsIn x (y ∷ ys) = (x ≡ y) ⊎ IsIn x ys

module _ {A : Type 0} where
  pub IsIn-append_last : (xs : List A) (x : A) → IsIn x (xs ++ (x ∷ []))
  IsIn-append_last [] x = inl refl
  IsIn-append_last (y ∷ ys) x = inr (IsIn-append_last ys x)

module _ {ℓ} {A : Type ℓ} where
  abbrev pub length : List A → ℕ
  length [] = 0
  length (x ∷ xs) = suc (length xs)

  abbrev pub take : ℕ → List A → List A
  take zero xs = []
  take (suc n) [] = []
  take (suc n) (x ∷ xs) = x ∷ take n xs

  abbrev pub drop : ℕ → List A → List A
  drop zero xs = xs
  drop (suc n) [] = []
  drop (suc n) (x ∷ xs) = drop n xs

  abbrev pub replicate : ℕ → A → List A
  replicate zero a = []
  replicate (suc n) a = a ∷ replicate n a

  -- `findMany`: the rows that pass.
  abbrev pub keep : (A → Bool) → List A → List A
  keep p [] = []
  keep p (x ∷ xs) = if p x then x ∷ keep p xs else keep p xs

  -- `findFirst` and `findUnique`: the first row that passes.
  abbrev pub find : (A → Bool) → List A → Option A
  find p [] = none
  find p (x ∷ xs) = if p x then some x else find p xs

  -- `updateMany`: the rows that pass are changed.
  abbrev pub change : (A → Bool) → (A → A) → List A → List A
  change p f [] = []
  change p f (x ∷ xs) = (if p x then f x else x) ∷ change p f xs

  -- `update`: the row that a unique column names is changed.
  abbrev pub change_first : (A → Bool) → (A → A) → List A → List A
  change_first p f [] = []
  change_first p f (x ∷ xs) = if p x then f x ∷ xs else x ∷ change_first p f xs

  -- `count`
  abbrev pub count : (A → Bool) → List A → ℕ
  count p [] = 0
  count p (x ∷ xs) = (if p x then 1 else 0) + count p xs

  -- `_sum` of a column over the rows that pass.
  abbrev pub sum_of : (A → Bool) → (A → ℕ) → List A → ℕ
  sum_of p f [] = 0
  sum_of p f (x ∷ xs) = (if p x then f x else 0) + sum_of p f xs

module _ {ℓ} {A : Type ℓ} where
  pub All-append {κ} : (P : A → Type κ) (xs ys : List A) → All P xs → All P ys → All P (xs ++ ys)
  All-append P [] ys hx hy = hy
  All-append P (x ∷ xs) ys hx hy = (hx.0, All-append P xs ys hx.1 hy)

  pub count-append : (p : A → Bool) (xs ys : List A) → count p (xs ++ ys) ≡ count p xs + count p ys
  count-append p [] ys = omega arith
  count-append p (x ∷ xs) ys = omega (arith, count-append p xs ys)

  pub sum_of-append :
      (p : A → Bool) (f : A → ℕ) (xs ys : List A)
      → sum_of p f (xs ++ ys) ≡ sum_of p f xs + sum_of p f ys
  sum_of-append p f [] ys = omega arith
  sum_of-append p f (x ∷ xs) ys = omega (arith, sum_of-append p f xs ys)

  pub count-replicate : (p : A → Bool) (n : ℕ) (a : A) → count p (replicate n a) ≤ n
  count-replicate p zero a = omega arith
  count-replicate p (suc n) a = ground (arith, count-replicate p n a)

  pub length-append : (xs ys : List A) → length (xs ++ ys) ≡ length xs + length ys
  length-append [] ys = omega arith
  length-append (x ∷ xs) ys = omega (arith, length-append xs ys)

  -- The row found passes the test.
  pub find-passes : (p : A → Bool) (xs : List A) (x : A) → find p xs ≡ some x → p x ≡ true
  find-passes p [] x h = cc
  find-passes p (y ∷ xs) x h = ground (arith, find-passes p xs x)

  -- What holds of every row holds of the row found.
  pub All-find {κ} :
      (P : A → Type κ) (p : A → Bool) (xs : List A) (x : A) → find p xs ≡ some x → All P xs → P x
  All-find P p [] x h a = cc
  All-find P p (y ∷ ys) x h a = elim (Bool-cases (p y)) [
    | inl t ↦ subst P (ground arith) a.0
    | inr f ↦ All-find P p ys x (ground arith) a.1
  ]

  pub All-keep {κ} : (P : A → Type κ) (p : A → Bool) (xs : List A) → All P xs → All P (keep p xs)
  All-keep P p [] a = tt
  All-keep P p (x ∷ xs) a = elim (Bool-cases (p x)) [
    | inl t ↦ rw t (a.0, All-keep P p xs a.1)
    | inr f ↦ rw f (All-keep P p xs a.1)
  ]

  pub All-change {κ} :
      (P : A → Type κ) (p : A → Bool) (f : A → A) (xs : List A)
      → ((x : A) → P x → p x ≡ true → P (f x))
      → All P xs
      → All P (change p f xs)
  All-change P p f [] h a = tt
  All-change P p f (x ∷ xs) h a = elim (Bool-cases (p x)) [
    | inl t ↦ rw t (h x a.0 t, All-change P p f xs h a.1)
    | inr e ↦ rw e (a.0, All-change P p f xs h a.1)
  ]

  -- Rows that pass one test do not pass another: changing them keeps the other count.
  pub count-change :
      (q p : A → Bool) (f : A → A) (xs : List A)
      → ((x : A) → p x ≡ true → q (f x) ≡ q x)
      → count q (change p f xs) ≡ count q xs
  count-change q p f [] h = refl
  count-change q p f (x ∷ xs) h = ground (arith, h x, count-change q p f xs h)

  -- Changes after which no row passes that did not pass before.
  pub count-change-le :
      (q p : A → Bool) (f : A → A) (xs : List A)
      → ((x : A) → p x ≡ true → q (f x) ≡ true → q x ≡ true)
      → count q (change p f xs) ≤ count q xs
  count-change-le q p f [] h = omega arith
  count-change-le q p f (x ∷ xs) h = ground (arith, h x, count-change-le q p f xs h)

  -- A search fails exactly when no row passes.
  pub count-zero_of_find : (p : A → Bool) (xs : List A) → find p xs ≡ none → count p xs ≡ 0
  count-zero_of_find p [] h = refl
  count-zero_of_find p (x ∷ xs) h = ground (arith, count-zero_of_find p xs)

  pub find-append :
      (p : A → Bool) (xs ys : List A) → find p xs ≡ none → find p (xs ++ ys) ≡ find p ys
  find-append p [] ys h = refl
  find-append p (x ∷ xs) ys h = ground (arith, find-append p xs ys)

  pub find-append_found :
      (p : A → Bool) (xs ys : List A) (x : A) → find p xs ≡ some x → find p (xs ++ ys) ≡ some x
  find-append_found p [] ys x h = cc
  find-append_found p (y ∷ xs) ys x h = ground (arith, find-append_found p xs ys x)

  -- An update changes a sum by what it changes of the row found.
  pub sum_of-change_first :
      (q : A → Bool) (g : A → ℕ) (p : A → Bool) (f : A → A) (xs : List A) (x : A)
      → find p xs ≡ some x
      → sum_of q g (change_first p f xs) + (if q x then g x else 0)
        ≡ sum_of q g xs + (if q (f x) then g (f x) else 0)
  sum_of-change_first q g p f [] x h = cc
  sum_of-change_first q g p f (y ∷ ys) x h = elim (Bool-cases (p y)) [
    | inl t ↦ let e : y ≡ x = ground arith in rw (t, e) (omega arith)
    | inr t ↦ rw t (omega (arith, sum_of-change_first q g p f ys x (ground arith)))
  ]

  pub All-change_first {κ} :
      (P : A → Type κ) (p : A → Bool) (f : A → A) (xs : List A)
      → ((x : A) → P x → P (f x))
      → All P xs
      → All P (change_first p f xs)
  All-change_first P p f [] h a = tt
  All-change_first P p f (x ∷ xs) h a = elim (Bool-cases (p x)) [
    | inl t ↦ rw t (h x a.0, a.1)
    | inr e ↦ rw e (a.0, All-change_first P p f xs h a.1)
  ]

  -- The row that was updated is found again.
  pub find-change_first :
      (p : A → Bool) (f : A → A) (xs : List A) (x : A)
      → find p xs ≡ some x
      → p (f x) ≡ true
      → find p (change_first p f xs) ≡ some (f x)
  find-change_first p f [] x h t = cc
  find-change_first p f (y ∷ ys) x h t = elim (Bool-cases (p y)) [
    | inl e ↦ let same : y ≡ x = ground arith in rw (e, same) (rw t)
    | inr e ↦ rw e (rw e (find-change_first p f ys x (ground arith) t))
  ]

  pub keep-append : (p : A → Bool) (xs ys : List A) → keep p (xs ++ ys) ≡ keep p xs ++ keep p ys
  keep-append p [] ys = refl
  keep-append p (x ∷ xs) ys = ground (arith, keep-append p xs ys)

  -- Where no row that one test keeps passes another, the other keeps none of them.
  pub keep-keep_none :
      (p q : A → Bool) (xs : List A)
      → ((x : A) → q x ≡ true → p x ≡ false)
      → keep p (keep q xs) ≡ []
  keep-keep_none p q [] h = refl
  keep-keep_none p q (x ∷ xs) h = ground (arith, h x, keep-keep_none p q xs h)

  pub keep-keep_self : (p : A → Bool) (xs : List A) → keep p (keep p xs) ≡ keep p xs
  keep-keep_self p [] = refl
  keep-keep_self p (x ∷ xs) = ground (arith, keep-keep_self p xs)

  pub length-take : (n : ℕ) (xs : List A) → length (take n xs) ≡ min n (length xs)
  length-take zero xs = omega arith
  length-take (suc n) [] = omega arith
  length-take (suc n) (x ∷ xs) = omega (arith, length-take n xs)

  -- The row that one search finds is counted by any test that it passes.
  pub count-pos_of_find :
      (q p : A → Bool) (xs : List A) (x : A) → find q xs ≡ some x → p x ≡ true → 1 ≤ count p xs
  count-pos_of_find q p [] x h t = absurd (cc)
  count-pos_of_find q p (y ∷ ys) x h t = elim (Bool-cases (q y)) [
    | inl e ↦ let same : y ≡ x = ground arith in rw (same, t) (omega arith)
    | inr e ↦ omega (arith, count-pos_of_find q p ys x (ground arith) t)
  ]

  pub count_mono :
      (p q : A → Bool) (xs : List A) → ((x : A) → p x ≡ true → q x ≡ true) → count p xs ≤ count q xs
  count_mono p q [] h = omega arith
  count_mono p q (x ∷ xs) h = ground (arith, h x, count_mono p q xs h)

  pub find-none_of_count : (p : A → Bool) (xs : List A) → count p xs ≡ 0 → find p xs ≡ none
  find-none_of_count p [] h = refl
  find-none_of_count p (x ∷ xs) h = ground (arith, find-none_of_count p xs)

module _ {A : Type 0} where
  pub IsIn-keep :
      (p : A → Bool) (xs : List A) (x : A) → IsIn x (keep p xs) → (p x ≡ true) × IsIn x xs
  IsIn-keep p [] x h = absurd h
  IsIn-keep p (y ∷ ys) x h = elim (Bool-cases (p y)) [
    | inl t ↦
        let here : IsIn x (y ∷ keep p ys) = rw t at h in
        elim here [
          | inl e ↦ (ap p e ∙ t, inl e)
          | inr later ↦ let k = IsIn-keep p ys x later in (k.0, inr k.1)
        ]
    | inr f ↦
        let later : IsIn x (keep p ys) = rw f at h in
        let k = IsIn-keep p ys x later in (k.0, inr k.1)
  ]

  -- A changed row stands in the changed list.
  pub IsIn-change :
      (p : A → Bool) (f : A → A) (xs : List A) (x : A)
      → IsIn x xs
      → p x ≡ true
      → IsIn (f x) (change p f xs)
  IsIn-change p f [] x h t = absurd h
  IsIn-change p f (y ∷ ys) x (inl e) t =
      let there : p y ≡ true = sym (ap p e) ∙ t in rw there (inl (ap f e))
  IsIn-change p f (y ∷ ys) x (inr h) t = inr (IsIn-change p f ys x h t)
