-- ===== src/Common/Sort.antt =====
-- `Array.prototype.sort` with a comparator, and `orderBy`: a stable sort. `le a b` says that `a` may
-- stand before `b`.
use mathlib.Core.List.{Perm}
use mathlib.Core.List.Perm
use frendly.Common.{
  IsIn, Bool, true, false, List, [], ◌∷◌, if◌then◌else◌, ◌≡◌, All, length, suc, refl, ap, ◌∙◌,
  Bool-cases, inl, inr, ◌⊎◌, arith,
}

module _ {A : Type 0} (le : A → A → Bool) where
  unfoldable pub place : A → List A → List A
  place x [] = x ∷ []
  place x (y ∷ ys) = if le x y then x ∷ y ∷ ys else y ∷ place x ys

  unfoldable pub sort_by : List A → List A
  unfolding place
  sort_by [] = []
  sort_by (x ∷ xs) = place x (sort_by xs)

  abbrev pub IsSortedBy : List A → Type 0
  IsSortedBy [] = Unit
  IsSortedBy (x ∷ xs) = All (λ y. le x y ≡ true) xs × IsSortedBy xs

  place-perm : (x : A) (xs : List A) → Perm (place x xs) (x ∷ xs)
  unfolding place
  place-perm x [] = Perm.refl (x ∷ [])
  place-perm x (y ∷ ys) = elim (Bool-cases (le x y)) [
    | inl h ↦ rw h (Perm.refl (x ∷ y ∷ ys))
    | inr h ↦ rw h (Perm.trans (Perm.cons y (place-perm x ys)) (Perm.swap x y ys))
  ]

  -- A sort only reorders.
  pub sort_by-perm : (xs : List A) → Perm (sort_by xs) xs
  unfolding sort_by
  sort_by-perm [] = Perm.refl []
  sort_by-perm (x ∷ xs) = Perm.trans (place-perm x (sort_by xs)) (Perm.cons x (sort_by-perm xs))

  module _ (total : (a b : A) → (le a b ≡ true) ⊎ (le b a ≡ true))
      (trans : (a b c : A) → le a b ≡ true → le b c ≡ true → le a c ≡ true) where
    weaken :
        (x y : A) (ys : List A)
        → le x y ≡ true
        → All (λ z. le y z ≡ true) ys
        → All (λ z. le x z ≡ true) ys
    weaken x y [] h a = tt
    weaken x y (z ∷ zs) h a = (trans x y z h a.0, weaken x y zs h a.1)

    place-All :
        (y x : A) (xs : List A)
        → le y x ≡ true
        → All (λ z. le y z ≡ true) xs
        → All (λ z. le y z ≡ true) (place x xs)
    unfolding place
    place-All y x [] h a = (h, tt)
    place-All y x (z ∷ zs) h a = elim (Bool-cases (le x z)) [
      | inl e ↦ rw e (h, a)
      | inr e ↦ rw e (a.0, place-All y x zs h a.1)
    ]

    place-IsSortedBy : (x : A) (xs : List A) → IsSortedBy xs → IsSortedBy (place x xs)
    unfolding place
    place-IsSortedBy x [] s = (tt, tt)
    place-IsSortedBy x (y ∷ ys) s = elim (Bool-cases (le x y)) [
      | inl e ↦ rw e ((e, weaken x y ys e s.0), s)
      | inr e ↦ rw e (place-All y x ys (other e) s.0, place-IsSortedBy x ys s.1)
    ]
      where
        other : le x y ≡ false → le y x ≡ true
        other e = elim (total x y) [ inl h ↦ absurd (clash h e) | inr h ↦ h ]
          where
            clash : {b : Bool} → b ≡ true → b ≡ false → ⊥
            clash h e = cc

    pub sort_by-IsSortedBy : (xs : List A) → IsSortedBy (sort_by xs)
    unfolding sort_by
    sort_by-IsSortedBy [] = tt
    sort_by-IsSortedBy (x ∷ xs) = place-IsSortedBy x (sort_by xs) (sort_by-IsSortedBy xs)

  length-place : (x : A) (xs : List A) → length (place x xs) ≡ suc (length xs)
  unfolding place
  length-place x [] = refl
  length-place x (y ∷ ys) = ground (arith, length-place x ys)

  pub length-sort_by : (xs : List A) → length (sort_by xs) ≡ length xs
  unfolding sort_by
  length-sort_by [] = refl
  length-sort_by (x ∷ xs) = length-place x (sort_by xs) ∙ ap suc (length-sort_by xs)

  IsIn-place : (x y : A) (xs : List A) → IsIn y (place x xs) → (y ≡ x) ⊎ IsIn y xs
  unfolding place
  IsIn-place x y [] (inl e) = inl e
  IsIn-place x y [] (inr h) = absurd h
  IsIn-place x y (z ∷ zs) h = elim (Bool-cases (le x z)) [
    | inl t ↦ let here : IsIn y (x ∷ z ∷ zs) = rw t at h in here
    | inr f ↦
        let there : IsIn y (z ∷ place x zs) = rw f at h in
        elim there [
          | inl e ↦ inr (inl e)
          | inr later ↦ elim (IsIn-place x y zs later) [ inl e ↦ inl e | inr k ↦ inr (inr k) ]
        ]
  ]

  -- A sort adds no row.
  pub IsIn-sort_by : (xs : List A) (y : A) → IsIn y (sort_by xs) → IsIn y xs
  unfolding sort_by
  IsIn-sort_by [] y h = absurd h
  IsIn-sort_by (x ∷ xs) y h = elim (IsIn-place x y (sort_by xs) h) [
    | inl e ↦ inl e
    | inr later ↦ inr (IsIn-sort_by xs y later)
  ]
