-- ===== src/Prelude/Sort.antt =====
-- `ORDER BY` as insertion sort by a test.
use mathlib.Core.Path.{◌≡◌, sym, ap, subst}
use mathlib.Core.Logic.{◌↔◌, ◌⊎◌, inl, inr}
use mathlib.Core.Bool.{Bool, true, false}
use mathlib.Core.List.{List, [], ◌∷◌}
use native.Mathlib.Omega.{arith}
use eyot_ai.Prelude.Tests.{if◌then◌else◌, Bool-cases}
use eyot_ai.Prelude.Lists.{filter, find, All, All-imp, All-filter, All-In, In}
use mathlib.Core.Option.{some}

module _ {A : Type 0} (le : A → A → Bool) where
  pub insert : A → List A → List A
  insert x [] = x ∷ []
  insert x (y ∷ ys) = let rest = insert x ys in if le x y then x ∷ y ∷ ys else y ∷ rest

  unfoldable pub sort : List A → List A
  unfolding insert
  sort [] = []
  sort (x ∷ xs) = insert x (sort xs)

  -- each element stands before all later ones
  abbrev pub IsSorted : List A → Type 0
  IsSorted [] = Unit
  IsSorted (x ∷ xs) = All (λ y. le x y ≡ true) xs × IsSorted xs

  In-insert : (x y : A) (ys : List A) → In y (insert x ys) ↔ ((y ≡ x) ⊎ In y ys)
  unfolding insert
  In-insert x y [] = (λ h. h, λ h. h)
  In-insert x y (z ∷ ys) =
      let rest = In-insert x y ys in
      elim (Bool-cases (le x z)) [
        | inl e ↦ rw e (λ h. h, λ h. h)
        | inr e ↦ rw e (
          λ h. elim h [
            | inl s ↦ inr (inl s)
            | inr m ↦ elim (rest.0 m) [ inl s ↦ inl s | inr m' ↦ inr (inr m') ]
          ],
          λ h. elim h [
            | inl s ↦ inr (rest.1 (inl s))
            | inr (inl s) ↦ inl s
            | inr (inr m) ↦ inr (rest.1 (inr m))
          ],
        )
      ]

  pub In-sort : (y : A) (xs : List A) → In y (sort xs) ↔ In y xs
  unfolding sort
  In-sort y [] = (λ h. h, λ h. h)
  In-sort y (x ∷ xs) =
      let one = In-insert x y (sort xs) in
      let rest = In-sort y xs in
      (
        λ h. elim (one.0 h) [ inl s ↦ inl s | inr m ↦ inr (rest.0 m) ],
        λ h. elim h [ inl s ↦ one.1 (inl s) | inr m ↦ one.1 (inr (rest.1 m)) ],
      )

  module _ (total : (a b : A) → le a b ≡ false → le b a ≡ true)
      (trans : (a b c : A) → le a b ≡ true → le b c ≡ true → le a c ≡ true) where
    All-insert :
        (z x : A) (ys : List A)
        → le z x ≡ true
        → All (λ y. le z y ≡ true) ys
        → All (λ y. le z y ≡ true) (insert x ys)
    unfolding insert
    All-insert z x [] h hs = (h, tt)
    All-insert z x (y ∷ ys) h hs = elim (Bool-cases (le x y)) [
      | inl e ↦ rw e (h, hs)
      | inr e ↦ rw e (hs.0, All-insert z x ys h hs.1)
    ]

    insert-IsSorted : (x : A) (ys : List A) → IsSorted ys → IsSorted (insert x ys)
    unfolding insert
    insert-IsSorted x [] s = (tt, tt)
    insert-IsSorted x (y ∷ ys) (h, s) = elim (Bool-cases (le x y)) [
      | inl e ↦
          rw e (
            (e, All-imp (λ z. le y z ≡ true) (λ z. le x z ≡ true) ys (λ z. trans x y z e) h),
            (h, s),
          )
      | inr e ↦ rw e (All-insert y x ys (total x y e) h, insert-IsSorted x ys s)
    ]

    pub sort-IsSorted : (xs : List A) → IsSorted (sort xs)
    unfolding sort
    sort-IsSorted [] = tt
    sort-IsSorted (x ∷ xs) = insert-IsSorted x (sort xs) (sort-IsSorted xs)

  pub filter-IsSorted : (p : A → Bool) (xs : List A) → IsSorted xs → IsSorted (filter p xs)
  filter-IsSorted p [] s = tt
  filter-IsSorted p (x ∷ xs) (h, s) = elim (Bool-cases (p x)) [
    | inl e ↦ rw e (
      All-filter (λ y. le x y ≡ true) (λ y. le x y ≡ true) p xs (λ y t k. k) h,
      filter-IsSorted p xs s,
    )
    | inr e ↦ rw e (filter-IsSorted p xs s)
  ]

  -- the first element that passes a test stands before every other that passes it
  pub find-first :
      (reflexive : (a : A) → le a a ≡ true) (p : A → Bool) (xs : List A) (w c : A)
      → IsSorted xs
      → find p xs ≡ some w
      → In c xs
      → p c ≡ true
      → le w c ≡ true
  find-first reflexive p [] w c s f m t = elim m [ ]
  find-first reflexive p (x ∷ xs) w c s f m t = elim (Bool-cases (p x)) [
    | inl e ↦
        let same : x ≡ w = ground arith in
        subst (λ y. le y c ≡ true) same
          (elim m [
            | inl d ↦ subst (λ y. le x y ≡ true) (sym d) (reflexive x)
            | inr m' ↦ All-In (λ y. le x y ≡ true) xs c s.0 m'
          ])
    | inr e ↦ elim m [
      | inl d ↦ absurd (ground (arith, ap p d))
      | inr m' ↦ find-first reflexive p xs w c s.1 (ground arith) m' t
    ]
  ]
