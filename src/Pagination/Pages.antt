-- ===== src/Pagination/Pages.antt =====
-- Following the cursor gives every row once, in order (core/pagination.py).
use eyot_ai.Prelude.{
  ℕ, zero, suc, ◌+◌, ◌≤◌, ◌<◌, String, ◌≡◌, inl, inr, refl, sym, ap, ◌∙◌, subst, Bool, true, false,
  Option, none, some, List, [], ◌∷◌, ◌++◌, ltb, length, take, drop, filter, arith, All, Bool-cases,
  take-drop, append_assoc,
}
use eyot_ai.Pagination.{CursorPage, last, is_after, paginate_cursor, follow}

module _ {ℓ κ} {A : Type ℓ} {K : Type κ} (key : A → K) (less : K → K → Bool) where
  -- each row before all later ones
  abbrev pub IsAscending : List A → Type 0
  IsAscending [] = Unit
  IsAscending (x ∷ xs) = All (λ y. less (key x) (key y) ≡ true) xs × IsAscending xs

  filter-All :
      (x : A) (xs : List A)
      → All (λ y. less (key x) (key y) ≡ true) xs
      → filter (λ r. less (key x) (key r)) xs ≡ xs
  filter-All x [] h = refl
  filter-All x (y ∷ xs) (e, h) = rw (e, filter-All x xs h) refl

  All-concat :
      (x : A) (before after : List A) (z : A)
      → All (λ y. less (key z) (key y) ≡ true) (before ++ x ∷ after)
      → less (key z) (key x) ≡ true
  All-concat x [] after z h = h.0
  All-concat x (y ∷ before) after z h = All-concat x before after z h.1

  irreflexive : ((a b : K) → less a b ≡ true → less b a ≡ false) → (a : K) → less a a ≡ false
  irreflexive asym a = elim (Bool-cases (less a a)) [ inl t ↦ asym a a t | inr f ↦ f ]

  -- the rows behind one of them
  filter-after :
      (asym : (a b : K) → less a b ≡ true → less b a ≡ false) (before : List A) (x : A)
      (after : List A)
      → IsAscending (before ++ x ∷ after)
      → filter (λ r. less (key x) (key r)) (before ++ x ∷ after) ≡ after
  filter-after asym [] x after s = rw (irreflexive asym (key x), filter-All x after s.0) refl
  filter-after asym (y ∷ before) x after s =
      rw (asym (key y) (key x) (All-concat x before after y s.0))
        (filter-after asym before x after s.1)

module _ {ℓ} {A : Type ℓ} where
  unfiltered : (xs : List A) → filter (λ x. true) xs ≡ xs
  unfiltered [] = refl
  unfiltered (x ∷ xs) = ap (λ l. x ∷ l) (unfiltered xs)

  take-nil : (n : ℕ) → take {A = A} n [] ≡ []
  take-nil zero = refl
  take-nil (suc n) = refl

  take-take : (n : ℕ) (xs : List A) → take n (take (suc n) xs) ≡ take n xs
  take-take zero xs = refl
  take-take (suc n) [] = refl
  take-take (suc n) (x ∷ xs) = ap (λ l. x ∷ l) (take-take n xs)

  take_short : (n : ℕ) (xs : List A) → length (take (suc n) xs) ≤ n → take n xs ≡ xs
  take_short zero [] h = refl
  take_short (suc n) [] h = refl
  take_short zero (x ∷ xs) h = absurd (omega arith)
  take_short (suc n) (x ∷ xs) h = ap (λ l. x ∷ l) (take_short n xs (omega arith))

  -- a page that is not empty ends with its last item
  last-take :
      (n : ℕ) (x : A) (xs : List A)
      → (before : List A) × (z : A) × (last (take (suc n) (x ∷ xs)) ≡ some z)
        × (take (suc n) (x ∷ xs) ≡ before ++ z ∷ [])
  unfolding last
  last-take zero x xs = ([], x, refl, refl)
  last-take (suc n) x [] = ([], x, refl, refl)
  last-take (suc n) x (y ∷ xs) =
      let (before, z, l, e) = last-take n y xs in (x ∷ before, z, l, ap (λ l. x ∷ l) e)

  length-drop : (n : ℕ) (x : A) (xs : List A) → length (drop (suc n) (x ∷ xs)) ≤ length xs
  length-drop zero x xs = omega arith
  length-drop (suc n) x [] = omega arith
  length-drop (suc n) x (y ∷ xs) = omega (arith, length-drop n y xs)

module _ {ℓ κ} {A : Type ℓ} {K : Type κ} (key : A → K) (less : K → K → Bool) (str : K → String)
    (decoder : String → K) where
  -- the last page
  last_page :
      (rows todo : List A) (n : ℕ) (cursor : Option String)
      → filter (is_after key less str decoder cursor) rows ≡ todo
      → ltb n (length (take (n + 1) todo)) ≡ false
      → paginate_cursor key less str decoder rows n cursor
        ≡ some (record { items = todo; next_cursor = none })
  unfolding paginate_cursor
  last_page rows todo n cursor e f =
      let g : n + 1 ≡ suc n = omega arith in
      let short = take_short n todo (subst (λ m. length (take m todo) ≤ n) g (ground arith)) in
      let page = subst (λ m. take n (take m todo) ≡ take n todo) (sym g) (take-take n todo) in
      rw e (rw f (rw (page ∙ short) refl))

  abbrev with_next : A → List A → CursorPage A
  with_next z items = record { items = items; next_cursor = some (str (key z)) }

  -- a page with a next one
  inner_page :
      (rows : List A) (x : A) (xs : List A) (n : ℕ) (cursor : Option String)
      → filter (is_after key less str decoder cursor) rows ≡ x ∷ xs
      → ltb (suc n) (length (take (suc n + 1) (x ∷ xs))) ≡ true
      → (before : List A) × (z : A) × (x ∷ xs ≡ before ++ z ∷ drop (suc n) (x ∷ xs))
        × (paginate_cursor key less str decoder rows (suc n) cursor
            ≡ some (record { items = before ++ z ∷ []; next_cursor = some (str (key z)) }))
  unfolding paginate_cursor
  inner_page rows x xs n cursor e f =
      let g : suc n + 1 ≡ suc (suc n) = omega arith in
      let (before, z, l, items) = last-take n x xs in
      let page =
        subst (λ m. take (suc n) (take m (x ∷ xs)) ≡ take (suc n) (x ∷ xs)) (sym g)
          (take-take (suc n) (x ∷ xs)) in
      (
        before,
        z,
        sym (take-drop (suc n) (x ∷ xs))
            ∙ ap (λ a. a ++ drop (suc n) (x ∷ xs)) items
            ∙ append_assoc before (z ∷ []) (drop (suc n) (x ∷ xs)),
        rw e (
            rw f (
              rw page (
                rw l (
                  ap (λ a. some (with_next z a))
                    (ap (λ t. take (suc n) (take (suc n + 1) t)) e ∙ page ∙ items))))),
      )

  follow_rest :
      (asym : (a b : K) → less a b ≡ true → less b a ≡ false)
      (readable : (k : K) → decoder (str k) ≡ k) (rows : List A)
      → IsAscending key less rows
      → (n fuel : ℕ) (done todo : List A) (cursor : Option String) → rows ≡ done ++ todo
      → filter (is_after key less str decoder cursor) rows ≡ todo
      → length todo < fuel
      → follow key less str decoder fuel rows (suc n) cursor ≡ some todo
  unfolding follow
  follow_rest asym readable rows asc n zero done todo cursor split e enough = absurd (omega arith)
  follow_rest asym readable rows asc n (suc fuel) done [] cursor split e enough =
      let empty : length (take {A = A} (suc n + 1) []) ≡ 0 = ap length (take-nil (suc n + 1)) in
      rw (last_page rows [] (suc n) cursor e (ground arith), follow) refl
  follow_rest asym readable rows asc n (suc fuel) done (x ∷ xs) cursor split e enough =
      elim (Bool-cases (ltb (suc n) (length (take (suc n + 1) (x ∷ xs))))) [
        | inr f ↦ rw (last_page rows (x ∷ xs) (suc n) cursor e f, follow) refl
        | inl f ↦
            let (before, z, parts, page) = inner_page rows x xs n cursor e f in
            let rest = drop (suc n) (x ∷ xs) in
            let whole =
              split ∙ ap (λ l. done ++ l) parts ∙ sym (append_assoc done before (z ∷ rest)) in
            let next : filter (λ r. less (key z) (key r)) rows ≡ rest =
              subst (λ l. filter (λ r. less (key z) (key r)) l ≡ rest) (sym whole)
                (filter-after key less asym (done ++ before) z rest
                  (subst (IsAscending key less) whole asc)) in
            let next' =
              subst (λ k. filter (λ r. less k (key r)) rows ≡ rest) (sym (readable (key z))) next in
            let again =
              follow_rest asym readable rows asc n fuel ((done ++ before) ++ z ∷ []) rest
                (some (str (key z))) (whole ∙ sym (append_assoc (done ++ before) (z ∷ []) rest))
                next' (omega (arith, length-drop n x xs)) in
            rw (page, follow) (rw again (ap some (append_assoc before (z ∷ []) rest ∙ sym parts)))
      ]

  -- Where the rows of a query ascend strictly in the cursor field, the field's order is asymmetric and
  -- every value can be read back from its cursor, a client that follows
  -- `next_cursor` from the first page to the last, with any positive limit, gets exactly the rows, in
  -- order and each once, and comes to an end within one page more than there are rows.
  pub follow-all :
      (asym : (a b : K) → less a b ≡ true → less b a ≡ false)
      (readable : (k : K) → decoder (str k) ≡ k) (rows : List A) (n : ℕ)
      → IsAscending key less rows
      → follow key less str decoder (suc (length rows)) rows (suc n) none ≡ some rows
  follow-all asym readable rows n asc =
      follow_rest asym readable rows asc n (suc (length rows)) [] rows none refl (unfiltered rows)
        (omega arith)
