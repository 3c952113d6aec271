-- ===== src/Prelude/Order.antt =====
-- The order of texts by code points: total and antisymmetric.
use Prim.Native.Nat.{ℕ, Ordering, compare as compare_ℕ}
use Prim.Native.Char.{Char, code}
use Prim.Native.String.{String, [], ◌∷◌, compare, then}
use Prim.Native.String.compare
use mathlib.Core.Path.{◌≡◌, refl, sym, ◌∙◌, ap}
use mathlib.Core.Bool.{Bool, true, false}
use native.Mathlib.Omega.{arith}
use text.Mathlib.TextEquality.{path_by_compare}

-- `s <= t` on texts
abbrev pub str_leb : String → String → Bool
str_leb s t = elim (compare s t) [ Ordering.gt ↦ false | _ ↦ true ]

abbrev opposite : Ordering → Ordering
opposite Ordering.lt = Ordering.gt
opposite Ordering.eq = Ordering.eq
opposite Ordering.gt = Ordering.lt

opposite-compare_ℕ : (m n : ℕ) → opposite (compare_ℕ m n) ≡ compare_ℕ n m
opposite-compare_ℕ m n = ground arith

opposite-then : (o r : Ordering) → opposite (then o r) ≡ then (opposite o) (opposite r)
opposite-then Ordering.lt r = refl
opposite-then Ordering.eq r = refl
opposite-then Ordering.gt r = refl

opposite-compare : (s t : String) → opposite (compare s t) ≡ compare t s
opposite-compare [] [] = ap opposite compare.nil-nil ∙ sym compare.nil-nil
opposite-compare [] (d ∷ t) = ap opposite (compare.nil-cons d t) ∙ sym (compare.cons-nil d t)
opposite-compare (c ∷ s) [] = ap opposite (compare.cons-nil c s) ∙ sym (compare.nil-cons c s)
opposite-compare (c ∷ s) (d ∷ t) =
    ap opposite (compare.cons-cons c d s t)
    ∙ opposite-then (compare_ℕ (code c) (code d)) (compare s t)
    ∙ (λ i. then (opposite-compare_ℕ (code c) (code d) i) (opposite-compare s t i))
    ∙ sym (compare.cons-cons d c t s)

-- Two texts that are each at most the other are equal.
pub str_leb_antisymm : (s t : String) → str_leb s t ≡ true → str_leb t s ≡ true → s ≡ t
str_leb_antisymm s t h k = path_by_compare s t (ground (arith, opposite-compare s t))

-- One of two texts is at most the other.
pub str_leb_total : (s t : String) → str_leb s t ≡ false → str_leb t s ≡ true
str_leb_total s t h = ground (arith, opposite-compare s t)

compare-cons :
    (c d : Char) (s t : String)
    → compare (c ∷ s) (d ∷ t) ≡ then (compare_ℕ (code c) (code d)) (compare s t)
compare-cons c d s t = compare.cons-cons c d s t

compare-nil-cons : (d : Char) (t : String) → compare [] (d ∷ t) ≡ Ordering.lt
compare-nil-cons d t = compare.nil-cons d t

compare-cons-nil : (c : Char) (s : String) → compare (c ∷ s) [] ≡ Ordering.gt
compare-cons-nil c s = compare.cons-nil c s

compare-nil-nil : compare [] [] ≡ Ordering.eq
compare-nil-nil = compare.nil-nil

-- The order of texts is transitive.
pub str_leb_trans : (s t u : String) → str_leb s t ≡ true → str_leb t u ≡ true → str_leb s u ≡ true
str_leb_trans [] t [] h k = ground (arith, compare-nil-nil)
str_leb_trans [] t (e ∷ u) h k = ground (arith, compare-nil-cons e u)
str_leb_trans (c ∷ s) [] u h k = ground (arith, compare-cons-nil c s)
str_leb_trans (c ∷ s) (d ∷ t) [] h k = ground (arith, compare-cons-nil d t)
str_leb_trans (c ∷ s) (d ∷ t) (e ∷ u) h k =
    ground
      (arith, compare-cons c d s t, compare-cons d e t u, compare-cons c e s u, str_leb_trans s t u)
