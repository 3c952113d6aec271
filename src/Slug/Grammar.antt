-- ===== src/Slug/Grammar.antt =====
-- The texts that `validate_slug` accepts (core/slug.py).
use Prim.Native.Char.{Char, code}
use Prim.Native.String
use text.Mathlib.TextLemmas.{nil-append, cons-append, append_assoc}
use eyot_ai.Prelude.{
  String, ◌≡◌, ◌↔◌, ◌⊎◌, inl, inr, refl, ap, sym, ◌∙◌, Bool, true, false, none, some, List, [], ◌∷◌,
  ◌&&◌, ◌==◌, All, &&-true, Bool-cases, eq→path, arith,
}
use eyot_ai.Text.{is_empty, join}
use eyot_ai.Slug.{is_alnum, slug_pattern, validate_slug}

pub all_alnum : String → Bool
all_alnum String.[] = true
all_alnum (String.◌∷◌ c s) = is_alnum (code c) && all_alnum s

abbrev pub IsSegment : String → Type 0
IsSegment s = (all_alnum s ≡ true) × (is_empty s ≡ false)

-- a first segment, whose part may be empty, the segments behind it, and the end of the text
abbrev Parts : Bool → String → Type 0
Parts inside s =
    (rest : String) × (segments : List String) × (end : String) × (all_alnum rest ≡ true)
    × (inside ≡ false → is_empty rest ≡ false)
    × All IsSegment segments
    × ((end ≡ "") ⊎ (end ≡ "\n"))
    × (s ≡ String.◌++◌ (join "-" (rest ∷ segments)) end)

join-cons :
    (c : Char) (rest : String) (segments : List String)
    → join "-" (String.◌∷◌ c rest ∷ segments) ≡ String.◌∷◌ c (join "-" (rest ∷ segments))
unfolding join
join-cons c rest [] = refl
join-cons c rest (t ∷ segments) = cons-append c rest _

is_empty→[] : (s : String) → is_empty s ≡ true → s ≡ ""
is_empty→[] String.[] _ = refl
is_empty→[] (String.◌∷◌ c s) h = ground arith

prefix-append :
    (c : Char) (s t : String) → String.◌∷◌ c String.[] ≡ t → String.◌∷◌ c s ≡ String.◌++◌ t s
prefix-append c s t e =
    ap (String.◌∷◌ c) (sym (nil-append s)) ∙ sym (cons-append c "" s) ∙ ap (λ x. String.◌++◌ x s) e

slug_pattern-Parts : (inside : Bool) (s : String) → slug_pattern inside s ≡ true → Parts inside s
unfolding slug_pattern all_alnum join
slug_pattern-Parts inside String.[] h =
    (String.[], [], String.[], refl, λ begun. ground arith, tt, inl refl, refl)
slug_pattern-Parts inside (String.◌∷◌ c s) h = elim (Bool-cases (is_alnum (code c))) [
  | inl alnum ↦
      let (rest, segments, end, letters, _, all, ends, e) =
        slug_pattern-Parts true s (rw alnum at h) in
      (
        String.◌∷◌ c rest,
        segments,
        end,
        rw alnum letters,
        λ _. refl,
        all,
        ends,
        ap (String.◌∷◌ c) e
            ∙ sym (cons-append c _ end)
            ∙ ap (λ x. String.◌++◌ x end) (sym (join-cons c rest segments)),
      )
  | inr other ↦ elim (Bool-cases ((String.◌∷◌ c String.[] == "-") && inside)) [
    | inl dash ↦
        let (rest, segments, end, letters, begun, all, ends, e) =
          slug_pattern-Parts false s (rw (other, dash) at h) in
        (
          String.[],
          rest ∷ segments,
          end,
          refl,
          λ begun. ground arith,
          ((letters, begun refl), all),
          ends,
          prefix-append c s "-" (eq→path _ _ (&&-true _ _ dash).0)
              ∙ ap (String.◌++◌ "-") e
              ∙ sym (append_assoc "-" (join "-" (rest ∷ segments)) end)
              ∙ ap (λ x. String.◌++◌ x end) (sym (nil-append _)),
        )
    | inr no_dash ↦
        let whole : ((String.◌∷◌ c String.[] == "\n") && inside && is_empty s) ≡ true =
          (rw (other, no_dash) at h) in
        let (before, last) =
          &&-true ((String.◌∷◌ c String.[] == "\n") && inside) (is_empty s) whole in
        let (line, begun) = &&-true (String.◌∷◌ c String.[] == "\n") inside before in
        (
          String.[],
          [],
          String.◌∷◌ c s,
          refl,
          λ fresh. ground arith,
          tt,
          inr (
              prefix-append c s "\n" (eq→path _ _ line)
              ∙ ap (String.◌++◌ "\n") (is_empty→[] s last)),
          sym (nil-append _),
        )
  ]
]

slug_pattern-letters :
    (inside : Bool) (rest tail : String)
    → all_alnum rest ≡ true
    → (inside ≡ false → is_empty rest ≡ false)
    → slug_pattern true tail ≡ true
    → slug_pattern inside (String.◌++◌ rest tail) ≡ true
unfolding slug_pattern all_alnum
slug_pattern-letters true String.[] tail _ _ h = rw (nil-append tail) h
slug_pattern-letters false String.[] tail _ begun h = let b = begun refl in ground arith
slug_pattern-letters inside (String.◌∷◌ c rest) tail letters _ h =
    let (first, others) = &&-true (is_alnum (code c)) (all_alnum rest) letters in
    let go = slug_pattern-letters true rest tail others (λ fresh. ground arith) h in
    rw (cons-append c rest tail, first) go

dash-append : (s : String) → slug_pattern true (String.◌++◌ "-" s) ≡ slug_pattern false s
unfolding slug_pattern
dash-append s = ap (slug_pattern true) (cons-append "-" "" s ∙ ap (String.◌∷◌ "-") (nil-append s))

Parts-slug_pattern :
    (inside : Bool) (rest : String) (segments : List String) (end : String)
    → all_alnum rest ≡ true
    → (inside ≡ false → is_empty rest ≡ false)
    → All IsSegment segments
    → (end ≡ "") ⊎ (end ≡ "\n")
    → slug_pattern inside (String.◌++◌ (join "-" (rest ∷ segments)) end) ≡ true
unfolding join slug_pattern
Parts-slug_pattern inside rest [] end letters begun all ends =
    slug_pattern-letters inside rest end letters begun
      (elim ends [ inl e ↦ rw e refl | inr e ↦ rw e refl ])
Parts-slug_pattern inside rest (t ∷ segments) end letters begun ((t_letters, t_begun), all) ends =
    let behind = Parts-slug_pattern false t segments end t_letters (λ _. t_begun) all ends in
    rw
      (
        append_assoc rest (String.◌++◌ "-" (join "-" (t ∷ segments))) end,
        append_assoc "-" (join "-" (t ∷ segments)) end,
      )
      (slug_pattern-letters inside rest _ letters begun (rw (dash-append _) behind))

-- a first segment, the others, and the end of the text
abbrev pub IsKebab : String → Type 0
IsKebab value =
    (first : String) × (others : List String) × (end : String) × IsSegment first
    × All IsSegment others
    × ((end ≡ "") ⊎ (end ≡ "\n"))
    × (value ≡ String.◌++◌ (join "-" (first ∷ others)) end)

slug_pattern-IsKebab : (value : String) → slug_pattern false value ≡ true → IsKebab value
slug_pattern-IsKebab value h =
    let (first, others, end, letters, begun, all, ends, e) = slug_pattern-Parts false value h in
    (first, others, end, (letters, begun refl), all, ends, e)

IsKebab-slug_pattern : (value : String) → IsKebab value → slug_pattern false value ≡ true
IsKebab-slug_pattern value (first, others, end, (letters, begun), all, ends, e) =
    ap (slug_pattern false) e
    ∙ Parts-slug_pattern false first others end letters (λ _. begun) all ends

-- A text passes `validate_slug`, unchanged, exactly when it is one or more segments of lowercase
-- letters and digits, each with at least one character, joined by single hyphens, with at most one
-- line feed behind the last; any other text is the ValueError.
pub validate_slug-IsKebab :
    (value : String)
    → ((validate_slug value ≡ some value) ↔ IsKebab value)
      × ((¬ IsKebab value) ↔ (validate_slug value ≡ none))
unfolding validate_slug
validate_slug-IsKebab value = elim (Bool-cases (slug_pattern false value)) [
  | inl accepted ↦ (
    (λ _. slug_pattern-IsKebab value accepted, λ _. rw accepted refl),
    (
      λ not_kebab. absurd (not_kebab (slug_pattern-IsKebab value accepted)),
      λ e. let e' : some value ≡ none = (rw accepted at e) in ground arith,
    ),
  )
  | inr refused ↦ (
    (
      λ e. let e' : none ≡ some value = (rw refused at e) in ground arith,
      λ kebab. let accepted = IsKebab-slug_pattern value kebab in ground arith,
    ),
    (
      λ _. rw refused refl,
      λ _ kebab. let accepted = IsKebab-slug_pattern value kebab in ground arith,
    ),
  )
]
