-- ===== src/Overlay/Merged.antt =====
-- What a merged document has at each key (core/overlay.py).
use eyot_ai.Prelude.{
  String, ◌≡◌, inl, inr, refl, sym, ap, subst, ◌∙◌, Bool, true, false, Option, none, some, ◌==◌,
  arith, Bool-cases, eq→path,
}
use eyot_ai.Json.{
  Value, Fields, null, boolean, num, seconds, text, arr, obj, field, end, get, put, get-put,
}
use eyot_ai.Overlay.{deep_merge}

-- no key twice, as in a `dict`
abbrev pub IsDict : Fields → Type 0
IsDict end = Unit
IsDict (field k v rest) = (get rest k ≡ none) × IsDict rest

-- the entry of the override where it has one, merged where both are documents, else the base's
abbrev pub merged : Option Value → Option Value → Option Value
merged base none = base
merged (some (obj old)) (some (obj new)) = some (obj (deep_merge old new))
merged base (some new) = some new

-- one key is written and the rest merged
merge_step :
    (base rest : Fields) (i k : String) (v w : Value)
    → ((b : Fields) (j : String) → get (deep_merge b rest) j ≡ merged (get b j) (get rest j))
    → get rest i ≡ none
    → merged (get base i) (some v) ≡ some w
    → get (deep_merge (put base i w) rest) k ≡ merged (get base k) (get (field i v rest) k)
merge_step base rest i k v w ih fresh e =
    ih (put base i w) k
    ∙ ap (λ x. merged x (get rest k)) (get-put base i k w)
    ∙ elim (Bool-cases (i == k)) [
      | inl s ↦
          let same = eq→path i k s in
          let none_there = subst (λ j. get rest j ≡ none) same fresh in
          rw (s, none_there) (sym (subst (λ j. merged (get base j) (some v) ≡ some w) same e))
      | inr s ↦ rw s refl
    ]

merged_value :
    (o : Option Value) (new : Fields)
    → merged o (some (obj new))
      ≡ some (elim o [ some (obj old) ↦ obj (deep_merge old new) | _ ↦ obj new ])
merged_value none new = refl
merged_value (some (obj old)) new = refl
merged_value (some null) new = refl
merged_value (some (boolean b)) new = refl
merged_value (some (num n)) new = refl
merged_value (some (seconds n)) new = refl
merged_value (some (text t)) new = refl
merged_value (some (arr l)) new = refl

abbrev is_obj : Value → Bool
is_obj (obj d) = true
is_obj _ = false

merged_plain : (o : Option Value) (v : Value) → is_obj v ≡ false → merged o (some v) ≡ some v
merged_plain (some (obj old)) null h = refl
merged_plain (some (obj old)) (boolean b) h = refl
merged_plain (some (obj old)) (num n) h = refl
merged_plain (some (obj old)) (seconds n) h = refl
merged_plain (some (obj old)) (text t) h = refl
merged_plain (some (obj old)) (arr l) h = refl
merged_plain (some (obj old)) (obj d) h = absurd (ground arith)
merged_plain none v h = refl
merged_plain (some null) v h = refl
merged_plain (some (boolean b)) v h = refl
merged_plain (some (num n)) v h = refl
merged_plain (some (seconds n)) v h = refl
merged_plain (some (text t)) v h = refl
merged_plain (some (arr l)) v h = refl

-- Where the override has no key twice, the merged document has at each key what the override has
-- there, merged with the base's entry where both are documents, and the base's entry where the
-- override has none.
pub deep_merge-get :
    (base override : Fields) (k : String)
    → IsDict override
    → get (deep_merge base override) k ≡ merged (get base k) (get override k)
unfolding deep_merge
deep_merge-get base end k d = refl
deep_merge-get base (field i (obj new) rest) k d =
    merge_step base rest i k (obj new) _ (λ b j. deep_merge-get b rest j d.1) d.0
      (merged_value (get base i) new)
deep_merge-get base (field i null rest) k d =
    merge_step base rest i k null null (λ x j. deep_merge-get x rest j d.1) d.0
      (merged_plain (get base i) null refl)
deep_merge-get base (field i (boolean b) rest) k d =
    merge_step base rest i k (boolean b) (boolean b) (λ x j. deep_merge-get x rest j d.1) d.0
      (merged_plain (get base i) (boolean b) refl)
deep_merge-get base (field i (num n) rest) k d =
    merge_step base rest i k (num n) (num n) (λ x j. deep_merge-get x rest j d.1) d.0
      (merged_plain (get base i) (num n) refl)
deep_merge-get base (field i (seconds n) rest) k d =
    merge_step base rest i k (seconds n) (seconds n) (λ x j. deep_merge-get x rest j d.1) d.0
      (merged_plain (get base i) (seconds n) refl)
deep_merge-get base (field i (text t) rest) k d =
    merge_step base rest i k (text t) (text t) (λ x j. deep_merge-get x rest j d.1) d.0
      (merged_plain (get base i) (text t) refl)
deep_merge-get base (field i (arr l) rest) k d =
    merge_step base rest i k (arr l) (arr l) (λ x j. deep_merge-get x rest j d.1) d.0
      (merged_plain (get base i) (arr l) refl)
