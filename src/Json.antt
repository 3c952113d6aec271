-- ===== src/Json.antt =====
-- JSON documents as the backend handles them: Python's `dict`, `list`, `str`, `int`, `bool`, `None`.
-- An object is the list of its items in insertion order, read by the first match of a key. The
-- numbers that the modelled code reads are naturals (counters, sizes), so `num` takes one; `seconds`
-- is a float of seconds, by its number of microseconds.
use eyot_ai.Prelude.{
  ℕ, ◌≡◌, refl, String, Bool, Option, none, some, List, [], ◌∷◌, arith, ◌==◌, eq_iff, if◌then◌else◌,
}

mutual
  pub data Value : Type 0 where
    null : Value
    boolean : Bool → Value
    num : ℕ → Value
    seconds : ℕ → Value
    text : String → Value
    obj : Fields → Value
    arr : Items → Value

  pub data Fields : Type 0 where
    field : String → Value → Fields → Fields
    end : Fields

  pub data Items : Type 0 where
    cons : Value → Items → Items
    nil : Items

-- `d.get(k)`
abbrev pub get : Fields → String → Option Value
get end k = none
get (field j v d) k = if j == k then some v else get d k

-- `d[k] = v`: in place where the key is there, else at the end
abbrev pub put : Fields → String → Value → Fields
put end k v = field k v end
put (field j w d) k v = let rest = put d k v in if j == k then field j v d else field j w rest

pub get-put :
    (d : Fields) (k j : String) (v : Value)
    → get (put d k v) j ≡ (if k == j then some v else get d j)
get-put end k j v = refl
get-put (field i w d) k j v = ground (arith, get-put d k j v, eq_iff i k, eq_iff i j, eq_iff k j)

-- `{"a": "x", …}` with texts for values
abbrev pub texts : List (String × String) → Fields
texts [] = end
texts ((k, s) ∷ l) = field k (text s) (texts l)

-- a nullable text, and a list of texts
abbrev pub opt_text : Option String → Value
opt_text none = null
opt_text (some s) = text s

abbrev pub items : List String → Items
items [] = nil
items (s ∷ l) = cons (text s) (items l)
