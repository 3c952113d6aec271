-- ===== src/Slug.antt =====
-- eyot-backend/app/core/slug.py: `validate_slug`. Python's `$` also matches before a line feed that
-- ends the text.
pub mod Grammar
mod Examples
use Prim.Native.Char.{code}
use Prim.Native.String
use eyot_ai.Prelude.{
  ℕ, String, Bool, true, false, Option, none, some, ◌&&◌, ◌||◌, ◌==◌, leb, if◌then◌else◌,
}
use eyot_ai.Text.{is_empty}

-- `[a-z0-9]`
abbrev pub is_alnum : ℕ → Bool
is_alnum c = (leb 97 c && leb c 122) || (leb 48 c && leb c 57)

-- `SLUG_PATTERN.match` of the rest of a text; `inside` where a segment has begun
pub slug_pattern : Bool → String → Bool
slug_pattern inside String.[] = inside
slug_pattern inside (String.◌∷◌ c s) =
    let segment = slug_pattern true s in
    let next = slug_pattern false s in
    if is_alnum (code c)
    then segment
    else if (String.◌∷◌ c String.[] == "-") && inside
    then next
    else (String.◌∷◌ c String.[] == "\n") && inside && is_empty s

-- `none` is the `ValueError`
pub validate_slug : String → Option String
unfolding slug_pattern
validate_slug value = if slug_pattern false value then some value else none
