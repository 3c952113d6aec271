-- ===== src/Inject/Tldr.antt =====
-- The tldr rules of schemas/internal.py.
use eyot_ai.Prelude.{ℕ, ◌+◌, String, Bool, false, ◌&&◌, not, Option, none, some, ltb, if◌then◌else◌}
use eyot_ai.Json.{Value, Items, text, arr, obj, nil, cons, get}
use eyot_ai.Text.{len, is_blank}

-- `TLDR_MAX_CHARS` and `PROSE_THRESHOLD_CHARS`
abbrev pub tldr_max_chars : ℕ
tldr_max_chars = 200

abbrev pub prose_threshold_chars : ℕ
prose_threshold_chars = 240

pub data TldrError : Type 0 where
  tldr_too_long tldr_required : TldrError

-- the lengths of the texts among the items
pub items_length : Items → ℕ
items_length nil = 0
items_length (cons (text s) rest) = len s + items_length rest
items_length (cons _ rest) = items_length rest

-- `_list_string_length`
pub list_string_length : Option Value → ℕ
unfolding items_length
list_string_length (some (arr items)) = items_length items
list_string_length _ = 0

unfoldable pub report_prose_length : Option Value → ℕ
unfolding list_string_length
report_prose_length (some (obj report)) =
    list_string_length (get report "changes")
    + list_string_length (get report "validation")
    + list_string_length (get report "blockers")
report_prose_length _ = 0

-- `len(v)` of a text, and 0 of all else
pub text_length : Option Value → ℕ
text_length (some (text s)) = len s
text_length _ = 0

unfoldable pub compute_prose_length : Value → ℕ
unfolding text_length report_prose_length
compute_prose_length (obj payload) =
    text_length (get payload "text")
    + text_length (get payload "body")
    + report_prose_length (get payload "report")
compute_prose_length _ = 0

-- `len(tldr) > TLDR_MAX_CHARS`
abbrev pub is_too_long : Option String → Bool
is_too_long none = false
is_too_long (some s) = ltb tldr_max_chars (len s)

-- `tldr and tldr.strip()`
abbrev pub has_tldr : Option String → Bool
has_tldr none = false
has_tldr (some s) = not (is_blank s)

-- `validate_tldr`; `none` is its return
unfoldable pub validate_tldr : Option String → ℕ → Option TldrError
validate_tldr tldr prose =
    if is_too_long tldr
    then some tldr_too_long
    else if ltb prose_threshold_chars prose && not (has_tldr tldr)
    then some tldr_required
    else none
