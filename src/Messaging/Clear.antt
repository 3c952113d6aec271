-- ===== src/Messaging/Clear.antt =====
-- A turn's text begins with no space, so its tldr passes the checks of an enqueue
-- (core/message_router.py, `tldr=turn_text[:200]`).
use Prim.Native.Char.{code}
use text.Mathlib.TextLemmas.{length-cons}
use eyot_ai.Prelude.{
  ℕ, zero, suc, ◌≤◌, String, ◌≡◌, ◌⊎◌, inl, inr, refl, Bool, true, false, not, Option, none, some,
  arith, Bool-cases,
}
use eyot_ai.Text.{len, is_space, is_blank, lstrip, rstrip, strip, take_chars, join}
use eyot_ai.Messaging.{Directive}
use eyot_ai.Messaging.Parts.{general, turn_text_for_directive}

-- empty, or the first character is no space
unfoldable pub starts_clear : String → Bool
starts_clear String.[] = true
starts_clear (String.◌∷◌ c s) = not (is_space (code c))

lstrip-starts_clear : (s : String) → starts_clear (lstrip s) ≡ true
unfolding starts_clear lstrip
lstrip-starts_clear String.[] = refl
lstrip-starts_clear (String.◌∷◌ c s) = elim (Bool-cases (is_space (code c))) [
  | inl e ↦ rw e (lstrip-starts_clear s)
  | inr e ↦ rw e (rw e refl)
]

rstrip-starts_clear : (s : String) → starts_clear s ≡ true → starts_clear (rstrip s) ≡ true
unfolding starts_clear rstrip
rstrip-starts_clear String.[] h = refl
rstrip-starts_clear (String.◌∷◌ c s) h =
    let clear : is_space (code c) ≡ false = ground arith in rw clear (rw clear refl)

pub strip-starts_clear : (s : String) → starts_clear (strip s) ≡ true
unfolding strip
strip-starts_clear s = rstrip-starts_clear (lstrip s) (lstrip-starts_clear s)

pub len-take_chars-le : (n : ℕ) (s : String) → len (take_chars n s) ≤ n
unfolding take_chars
len-take_chars-le zero s = omega arith
len-take_chars-le (suc n) String.[] = omega arith
len-take_chars-le (suc n) (String.◌∷◌ c s) =
    omega (arith, len-take_chars-le n s, length-cons c (take_chars n s))

-- a text without spaces in front is empty or its beginning is not blank
pub take_chars-clear :
    (n : ℕ) (s : String)
    → starts_clear s ≡ true
    → (s ≡ "") ⊎ (is_blank (take_chars (suc n) s) ≡ false)
unfolding take_chars starts_clear is_blank
take_chars-clear n String.[] h = inl refl
take_chars-clear n (String.◌∷◌ c s) h = inr (ground arith)

general-starts_clear : (g : Option String) → starts_clear (general g) ≡ true
unfolding general starts_clear
general-starts_clear none = refl
general-starts_clear (some s) = strip-starts_clear s

pub turn_text-starts_clear :
    (d : Directive) (g : Option String)
    → starts_clear d.cmd ≡ true
    → starts_clear (turn_text_for_directive d g) ≡ true
unfolding turn_text_for_directive
turn_text-starts_clear d g h =
    ground (arith, general-starts_clear g, strip-starts_clear (join " " d.args))
