-- ===== src/Slug/Examples.antt =====
-- Slugs: tests, and the theorem there.
use eyot_ai.Prelude.{◌≡◌, refl, ◌↔◌, none, some}
use eyot_ai.Slug.{slug_pattern, validate_slug}
use eyot_ai.Slug.Grammar.{IsKebab, validate_slug-IsKebab}

clone : validate_slug "my-agent-2-clone-0f" ≡ some "my-agent-2-clone-0f"
unfolding validate_slug slug_pattern
clone = refl

line_feed : validate_slug "agent\n" ≡ some "agent\n"
unfolding validate_slug slug_pattern
line_feed = refl

trailing_hyphen : validate_slug "agent-" ≡ none
unfolding validate_slug slug_pattern
trailing_hyphen = refl

double_hyphen : validate_slug "my--agent" ≡ none
unfolding validate_slug slug_pattern
double_hyphen = refl

underscore : validate_slug "my_agent" ≡ none
unfolding validate_slug slug_pattern
underscore = refl

empty : validate_slug "" ≡ none
unfolding validate_slug slug_pattern
empty = refl

validate_slug-IsKebab_example :
    ((validate_slug "my-agent\n" ≡ some "my-agent\n") ↔ IsKebab "my-agent\n")
    × ((¬ IsKebab "my-agent\n") ↔ (validate_slug "my-agent\n" ≡ none))
validate_slug-IsKebab_example = validate_slug-IsKebab "my-agent\n"
