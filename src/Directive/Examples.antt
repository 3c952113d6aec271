-- ===== src/Directive/Examples.antt =====
-- A turn of commands, and a lesson: tests, and the theorems on turns there.
use eyot_ai.Prelude.{String, ◌≡◌, refl, true, none, some, List, [], ◌∷◌, map, All}
use eyot_ai.Text.{strip, is_space, take_chars}
use eyot_ai.Harness.State
use eyot_ai.Messaging.{Directive, Turn}
use eyot_ai.Messaging.Examples.{office, outside, quiet, seat}
use eyot_ai.Directive.{Archive, Site, DirectiveResult, echo, Answer, answered, aborted}
use eyot_ai.Directive.Control.{route_learning_directive}
use eyot_ai.Directive.Route.{route_turn}
use eyot_ai.Directive.Echoed.{is_command, IsQuiet}
use eyot_ai.Directive.Turns.{AllEcho, route_turn-AllEcho}
use eyot_ai.Directive.Learned.{route_learning_directive-again}

abbrev archive : Archive
archive = record {
  memories =
      record {
        entity_id = "e";
        kind = "lesson";
        key = some "git-rebase";
        content = some "rebase often";
        created_at = 7;
        deleted_at = none;
      }
      ∷ record {
        entity_id = "e";
        kind = "lesson";
        key = none;
        content = some "be kind";
        created_at = 3;
        deleted_at = none;
      }
      ∷ [];
  namespaces = record { id = "n"; org_id = "org"; deleted_at = none } ∷ [];
}

abbrev site : Site
site = record { world = quiet; market = []; runtimes = [] }

abbrev order : String → Directive
order cmd = record { target_entity = some "fox"; cmd = cmd; args = []; raw_text = cmd }

abbrev commands : Turn
commands = record {
  directives = order "/pause" ∷ order "/status" ∷ order "/distill" ∷ [];
  general_text = none;
}

abbrev same_case : String → String
same_case s = s

abbrev results_of : {A : Type 0} → Answer (List A) → List A
results_of (answered rs s) = rs
results_of (aborted e s) = []

abbrev site_of : {A : Type 0} → Answer A → Site
site_of (answered rs s) = s
site_of (aborted e s) = s

abbrev run : Answer (List DirectiveResult)
run = route_turn same_case office archive outside "w" commands "u" site

created :
    map (λ r. r.created_capabilities) (results_of run)
    ≡ [] ∷ [] ∷ (("be-kind", "skill") ∷ ("git-rebase", "skill") ∷ []) ∷ []
unfolding route_turn strip is_space take_chars
created = refl

has_run : run ≡ answered (results_of run) (site_of run)
unfolding route_turn strip is_space take_chars
has_run = refl

paused : map (λ w. w.loop_status) (site_of run).world.harness.states ≡ State.paused ∷ []
unfolding route_turn strip is_space take_chars
paused = refl

route_turn-AllEcho_example :
    AllEcho commands.directives (results_of run)
    × (All (λ d. is_command d ≡ true) commands.directives → IsQuiet site (site_of run))
route_turn-AllEcho_example =
    route_turn-AllEcho same_case office archive outside "w" commands "u"
      (seat "user" (some "u") none) site (site_of run) (results_of run) refl has_run

abbrev lesson : Answer DirectiveResult
lesson = route_learning_directive same_case office archive outside "u" (order "/reflect") site

abbrev result_of : Answer DirectiveResult → DirectiveResult
result_of (answered r s) = r
result_of (aborted e s) = echo (order "")

has_lesson : lesson ≡ answered (result_of lesson) (site_of lesson)
unfolding route_learning_directive strip is_space take_chars
has_lesson = refl

route_learning_directive-again_example :
    (s : Site) × (route_learning_directive same_case office archive outside "u"
        (order "/reflect")
        (site_of lesson)
      ≡ answered (result_of lesson) s)
    × (s.market ≡ (site_of lesson).market)
route_learning_directive-again_example =
    route_learning_directive-again same_case office archive outside "u" (order "/reflect") site
      (site_of lesson) (result_of lesson) has_lesson
