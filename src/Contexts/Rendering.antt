-- ===== src/Contexts/Rendering.antt =====
-- The JSON of contexts, steps and questions, and the fillers of a context.
use mathlib.Core.Option
use signalwire_agents_cpp.Prelude.{
  Option, none, some, Bool, true, not, ◌∷◌, [], List, map, Bytes, codes, is_empty, is_nil,
}
use signalwire_agents_cpp.Prelude.Map.{Map, lookup, assign}
use signalwire_agents_cpp.Prelude.Json.{
  Json, null, boolean, string, array, object, object_or_null, fields, strings, assign_if,
  set_member,
}
use signalwire_agents_cpp.Contexts.Step.{
  GatherQuestion, GatherInfo, has_questions, PromptSection, body_section, bullet_section, Functions,
  function_name, function_list, Step, render_text,
}
use signalwire_agents_cpp.Contexts.Context.{Context, render_prompt, render_system_prompt}
use signalwire_agents_cpp.Contexts.Builder.{ContextBuilder}

-- `if (text) j[key] = *text;`, and the same for lists.
abbrev assign_text? : Option Bytes → Bytes → Map Json → Map Json
assign_text? none k m = m
assign_text? (some t) k m = assign k (string t) m

abbrev assign_texts? : Option (List Bytes) → Bytes → Map Json → Map Json
assign_texts? none k m = m
assign_texts? (some ts) k m = assign k (strings ts) m

-- `if (!text.empty()) j[key] = text;`
abbrev assign_filled : Bytes → Bytes → Map Json → Map Json
assign_filled t k m = assign_if (not (is_empty t)) k (string t) m

-- `if (flag) j[key] = true;`
abbrev assign_flag : Bool → Bytes → Map Json → Map Json
assign_flag flag k m = assign_if flag k (boolean true) m

unfoldable pub question_to_json : GatherQuestion → Json
question_to_json q =
    let m = fields (
      (codes "key", string q.key)
      ∷ (codes "question", string q.question)
      ∷ (codes "type", string q.type)
      ∷ []) in
    let m = assign_flag q.confirm (codes "confirm") m in
    let m = assign_filled q.prompt (codes "prompt") m in
    let m = assign_if (not (is_nil q.functions)) (codes "functions") (strings q.functions) m in
    object m

unfoldable pub gather_to_json : GatherInfo → Json
unfolding question_to_json
gather_to_json g =
    let m = assign_filled g.output_key (codes "output_key") [] in
    let m = assign_filled g.completion_action (codes "completion_action") m in
    let m = assign_filled g.prompt (codes "prompt") m in
    let m =
      assign_if (not (is_nil g.questions)) (codes "questions")
        (array (map question_to_json g.questions)) m in
    object_or_null m

abbrev pub section_to_json : PromptSection → Json
section_to_json (body_section title body) =
    object (fields ((codes "title", string title) ∷ (codes "body", string body) ∷ []))
section_to_json (bullet_section title bullets) =
    object (fields ((codes "title", string title) ∷ (codes "bullets", strings bullets) ∷ []))

abbrev assign_functions : Option Functions → Map Json → Map Json
assign_functions none m = m
assign_functions (some (function_name f)) m = assign (codes "functions") (string f) m
assign_functions (some (function_list fs)) m = assign (codes "functions") (strings fs) m

abbrev assign_gather : Option GatherInfo → Map Json → Map Json
assign_gather none m = m
assign_gather (some g) m = assign_if (has_questions g) (codes "gather_info") (gather_to_json g) m

abbrev pub reset_members : Step → Map Json
reset_members s = assign_flag s.reset_full_reset (codes "full_reset") (
    assign_flag s.reset_consolidate (codes "consolidate") (
      assign_text? s.reset_user_prompt (codes "user_prompt")
        (assign_text? s.reset_system_prompt (codes "system_prompt") [])))

unfoldable pub step_to_json : Step → Json
unfolding gather_to_json render_text
step_to_json s =
    let m = assign (codes "name") (string s.name) [] in
    let m = assign_filled (render_text s) (codes "text") m in
    let m =
      assign_if (not (is_nil s.sections)) (codes "pom") (array (map section_to_json s.sections))
        m in
    let m = assign_text? s.step_criteria (codes "step_criteria") m in
    let m = assign_flag s.end (codes "end") m in
    let m = assign_flag s.skip_user_turn (codes "skip_user_turn") m in
    let m = assign_flag s.skip_to_next_step (codes "skip_to_next_step") m in
    let m = assign_functions s.functions m in
    let m = assign_texts? s.valid_steps (codes "valid_steps") m in
    let m = assign_texts? s.valid_contexts (codes "valid_contexts") m in
    let m = assign_gather s.gather m in
    let m =
      assign_if (not (is_nil (reset_members s))) (codes "reset") (object (reset_members s)) m in
    object m

unfoldable pub set_enter_fillers : Context → Json → Context
set_enter_fillers c fillers = record c { enter_fillers = fillers }

unfoldable pub set_exit_fillers : Context → Json → Context
set_exit_fillers c fillers = record c { exit_fillers = fillers }

-- Fillers that are no object throw.
unfoldable pub add_enter_filler : Context → Bytes → List Bytes → Option Context
add_enter_filler c lang fillers =
    Option.map (λ j. record c { enter_fillers = j })
      (set_member lang (strings fillers) c.enter_fillers)

unfoldable pub add_exit_filler : Context → Bytes → List Bytes → Option Context
add_exit_filler c lang fillers =
    Option.map (λ j. record c { exit_fillers = j })
      (set_member lang (strings fillers) c.exit_fillers)

abbrev assign_fillers : Json → Bytes → Map Json → Map Json
assign_fillers null k m = m
assign_fillers j k m = assign k j m

-- The steps in their order; a name without a step is passed over.
abbrev pub steps_in_order : Map Step → List Bytes → List Json
steps_in_order steps [] = []
steps_in_order steps (name ∷ order) =
    let rest = steps_in_order steps order in
    elim (lookup name steps) [ none ↦ rest | some s ↦ step_to_json s ∷ rest ]

unfoldable pub context_to_json : Context → Json
unfolding step_to_json render_prompt render_system_prompt
context_to_json c =
    let m = assign_text? (render_prompt c) (codes "prompt") [] in
    let m = assign_text? (render_system_prompt c) (codes "system_prompt") m in
    let m = assign_flag c.consolidate (codes "consolidate") m in
    let m = assign_flag c.full_reset (codes "full_reset") m in
    let m = assign_text? c.user_prompt (codes "user_prompt") m in
    let m = assign_flag c.isolated (codes "isolated") m in
    let m = assign_text? c.post_prompt (codes "post_prompt") m in
    let m = assign_fillers c.enter_fillers (codes "enter_fillers") m in
    let m = assign_fillers c.exit_fillers (codes "exit_fillers") m in
    let m = assign_text? c.initial_step (codes "initial_step") m in
    let m = assign_texts? c.valid_contexts (codes "valid_contexts") m in
    let m = assign_texts? c.valid_steps (codes "valid_steps") m in
    let m =
      assign_if (not (is_nil c.steps)) (codes "steps") (array (steps_in_order c.steps c.step_order))
        m in
    object_or_null m

abbrev contexts_in_order : Map Context → List Bytes → Map Json → Map Json
contexts_in_order contexts [] m = m
contexts_in_order contexts (name ∷ order) m =
    contexts_in_order contexts order
      (elim (lookup name contexts) [ none ↦ m | some c ↦ assign name (context_to_json c) m ])

unfoldable pub builder_to_json : ContextBuilder → Json
unfolding context_to_json
builder_to_json b = object (contexts_in_order b.contexts b.context_order [])
