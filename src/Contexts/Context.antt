-- ===== src/Contexts/Context.antt =====
-- `Context`: steps in a map by name, and their order.
pub mod Order
use signalwire_agents_cpp.Prelude.{
  ℕ, suc, Option, none, some, Bool, true, false, ◌≡◌, refl, ◌++◌, ◌∷◌, [], List, Bytes, codes,
  if◌then◌else◌, is_empty, not, length, leb, str_eq, take, drop, ltb, ◌||◌,
}
use signalwire_agents_cpp.Prelude.Int.{ℤ, pos, negsuc}
use signalwire_agents_cpp.Prelude.Map.{Map, lookup, assign, erase}
use signalwire_agents_cpp.Prelude.Json.{Json, null}
use signalwire_agents_cpp.Contexts.Step.{
  Step, Functions, PromptSection, body_section, bullet_section, new_step, add_section, add_bullets,
  set_step_criteria, set_functions, set_valid_steps as limit_steps, render_sections,
}

abbrev pub max_steps_per_context : ℕ
max_steps_per_context = 100

pub record Context : Type 0 where
  pub name : Bytes
  pub steps : Map Step
  pub step_order : List Bytes
  pub initial_step : Option Bytes
  pub valid_contexts : Option (List Bytes)
  pub valid_steps : Option (List Bytes)
  pub post_prompt : Option Bytes
  pub system_prompt : Option Bytes
  pub system_prompt_sections : List PromptSection
  pub consolidate : Bool
  pub full_reset : Bool
  pub user_prompt : Option Bytes
  pub isolated : Bool
  pub prompt_text : Option Bytes
  pub prompt_sections : List PromptSection
  pub enter_fillers : Json
  pub exit_fillers : Json

unfoldable pub new_context : Bytes → Context
new_context name = record {
  name = name;
  steps = [];
  step_order = [];
  initial_step = none;
  valid_contexts = none;
  valid_steps = none;
  post_prompt = none;
  system_prompt = none;
  system_prompt_sections = [];
  consolidate = false;
  full_reset = false;
  user_prompt = none;
  isolated = false;
  prompt_text = none;
  prompt_sections = [];
  enter_fillers = null;
  exit_fillers = null;
}

abbrev unless {ℓ} : {A : Type ℓ} → Bool → (A → A) → A → A
unless b f x = if b then x else f x

abbrev no_entries : List Bytes → Bool
no_entries [] = true
no_entries (x ∷ xs) = false

-- The step that `add_step` builds from its arguments; those left out are empty.
pub step_of : Bytes → Bytes → List Bytes → Bytes → Option Functions → List Bytes → Step
unfolding new_step add_section add_bullets set_step_criteria set_functions limit_steps
step_of name task bullets criteria functions valid_steps =
    let s0 = unless (is_empty task) (λ s. add_section s (codes "Task") task) (new_step name) in
    let s1 = unless (no_entries bullets) (λ s. add_bullets s (codes "Instructions") bullets) s0 in
    let s2 = unless (is_empty criteria) (λ s. set_step_criteria s criteria) s1 in
    let s3 : Step = elim functions [ none ↦ s2 | some f ↦ set_functions s2 f ] in
    unless (no_entries valid_steps) (λ s. limit_steps s valid_steps) s3

-- `none`: "Maximum steps per context exceeded".
pub add_step :
    Context → Bytes → Bytes → List Bytes → Bytes → Option Functions → List Bytes → Option Context
unfolding step_of
add_step c name task bullets criteria functions valid_steps =
    if leb max_steps_per_context (length c.steps)
    then none
    else some (record c {
      steps = assign name (step_of name task bullets criteria functions valid_steps) c.steps;
      step_order = c.step_order ++ name ∷ [];
    })

pub get_step : Context → Bytes → Option Step
get_step c name = lookup name c.steps

-- `std::remove` and `erase`: every occurrence goes.
pub remove_name : Bytes → List Bytes → List Bytes
remove_name name [] = []
remove_name name (x ∷ xs) = if str_eq x name then remove_name name xs else x ∷ remove_name name xs

pub remove_step : Context → Bytes → Context
unfolding remove_name
remove_step c name = record c {
  steps = erase name c.steps;
  step_order = remove_name name c.step_order;
}

-- The order without the first occurrence of the name, when it has one.
pub erase_first : Bytes → List Bytes → Option (List Bytes)
erase_first name [] = none
erase_first name (x ∷ xs) =
    if str_eq x name
    then some xs
    else elim (erase_first name xs) [ none ↦ none | some ys ↦ some (x ∷ ys) ]

-- A position outside the order means its end.
pub insert_at : ℤ → Bytes → List Bytes → List Bytes
insert_at (negsuc n) name order = order ++ name ∷ []
insert_at (pos n) name order =
    if leb (length order) n then order ++ name ∷ [] else take n order ++ name ∷ drop n order

pub move_step : Context → Bytes → ℤ → Context
unfolding erase_first insert_at
move_step c name position = elim (erase_first name c.step_order) [
  | none ↦ c
  | some order ↦ record c { step_order = insert_at position name order }
]

pub set_initial_step : Context → Bytes → Context
set_initial_step c step_name = record c { initial_step = some step_name }

pub set_valid_contexts : Context → List Bytes → Context
set_valid_contexts c ctxs = record c { valid_contexts = some ctxs }

pub set_valid_steps : Context → List Bytes → Context
set_valid_steps c steps = record c { valid_steps = some steps }

pub set_post_prompt : Context → Bytes → Context
set_post_prompt c pp = record c { post_prompt = some pp }

pub set_system_prompt : Context → Bytes → Context
set_system_prompt c sp = record c { system_prompt = some sp }

pub set_consolidate : Context → Bool → Context
set_consolidate c b = record c { consolidate = b }

pub set_full_reset : Context → Bool → Context
set_full_reset c b = record c { full_reset = b }

pub set_user_prompt : Context → Bytes → Context
set_user_prompt c up = record c { user_prompt = some up }

pub set_isolated : Context → Bool → Context
set_isolated c b = record c { isolated = b }

pub set_prompt : Context → Bytes → Context
set_prompt c prompt = record c { prompt_text = some prompt }

pub add_prompt_section : Context → PromptSection → Context
add_prompt_section c s = record c { prompt_sections = c.prompt_sections ++ s ∷ [] }

pub add_system_prompt_section : Context → PromptSection → Context
add_system_prompt_section c s = record c {
  system_prompt_sections = c.system_prompt_sections ++ s ∷ [];
}

-- The text, or the sections when there are any.
render : Option Bytes → List PromptSection → Option Bytes
render (some text) sections = some text
render none [] = none
render none (s ∷ sections) = some (render_sections (s ∷ sections))

unfoldable pub render_prompt : Context → Option Bytes
unfolding render
render_prompt c = render c.prompt_text c.prompt_sections

unfoldable pub render_system_prompt : Context → Option Bytes
unfolding render
render_system_prompt c = render c.system_prompt c.system_prompt_sections
