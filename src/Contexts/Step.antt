-- ===== src/Contexts/Step.antt =====
-- `GatherQuestion`, `GatherInfo` and `Step`.
use signalwire_agents_cpp.Prelude.{
  Option, none, some, Bool, true, false, ◌++◌, ◌∷◌, [], List, Bytes, codes,
}

pub record GatherQuestion : Type 0 where
  pub key : Bytes
  pub question : Bytes
  pub type : Bytes
  pub confirm : Bool
  pub prompt : Bytes
  pub functions : List Bytes

pub record GatherInfo : Type 0 where
  pub questions : List GatherQuestion
  pub output_key : Bytes
  pub completion_action : Bytes
  pub prompt : Bytes

pub gather_info : Bytes → Bytes → Bytes → GatherInfo
gather_info output_key completion_action prompt = record {
  questions = [];
  output_key = output_key;
  completion_action = completion_action;
  prompt = prompt;
}

pub add_question : GatherInfo → GatherQuestion → GatherInfo
add_question g q = record g { questions = g.questions ++ q ∷ [] }

abbrev pub has_questions : GatherInfo → Bool
has_questions g = elim g.questions [ [] ↦ false | _ ↦ true ]

-- A section has a title and either a body or bullets.
pub data PromptSection : Type 0 where
  body_section : Bytes → Bytes → PromptSection
  bullet_section : Bytes → List Bytes → PromptSection

-- One tool set by name ("none"), or the tools allowed.
pub data Functions : Type 0 where
  function_name : Bytes → Functions
  function_list : List Bytes → Functions

pub record Step : Type 0 where
  pub name : Bytes
  pub text : Option Bytes
  pub step_criteria : Option Bytes
  pub functions : Option Functions
  pub valid_steps : Option (List Bytes)
  pub valid_contexts : Option (List Bytes)
  pub sections : List PromptSection
  pub gather : Option GatherInfo
  pub end : Bool
  pub skip_user_turn : Bool
  pub skip_to_next_step : Bool
  pub reset_system_prompt : Option Bytes
  pub reset_user_prompt : Option Bytes
  pub reset_consolidate : Bool
  pub reset_full_reset : Bool

unfoldable pub new_step : Bytes → Step
new_step name = record {
  name = name;
  text = none;
  step_criteria = none;
  functions = none;
  valid_steps = none;
  valid_contexts = none;
  sections = [];
  gather = none;
  end = false;
  skip_user_turn = false;
  skip_to_next_step = false;
  reset_system_prompt = none;
  reset_user_prompt = none;
  reset_consolidate = false;
  reset_full_reset = false;
}

pub set_text : Step → Bytes → Step
set_text s text = record s { text = some text }

unfoldable pub add_section : Step → Bytes → Bytes → Step
add_section s title body = record s { sections = s.sections ++ body_section title body ∷ [] }

unfoldable pub add_bullets : Step → Bytes → List Bytes → Step
add_bullets s title bullets = record s {
  sections = s.sections ++ bullet_section title bullets ∷ [];
}

unfoldable pub set_step_criteria : Step → Bytes → Step
set_step_criteria s criteria = record s { step_criteria = some criteria }

unfoldable pub set_functions : Step → Functions → Step
set_functions s functions = record s { functions = some functions }

unfoldable pub set_valid_steps : Step → List Bytes → Step
set_valid_steps s steps = record s { valid_steps = some steps }

pub set_valid_contexts : Step → List Bytes → Step
set_valid_contexts s ctxs = record s { valid_contexts = some ctxs }

pub set_end : Step → Bool → Step
set_end s end = record s { end = end }

pub set_skip_user_turn : Step → Bool → Step
set_skip_user_turn s skip = record s { skip_user_turn = skip }

pub set_skip_to_next_step : Step → Bool → Step
set_skip_to_next_step s skip = record s { skip_to_next_step = skip }

pub set_gather_info : Step → Bytes → Bytes → Bytes → Step
unfolding gather_info
set_gather_info s output_key completion_action prompt = record s {
  gather = some (gather_info output_key completion_action prompt);
}

-- Without a `set_gather_info` before it the question is dropped.
pub add_gather_question : Step → GatherQuestion → Step
unfolding add_question
add_gather_question s q = elim s.gather [
  | none ↦ s
  | some g ↦ record s { gather = some (add_question g q) }
]

pub clear_sections : Step → Step
clear_sections s = record s { sections = []; text = none }

pub set_reset_system_prompt : Step → Bytes → Step
set_reset_system_prompt s sp = record s { reset_system_prompt = some sp }

pub set_reset_user_prompt : Step → Bytes → Step
set_reset_user_prompt s up = record s { reset_user_prompt = some up }

pub set_reset_consolidate : Step → Bool → Step
set_reset_consolidate s c = record s { reset_consolidate = c }

pub set_reset_full_reset : Step → Bool → Step
set_reset_full_reset s fr = record s { reset_full_reset = fr }

abbrev newline : Bytes
newline = 10 ∷ []

-- "- " before each bullet, one to a line.
pub render_bullets : List Bytes → Bytes
render_bullets [] = []
render_bullets (b ∷ bullets) = codes "- " ++ (b ++ (newline ++ render_bullets bullets))

pub render_section : PromptSection → Bytes
unfolding render_bullets
render_section (body_section title body) =
    codes "## " ++ (title ++ (newline ++ (body ++ (newline ++ newline))))
render_section (bullet_section title bullets) =
    codes "## " ++ (title ++ (newline ++ (render_bullets bullets ++ newline)))

unfoldable pub render_sections : List PromptSection → Bytes
unfolding render_section
render_sections [] = []
render_sections (s ∷ sections) = render_section s ++ render_sections sections

-- The text wins over the sections.
unfoldable pub render_text : Step → Bytes
unfolding render_sections
render_text s = elim s.text [ some text ↦ text | none ↦ render_sections s.sections ]
