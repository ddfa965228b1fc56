-- ===== src/Skills/Manager.antt =====
-- `SkillManager` of src/skills/skill_manager.cpp with what it changes in the agent. The registry of
-- skills and the environment are parameters; a skill is what its virtual functions give.
pub mod Sound
use signalwire_agents_cpp.Prelude.{
  Option, none, some, Bool, true, false, not, ◌&&◌, ◌||◌, ◌∷◌, [], ◌++◌, List, map, Bytes, str_eq,
  if◌then◌else◌, ◌>>=◌, is_nil,
}
use signalwire_agents_cpp.Prelude.Map.{Map, assign}
use signalwire_agents_cpp.Prelude.Json.{Json}
use signalwire_agents_cpp.Swaig.ToolDefinition.{ToolDefinition}
use signalwire_agents_cpp.Swml.Service.Tools.{Tools, no_tools, define_tool, register_swaig_function}
use signalwire_agents_cpp.Pom.{Sections, no_sections, push, section_of}

pub record SkillPromptSection : Type 0 where
  pub title : Bytes
  pub body : Bytes
  pub bullets : List Bytes

-- What a skill offers once it is set up; the global data is an object, empty by default.
pub record Offer : Type 0 where
  pub tools : List ToolDefinition
  pub datamap_functions : List Json
  pub hints : List Bytes
  pub global_data : Map Json
  pub prompt_sections : List SkillPromptSection

-- `setup` gives `none` where it returns false.
pub record Skill : Type 0 where
  pub supports_multiple_instances : Bool
  pub required_env_vars : List Bytes
  pub setup : Json → Option Offer

-- The members of the agent that a skill changes.
pub record Agent : Type 0 where
  pub tools : Tools
  pub datamap_functions : List Json
  pub hints : List Bytes
  pub global_data : Map Json
  pub pom_sections : Sections

abbrev pub new_agent : Agent
new_agent = record {
  tools = no_tools;
  datamap_functions = [];
  hints = [];
  global_data = [];
  pom_sections = no_sections;
}

pub record LoadedSkill : Type 0 where
  pub name : Bytes
  pub instance : Skill
  pub params : Json

unfoldable pub is_loaded : List LoadedSkill → Bytes → Bool
is_loaded [] name = false
is_loaded (ls ∷ loaded) name = str_eq ls.name name || is_loaded loaded name

unfoldable pub list_loaded : List LoadedSkill → List Bytes
list_loaded loaded = map (λ ls. ls.name) loaded

unfoldable pub define_tools : Agent → List ToolDefinition → Agent
unfolding define_tool
define_tools a [] = a
define_tools a (tool ∷ tools) = define_tools (record a { tools = define_tool a.tools tool }) tools

-- `AgentBase::register_swaig_function` for each function of the skill.
unfoldable pub register_functions : Agent → List Json → Option Agent
unfolding register_swaig_function
register_functions a [] = some a
register_functions a (f ∷ fs) = register_swaig_function a.tools f >>= λ tools.
    register_functions
      (record a { tools = tools; datamap_functions = a.datamap_functions ++ f ∷ [] }) fs

unfoldable pub add_hints : Agent → List Bytes → Agent
add_hints a hints = record a { hints = a.hints ++ hints }

unfoldable pub update_global_data : Agent → Map Json → Agent
update_global_data a [] = a
update_global_data a ((k, v) ∷ members) =
    update_global_data (record a { global_data = assign k v a.global_data }) members

unfoldable pub add_prompt_sections : Agent → List SkillPromptSection → Agent
add_prompt_sections a [] = a
add_prompt_sections a (s ∷ ss) =
    add_prompt_sections
      (record a {
        pom_sections =
            push a.pom_sections (section_of (some s.title) s.body s.bullets none false no_sections);
      })
      ss

-- The changes of a skill to the agent.
unfoldable pub install : Agent → Offer → Option Agent
unfolding define_tools register_functions add_hints update_global_data add_prompt_sections
install a o = register_functions (define_tools a o.tools) o.datamap_functions >>= λ a'. some (
    add_prompt_sections (update_global_data (add_hints a' o.hints) o.global_data) o.prompt_sections)

abbrev pub State : Type 0
State = List LoadedSkill × Agent

unfoldable pub unload_skill : List LoadedSkill → Bytes → List LoadedSkill
unload_skill [] name = []
unload_skill (ls ∷ loaded) name =
    let rest = unload_skill loaded name in if str_eq ls.name name then loaded else ls ∷ rest

-- The calls of a manager. `cleanup_all` leaves no skill; the agent keeps what it got.
pub data Command : Type 0 where
  loads : Bytes → Json → Command
  unloads : Bytes → Command
  cleans : Command

module _ (registry : Bytes → Option Skill) (is_set : Bytes → Bool) where
  abbrev pub all_set : List Bytes → Bool
  all_set [] = true
  all_set (v ∷ vs) = is_set v && all_set vs

  abbrev pub set_up : State → Bytes → Json → Skill → Option (Bool × State)
  set_up (loaded, a) name params skill = elim (skill.setup params) [
    | none ↦ some (false, (loaded, a))
    | some offer ↦ install a offer >>= λ a'.
        some (true, (loaded ++ record { name = name; instance = skill; params = params } ∷ [], a'))
  ]

  -- `load_skill`: the result with the new state; `none` when a function of the skill has a name
  -- that is no text, which throws.
  unfoldable pub load_skill : State → Bytes → Json → Option (Bool × State)
  unfolding is_loaded install
  load_skill (loaded, a) name params = elim (registry name) [
    | none ↦ some (false, (loaded, a))
    | some skill ↦
        if not skill.supports_multiple_instances && is_loaded loaded name
        then some (false, (loaded, a))
        else if not (all_set skill.required_env_vars)
        then some (false, (loaded, a))
        else set_up (loaded, a) name params skill
  ]

  unfoldable pub run_command : State → Command → Option State
  unfolding load_skill unload_skill
  run_command s (loads name params) = load_skill s name params >>= λ r. some r.1
  run_command (loaded, a) (unloads name) = some (unload_skill loaded name, a)
  run_command (loaded, a) cleans = some ([], a)

  unfoldable pub run_commands : State → List Command → Option State
  unfolding run_command
  run_commands s [] = some s
  run_commands s (c ∷ cs) = run_command s c >>= λ s'. run_commands s' cs
