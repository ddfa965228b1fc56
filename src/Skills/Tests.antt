-- ===== src/Skills/Tests.antt =====
-- The theorems of the skills at concrete inputs: whole numbers in place of `double`, and a registry
-- of one skill.
use signalwire_agents_cpp.Prelude.{
  ℕ, ◌+◌, ◌-◌, ◌*◌, ◌/◌, ◌%◌, ◌^◌, ◌≡◌, ◌≢◌, refl, Option, none, some, Bool, true, false, ◌∷◌, [],
  List, Bytes, codes, str_eq, if◌then◌else◌, ◌==◌,
}
use signalwire_agents_cpp.Prelude.Map.{lookup}
use signalwire_agents_cpp.Prelude.Json.{null, string, object}
use signalwire_agents_cpp.Security.Decimal.{scan_digits, is_digit, is_space}
use signalwire_agents_cpp.Skills.Math.{Doubles, out_of_fuel, evaluate_expression}
use signalwire_agents_cpp.Skills.Math.Fuel.{evaluate_expression_ends}
use signalwire_agents_cpp.Skills.Math.Value.{Expr, literal, binary, plus, times, value, outcome}
use signalwire_agents_cpp.Skills.Math.Correct.{evaluate_expression-text}
use signalwire_agents_cpp.Skills.Manager.{
  Skill, Offer, State, Command, loads, new_agent, run_commands,
}
use signalwire_agents_cpp.Skills.Manager.Sound.{IsSound, run_commands-IsSound}

abbrev whole : Doubles ℕ
whole = record {
  add = λ a b. a + b;
  sub = λ a b. a - b;
  mul = λ a b. a * b;
  div = λ a b. a / b;
  fmod = λ a b. a % b;
  pow = λ a b. a ^ b;
  neg = λ a. 0;
  is_zero = λ a. a == 0;
  stod = λ s. some (scan_digits s 0);
}

evaluate_expression_ends_example :
    evaluate_expression whole (codes "2 * (3 + 4) ** 2") ≢ out_of_fuel
evaluate_expression_ends_example = evaluate_expression_ends whole (codes "2 * (3 + 4) ** 2")

-- (2 * (3 + 4)).
abbrev product : Expr
product = binary times (literal b'2' []) (binary plus (literal b'3' []) (literal b'4' []))

evaluate_expression-text_example :
    evaluate_expression whole (codes "(2 * (3 + 4))") ≡ outcome whole (value whole product) []
unfolding is_digit is_space
evaluate_expression-text_example =
    evaluate_expression-text whole product (codes "(2 * (3 + 4))") (refl, (refl, refl)) refl

abbrev offer : Offer
offer = record {
  tools =
      record {
        name = codes "calculate";
        description = codes "Calculate";
        parameters = null;
        secure = false;
      }
      ∷ [];
  datamap_functions = object ((codes "function", string (codes "joke")) ∷ []) ∷ [];
  hints = codes "sum" ∷ [];
  global_data = [];
  prompt_sections = [];
}

abbrev registry : Bytes → Option Skill
registry name =
    if str_eq name (codes "math")
    then some (record {
      supports_multiple_instances = false;
      required_env_vars = [];
      setup = λ params. some offer;
    })
    else none

abbrev is_set : Bytes → Bool
is_set name = true

-- The manager loads the skill, refuses a second one, and refuses an unknown one.
abbrev loading : List Command
loading = loads (codes "math") null ∷ loads (codes "math") null ∷ loads (codes "none") null ∷ []

abbrev state_of : Option State → State
state_of none = ([], new_agent)
state_of (some s) = s

run_commands-IsSound_example :
    IsSound registry is_set (state_of (run_commands registry is_set ([], new_agent) loading))
unfolding run_commands str_eq lookup
run_commands-IsSound_example =
    run_commands-IsSound registry is_set loading
      (state_of (run_commands registry is_set ([], new_agent) loading)) refl
