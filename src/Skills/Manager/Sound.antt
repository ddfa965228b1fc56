-- ===== src/Skills/Manager/Sound.antt =====
-- What holds of the manager and the agent's tools after any calls.
use mathlib.Core.Option.{some-injective}
use signalwire_agents_cpp.Prelude.{
  ◌≤◌, Option, none, some, Bool, true, false, not, ◌&&◌, ◌≡◌, refl, subst, sym, ap, ◌∙◌, ◌∷◌, [],
  ◌++◌, List, Bytes, str_eq, str_eq_iff, ◌>>=◌, arith, Bool-cases, Option-cases, inl, inr,
}
use signalwire_agents_cpp.Prelude.Map.{Map, lookup}
use signalwire_agents_cpp.Prelude.Json.{Json}
use signalwire_agents_cpp.Swaig.ToolDefinition.{ToolDefinition}
use signalwire_agents_cpp.Swml.Service.Tools.{define_tool, register_swaig_function}
use signalwire_agents_cpp.Swml.Service.Order.{
  count, count-append_one, IsOrdered, define_tool-IsOrdered, register-IsOrdered,
}
use signalwire_agents_cpp.Skills.Manager.{
  SkillPromptSection, Offer, Skill, Agent, new_agent, LoadedSkill, is_loaded, list_loaded,
  define_tools, register_functions, add_hints, update_global_data, add_prompt_sections, install,
  State, unload_skill, all_set, set_up, load_skill, Command, loads, unloads, cleans, run_command,
  run_commands,
}

define_tools-IsOrdered :
    (a : Agent) (ts : List ToolDefinition) → IsOrdered a.tools → IsOrdered (define_tools a ts).tools
unfolding define_tools
define_tools-IsOrdered a [] v = v
define_tools-IsOrdered a (t ∷ ts) v =
    define_tools-IsOrdered (record a { tools = define_tool a.tools t }) ts
      (define_tool-IsOrdered a.tools t v)

-- A chained result, taken apart.
bind_inv :
    {A B : Type 0} (o : Option A) (f : A → Option B) (b : B)
    → (o >>= f) ≡ some b
    → (a : A) × (o ≡ some a) × (f a ≡ some b)
bind_inv none f b h = absurd cc
bind_inv (some a) f b h = (a, refl, h)

register_functions-IsOrdered :
    (fs : List Json) (a a' : Agent)
    → register_functions a fs ≡ some a'
    → IsOrdered a.tools
    → IsOrdered a'.tools
unfolding register_functions
register_functions-IsOrdered [] a a' h v = subst (λ x. IsOrdered x.tools) (some-injective a a' h) v
register_functions-IsOrdered (f ∷ fs) a a' h v =
    let (t, e, rest) = bind_inv (register_swaig_function a.tools f) _ a' h in
    register_functions-IsOrdered fs
      (record a { tools = t; datamap_functions = a.datamap_functions ++ f ∷ [] }) a' rest
      (register-IsOrdered a.tools t f e v)

update_global_data-tools : (m : Map Json) (a : Agent) → (update_global_data a m).tools ≡ a.tools
unfolding update_global_data
update_global_data-tools [] a = refl
update_global_data-tools ((k, j) ∷ m) a = update_global_data-tools m _

add_prompt_sections-tools :
    (ss : List SkillPromptSection) (a : Agent) → (add_prompt_sections a ss).tools ≡ a.tools
unfolding add_prompt_sections
add_prompt_sections-tools [] a = refl
add_prompt_sections-tools (s ∷ ss) a = add_prompt_sections-tools ss _

install-IsOrdered :
    (a a' : Agent) (o : Offer) → install a o ≡ some a' → IsOrdered a.tools → IsOrdered a'.tools
unfolding install add_hints
install-IsOrdered a a' o h v =
    let (a1, e, rest) =
      bind_inv (register_functions (define_tools a o.tools) o.datamap_functions) _ a' h in
    let v1 =
      register_functions-IsOrdered o.datamap_functions (define_tools a o.tools) a1 e
        (define_tools-IsOrdered a o.tools v) in
    subst (λ x. IsOrdered x.tools) (some-injective _ a' rest)
      (rw
        (
          add_prompt_sections-tools o.prompt_sections
              (update_global_data (add_hints a1 o.hints) o.global_data),
          update_global_data-tools o.global_data (add_hints a1 o.hints),
        )
        v1)

is_loaded-count :
    (n : Bytes) (loaded : List LoadedSkill)
    → is_loaded loaded n ≡ false
    → count n (list_loaded loaded) ≡ 0
unfolding is_loaded list_loaded
is_loaded-count n [] h = refl
is_loaded-count n (ls ∷ loaded) h = ground (arith, h, is_loaded-count n loaded)

unload_skill-count :
    (n name : Bytes) (loaded : List LoadedSkill)
    → count n (list_loaded (unload_skill loaded name)) ≤ count n (list_loaded loaded)
unfolding unload_skill list_loaded
unload_skill-count n name [] = omega arith
unload_skill-count n name (ls ∷ loaded) = elim (Bool-cases (str_eq ls.name name)) [
  | inl e ↦ rw e (omega arith)
  | inr e ↦ rw e (omega (arith, unload_skill-count n name loaded))
]

list_loaded-append :
    (loaded : List LoadedSkill) (ls : LoadedSkill)
    → list_loaded (loaded ++ ls ∷ []) ≡ list_loaded loaded ++ ls.name ∷ []
unfolding list_loaded
list_loaded-append [] ls = refl
list_loaded-append (l ∷ loaded) ls = ap (◌∷◌ l.name) (list_loaded-append loaded ls)

module _ (registry : Bytes → Option Skill) (is_set : Bytes → Bool) where
  -- A skill that allows one instance only is loaded at most once, and the order of the agent's tools
  -- holds each name once and the names of all tools.
  pub record IsSound (s : State) : Type 0 where
    pub single :
        (name : Bytes) (skill : Skill)
        → registry name ≡ some skill
        → skill.supports_multiple_instances ≡ false
        → count name (list_loaded s.0) ≤ 1
    pub ordered : IsOrdered s.1.tools

  single_added :
      (loaded : List LoadedSkill) (name : Bytes) (params : Json) (skill : Skill)
      → registry name ≡ some skill
      → (skill.supports_multiple_instances ≡ false → is_loaded loaded name ≡ false)
      → ((n : Bytes) (sk : Skill)
          → registry n ≡ some sk
          → sk.supports_multiple_instances ≡ false
          → count n (list_loaded loaded) ≤ 1)
      → (n : Bytes) (sk : Skill) → registry n ≡ some sk
      → sk.supports_multiple_instances ≡ false
      → count n
          (list_loaded (loaded ++ record { name = name; instance = skill; params = params } ∷ []))
        ≤ 1
  single_added loaded name params skill known free v n sk k f = elim (Bool-cases (str_eq name n)) [
    | inl e ↦
        let same : name ≡ n = (str_eq_iff name n).0 e in
        let skills : skill ≡ sk = some-injective skill sk (sym known ∙ ap registry same ∙ k) in
        let absent = free (ap (λ x. x.supports_multiple_instances) skills ∙ f) in
        let zero_times : count n (list_loaded loaded) ≡ 0 =
          sym (ap (λ x. count x (list_loaded loaded)) same) ∙ is_loaded-count name loaded absent in
        rw
          (
            list_loaded-append loaded (record { name = name; instance = skill; params = params }),
            count-append_one n name (list_loaded loaded),
            e,
          )
          (omega (arith, zero_times))
    | inr e ↦
        rw
          (
            list_loaded-append loaded (record { name = name; instance = skill; params = params }),
            count-append_one n name (list_loaded loaded),
            e,
          )
          (omega (arith, v n sk k f))
  ]

  set_up-IsSound :
      (s : State) (name : Bytes) (params : Json) (skill : Skill) (r : Bool × State)
      → registry name ≡ some skill
      → (skill.supports_multiple_instances ≡ false → is_loaded s.0 name ≡ false)
      → set_up registry is_set s name params skill ≡ some r
      → IsSound s
      → IsSound r.1
  set_up-IsSound (loaded, a) name params skill r known free h v =
      elim (Option-cases (skill.setup params)) [
        | inl e ↦
            let h' : some (false, (loaded, a)) ≡ some r = rw (set_up, e) at h in
            subst (λ x. IsSound x.1) (some-injective _ r h') v
        | inr (offer, e) ↦
            let h' : (install a offer >>= λ a'.
            some (
              true,
              (loaded ++ record { name = name; instance = skill; params = params } ∷ [], a'),
            ))
                ≡ some r =
              rw (set_up, e) at h in
            let (a1, e1, rest) = bind_inv (install a offer) _ r h' in
            subst (λ x. IsSound x.1) (some-injective _ r rest)
              (record {
                single = single_added loaded name params skill known free v.single;
                ordered = install-IsOrdered a a1 offer e1 v.ordered;
              })
      ]

  load_skill-IsSound :
      (s : State) (name : Bytes) (params : Json) (r : Bool × State)
      → load_skill registry is_set s name params ≡ some r
      → IsSound s
      → IsSound r.1
  unfolding load_skill
  load_skill-IsSound (loaded, a) name params r h v = elim (Option-cases (registry name)) [
    | inl e ↦
        let h' : some (false, (loaded, a)) ≡ some r = rw (load_skill, e) at h in
        subst (λ x. IsSound x.1) (some-injective _ r h') v
    | inr (skill, e) ↦
        elim (Bool-cases (not skill.supports_multiple_instances && is_loaded loaded name)) [
          | inl f ↦
              let h' : some (false, (loaded, a)) ≡ some r = rw (load_skill, e, f) at h in
              subst (λ x. IsSound x.1) (some-injective _ r h') v
          | inr f ↦ elim (Bool-cases (not (all_set registry is_set skill.required_env_vars))) [
            | inl g ↦
                let h' : some (false, (loaded, a)) ≡ some r = rw (load_skill, e, f, g) at h in
                subst (λ x. IsSound x.1) (some-injective _ r h') v
            | inr g ↦
                let h' : set_up registry is_set (loaded, a) name params skill ≡ some r =
                  rw (load_skill, e, f, g) at h in
                set_up-IsSound (loaded, a) name params skill r e (λ k. ground (arith, f, k)) h' v
          ]
        ]
  ]

  run_command-IsSound :
      (s s' : State) (c : Command)
      → run_command registry is_set s c ≡ some s'
      → IsSound s
      → IsSound s'
  unfolding run_command list_loaded
  run_command-IsSound s s' (loads name params) h v =
      let (r, e, rest) = bind_inv (load_skill registry is_set s name params) _ s' h in
      subst IsSound (some-injective _ s' rest) (load_skill-IsSound s name params r e v)
  run_command-IsSound (loaded, a) s' (unloads name) h v =
      subst IsSound (some-injective _ s' h) (record {
        single = λ n sk k f. omega (arith, unload_skill-count n name loaded, v.single n sk k f);
        ordered = v.ordered;
      })
  run_command-IsSound (loaded, a) s' cleans h v =
      subst IsSound (some-injective _ s' h)
        (record { single = λ n sk k f. omega arith; ordered = v.ordered })

  run_commands_keep :
      (cs : List Command) (s s' : State)
      → run_commands registry is_set s cs ≡ some s'
      → IsSound s
      → IsSound s'
  unfolding run_commands
  run_commands_keep [] s s' h v = subst IsSound (some-injective s s' h) v
  run_commands_keep (c ∷ cs) s s' h v =
      let (s1, e, rest) = bind_inv (run_command registry is_set s c) _ s' h in
      run_commands_keep cs s1 s' rest (run_command-IsSound s s1 c e v)

  new-IsSound : IsSound ([], new_agent)
  unfolding list_loaded lookup
  new-IsSound = record {
    single = λ n sk k f. omega arith;
    ordered = record { once = λ n. omega arith; listed = λ n h. absurd cc };
  }

  -- After any calls that load, unload and clean up skills, from no skills and a new agent: a skill
  -- that does not support several instances is loaded at most once, no name occurs twice in the
  -- order of the agent's tools, and each tool is in that order.
  pub run_commands-IsSound :
      (cs : List Command) (s : State)
      → run_commands registry is_set ([], new_agent) cs ≡ some s
      → IsSound s
  run_commands-IsSound cs s h = run_commands_keep cs ([], new_agent) s h new-IsSound
