-- ===== src/Agent/Rendering/Pipeline.antt =====
-- The five phases of the rendered document.
use mathlib.Core.Option
use signalwire_agents_cpp.Prelude.{
  none, some, false, ◌≡◌, refl, sym, ap, ◌∙◌, ◌∷◌, [], ◌++◌, List, map, Bytes, codes, str_eq,
  str_eq_iff, if◌then◌else◌, append_assoc, append-nil, Bool-cases, inl, inr,
}
use signalwire_agents_cpp.Prelude.Int.{pos}
use signalwire_agents_cpp.Prelude.Map.{Map, lookup}
use signalwire_agents_cpp.Prelude.Json.{number, object}
use signalwire_agents_cpp.Swml.Document.{
  Verb, Document, main_name, new_document, add_verb, render_sections,
}
use signalwire_agents_cpp.Swml.Document.Sections.{
  Command, adds, run, Spec, new_spec, run_spec, rendered, run-refines,
}
use signalwire_agents_cpp.Agent.Config.{AgentBase}
use signalwire_agents_cpp.Agent.Rendering.{
  add_verbs, add_answer, swml_document, build_webhook_url, detect_proxy_url, build_ai_verb,
}

abbrev pub answer_phase : List Verb → List Verb
answer_phase [] =
    record {
      name = codes "answer";
      params = object ((codes "max_duration", number (pos 3600)) ∷ []);
    }
    ∷ []
answer_phase (v ∷ vs) = v ∷ vs

abbrev pub ai_phase : AgentBase → Bytes → Map Bytes → Verb
ai_phase a env_proxy headers = record {
  name = codes "ai";
  params = build_ai_verb a (build_webhook_url a (detect_proxy_url a env_proxy headers));
}

abbrev pub phases : AgentBase → Bytes → Map Bytes → List Verb
phases a env_proxy headers =
    a.pre_answer_verbs
    ++ (answer_phase a.answer_verbs
        ++ (a.post_answer_verbs ++ ai_phase a env_proxy headers ∷ a.post_ai_verbs))

-- The calls that add the verbs to the main section.
abbrev to_main : List Verb → List Command
to_main vs = map (adds main_name) vs

add_verbs-append :
    (d : Document) (vs ws : List Verb) → add_verbs d (vs ++ ws) ≡ add_verbs (add_verbs d vs) ws
unfolding add_verbs
add_verbs-append d [] ws = refl
add_verbs-append d (v ∷ vs) ws = add_verbs-append (add_verb d v.name v.params) vs ws

add_verbs-run : (d : Document) (vs : List Verb) → add_verbs d vs ≡ run d (to_main vs)
unfolding add_verbs add_verb
add_verbs-run d [] = refl
add_verbs-run d (v ∷ vs) = add_verbs-run (add_verb d v.name v.params) vs

add_answer-verbs : (d : Document) (vs : List Verb) → add_answer d vs ≡ add_verbs d (answer_phase vs)
unfolding add_verbs
add_answer-verbs d [] = refl
add_answer-verbs d (v ∷ vs) = refl

run_spec-main :
    (vs ws : List Verb) (f : Spec)
    → f main_name ≡ some ws
    → run_spec f (to_main vs) main_name ≡ some (ws ++ vs)
run_spec-main [] ws f h = rw (append-nil ws) h
run_spec-main (v ∷ vs) ws f h =
    run_spec-main vs (ws ++ v ∷ []) _ (rw ((str_eq_iff main_name main_name).1 refl, h) refl)
    ∙ ap some (append_assoc ws (v ∷ []) vs)

run_spec-other :
    (vs : List Verb) (f : Spec) (k : Bytes)
    → str_eq main_name k ≡ false
    → run_spec f (to_main vs) k ≡ f k
run_spec-other [] f k h = refl
run_spec-other (v ∷ vs) f k h = run_spec-other vs _ k h ∙ rw h refl

swml_document-run :
    (a : AgentBase) (env_proxy : Bytes) (headers : Map Bytes)
    → swml_document a env_proxy headers ≡ run new_document (to_main (phases a env_proxy headers))
unfolding swml_document add_verbs
swml_document-run a env_proxy headers =
    let pre = a.pre_answer_verbs in
    let answer = answer_phase a.answer_verbs in
    let post = a.post_answer_verbs in
    let ai = ai_phase a env_proxy headers in
    let d = add_verbs new_document pre in
    ap (λ x. add_verbs (add_verb (add_verbs x post) ai.name ai.params) a.post_ai_verbs)
      (add_answer-verbs d a.answer_verbs)
    ∙ sym (
        add_verbs-append new_document pre (answer ++ (post ++ ai ∷ a.post_ai_verbs))
        ∙ add_verbs-append d answer (post ++ ai ∷ a.post_ai_verbs)
        ∙ add_verbs-append (add_verbs d answer) post (ai ∷ a.post_ai_verbs))
    ∙ add_verbs-run new_document (phases a env_proxy headers)

run_spec-to_main :
    (vs : List Verb) (k : Bytes)
    → Option.map rendered (run_spec new_spec (to_main vs) k)
      ≡ (if str_eq main_name k then some (rendered vs) else none)
run_spec-to_main vs k = elim (Bool-cases (str_eq main_name k)) [
  | inl e ↦
      ap (λ n. Option.map rendered (run_spec new_spec (to_main vs) n))
        (sym ((str_eq_iff main_name k).0 e))
      ∙ ap (Option.map rendered)
          (run_spec-main vs [] new_spec (rw ((str_eq_iff main_name main_name).1 refl) refl))
      ∙ rw e refl
  | inr e ↦ rw (run_spec-other vs new_spec k e, e) refl
]

-- Whatever the settings and the headers of the request, the document that an agent renders has a
-- main section and no other. It holds the verbs of the five phases in their order: those before the
-- answer, those that answer, or one with the default duration when there are none, those after it,
-- one verb for the agent itself, and those behind.
pub swml_document-phases :
    (a : AgentBase) (env_proxy : Bytes) (headers : Map Bytes) (k : Bytes)
    → lookup k (render_sections (swml_document a env_proxy headers))
      ≡ (if str_eq main_name k then some (rendered (phases a env_proxy headers)) else none)
swml_document-phases a env_proxy headers k =
    let vs = phases a env_proxy headers in
    ap (λ d. lookup k (render_sections d)) (swml_document-run a env_proxy headers)
    ∙ run-refines (to_main vs) k
    ∙ run_spec-to_main vs k
