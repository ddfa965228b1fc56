-- ===== src/Pom/Tests.antt =====
-- The theorems of the prompt object model at concrete inputs.
use mathlib.Core.Option
use signalwire_agents_cpp.Prelude.{◌≡◌, refl, ◌∷◌, [], codes, true, false, none, some, inl, find}
use signalwire_agents_cpp.Prelude.Strings.{find_text}
use signalwire_agents_cpp.Prelude.Json.{string}
use signalwire_agents_cpp.Pom.{
  Section, section_of, Sections, no_sections, then_section, to_dict, to_ordered,
}
use signalwire_agents_cpp.Pom.Reading.{from_json}
use signalwire_agents_cpp.Pom.Reading.RoundTrip.{normal_all, is_complete, from_json-to_dict}
use signalwire_agents_cpp.Pom.Rendering.{render_markdown, join}
use signalwire_agents_cpp.Pom.Rendering.Plain.{
  plain_sections, numbered_within, render_markdown-plain,
}
use signalwire_agents_cpp.Pom.Scalar.{parse_scalar, emit_text, needs_quoting, is_numeric}
use signalwire_agents_cpp.Pom.Scalar.RoundTrip.{parse_scalar-emit_text}

abbrev tone : Section
tone = section_of (some (codes "Tone")) (codes "Be kind.") [] (some false) false no_sections

-- A first section without a title, and a second one with a subsection.
abbrev model : Sections
model = then_section (section_of none (codes "You are an agent.") [] none false no_sections) (
    then_section
      (section_of (some (codes "Rules")) [] (codes "Ask" ∷ codes "Listen" ∷ []) none true
        (then_section tone no_sections))
      no_sections)

from_json-to_dict_example :
    (from_json (to_dict model) ≡ some (normal_all model))
    × (from_json (to_ordered model) ≡ some (normal_all model))
unfolding is_complete
from_json-to_dict_example = from_json-to_dict model refl

render_markdown-plain_example : render_markdown model ≡ join (10 ∷ []) (plain_sections 2 model)
unfolding numbered_within
render_markdown-plain_example = render_markdown-plain model refl

parse_scalar-emit_text_example :
    parse_scalar (emit_text (codes "it's: 42")) ≡ string (codes "it's: 42")
unfolding needs_quoting is_numeric find find_text
parse_scalar-emit_text_example = parse_scalar-emit_text (codes "it's: 42") (inl refl)
