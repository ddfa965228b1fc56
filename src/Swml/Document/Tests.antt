-- ===== src/Swml/Document/Tests.antt =====
-- The theorem of the documents at concrete calls.
use mathlib.Core.Option
use signalwire_agents_cpp.Prelude.{◌≡◌, ◌∷◌, [], List, codes}
use signalwire_agents_cpp.Prelude.Json.{null, object, string}
use signalwire_agents_cpp.Prelude.Map.{lookup}
use signalwire_agents_cpp.Swml.Document.{new_document, render_sections}
use signalwire_agents_cpp.Swml.Document.Sections.{
  Command, names, adds, run, rendered, new_spec, run_spec, run-refines,
}

abbrev calls : List Command
calls =
    adds (codes "main") (record { name = codes "answer"; params = null })
    ∷ names (codes "menu")
    ∷ adds (codes "menu") (record { name = codes "play"; params = string (codes "say:hi") })
    ∷ adds (codes "main") (record { name = codes "hangup"; params = object [] })
    ∷ []

run-refines_example :
    lookup (codes "menu") (render_sections (run new_document calls))
    ≡ Option.map rendered (run_spec new_spec calls (codes "menu"))
run-refines_example = run-refines calls (codes "menu")
