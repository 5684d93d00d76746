-- ===== src/Graph/Tests.antt =====
-- The graph algorithms of scenario-translator.ts on concrete graphs.
use tokyo_tester.Base.{◌≡◌, refl, ◌↔◌, [], ◌∷◌}
use tokyo_tester.Names.{Text}
use tokyo_tester.Graph.{DependencyGraph, detect_cycles, expand_scenario_service_subset}
use tokyo_tester.Graph.Texts.{has, remove, text_eq}
use tokyo_tester.Graph.Walks.{IsAcyclic}
use tokyo_tester.Graph.Cycles.{detect_cycles-nil_iff}
use tokyo_tester.Graph.Subset.{IsLeast, expand_scenario_service_subset-IsLeast}

abbrev api : Text
api = b'a' ∷ []

abbrev db : Text
db = b'd' ∷ []

abbrev web : Text
web = b'w' ∷ []

-- The web page needs the api, and the api and the database need each other.
abbrev looped : DependencyGraph
looped = (web, api ∷ []) ∷ (api, db ∷ []) ∷ (db, api ∷ []) ∷ []

abbrev straight : DependencyGraph
straight = (web, api ∷ []) ∷ (api, db ∷ []) ∷ (db, []) ∷ []

looped_cycles : detect_cycles looped ≡ (api ∷ db ∷ api ∷ []) ∷ []
unfolding detect_cycles has remove text_eq
looped_cycles = refl

straight_cycles : detect_cycles straight ≡ []
unfolding detect_cycles has remove text_eq
straight_cycles = refl

straight_required : (expand_scenario_service_subset straight (api ∷ [])).names ≡ db ∷ api ∷ []
unfolding expand_scenario_service_subset has text_eq
straight_required = refl

detect_cycles-nil_iff_example : (detect_cycles looped ≡ []) ↔ IsAcyclic looped
detect_cycles-nil_iff_example = detect_cycles-nil_iff looped

expand_scenario_service_subset-IsLeast_example :
    IsLeast looped (web ∷ []) (expand_scenario_service_subset looped (web ∷ []))
expand_scenario_service_subset-IsLeast_example =
    expand_scenario_service_subset-IsLeast looped (web ∷ [])
