-- ===== src/Edges/Tests.antt =====
-- The edges of edge-model.ts and the graph that scenario-translator.ts builds, on a concrete workflow.
use tokyo_tester.Base.{◌≡◌, refl, ◌↔◌, none, some, List, [], ◌∷◌}
use tokyo_tester.Names.{Text, sanitize_name}
use tokyo_tester.Graph.{detect_cycles}
use tokyo_tester.Graph.Texts.{has, text_eq}
use tokyo_tester.Edges.{one_of, FlowEdge, FlowNode, no_data, build_service_dependencies}
use tokyo_tester.Edges.Dependencies.{IsOrderable, detect_cycles-build_service_dependencies}

abbrev api : FlowNode
api = record { id = "1"; label = b'A' ∷ b'p' ∷ b'i' ∷ []; service_type = "generic" }

abbrev db : FlowNode
db = record { id = "2"; label = b'd' ∷ b'b' ∷ []; service_type = "postgres" }

abbrev nodes : List FlowNode
nodes = api ∷ db ∷ []

-- An edge of an older version: no readiness, and a relation that is unknown.
abbrev stored : FlowEdge
stored = record {
  id = "e";
  source = "1";
  target = "2";
  kind = none;
  content = some (record no_data { relation = some "uses"; layout_points = some ((3, 4) ∷ []) });
}

abbrev edges : List FlowEdge
edges = stored ∷ []

abbrev api_name : Text
api_name = b'a' ∷ b'p' ∷ b'i' ∷ []

abbrev db_name : Text
db_name = b'd' ∷ b'b' ∷ []

-- The graph of this workflow: the api depends on the database.
graph_of_stored :
    build_service_dependencies nodes edges ≡ (api_name, db_name ∷ []) ∷ (db_name, []) ∷ []
unfolding build_service_dependencies one_of text_eq sanitize_name has
graph_of_stored = refl

detect_cycles-build_service_dependencies_example :
    (detect_cycles (build_service_dependencies nodes edges) ≡ []) ↔ IsOrderable nodes edges
detect_cycles-build_service_dependencies_example =
    detect_cycles-build_service_dependencies nodes edges
