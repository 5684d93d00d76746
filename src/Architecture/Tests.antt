-- ===== src/Architecture/Tests.antt =====
-- The architecture view on a concrete workflow.
use tokyo_tester.Base.{◌≡◌, refl, true, some, List, [], ◌∷◌, map, all, All, OnSome}
use tokyo_tester.Names.{to_lower}
use tokyo_tester.Bundle.{codes}
use tokyo_tester.Graph.Texts.{text_eq}
use tokyo_tester.Edges.{FlowNode, FlowEdge, get_node, includes, no_data}
use tokyo_tester.Architecture.{
  architecture_role, place_nodes, find_placed, draw_edge, layout_by_role, split_words,
  friendly_word, join_words, friendly_name, readiness_sentence, describe_architecture_node,
}
use tokyo_tester.Architecture.Layout.{all_apart, within, layout_by_role-all_apart}
use tokyo_tester.Architecture.Statements.{IsRequired, describe_architecture_node-IsRequired}

abbrev orders : FlowNode
orders = record { id = "1"; label = codes "orders_api"; service_type = "generic" }

abbrev store : FlowNode
store = record { id = "2"; label = codes "main--postgres"; service_type = "postgres" }

abbrev reading : FlowEdge
reading = record {
  id = "e";
  source = "2";
  target = "1";
  kind = some "dataFlow";
  content =
      some (record no_data { relation = some "reads"; readiness = some "target_requires_source" });
}

abbrev nodes : List FlowNode
nodes = orders ∷ store ∷ []

named_friendly : friendly_name (codes "main--postgres") ≡ codes "Main Postgres"
unfolding friendly_name split_words friendly_word join_words text_eq to_lower
named_friendly = refl

drawn :
    map (λ e. e.content) (layout_by_role nodes (reading ∷ [])).1
    ≡ some (record no_data {
      relation = some "reads";
      readiness = some "target_requires_source";
      layout_points = some ((664, 46) ∷ (332, 46) ∷ (332, 46) ∷ (0, 46) ∷ []);
    })
      ∷ []
unfolding layout_by_role place_nodes find_placed draw_edge architecture_role includes
drawn = refl

said :
    map (λ s. s.readiness) (describe_architecture_node orders nodes (reading ∷ []))
    ≡ some (codes "Starts after Main Postgres") ∷ []
unfolding describe_architecture_node get_node readiness_sentence friendly_name split_words
    friendly_word join_words text_eq to_lower
said = refl

describe_architecture_node-IsRequired_example :
    All
      (λ statement. OnSome (IsRequired nodes (reading ∷ []) orders) statement.readiness)
      (describe_architecture_node orders nodes (reading ∷ []))
unfolding get_node
describe_architecture_node-IsRequired_example =
    describe_architecture_node-IsRequired nodes orders refl (reading ∷ [])

layout_by_role-all_apart_example :
    (map (λ p. p.node) (layout_by_role nodes (reading ∷ [])).0 ≡ nodes)
    × (all_apart (layout_by_role nodes (reading ∷ [])).0 ≡ true)
    × (all (within 2) (layout_by_role nodes (reading ∷ [])).0 ≡ true)
layout_by_role-all_apart_example = layout_by_role-all_apart nodes (reading ∷ [])
