-- ===== src/Edges.antt =====
-- ui-v2/src/modules/workflow/lib/edge-model.ts: the edges between the services of a workflow, and from
-- ui-v2/src/modules/utils/scenario-translator.ts `buildNodeMap` and `buildServiceDependencies`, which
-- make the dependency graph of them. What a stored edge says of its relation and its readiness may
-- be any text.
pub mod Laws
pub mod Dependencies
mod Tests
use tokyo_tester.Base.{
  ℕ, String, Bool, true, false, not, ◌&&◌, ◌||◌, Option, none, some, List, [], ◌∷◌, ◌++◌, map, any,
  ◌===◌, if◌then◌else◌,
}
use tokyo_tester.Names.{Text, sanitize_name}
use tokyo_tester.Graph.{DependencyGraph, deps}
use tokyo_tester.Graph.Texts.{text_eq, has}

pub record EdgeData : Type 0 where
  pub relation : Option String
  pub readiness : Option String
  pub label : Option String
  pub description : Option String
  pub protocol : Option String
  pub needs_review : Option Bool
  pub show_label : Option Bool
  pub layout_points : Option (List (ℕ × ℕ))

-- `kind` is the field `type`, `content` the field `data`.
pub record FlowEdge : Type 0 where
  pub id : String
  pub source : String
  pub target : String
  pub kind : Option String
  pub content : Option EdgeData

-- What the code here reads of a node: its id, its label and the type of its service.
pub record FlowNode : Type 0 where
  pub id : String
  pub label : Text
  pub service_type : String

unfoldable pub includes : List String → String → Bool
includes xs x = any (λ y. x === y) xs

abbrev pub edge_relations : List String
edge_relations = "calls" ∷ "reads" ∷ "writes" ∷ "publishes" ∷ "consumes" ∷ []

abbrev pub edge_readiness_options : List String
edge_readiness_options = "none" ∷ "source_requires_target" ∷ "target_requires_source" ∷ []

abbrev pub queue_types : List String
queue_types = "kafka" ∷ "rabbitmq" ∷ []

abbrev pub store_types : List String
store_types = "postgres" ∷ "mysql" ∷ "mariadb" ∷ "redis" ∷ "memcached" ∷ "mongodb" ∷ []

unfoldable pub default_readiness : String → String
default_readiness relation =
    if relation === "reads" || relation === "consumes"
    then "target_requires_source"
    else "source_requires_target"

unfoldable pub infer_relation : String → String → String
unfolding includes
infer_relation source target =
    if includes queue_types source && target === "generic"
    then "consumes"
    else if source === "generic" && includes queue_types target
    then "publishes"
    else if includes store_types source && target === "generic"
    then "reads"
    else if source === "generic" && includes store_types target
    then "writes"
    else "calls"

unfoldable pub infer_edge_data : FlowNode → FlowNode → EdgeData
unfolding infer_relation default_readiness
infer_edge_data source target =
    let relation = infer_relation source.service_type target.service_type in
    record {
      relation = some relation;
      readiness = some (default_readiness relation);
      label = none;
      description = none;
      protocol = none;
      needs_review = none;
      show_label = none;
      layout_points = none;
    }

-- What `edge.data?.…` reads where there is no data.
abbrev pub no_data : EdgeData
no_data = record {
  relation = none;
  readiness = none;
  label = none;
  description = none;
  protocol = none;
  needs_review = none;
  show_label = none;
  layout_points = none;
}

abbrev pub data_of : FlowEdge → EdgeData
data_of e = elim e.content [ none ↦ no_data | some d ↦ d ]

-- The truth of a text that may be absent: an empty one is false.
abbrev pub given : Option String → Bool
given none = false
given (some s) = not (s === "")

-- The text where it is one of these, else the other text.
unfoldable pub one_of : List String → String → Option String → String
unfolding includes
one_of xs other none = other
one_of xs other (some x) = if includes xs x then x else other

-- `migrated || needsReview || undefined`
abbrev pub review : Bool → Option Bool → Option Bool
review true _ = some true
review false (some true) = some true
review false _ = none

abbrev pub is_migrated : EdgeData → Bool
is_migrated d = not (given d.relation) || not (given d.readiness)

unfoldable pub normalize_edge : Bool → FlowEdge → FlowEdge
normalize_edge legacy e =
    let d = data_of e in
    record e {
      kind = some "dataFlow";
      content = some (record d {
        relation = some (one_of edge_relations "calls" d.relation);
        readiness = some (one_of edge_readiness_options "source_requires_target" d.readiness);
        needs_review = review (legacy || is_migrated d) d.needs_review;
      });
    }

unfoldable pub normalize_edges : Bool → List FlowEdge → List FlowEdge
unfolding normalize_edge
normalize_edges legacy es = map (λ e. normalize_edge (legacy || is_migrated (data_of e)) e) es

abbrev pub clear_points : EdgeData → EdgeData
clear_points d = record d { layout_points = none }

abbrev pub touches : List String → FlowEdge → Bool
touches moved e = any (λ m. e.source === m) moved || any (λ m. e.target === m) moved

abbrev pub clear_route : FlowEdge → FlowEdge
clear_route e = record e {
  content = elim e.content [ none ↦ none | some d ↦ some (clear_points d) ];
}

unfoldable pub invalidate_routes_for_moved_nodes : List FlowEdge → List String → List FlowEdge
invalidate_routes_for_moved_nodes es [] = es
invalidate_routes_for_moved_nodes es (m ∷ ms) =
    map (λ e. if touches (m ∷ ms) e then clear_route e else e) es

-- `nodeMap.get(id)`: of the nodes with this id the last one was set.
unfoldable pub get_node : String → List FlowNode → Option FlowNode
get_node i [] = none
get_node i (n ∷ ns) = elim (get_node i ns) [
  | some m ↦ some m
  | none ↦ if n.id === i then some n else none
]

-- `graph.set(name, values)`
unfoldable pub put_deps : Text → List Text → DependencyGraph → DependencyGraph
put_deps name ds [] = (name, ds) ∷ []
put_deps name ds ((k, old) ∷ g) =
    let rest = put_deps name ds g in if text_eq k name then (k, ds) ∷ g else (k, old) ∷ rest

unfoldable pub unique_append : List Text → Text → List Text
unique_append values value = if has value values then values else values ++ value ∷ []

-- `graph.set(a, uniqueAppend(graph.get(a), b))`
unfoldable pub add_dependency : Text → Text → DependencyGraph → DependencyGraph
unfolding put_deps unique_append deps
add_dependency a b g = put_deps a (unique_append (deps g a) b) g

-- The first loop: every node's name, with no dependencies.
unfoldable pub name_nodes : List FlowNode → DependencyGraph → DependencyGraph
unfolding put_deps
name_nodes [] g = g
name_nodes (n ∷ ns) g = name_nodes ns (put_deps (sanitize_name n.label) [] g)

-- What the second loop does for an edge whose ends are these nodes.
unfoldable pub add_edge : Option String → FlowNode → FlowNode → DependencyGraph → DependencyGraph
unfolding add_dependency
add_edge none s t g = g
add_edge (some readiness) s t g =
    if readiness === "source_requires_target"
    then add_dependency (sanitize_name s.label) (sanitize_name t.label) g
    else if readiness === "target_requires_source"
    then add_dependency (sanitize_name t.label) (sanitize_name s.label) g
    else g

-- Where an end is missing, the edge is skipped.
abbrev pub step_between :
    Option String → Option FlowNode → Option FlowNode → DependencyGraph → DependencyGraph
step_between r (some s) (some t) g = add_edge r s t g
step_between r (some s) none g = g
step_between r none _ g = g

unfoldable pub step_edge : List FlowNode → FlowEdge → DependencyGraph → DependencyGraph
unfolding normalize_edge get_node add_edge
step_edge nodes e g =
    step_between (data_of (normalize_edge false e)).readiness (get_node e.source nodes)
      (get_node e.target nodes) g

unfoldable pub add_edges : List FlowNode → List FlowEdge → DependencyGraph → DependencyGraph
unfolding step_edge
add_edges nodes [] g = g
add_edges nodes (e ∷ es) g = add_edges nodes es (step_edge nodes e g)

unfoldable pub build_service_dependencies : List FlowNode → List FlowEdge → DependencyGraph
unfolding name_nodes add_edges
build_service_dependencies nodes edges = add_edges nodes edges (name_nodes nodes [])
