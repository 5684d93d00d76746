-- ===== src/Architecture.antt =====
-- ui-v2/src/modules/workflow/lib/architecture-view.ts: the roles of services, the layout by role, and
-- what the view says of a service. A type of service that is not known is one of data, as in the source.
-- Letters are those of ASCII, and a word is none that every JavaScript object has as a property.
pub mod Layout
pub mod Statements
mod Tests
use tokyo_tester.Base.{
  ℕ, ◌+◌, ◌*◌, ◌-◌, ◌/◌, String, Bool, true, false, ◌&&◌, ◌||◌, Option, none, some, List, [], ◌∷◌,
  ◌++◌, map, filter, leb, ◌==◌, ◌===◌, if◌then◌else◌,
}
use tokyo_tester.Names.{Text, to_lower}
use tokyo_tester.Graph.Texts.{text_eq}
use tokyo_tester.Bundle.{codes, is_empty}
use tokyo_tester.Edges.{
  FlowNode, FlowEdge, EdgeData, data_of, given, includes, queue_types, get_node,
}

-- `data_store` is the role "data".
pub data ArchitectureRole : Type 0 where
  application data_store messaging : ArchitectureRole

unfoldable pub architecture_role : String → ArchitectureRole
unfolding includes
architecture_role kind =
    if includes ("generic" ∷ "nginx" ∷ "mockserver" ∷ []) kind
    then application
    else if includes queue_types kind
    then messaging
    else data_store

abbrev pub node_width : ℕ
node_width = 184

abbrev pub node_height : ℕ
node_height = 92

-- The fields of `counts`.
pub record Counts : Type 0 where
  pub application : ℕ
  pub data_store : ℕ
  pub messaging : ℕ

abbrev pub count_of : ArchitectureRole → Counts → ℕ
count_of ArchitectureRole.application c = c.application
count_of ArchitectureRole.data_store c = c.data_store
count_of ArchitectureRole.messaging c = c.messaging

abbrev pub count_up : ArchitectureRole → Counts → Counts
count_up ArchitectureRole.application c = record c { application = c.application + 1 }
count_up ArchitectureRole.data_store c = record c { data_store = c.data_store + 1 }
count_up ArchitectureRole.messaging c = record c { messaging = c.messaging + 1 }

abbrev pub column : ArchitectureRole → ℕ
column ArchitectureRole.application = 0
column ArchitectureRole.data_store = 480
column ArchitectureRole.messaging = 960

pub record PlacedNode : Type 0 where
  pub node : FlowNode
  pub x : ℕ
  pub y : ℕ

abbrev pub placed : FlowNode → ArchitectureRole → Counts → PlacedNode
placed n role c = record { node = n; x = column role; y = count_of role c * 160 }

unfoldable pub place_nodes : Counts → List FlowNode → List PlacedNode
place_nodes c [] = []
place_nodes c (n ∷ ns) =
    let role = architecture_role n.service_type in
    placed n role c ∷ place_nodes (count_up role c) ns

-- `positions.get(id)`: of the nodes with this id the last one was set.
unfoldable pub find_placed : String → List PlacedNode → Option PlacedNode
find_placed i [] = none
find_placed i (p ∷ ps) = elim (find_placed i ps) [
  | some q ↦ some q
  | none ↦ if p.node.id === i then some p else none
]

-- From the right side of one node to the left side of another, over the middle.
abbrev pub route : PlacedNode → PlacedNode → List (ℕ × ℕ)
route source target =
    let start_x = source.x + node_width in
    let start_y = source.y + node_height / 2 in
    let end_y = target.y + node_height / 2 in
    let middle_x = (start_x + target.x) / 2 in
    (start_x, start_y) ∷ (middle_x, start_y) ∷ (middle_x, end_y) ∷ (target.x, end_y) ∷ []

unfoldable pub draw_edge : FlowEdge → Option PlacedNode → Option PlacedNode → FlowEdge
draw_edge e (some source) (some target) = record e {
  content = some (record (data_of e) { layout_points = some (route source target) });
}
draw_edge e (some source) none = e
draw_edge e none _ = e

unfoldable pub layout_by_role : List FlowNode → List FlowEdge → List PlacedNode × List FlowEdge
layout_by_role nodes edges =
    let ps = place_nodes (record { application = 0; data_store = 0; messaging = 0 }) nodes in
    (ps, map (λ e. draw_edge e (find_placed e.source ps) (find_placed e.target ps)) edges)

-- `.split(/[_-]+/)`
abbrev pub is_separator : ℕ → Bool
is_separator c = c == b'_' || c == b'-'

abbrev pub starts_separated : Text → Bool
starts_separated [] = false
starts_separated (c ∷ t) = is_separator c

abbrev pub before_first : ℕ → List Text → List Text
before_first c [] = (c ∷ []) ∷ []
before_first c (w ∷ ws) = (c ∷ w) ∷ ws

unfoldable pub split_words : Text → List Text
split_words [] = [] ∷ []
split_words (c ∷ t) =
    let rest = split_words t in
    if is_separator c then (if starts_separated t then rest else [] ∷ rest) else before_first c rest

abbrev pub preferred : List (String × String)
preferred =
    ("api", "API")
    ∷ ("mysql", "MySQL")
    ∷ ("mariadb", "MariaDB")
    ∷ ("mongodb", "MongoDB")
    ∷ ("rabbitmq", "RabbitMQ")
    ∷ ("kafka", "Kafka")
    ∷ ("redis", "Redis")
    ∷ ("postgres", "Postgres")
    ∷ ("memcached", "Memcached")
    ∷ ("nginx", "Nginx")
    ∷ ("mockserver", "MockServer")
    ∷ []

abbrev pub to_upper : ℕ → ℕ
to_upper c = if leb b'a' c && leb c b'z' then c - 32 else c

abbrev pub capitalized : Text → Text
capitalized [] = []
capitalized (c ∷ t) = to_upper c ∷ t

unfoldable pub friendly_word : List (String × String) → Text → Text
friendly_word [] w = capitalized w
friendly_word ((key, name) ∷ names) w =
    let rest = friendly_word names w in
    if text_eq (codes key) (map to_lower w) then codes name else rest

-- `.join(" ")`
unfoldable pub join_words : List Text → Text
join_words [] = []
join_words (w ∷ []) = w
join_words (w ∷ v ∷ ws) = w ++ 32 ∷ join_words (v ∷ ws)

unfoldable pub friendly_name : Text → Text
friendly_name t = join_words (map (friendly_word preferred) (split_words t))

unfoldable pub inferred_protocol : String → Option String
inferred_protocol kind =
    if kind === "postgres"
    then some "PostgreSQL"
    else if kind === "mysql"
    then some "MySQL"
    else if kind === "mariadb"
    then some "MariaDB"
    else if kind === "redis"
    then some "Redis"
    else if kind === "memcached"
    then some "Memcached"
    else if kind === "mongodb"
    then some "MongoDB"
    else if kind === "rabbitmq"
    then some "AMQP"
    else if kind === "kafka"
    then some "Kafka protocol"
    else if kind === "nginx"
    then some "HTTP/HTTPS"
    else if kind === "mockserver"
    then some "HTTP"
    else none

pub record ArchitectureStatement : Type 0 where
  pub edge_id : String
  pub text : Option Text
  pub protocol : Option String
  pub readiness : Option Text

-- `none` is `undefined`, for a relation that is none of these.
unfoldable pub relationship_sentence : String → Bool → Text → Option Text
relationship_sentence relation is_source other =
    if relation === "calls"
    then some ((if is_source then codes "Calls " else codes "Receives calls from ") ++ other)
    else if relation === "reads"
    then some ((if is_source then codes "Provides data to " else codes "Reads from ") ++ other)
    else if relation === "writes"
    then some
        ((if is_source then codes "Writes data to " else codes "Receives data from ") ++ other)
    else if relation === "publishes"
    then some (
        (if is_source
          then codes "Publishes messages to "
          else codes "Receives published messages from ")
        ++ other)
    else if relation === "consumes"
    then some (
        (if is_source then codes "Delivers messages to " else codes "Consumes messages from ")
        ++ other)
    else none

abbrev pub is_text : String → Option String → Bool
is_text s none = false
is_text s (some t) = t === s

-- Whether the edge says that the selected node starts after the other one.
abbrev pub waits_for_other : FlowEdge → FlowNode → FlowNode → FlowNode → Bool
waits_for_other e selected source target =
    (is_text "source_requires_target" (data_of e).readiness && selected.id === source.id)
    || (is_text "target_requires_source" (data_of e).readiness && selected.id === target.id)

unfoldable pub readiness_sentence : FlowEdge → FlowNode → FlowNode → FlowNode → Option Text
readiness_sentence e selected source target =
    if is_text "none" (data_of e).readiness
    then none
    else if waits_for_other e selected source target
    then some (
        codes "Starts after "
        ++ friendly_name (if selected.id === source.id then target.label else source.label))
    else none

-- `value || other`
abbrev pub or_text : Option String → Option String → Option String
or_text o other = if given o then o else other

abbrev pub relation_of : FlowEdge → String
relation_of e = elim (or_text (data_of e).relation (some "calls")) [ none ↦ "calls" | some r ↦ r ]

abbrev pub shown_name : FlowNode → Text
shown_name n = if is_empty n.label then friendly_name (codes n.id) else friendly_name n.label

abbrev pub statement_between :
    FlowEdge → FlowNode → Option FlowNode → Option FlowNode → List ArchitectureStatement
statement_between e selected (some source) (some target) =
    let is_source = e.source === selected.id in
    let other = (if is_source then target else source) in
    record {
      edge_id = e.id;
      text = relationship_sentence (relation_of e) is_source (shown_name other);
      protocol = or_text (data_of e).protocol (inferred_protocol other.service_type);
      readiness = readiness_sentence e selected source target;
    }
    ∷ []
statement_between e selected (some source) none = []
statement_between e selected none _ = []

abbrev pub touches_node : FlowNode → FlowEdge → Bool
touches_node selected e = e.source === selected.id || e.target === selected.id

unfoldable pub describe_architecture_node :
    FlowNode → List FlowNode → List FlowEdge → List ArchitectureStatement
describe_architecture_node selected nodes [] = []
describe_architecture_node selected nodes (e ∷ es) =
    let rest = describe_architecture_node selected nodes es in
    if touches_node selected e
    then statement_between e selected (get_node e.source nodes) (get_node e.target nodes) ++ rest
    else rest
