-- ===== src/Edges/Dependencies.antt =====
-- `buildServiceDependencies` of scenario-translator.ts against what the edges say.
use tokyo_tester.Base.{
  ◌≡◌, refl, sym, ◌∙◌, ◌↔◌, String, Bool, true, false, ◌&&◌, ◌||◌, Option, none, some, List, [],
  ◌∷◌, ◌++◌, any, arith, ℕ, ◌<◌, ◌===◌, if◌then◌else◌,
}
use tokyo_tester.Names.{Text, sanitize_name}
use tokyo_tester.Graph.{DependencyGraph, deps, detect_cycles}
use tokyo_tester.Graph.Cycles.{detect_cycles-nil_iff}
use tokyo_tester.Graph.Texts.{text_eq, text_eq_iff, has}
use tokyo_tester.Edges.{
  FlowEdge, FlowNode, data_of, normalize_edge, get_node, put_deps, unique_append, add_dependency,
  name_nodes, add_edge, step_between, step_edge, add_edges, build_service_dependencies,
}

-- Does this edge make the service `a` depend on the service `b`?
abbrev pub is_named : FlowNode → Text → Bool
is_named n a = text_eq (sanitize_name n.label) a

abbrev pub requires_by : Option String → FlowNode → FlowNode → Text → Text → Bool
requires_by none s t a b = false
requires_by (some readiness) s t a b =
    if readiness === "source_requires_target"
    then is_named s a && is_named t b
    else if readiness === "target_requires_source"
    then is_named t a && is_named s b
    else false

abbrev pub requires_between : Option String → Option FlowNode → Option FlowNode → Text → Text → Bool
requires_between r (some s) (some t) a b = requires_by r s t a b
requires_between r (some s) none a b = false
requires_between r none _ a b = false

abbrev pub requires : List FlowNode → Text → Text → FlowEdge → Bool
requires nodes a b e =
    requires_between (data_of (normalize_edge false e)).readiness (get_node e.source nodes)
      (get_node e.target nodes) a b

deps-put_deps :
    (n : Text) (ds : List Text) (g : DependencyGraph) (a : Text)
    → deps (put_deps n ds g) a ≡ (if text_eq n a then ds else deps g a)
unfolding deps put_deps
deps-put_deps n ds [] a = refl
deps-put_deps n ds ((k, old) ∷ g) a =
    ground (arith, text_eq_iff k n, text_eq_iff n a, text_eq_iff k a, deps-put_deps n ds g a)

has-append : (b : Text) (us vs : List Text) → has b (us ++ vs) ≡ (has b us || has b vs)
unfolding has
has-append b [] vs = refl
has-append b (u ∷ us) vs = ground (arith, has-append b us vs)

has-none : (b : Text) → has b [] ≡ false
unfolding has
has-none b = refl

has-unique_append :
    (b v : Text) (vs : List Text) → has b (unique_append vs v) ≡ (text_eq v b || has b vs)
unfolding unique_append has
has-unique_append b v vs = ground (arith, has-append b vs (v ∷ []), text_eq_iff v b)

has-deps-add_dependency :
    (x y : Text) (g : DependencyGraph) (a b : Text)
    → has b (deps (add_dependency x y g) a) ≡ ((text_eq x a && text_eq y b) || has b (deps g a))
unfolding add_dependency
has-deps-add_dependency x y g a b =
    let set = deps-put_deps x (unique_append (deps g x) y) g a in
    let member = has-unique_append b y (deps g x) in ground (arith, set, member, text_eq_iff x a)

has-deps-add_edge :
    (r : Option String) (s t : FlowNode) (g : DependencyGraph) (a b : Text)
    → has b (deps (add_edge r s t g) a) ≡ (requires_by r s t a b || has b (deps g a))
unfolding add_edge
has-deps-add_edge none s t g a b = refl
has-deps-add_edge (some r) s t g a b =
    let forth = has-deps-add_dependency (sanitize_name s.label) (sanitize_name t.label) g a b in
    let back = has-deps-add_dependency (sanitize_name t.label) (sanitize_name s.label) g a b in
    ground (arith, forth, back)

has-deps-step_between :
    (r : Option String) (o p : Option FlowNode) (g : DependencyGraph) (a b : Text)
    → has b (deps (step_between r o p g) a) ≡ (requires_between r o p a b || has b (deps g a))
has-deps-step_between r none p g a b = refl
has-deps-step_between r (some s) none g a b = refl
has-deps-step_between r (some s) (some t) g a b = has-deps-add_edge r s t g a b

has-deps-step_edge :
    (nodes : List FlowNode) (e : FlowEdge) (g : DependencyGraph) (a b : Text)
    → has b (deps (step_edge nodes e g) a) ≡ (requires nodes a b e || has b (deps g a))
unfolding step_edge
has-deps-step_edge nodes e g a b =
    has-deps-step_between (data_of (normalize_edge false e)).readiness (get_node e.source nodes)
      (get_node e.target nodes) g a b

has-deps-add_edges :
    (nodes : List FlowNode) (es : List FlowEdge) (g : DependencyGraph) (a b : Text)
    → has b (deps (add_edges nodes es g) a) ≡ (any (requires nodes a b) es || has b (deps g a))
unfolding add_edges
has-deps-add_edges nodes [] g a b = refl
has-deps-add_edges nodes (e ∷ es) g a b =
    let later = has-deps-add_edges nodes es (step_edge nodes e g) a b in
    let here = has-deps-step_edge nodes e g a b in ground (arith, later, here)

-- The names alone have no dependencies.
deps-name_nodes :
    (ns : List FlowNode) (g : DependencyGraph)
    → ((a : Text) → deps g a ≡ [])
    → (a : Text) → deps (name_nodes ns g) a ≡ []
unfolding name_nodes
deps-name_nodes [] g h a = h a
deps-name_nodes (n ∷ ns) g h a =
    deps-name_nodes ns (put_deps (sanitize_name n.label) [] g)
      (λ c. ground (arith, deps-put_deps (sanitize_name n.label) [] g c, h c)) a

deps-nil : (a : Text) → deps [] a ≡ []
unfolding deps
deps-nil a = refl

-- In the graph that is built, a service depends on another exactly where an edge between two nodes
-- of these names says so, by its readiness after it is normalised. All other edges add nothing.
pub build_service_dependencies-requires :
    (nodes : List FlowNode) (edges : List FlowEdge) (a b : Text)
    → has b (deps (build_service_dependencies nodes edges) a) ≡ any (requires nodes a b) edges
unfolding build_service_dependencies
build_service_dependencies-requires nodes edges a b =
    let all = has-deps-add_edges nodes edges (name_nodes nodes []) a b in
    let first : has b (deps (name_nodes nodes []) a) ≡ false =
      rw (deps-name_nodes nodes [] (λ c. deps-nil c) a) (has-none b) in
    ground (arith, all, first)

-- The services have a numbering that every edge which says that one depends on another descends.
abbrev pub IsOrderable : List FlowNode → List FlowEdge → Type 0
IsOrderable nodes edges =
    (r : Text → ℕ) × ((a b : Text) → any (requires nodes a b) edges ≡ true → r b < r a)

-- For every list of nodes and edges, no cycle is reported for the graph that is built of them exactly
-- where the services can be numbered such that each depends only, by the edges, on lower ones.
pub detect_cycles-build_service_dependencies :
    (nodes : List FlowNode) (edges : List FlowEdge)
    → (detect_cycles (build_service_dependencies nodes edges) ≡ []) ↔ IsOrderable nodes edges
detect_cycles-build_service_dependencies nodes edges =
    let g = build_service_dependencies nodes edges in
    let found = detect_cycles-nil_iff g in
    let says = build_service_dependencies-requires nodes edges in
    (
      λ q. let (r, d) = found.0 q in (r, λ a b e. d a b (says a b ∙ e)),
      λ o. let (r, d) = o in found.1 (r, λ a b e. d a b (sym (says a b) ∙ e)),
    )
