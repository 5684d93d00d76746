-- ===== src/Architecture/Statements.antt =====
-- What the architecture view says of the start of a service, describeArchitectureNode of
-- ui-v2/src/modules/workflow/lib/architecture-view.ts, against the dependency graph of
-- ui-v2/src/modules/utils/scenario-translator.ts.
use mathlib.Core.Path.{subst}
use mathlib.Core.Option.{some-injective}
use tokyo_tester.Base.{
  ◌≡◌, ◌≢◌, refl, sym, ap, ◌∙◌, String, Bool, Bool-cases, inl, inr, true, false, ◌&&◌, ◌||◌, Option,
  none, some, List, [], ◌∷◌, ◌++◌, any, All, All-append, OnSome, ◌===◌, eq_iff, arith,
  if◌then◌else◌,
}
use tokyo_tester.Names.{Text, sanitize_name}
use tokyo_tester.Bundle.{codes}
use tokyo_tester.Graph.{deps}
use tokyo_tester.Graph.Texts.{has, text_eq_refl}
use tokyo_tester.Edges.{
  FlowNode, FlowEdge, data_of, get_node, normalize_edge, one_of, includes, edge_readiness_options,
  build_service_dependencies,
}
use tokyo_tester.Edges.Dependencies.{requires, requires_by, build_service_dependencies-requires}
use tokyo_tester.Architecture.{
  ArchitectureStatement, friendly_name, readiness_sentence, waits_for_other, is_text,
  statement_between, touches_node, describe_architecture_node,
}

none_ne : (n : FlowNode) → none ≢ some n
none_ne n h = cc

get_node-id : (i : String) (ns : List FlowNode) (n : FlowNode) → get_node i ns ≡ some n → n.id ≡ i
unfolding get_node
get_node-id i [] n e = cc
get_node-id i (m ∷ ns) n e = here (get_node i ns) (get_node-id i ns n) refl e
  where
    here :
        (o : Option FlowNode)
        → (get_node i ns ≡ some n → n.id ≡ i)
        → get_node i ns ≡ o
        → elim o [ some k ↦ some k | none ↦ if m.id === i then some m else none ] ≡ some n
        → n.id ≡ i
    here (some k) later f g = later (f ∙ g)
    here none later f g = elim (Bool-cases (m.id === i)) [
      | inl same ↦
          ap (λ k. k.id)
            (sym (some-injective m n (subst (λ b. (if b then some m else none) ≡ some n) same g)))
          ∙ (eq_iff m.id i).0 same
      | inr other ↦ absurd (none_ne n (subst (λ b. (if b then some m else none) ≡ some n) other g))
    ]

-- The node that an id names, by two ids that are the same.
same_node :
    (ns : List FlowNode) (i : String) (m n : FlowNode)
    → get_node m.id ns ≡ some m
    → get_node i ns ≡ some n
    → m.id ≡ n.id
    → m ≡ n
same_node ns i m n e f same =
    some-injective m n (sym e ∙ ap (λ k. get_node k ns) (same ∙ get_node-id i ns n f) ∙ f)

-- The sentence names a service that the selected one depends on.
abbrev pub IsRequired : List FlowNode → List FlowEdge → FlowNode → Text → Type 0
IsRequired nodes edges selected sentence =
    (other : FlowNode) × ((sentence ≡ codes "Starts after " ++ friendly_name other.label)
      × (has (sanitize_name other.label)
            (deps (build_service_dependencies nodes edges) (sanitize_name selected.label))
          ≡ true))

abbrev RequiredBy : List FlowNode → FlowEdge → FlowNode → Text → Type 0
RequiredBy nodes e selected sentence =
    (other : FlowNode) × ((sentence ≡ codes "Starts after " ++ friendly_name other.label)
      × (requires nodes (sanitize_name selected.label) (sanitize_name other.label) e ≡ true))

requires_of :
    (nodes : List FlowNode) (e : FlowEdge) (s t : FlowNode) (a b : Text)
    → get_node e.source nodes ≡ some s
    → get_node e.target nodes ≡ some t
    → requires_by (data_of (normalize_edge false e)).readiness s t a b ≡ true
    → requires nodes a b e ≡ true
requires_of nodes e s t a b f g h = rw (requires, f, g) h

normalized_readiness :
    (e : FlowEdge) (r : String)
    → (data_of e).readiness ≡ some r
    → includes edge_readiness_options r ≡ true
    → (data_of (normalize_edge false e)).readiness ≡ some r
unfolding normalize_edge one_of
normalized_readiness e r h i =
    ap (λ o. some (one_of edge_readiness_options "source_requires_target" o)) h
    ∙ ap some (rw i refl)

is_text_iff : (s : String) (o : Option String) → is_text s o ≡ true → o ≡ some s
is_text_iff s none h = cc
is_text_iff s (some t) h = ap some ((eq_iff t s).0 h)

or_first : {a : Bool} (b : Bool) → a ≡ true → (a || b) ≡ true
or_first b h = ground arith

or_second : (a : Bool) {b : Bool} → b ≡ true → (a || b) ≡ true
or_second a h = ground arith

module _ (nodes : List FlowNode) (e : FlowEdge) (selected s t : FlowNode) where
  required_source :
      get_node selected.id nodes ≡ some selected
      → get_node e.source nodes ≡ some s
      → get_node e.target nodes ≡ some t
      → (is_text "source_requires_target" (data_of e).readiness && selected.id === s.id) ≡ true
      → requires nodes (sanitize_name selected.label) (sanitize_name t.label) e ≡ true
  unfolding includes
  required_source m f g h =
      let same : selected ≡ s =
        same_node nodes e.source selected s m f ((eq_iff selected.id s.id).0 (ground arith)) in
      let says = is_text_iff "source_requires_target" (data_of e).readiness (ground arith) in
      let names : sanitize_name s.label ≡ sanitize_name selected.label =
        ap (λ n. sanitize_name n.label) (sym same) in
      requires_of nodes e s t (sanitize_name selected.label) (sanitize_name t.label) f g (
        rw (normalized_readiness e "source_requires_target" says refl) (
          rw names ground (
            arith,
            text_eq_refl (sanitize_name selected.label),
            text_eq_refl (sanitize_name t.label),
          )))

  required_target :
      get_node selected.id nodes ≡ some selected
      → get_node e.source nodes ≡ some s
      → get_node e.target nodes ≡ some t
      → (is_text "target_requires_source" (data_of e).readiness && selected.id === t.id) ≡ true
      → requires nodes (sanitize_name selected.label) (sanitize_name s.label) e ≡ true
  unfolding includes
  required_target m f g h =
      let same : selected ≡ t =
        same_node nodes e.target selected t m g ((eq_iff selected.id t.id).0 (ground arith)) in
      let says = is_text_iff "target_requires_source" (data_of e).readiness (ground arith) in
      let names : sanitize_name t.label ≡ sanitize_name selected.label =
        ap (λ n. sanitize_name n.label) (sym same) in
      requires_of nodes e s t (sanitize_name selected.label) (sanitize_name s.label) f g (
        rw (normalized_readiness e "target_requires_source" says refl) (
          rw names ground (
            arith,
            text_eq_refl (sanitize_name selected.label),
            text_eq_refl (sanitize_name s.label),
          )))

  -- Where the selected node is the source, the other one is the target, even of an edge to itself.
  required_from_source :
      get_node selected.id nodes ≡ some selected
      → get_node e.source nodes ≡ some s
      → get_node e.target nodes ≡ some t
      → selected.id === s.id ≡ true
      → waits_for_other e selected s t ≡ true
      → requires nodes (sanitize_name selected.label) (sanitize_name t.label) e ≡ true
  required_from_source m f g same bound =
      elim (Bool-cases (is_text "source_requires_target" (data_of e).readiness)) [
        | inl says ↦ required_source m f g (ground arith)
        | inr not_so ↦
            let here : selected ≡ s =
              same_node nodes e.source selected s m f ((eq_iff selected.id s.id).0 same) in
            let there : selected ≡ t =
              same_node nodes e.target selected t m g
                ((eq_iff selected.id t.id).0 (ground arith)) in
            subst
              (λ n. requires nodes (sanitize_name selected.label) (sanitize_name n.label) e ≡ true)
              (sym here ∙ there) (required_target m f g (ground arith))
      ]

  sentence-RequiredBy :
      get_node selected.id nodes ≡ some selected
      → get_node e.source nodes ≡ some s
      → get_node e.target nodes ≡ some t
      → OnSome (RequiredBy nodes e selected) (readiness_sentence e selected s t)
  unfolding readiness_sentence
  sentence-RequiredBy m f g = elim (Bool-cases (is_text "none" (data_of e).readiness)) [
    | inl silent ↦ rw silent tt
    | inr spoken ↦ elim (Bool-cases (waits_for_other e selected s t)) [
      | inr free ↦ rw (spoken, free) tt
      | inl bound ↦ elim (Bool-cases (selected.id === s.id)) [
        | inl same ↦ rw (spoken, bound, same) (t, (refl, required_from_source m f g same bound))
        | inr other ↦ rw (spoken, bound, other) (s, (refl, required_target m f g (ground arith)))
      ]
    ]
  ]

module _ (nodes : List FlowNode) (selected : FlowNode)
    (known : get_node selected.id nodes ≡ some selected) where
  abbrev Starts : FlowEdge → ArchitectureStatement → Type 0
  Starts e statement = OnSome (RequiredBy nodes e selected) statement.readiness

  statement_between-Starts :
      (e : FlowEdge) (o p : Option FlowNode)
      → get_node e.source nodes ≡ o
      → get_node e.target nodes ≡ p
      → All (Starts e) (statement_between e selected o p)
  statement_between-Starts e none p f g = tt
  statement_between-Starts e (some s) none f g = tt
  statement_between-Starts e (some s) (some t) f g =
      (sentence-RequiredBy nodes e selected s t known f g, tt)

  module _ (edges : List FlowEdge) where
    lifted :
        (e : FlowEdge) (o : Option Text)
        → ((a b : Text) → requires nodes a b e ≡ true → any (requires nodes a b) edges ≡ true)
        → OnSome (RequiredBy nodes e selected) o
        → OnSome (IsRequired nodes edges selected) o
    lifted e none f h = tt
    lifted e (some r) f (other, (says, h)) = (
      other,
      (
        says,
        build_service_dependencies-requires nodes edges (sanitize_name selected.label)
              (sanitize_name other.label)
            ∙ f (sanitize_name selected.label) (sanitize_name other.label) h,
      ),
    )

    lifted_each :
        (e : FlowEdge) (statements : List ArchitectureStatement)
        → ((a b : Text) → requires nodes a b e ≡ true → any (requires nodes a b) edges ≡ true)
        → All (Starts e) statements
        → All (λ statement. OnSome (IsRequired nodes edges selected) statement.readiness) statements
    lifted_each e [] f h = tt
    lifted_each e (statement ∷ statements) f (h, k) =
        (lifted e statement.readiness f h, lifted_each e statements f k)

    statements_lifted :
        (es : List FlowEdge)
        → ((a b : Text)
            → any (requires nodes a b) es ≡ true
            → any (requires nodes a b) edges ≡ true)
        → All
            (λ statement. OnSome (IsRequired nodes edges selected) statement.readiness)
            (describe_architecture_node selected nodes es)
    unfolding describe_architecture_node
    statements_lifted [] f = tt
    statements_lifted (e ∷ es) f =
        let P : ArchitectureStatement → Type 0 =
          λ statement. OnSome (IsRequired nodes edges selected) statement.readiness in
        let here =
          lifted_each e
            (statement_between e selected (get_node e.source nodes) (get_node e.target nodes))
            (λ a b h. f a b (or_first _ h))
            (statement_between-Starts e (get_node e.source nodes) (get_node e.target nodes) refl
              refl) in
        let rest = statements_lifted es (λ a b h. f a b (or_second _ h)) in
        elim (Bool-cases (touches_node selected e)) [
          | inl touched ↦ rw touched (
              All-append P
                (statement_between e selected (get_node e.source nodes) (get_node e.target nodes))
                (describe_architecture_node selected nodes es) here rest)
          | inr apart ↦ rw apart rest
        ]

  -- For a node of the workflow, every sentence "Starts after …" that the architecture view shows names a
  -- node on whose service the service of the node depends, in the graph of dependencies that is built of
  -- the same nodes and edges.
  pub describe_architecture_node-IsRequired :
      (edges : List FlowEdge)
      → All
          (λ statement. OnSome (IsRequired nodes edges selected) statement.readiness)
          (describe_architecture_node selected nodes edges)
  describe_architecture_node-IsRequired edges = statements_lifted edges edges (λ a b h. h)
