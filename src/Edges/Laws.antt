-- ===== src/Edges/Laws.antt =====
-- The edges of edge-model.ts: normalising is done once, and routes are dropped where a node has moved.
use mathlib.Core.Path.{subst}
use tokyo_tester.Base.{
  ◌≡◌, refl, inl, inr, String, Bool, true, false, ◌||◌, Option, none, some, List, [], ◌∷◌, map,
  arith, Bool-cases, eq_iff, ◌===◌, if◌then◌else◌,
}
use tokyo_tester.Edges.{
  EdgeData, FlowEdge, FlowNode, includes, edge_relations, edge_readiness_options, infer_relation,
  default_readiness, infer_edge_data, no_data, data_of, one_of, review, is_migrated, normalize_edge,
  touches, clear_route, invalidate_routes_for_moved_nodes,
}

given-includes :
    (xs : List String) (x : String)
    → includes xs "" ≡ false
    → includes xs x ≡ true
    → (x === "") ≡ false
given-includes xs x empty h = elim (Bool-cases (x === "")) [
  | inl e ↦
      let same : x ≡ "" = (eq_iff x "").0 e in
      let h' : includes xs "" ≡ true = subst (λ t. includes xs t ≡ true) same h in cc
  | inr e ↦ e
]

-- An option of the list stays as it is.
one_of-one_of :
    (xs : List String) (other : String) (x : Option String)
    → includes xs other ≡ true
    → one_of xs other (some (one_of xs other x)) ≡ one_of xs other x
unfolding one_of
one_of-one_of xs other none h = rw h refl
one_of-one_of xs other (some x) h = ground arith

includes-one_of :
    (xs : List String) (other : String) (x : Option String)
    → includes xs other ≡ true
    → includes xs (one_of xs other x) ≡ true
unfolding one_of
includes-one_of xs other none h = h
includes-one_of xs other (some x) h = ground arith

calls-includes : includes edge_relations "calls" ≡ true
unfolding includes
calls-includes = refl

no_empty_relation : includes edge_relations "" ≡ false
unfolding includes
no_empty_relation = refl

source-includes : includes edge_readiness_options "source_requires_target" ≡ true
unfolding includes
source-includes = refl

no_empty_readiness : includes edge_readiness_options "" ≡ false
unfolding includes
no_empty_readiness = refl

review-review : (m : Bool) (v : Option Bool) → review false (review m v) ≡ review m v
review-review m v = ground arith

-- Normalising an edge again changes nothing, whatever the edge was and however it came.
pub normalize_edge_idem :
    (legacy : Bool) (e : FlowEdge)
    → normalize_edge false (normalize_edge legacy e) ≡ normalize_edge legacy e
unfolding normalize_edge
normalize_edge_idem legacy e =
    let d = data_of e in
    let r = one_of edge_relations "calls" d.relation in
    let k = one_of edge_readiness_options "source_requires_target" d.readiness in
    let r_given : (r === "") ≡ false =
      given-includes edge_relations r no_empty_relation
        (includes-one_of edge_relations "calls" d.relation calls-includes) in
    let k_given : (k === "") ≡ false = given-includes edge_readiness_options k no_empty_readiness (
      includes-one_of edge_readiness_options "source_requires_target" d.readiness
        source-includes) in
    rw
      (
        one_of-one_of edge_relations "calls" d.relation calls-includes,
        one_of-one_of edge_readiness_options "source_requires_target" d.readiness source-includes,
        r_given,
        k_given,
        review-review (legacy || is_migrated d) d.needs_review,
      )
      refl

-- The data of an inferred edge with this relation.
abbrev inferred : String → EdgeData
inferred relation = record no_data {
  relation = some relation;
  readiness = some (default_readiness relation);
}

if_elim : (P : String → Type 0) (b : Bool) (x y : String) → P x → P y → P (if b then x else y)
if_elim P true x y p q = p
if_elim P false x y p q = q

-- The inferred relation is one of the five.
infer_relation-cases :
    (P : String → Type 0) (a b : String)
    → P "calls"
    → P "reads"
    → P "writes"
    → P "publishes"
    → P "consumes"
    → P (infer_relation a b)
unfolding infer_relation
infer_relation-cases P a b calls reads writes publishes consumes =
    if_elim P _ _ _ consumes
      (if_elim P _ _ _ publishes (if_elim P _ _ _ reads (if_elim P _ _ _ writes calls)))

-- An edge with the data that is inferred for its two nodes is a normal one: normalising it changes
-- its kind only, and asks for no review.
pub normalize_edge-infer_edge_data :
    (e : FlowEdge) (s t : FlowNode)
    → normalize_edge false (record e { content = some (infer_edge_data s t) })
      ≡ record e { kind = some "dataFlow"; content = some (infer_edge_data s t) }
unfolding normalize_edge infer_edge_data one_of
normalize_edge-infer_edge_data e s t =
    infer_relation-cases
      (λ r.
        normalize_edge false (record e { content = some (inferred r) })
        ≡ record e { kind = some "dataFlow"; content = some (inferred r) })
      s.service_type t.service_type refl refl refl refl refl

abbrev pub IsRerouted : List String → FlowEdge → FlowEdge → Type 0
IsRerouted moved e f =
    (touches moved e ≡ true → (data_of f).layout_points ≡ none) × (touches moved e ≡ false → f ≡ e)

abbrev pub AreRerouted : List String → List FlowEdge → List FlowEdge → Type 0
AreRerouted moved [] [] = Unit
AreRerouted moved [] (f ∷ fs) = ⊥
AreRerouted moved (e ∷ es) [] = ⊥
AreRerouted moved (e ∷ es) (f ∷ fs) = IsRerouted moved e f × AreRerouted moved es fs

clear_route-points : (e : FlowEdge) → (data_of (clear_route e)).layout_points ≡ none
clear_route-points e = ground arith

AreRerouted-map :
    (moved : List String) (es : List FlowEdge)
    → AreRerouted moved es (map (λ e. if touches moved e then clear_route e else e) es)
AreRerouted-map moved [] = tt
AreRerouted-map moved (e ∷ es) = elim (Bool-cases (touches moved e)) [
  | inl h ↦ (rw h (λ k. clear_route-points e, λ k. cc), AreRerouted-map moved es)
  | inr h ↦ (rw h (λ k. cc, λ k. refl), AreRerouted-map moved es)
]

AreRerouted-refl : (es : List FlowEdge) → AreRerouted [] es es
AreRerouted-refl [] = tt
AreRerouted-refl (e ∷ es) = ((λ k. cc, λ k. refl), AreRerouted-refl es)

-- For every list of moved nodes, each edge that touches one of them loses the points of its route,
-- and each other edge stays as it was, all in their places.
pub invalidate_routes_for_moved_nodes-AreRerouted :
    (es : List FlowEdge) (moved : List String)
    → AreRerouted moved es (invalidate_routes_for_moved_nodes es moved)
unfolding invalidate_routes_for_moved_nodes
invalidate_routes_for_moved_nodes-AreRerouted es [] = AreRerouted-refl es
invalidate_routes_for_moved_nodes-AreRerouted es (m ∷ ms) = AreRerouted-map (m ∷ ms) es
