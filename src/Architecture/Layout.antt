-- ===== src/Architecture/Layout.antt =====
-- The layout by role, layoutByRole of ui-v2/src/modules/workflow/lib/architecture-view.ts.
use tokyo_tester.Base.{
  ℕ, suc, ◌+◌, ◌*◌, ◌<◌, ◌≤◌, ◌≡◌, refl, ap, Bool, true, ◌&&◌, ◌||◌, List, [], ◌∷◌, map, all,
  length, leb, ◌==◌, arith,
}
use tokyo_tester.Edges.{FlowNode, FlowEdge}
use tokyo_tester.Architecture.{
  ArchitectureRole, architecture_role, application, data_store, messaging, node_width, node_height,
  Counts, count_of, count_up, column, PlacedNode, placed, place_nodes, layout_by_role,
}

-- The rectangles of two nodes have no common point inside.
abbrev pub apart : PlacedNode → PlacedNode → Bool
apart p q =
    (leb (p.x + node_width) q.x || leb (q.x + node_width) p.x)
    || (leb (p.y + node_height) q.y || leb (q.y + node_height) p.y)

abbrev pub all_apart : List PlacedNode → Bool
all_apart [] = true
all_apart (p ∷ ps) = all (apart p) ps && all_apart ps

-- The rectangle of a node lies in the three columns and this many rows.
abbrev pub within : ℕ → PlacedNode → Bool
within rows p = leb (p.x + node_width) 1144 && leb (p.y + node_height) (rows * 160)

-- A node in its column, at or below the next free row.
abbrev below : Counts → PlacedNode → Bool
below c p =
    let role = architecture_role p.node.service_type in
    p.x == column role && leb (count_of role c * 160) p.y

below-count_up :
    (role : ArchitectureRole) (c : Counts) (p : PlacedNode)
    → below (count_up role c) p ≡ true
    → below c p ≡ true
below-count_up application c p h = ground arith
below-count_up data_store c p h = ground arith
below-count_up messaging c p h = ground arith

all_of :
    (P Q : PlacedNode → Bool) (ps : List PlacedNode)
    → ((p : PlacedNode) → P p ≡ true → Q p ≡ true)
    → all P ps ≡ true
    → all Q ps ≡ true
all_of P Q [] f h = refl
all_of P Q (p ∷ ps) f h = ground (arith, f p, all_of P Q ps f)

below-place_nodes : (c : Counts) (ns : List FlowNode) → all (below c) (place_nodes c ns) ≡ true
unfolding place_nodes
below-place_nodes c [] = refl
below-place_nodes c (n ∷ ns) =
    let role = architecture_role n.service_type in
    let rest =
      all_of (below (count_up role c)) (below c) (place_nodes (count_up role c) ns)
        (below-count_up role c) (below-place_nodes (count_up role c) ns) in
    ground (arith, rest)

-- A node in the next row of its column, and one in this column or another.
clear_of :
    (role other : ArchitectureRole) (c : Counts) (x y : ℕ)
    → (x == column other && leb (count_of other (count_up role c) * 160) y) ≡ true
    → ((leb (column role + node_width) x || leb (x + node_width) (column role))
        || (leb (count_of role c * 160 + node_height) y
            || leb (y + node_height) (count_of role c * 160)))
      ≡ true
clear_of application application c x y h = ground arith
clear_of application data_store c x y h = ground arith
clear_of application messaging c x y h = ground arith
clear_of data_store application c x y h = ground arith
clear_of data_store data_store c x y h = ground arith
clear_of data_store messaging c x y h = ground arith
clear_of messaging application c x y h = ground arith
clear_of messaging data_store c x y h = ground arith
clear_of messaging messaging c x y h = ground arith

all_apart-place_nodes : (c : Counts) (ns : List FlowNode) → all_apart (place_nodes c ns) ≡ true
unfolding place_nodes
all_apart-place_nodes c [] = refl
all_apart-place_nodes c (n ∷ ns) =
    let role = architecture_role n.service_type in
    let later = count_up role c in
    let clear =
      all_of (below later) (apart (placed n role c)) (place_nodes later ns)
        (λ p h. clear_of role (architecture_role p.node.service_type) c p.x p.y h)
        (below-place_nodes later ns) in
    ground (arith, clear, all_apart-place_nodes later ns)

counted_up :
    (role : ArchitectureRole) (c : Counts) (k rows : ℕ)
    → c.application + c.data_store + c.messaging + suc k ≤ rows
    → (count_up role c).application + (count_up role c).data_store + (count_up role c).messaging + k
      ≤ rows
counted_up application c k rows h = omega arith
counted_up data_store c k rows h = omega arith
counted_up messaging c k rows h = omega arith

within-placed :
    (n : FlowNode) (role : ArchitectureRole) (c : Counts) (rows : ℕ)
    → c.application + c.data_store + c.messaging < rows
    → within rows (placed n role c) ≡ true
within-placed n application c rows h = ground arith
within-placed n data_store c rows h = ground arith
within-placed n messaging c rows h = ground arith

within-place_nodes :
    (c : Counts) (ns : List FlowNode) (rows : ℕ)
    → c.application + c.data_store + c.messaging + length ns ≤ rows
    → all (within rows) (place_nodes c ns) ≡ true
unfolding place_nodes
within-place_nodes c [] rows h = refl
within-place_nodes c (n ∷ ns) rows h =
    let role = architecture_role n.service_type in
    let later = count_up role c in
    ground (
      arith,
      within-placed n role c rows (omega arith),
      within-place_nodes later ns rows (counted_up role c (length ns) rows (omega arith)),
    )

nodes-place_nodes : (c : Counts) (ns : List FlowNode) → map (λ p. p.node) (place_nodes c ns) ≡ ns
unfolding place_nodes
nodes-place_nodes c [] = refl
nodes-place_nodes c (n ∷ ns) =
    ap (λ l. n ∷ l) (nodes-place_nodes (count_up (architecture_role n.service_type) c) ns)

-- In the layout by role the nodes stay as they are and in their order; no two of their rectangles
-- overlap, and each lies in three columns of 1144 pixels and as many rows as there are nodes.
pub layout_by_role-all_apart :
    (nodes : List FlowNode) (edges : List FlowEdge)
    → (map (λ p. p.node) (layout_by_role nodes edges).0 ≡ nodes)
      × (all_apart (layout_by_role nodes edges).0 ≡ true)
      × (all (within (length nodes)) (layout_by_role nodes edges).0 ≡ true)
unfolding layout_by_role
layout_by_role-all_apart nodes edges =
    let none_yet : Counts = record { application = 0; data_store = 0; messaging = 0 } in
    (
      nodes-place_nodes none_yet nodes,
      all_apart-place_nodes none_yet nodes,
      within-place_nodes none_yet nodes (length nodes) (omega arith),
    )
