-- ===== src/Graph/Walks.antt =====
-- Walks along the dependencies of a graph of scenario-translator.ts, and numberings that they descend.
use mathlib.Core.Path.{subst}
use tokyo_tester.Base.{
  ℕ, suc, ◌≤◌, ◌<◌, ◌≡◌, sym, ap, inl, inr, true, List, [], ◌∷◌, ◌++◌, arith, length, All,
  Bool-cases, if◌then◌else◌,
}
use tokyo_tester.Names.{Text}
use tokyo_tester.Graph.{DependencyGraph, deps, slice_from}
use tokyo_tester.Graph.Texts.{text_eq, text_eq_iff, has, has-cons, has-nil, has-later, head_of}

module _ (g : DependencyGraph) where
  abbrev pub Needs : Text → Text → Type 0
  Needs a b = has b (deps g a) ≡ true

  abbrev pub NeedsFirst : Text → List Text → Type 0
  NeedsFirst a [] = Unit
  NeedsFirst a (b ∷ _) = Needs a b

  -- Each text needs the next.
  abbrev pub IsWalk : List Text → Type 0
  IsWalk [] = Unit
  IsWalk (a ∷ w) = NeedsFirst a w × IsWalk w

  -- A walk of at least one step that ends where it starts.
  pub record IsCycle (c : List Text) : Type 0 where
    pub start : Text
    pub middle : List Text
    pub shape : c ≡ start ∷ (middle ++ start ∷ [])
    pub walk : IsWalk c

  -- There is a numbering that every dependency descends.
  abbrev pub IsAcyclic : Type 0
  IsAcyclic = (r : Text → ℕ) × ((a b : Text) → Needs a b → r b < r a)

  pub IsWalk-append :
      (path : List Text) (node m : Text)
      → IsWalk (path ++ node ∷ [])
      → Needs node m
      → IsWalk ((path ++ node ∷ []) ++ m ∷ [])
  IsWalk-append [] node m w e = (e, (tt, tt))
  IsWalk-append (x ∷ []) node m (n, w) e = (n, IsWalk-append [] node m w e)
  IsWalk-append (x ∷ y ∷ path) node m (n, w) e = (n, IsWalk-append (y ∷ path) node m w e)

  -- Where a node stands on the path, the path from there on and the node again make a cycle.
  pub slice_from-IsCycle :
      (node : Text) (path : List Text)
      → has node path ≡ true
      → IsWalk (path ++ node ∷ [])
      → IsCycle (slice_from node path ++ node ∷ [])
  unfolding has slice_from
  slice_from-IsCycle node [] h w = cc
  slice_from-IsCycle node (x ∷ path) h w = elim (Bool-cases (text_eq x node)) [
    | inl e ↦
        let same : x ≡ node = (text_eq_iff x node).0 e in
        rw e (record {
          start = node;
          middle = path;
          shape = ap (λ t. t ∷ (path ++ node ∷ [])) same;
          walk = w;
        })
    | inr e ↦ rw e (slice_from-IsCycle node path (ground arith) w.1)
  ]

  -- A walk descends a numbering.
  pub walk-descends :
      (r : Text → ℕ)
      → ((a b : Text) → Needs a b → r b < r a)
      → (x : Text) (middle : List Text) (y : Text) → IsWalk (x ∷ (middle ++ y ∷ []))
      → r y < r x
  walk-descends r d x [] y (n, _) = d x y n
  walk-descends r d x (m ∷ middle) y (n, w) = omega (arith, d x m n, walk-descends r d m middle y w)

  pub not-IsCycle : IsAcyclic → (c : List Text) → ¬ (IsCycle c)
  not-IsCycle (r, d) c k =
      let descent = walk-descends r d k.start k.middle k.start (subst IsWalk k.shape k.walk) in
      absurd (omega arith)

  -- Every text of the list needs only texts that stand later.
  abbrev pub Topo : List Text → Type 0
  Topo [] = Unit
  Topo (v ∷ l) = All (λ m. has m l ≡ true) (deps g v) × Topo l

  -- The position from the end of the last place at which a text stands.
  pub rank : Text → List Text → ℕ
  rank n [] = 0
  rank n (v ∷ l) = if has n l then rank n l else if text_eq v n then suc (length l) else 0

  rank-le : (n : Text) (l : List Text) → rank n l ≤ length l
  unfolding rank
  rank-le n [] = omega arith
  rank-le n (v ∷ l) = ground (arith, rank-le n l)

  pub All-has : (P : Text → Type 0) (b : Text) (ms : List Text) → All P ms → has b ms ≡ true → P b
  unfolding has
  All-has P b [] f h = cc
  All-has P b (m ∷ ms) (p, f) h = elim (Bool-cases (text_eq m b)) [
    | inl e ↦ subst P ((text_eq_iff m b).0 e) p
    | inr e ↦ All-has P b ms f (ground arith)
  ]

  head-has :
      (v a b : Text) (l : List Text)
      → All (λ m. has m l ≡ true) (deps g v)
      → text_eq v a ≡ true
      → Needs a b
      → has b l ≡ true
  head-has v a b l ms same e =
      let e' : Needs v b = subst (λ t. Needs t b) (sym ((text_eq_iff v a).0 same)) e in
      All-has (λ m. has m l ≡ true) b (deps g v) ms e'

  Topo-has : (a b : Text) (l : List Text) → Topo l → has a l ≡ true → Needs a b → has b l ≡ true
  Topo-has a b [] t h e = absurd (has-nil a h)
  Topo-has a b (v ∷ l) (ms, t) h e = elim (Bool-cases (text_eq v a)) [
    | inl same ↦ has-cons b v l (head-has v a b l ms same e)
    | inr other ↦ has-cons b v l (Topo-has a b l t (has-later a v l h other) e)
  ]

  pub rank-lt :
      (a b : Text) (l : List Text) → Topo l → has a l ≡ true → Needs a b → rank b l < rank a l
  unfolding rank
  rank-lt a b [] t h e = absurd (has-nil a h)
  rank-lt a b (v ∷ l) (ms, t) h e = elim (Bool-cases (has a l)) [
    | inl later ↦ rw (later, Topo-has a b l t later e) (rank-lt a b l t later e)
    | inr gone ↦
        let same : text_eq v a ≡ true = head_of a v l h gone in
        rw (gone, same, head-has v a b l ms same e) (omega (arith, rank-le b l))
  ]
