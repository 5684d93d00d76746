-- ===== src/Graph/Cycles.antt =====
-- `detectCycles` of scenario-translator.ts: it reports cycles only, and reports nothing exactly where
-- there is none.
use mathlib.Core.Path.{subst}
use tokyo_tester.Base.{
  suc, ◌≤◌, ◌≡◌, refl, ◌↔◌, inl, inr, true, false, List, [], ◌∷◌, arith, length, All, Bool-cases,
  List-cases,
}
use tokyo_tester.Names.{Text}
use tokyo_tester.Graph.{DependencyGraph, keys, nothing_seen, search_all, detect_cycles}
use tokyo_tester.Graph.Texts.{has, has-nil, unmarked}
use tokyo_tester.Graph.Walks.{Needs, IsCycle, IsAcyclic, not-IsCycle, rank, rank-lt, All-has}
use tokyo_tester.Graph.Dfs.{deps_free, IsFed, fed-each, starved-dfs}
use tokyo_tester.Graph.Sound.{sound-search_all}
use tokyo_tester.Graph.Complete.{Ordered-each, Ordered-dfs, Ordered}

pub unmarked_le : (marks names : List Text) → unmarked marks names ≤ length names
unmarked_le marks [] = omega arith
unmarked_le marks (k ∷ names) = ground (arith, unmarked_le marks names)

module _ (g : DependencyGraph) where
  start-IsFed : IsFed g (suc (length (keys g))) nothing_seen
  start-IsFed = (omega (arith, unmarked_le [] (keys g)), refl)

  pub Needs-key : (a b : Text) → Needs g a b → has a (keys g) ≡ true
  Needs-key a b e = elim (Bool-cases (has a (keys g))) [
    | inl h ↦ h
    | inr h ↦ absurd (has-nil b (subst (λ ds. has b ds ≡ true) (deps_free g a g h) e))
  ]

  -- The fuel of `detect_cycles` is enough for every graph.
  pub search_all-not_starved : (search_all g (keys g) nothing_seen).starved ≡ false
  unfolding search_all
  search_all-not_starved =
      let fuel = suc (length (keys g)) in
      fed-each g fuel [] (λ m t h. starved-dfs g fuel [] m t h) (keys g) nothing_seen start-IsFed

  quiet-search :
      (search_all g (keys g) nothing_seen).cycles ≡ []
      → Ordered g nothing_seen (search_all g (keys g) nothing_seen)
        × All (λ m. has m (search_all g (keys g) nothing_seen).visited ≡ true) (keys g)
  unfolding search_all
  quiet-search q =
      let fuel = suc (length (keys g)) in
      Ordered-each g fuel [] (λ m t f u v. Ordered-dfs g fuel [] m t f u v) (keys g) nothing_seen
        start-IsFed tt q

  -- Each list that `detect_cycles` reports is a walk along dependencies that ends where it starts.
  pub detect_cycles-IsCycle : All (IsCycle g) (detect_cycles g)
  unfolding detect_cycles
  detect_cycles-IsCycle = sound-search_all g (keys g) nothing_seen (λ n h. absurd (has-nil n h)) tt

  acyclic_of_nil : detect_cycles g ≡ [] → IsAcyclic g
  unfolding detect_cycles
  acyclic_of_nil q =
      let (o, all) = quiet-search q in
      let left = (search_all g (keys g) nothing_seen).visited in
      (
        λ n. rank g n left,
        λ a b e.
            rank-lt g a b left o.topo
              (All-has g (λ m. has m left ≡ true) a (keys g) all (Needs-key a b e)) e,
      )

  nil_of_acyclic : IsAcyclic g → detect_cycles g ≡ []
  nil_of_acyclic r = elim (List-cases (detect_cycles g)) [
    | inl e ↦ e
    | inr (c, cs, e) ↦
        absurd (not-IsCycle g r c ((subst (All (IsCycle g)) e detect_cycles-IsCycle).0))
  ]

  -- `detect_cycles` reports nothing exactly where the dependencies have a numbering that each of them
  -- descends, which is where they have no cycle.
  pub detect_cycles-nil_iff : (detect_cycles g ≡ []) ↔ IsAcyclic g
  detect_cycles-nil_iff = (acyclic_of_nil, nil_of_acyclic)
