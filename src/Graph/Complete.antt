-- ===== src/Graph/Complete.antt =====
-- Where `detectCycles` of scenario-translator.ts reports nothing, the nodes that it has left stand in
-- an order in which each needs only later ones.
use tokyo_tester.Base.{
  ℕ, zero, suc, ◌≡◌, ◌≢◌, inl, inr, true, false, List, [], ◌∷◌, ◌++◌, arith, All, Bool-cases,
}
use tokyo_tester.Names.{Text}
use tokyo_tester.Graph.{DependencyGraph, keys, deps, Search, enter, dfs}
use tokyo_tester.Graph.Texts.{has, has_self, has-cons, unmarked-cons_lt}
use tokyo_tester.Graph.Walks.{Topo}
use tokyo_tester.Graph.Dfs.{each, dfs-cases, dfs-zero, visiting-dfs, deps_free, IsFed, starved-dfs}

append-ne-nil {ℓ} : {A : Type ℓ} (xs : List A) (y : A) → xs ++ y ∷ [] ≢ []
append-ne-nil [] y e = cc
append-ne-nil (x ∷ xs) y e = cc

module _ (g : DependencyGraph) where
  -- Reports are never taken back.
  quiet-each :
      (fuel : ℕ) (path : List Text)
      → ((m : Text) (t : Search) → (dfs g fuel m path t).cycles ≡ [] → t.cycles ≡ [])
      → (ms : List Text) (s : Search) → (each g fuel path s ms).cycles ≡ []
      → s.cycles ≡ []
  quiet-each fuel path f [] s e = e
  quiet-each fuel path f (m ∷ ms) s e = f m s (quiet-each fuel path f ms (dfs g fuel m path s) e)

  quiet-dfs :
      (fuel : ℕ) (path : List Text) (node : Text) (s : Search)
      → (dfs g fuel node path s).cycles ≡ []
      → s.cycles ≡ []
  quiet-dfs zero path node s e = rw (dfs-zero g path node s) at e
  quiet-dfs (suc fuel) path node s e =
      let path' = path ++ node ∷ [] in
      dfs-cases g (λ t. t.cycles ≡ [] → s.cycles ≡ []) fuel path node s
        (λ e k. absurd (append-ne-nil s.cycles _ k)) (λ e k. k)
        (λ free k.
          quiet-each fuel path' (λ m t q. quiet-dfs fuel path' m t q) (deps g node) (enter node s)
            k)
        e

  -- What a quiet search has done for the node or nodes that it was to visit.
  pub record Ordered (s t : Search) : Type 0 where
    pub topo : Topo g t.visited
    pub grows : (n : Text) → has n s.visited ≡ true → has n t.visited ≡ true

  IsFed-after :
      (fuel : ℕ) (path : List Text) (m : Text) (s : Search)
      → IsFed g fuel s
      → IsFed g fuel (dfs g fuel m path s)
  IsFed-after fuel path m s fed =
      (rw (visiting-dfs g fuel path m s) (fed.0), starved-dfs g fuel path m s fed)

  pub Ordered-each :
      (fuel : ℕ) (path : List Text)
      → ((m : Text) (t : Search)
          → IsFed g fuel t
          → Topo g t.visited
          → (dfs g fuel m path t).cycles ≡ []
          → Ordered t (dfs g fuel m path t) × (has m (dfs g fuel m path t).visited ≡ true))
      → (ms : List Text) (s : Search) → IsFed g fuel s
      → Topo g s.visited
      → (each g fuel path s ms).cycles ≡ []
      → Ordered s (each g fuel path s ms)
        × All (λ m. has m (each g fuel path s ms).visited ≡ true) ms
  Ordered-each fuel path f [] s fed topo q = (record { topo = topo; grows = λ n h. h }, tt)
  Ordered-each fuel path f (m ∷ ms) s fed topo q =
      let t = dfs g fuel m path s in
      let quiet = quiet-each fuel path (λ k u. quiet-dfs fuel path k u) ms t q in
      let (o, seen) = f m s fed topo quiet in
      let (o', rest) = Ordered-each fuel path f ms t (IsFed-after fuel path m s fed) o.topo q in
      (record { topo = o'.topo; grows = λ n h. o'.grows n (o.grows n h) }, (o'.grows m seen, rest))

  -- Fuel for a node that is not entered is fuel for those below it.
  IsFed-below :
      (fuel : ℕ) (node : Text) (s : Search)
      → IsFed g (suc fuel) s
      → has node s.visiting ≡ false
      → has node (keys g) ≡ true
      → IsFed g fuel (enter node s)
  IsFed-below fuel node s fed free key =
      (omega (arith, unmarked-cons_lt node s.visiting (keys g) key free, fed.0), fed.1)

  pub Ordered-dfs :
      (fuel : ℕ) (path : List Text) (node : Text) (s : Search)
      → IsFed g fuel s
      → Topo g s.visited
      → (dfs g fuel node path s).cycles ≡ []
      → Ordered s (dfs g fuel node path s) × (has node (dfs g fuel node path s).visited ≡ true)
  Ordered-dfs zero path node s fed topo q = absurd (omega (arith, fed.0))
  Ordered-dfs (suc fuel) path node s fed topo q =
      let path' = path ++ node ∷ [] in
      dfs-cases g (λ t. t.cycles ≡ [] → Ordered s t × (has node t.visited ≡ true)) fuel path node s
        (λ e k. absurd (append-ne-nil s.cycles _ k))
        (λ e k. (record { topo = topo; grows = λ n h. h }, e))
        (λ free k. elim (Bool-cases (has node (keys g))) [
          | inl key ↦
              let (o, all) =
                Ordered-each fuel path' (λ m t f u v. Ordered-dfs fuel path' m t f u v)
                  (deps g node) (enter node s) (IsFed-below fuel node s fed free key) topo k in
              (
                record { topo = (all, o.topo); grows = λ n h. has-cons n node _ (o.grows n h) },
                has_self node _,
              )
          | inr other ↦ (
            record {
              topo = (rw (deps_free g node g other) tt, rw (deps_free g node g other) topo);
              grows = λ n h. rw (deps_free g node g other) (has-cons n node s.visited h);
            },
            has_self node _,
          )
        ])
        q
