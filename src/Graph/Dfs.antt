-- ===== src/Graph/Dfs.antt =====
-- One call of `dfs` in `detectCycles` of scenario-translator.ts: its cases, what it leaves as it was,
-- and the fuel that it takes.
use mathlib.Core.List.{foldl}
use tokyo_tester.Base.{
  ℕ, zero, suc, ◌<◌, ◌≡◌, refl, ap, ◌∙◌, inl, inr, true, false, List, [], ◌∷◌, ◌++◌, arith,
  Bool-cases,
}
use tokyo_tester.Names.{Text}
use tokyo_tester.Graph.{DependencyGraph, keys, deps, Search, enter, leave, report, dfs}
use tokyo_tester.Graph.Texts.{has, remove, remove-cons, unmarked, unmarked-cons_lt}

module _ (g : DependencyGraph) where
  -- The loop over a node's dependencies, and that over the keys.
  abbrev pub each : ℕ → List Text → Search → List Text → Search
  each fuel path s ms = foldl (λ t m. dfs g fuel m path t) s ms

  -- The three ways of a call.
  pub dfs-cases :
      (P : Search → Type 0) (fuel : ℕ) (path : List Text) (node : Text) (s : Search)
      → (has node s.visiting ≡ true → P (report node path s))
      → (has node s.visited ≡ true → P s)
      → (has node s.visiting ≡ false
          → P (leave node (each fuel (path ++ node ∷ []) (enter node s) (deps g node))))
      → P (dfs g (suc fuel) node path s)
  unfolding dfs
  dfs-cases P fuel path node s on_path seen fresh = elim (Bool-cases (has node s.visiting)) [
    | inl e ↦ rw e (on_path e)
    | inr e ↦ elim (Bool-cases (has node s.visited)) [
      | inl f ↦ rw (e, f) (seen f)
      | inr f ↦ rw (e, f) (fresh e)
    ]
  ]

  pub visiting-each :
      (fuel : ℕ) (path : List Text)
      → ((m : Text) (t : Search) → (dfs g fuel m path t).visiting ≡ t.visiting)
      → (ms : List Text) (s : Search) → (each fuel path s ms).visiting ≡ s.visiting
  visiting-each fuel path f [] s = refl
  visiting-each fuel path f (m ∷ ms) s = visiting-each fuel path f ms (dfs g fuel m path s) ∙ f m s

  pub dfs-zero :
      (path : List Text) (node : Text) (s : Search)
      → dfs g zero node path s ≡ record s { starved = true }
  unfolding dfs
  dfs-zero path node s = refl

  -- A node that is entered is left.
  pub visiting-dfs :
      (fuel : ℕ) (path : List Text) (node : Text) (s : Search)
      → (dfs g fuel node path s).visiting ≡ s.visiting
  visiting-dfs zero path node s = rw (dfs-zero path node s)
  visiting-dfs (suc fuel) path node s =
      let path' = path ++ node ∷ [] in
      dfs-cases (λ t. t.visiting ≡ s.visiting) fuel path node s (λ e. refl) (λ e. refl)
        (λ free.
          ap (remove node) (
            visiting-each fuel path' (λ m t. visiting-dfs fuel path' m t) (deps g node)
              (enter node s))
          ∙ remove-cons node s.visiting free)

  -- A name that is no key has no dependencies.
  pub deps_free : (node : Text) (h : DependencyGraph) → has node (keys h) ≡ false → deps h node ≡ []
  unfolding has deps
  deps_free node [] e = refl
  deps_free node ((k, ds) ∷ h) e = ground (arith, deps_free node h)

  -- Fuel for every key that may still be entered is enough.
  abbrev pub IsFed : ℕ → Search → Type 0
  IsFed fuel s = (unmarked s.visiting (keys g) < fuel) × (s.starved ≡ false)

  pub fed-each :
      (fuel : ℕ) (path : List Text)
      → ((m : Text) (t : Search) → IsFed fuel t → (dfs g fuel m path t).starved ≡ false)
      → (ms : List Text) (s : Search) → IsFed fuel s
      → (each fuel path s ms).starved ≡ false
  fed-each fuel path f [] s h = h.1
  fed-each fuel path f (m ∷ ms) s h =
      fed-each fuel path f ms (dfs g fuel m path s) (rw (visiting-dfs fuel path m s) (h.0), f m s h)

  pub starved-dfs :
      (fuel : ℕ) (path : List Text) (node : Text) (s : Search)
      → IsFed fuel s
      → (dfs g fuel node path s).starved ≡ false
  starved-dfs zero path node s h = absurd (omega arith)
  starved-dfs (suc fuel) path node s h =
      let path' = path ++ node ∷ [] in
      dfs-cases (λ t. t.starved ≡ false) fuel path node s (λ e. h.1) (λ e. h.1)
        (λ free. elim (Bool-cases (has node (keys g))) [
          | inl key ↦
              fed-each fuel path' (λ m t k. starved-dfs fuel path' m t k) (deps g node)
                (enter node s)
                (omega (arith, unmarked-cons_lt node s.visiting (keys g) key free), h.1)
          | inr other ↦ rw (deps_free node g other) (h.1)
        ])
