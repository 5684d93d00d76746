-- ===== src/Graph/Sound.antt =====
-- What `detectCycles` of scenario-translator.ts reports is a cycle.
use mathlib.Core.Path.{subst}
use tokyo_tester.Base.{
  ℕ, zero, suc, ◌≡◌, sym, inl, inr, true, List, [], ◌∷◌, ◌++◌, arith, length, All, All-append,
  Bool-cases,
}
use tokyo_tester.Names.{Text}
use tokyo_tester.Graph.{DependencyGraph, keys, deps, Search, enter, dfs, search_all}
use tokyo_tester.Graph.Texts.{text_eq, text_eq_iff, All-of_has, has, has_self, has-cons}
use tokyo_tester.Graph.Walks.{IsWalk, IsCycle, IsWalk-append, slice_from-IsCycle}
use tokyo_tester.Graph.Dfs.{each, dfs-cases, dfs-zero, visiting-dfs}

-- The marks of the nodes on a path.
abbrev pub OnPath : List Text → Search → Type 0
OnPath path s = (n : Text) → has n s.visiting ≡ true → has n path ≡ true

has-concat : (n x : Text) (path : List Text) → has n path ≡ true → has n (path ++ x ∷ []) ≡ true
unfolding has
has-concat n x [] h = cc
has-concat n x (y ∷ path) h = ground (arith, has-concat n x path)

has-last : (x : Text) (path : List Text) → has x (path ++ x ∷ []) ≡ true
has-last x [] = has_self x []
has-last x (y ∷ path) = has-cons x y (path ++ x ∷ []) (has-last x path)

enter-OnPath :
    (path : List Text) (node : Text) (s : Search)
    → OnPath path s
    → OnPath (path ++ node ∷ []) (enter node s)
unfolding has
enter-OnPath path node s o n h = elim (Bool-cases (text_eq node n)) [
  | inl e ↦
      subst (λ t. has t (path ++ node ∷ []) ≡ true) ((text_eq_iff node n).0 e) (has-last node path)
  | inr e ↦ has-concat n node path (o n (ground arith))
]

module _ (g : DependencyGraph) where
  walks_on :
      (path : List Text) (node : Text)
      → IsWalk g (path ++ node ∷ [])
      → All (λ m. IsWalk g ((path ++ node ∷ []) ++ m ∷ [])) (deps g node)
  walks_on path node w =
      All-of_has (λ m. IsWalk g ((path ++ node ∷ []) ++ m ∷ [])) (deps g node)
        (λ m h. IsWalk-append g path node m w h)

  -- Every cycle reported so far is one.
  abbrev pub AllCycles : Search → Type 0
  AllCycles s = All (IsCycle g) s.cycles

  sound-each :
      (fuel : ℕ) (path : List Text)
      → ((m : Text) (t : Search)
          → OnPath path t
          → IsWalk g (path ++ m ∷ [])
          → AllCycles t
          → AllCycles (dfs g fuel m path t))
      → (ms : List Text) (s : Search) → OnPath path s
      → All (λ m. IsWalk g (path ++ m ∷ [])) ms
      → AllCycles s
      → AllCycles (each g fuel path s ms)
  sound-each fuel path f [] s o w c = c
  sound-each fuel path f (m ∷ ms) s o (w, ws) c =
      sound-each fuel path f ms (dfs g fuel m path s)
        (subst (λ v. (n : Text) → has n v ≡ true → has n path ≡ true)
          (sym (visiting-dfs g fuel path m s)) o)
        ws (f m s o w c)

  pub sound-dfs :
      (fuel : ℕ) (path : List Text) (node : Text) (s : Search)
      → OnPath path s
      → IsWalk g (path ++ node ∷ [])
      → AllCycles s
      → AllCycles (dfs g fuel node path s)
  sound-dfs zero path node s o w c = rw (dfs-zero g path node s) c
  sound-dfs (suc fuel) path node s o w c =
      let path' = path ++ node ∷ [] in
      dfs-cases g AllCycles fuel path node s
        (λ e. All-append (IsCycle g) s.cycles _ c (slice_from-IsCycle g node path (o node e) w, tt))
        (λ e. c)
        (λ free.
          sound-each fuel path' (λ m t o' w' c'. sound-dfs fuel path' m t o' w' c') (deps g node)
            (enter node s) (enter-OnPath path node s o) (walks_on path node w) c)

  -- The loop over the keys starts each call on an empty path.
  pub sound-search_all :
      (ms : List Text) (s : Search) → OnPath [] s → AllCycles s → AllCycles (search_all g ms s)
  unfolding search_all
  sound-search_all ms s o c =
      sound-each (suc (length (keys g))) []
        (λ m t o' w c'. sound-dfs (suc (length (keys g))) [] m t o' w c') ms s o
        (All-of_has (λ m. IsWalk g (m ∷ [])) ms (λ m h. (tt, tt))) c
