-- ===== src/Graph.antt =====
-- ui-v2/src/modules/utils/scenario-translator.ts: dependency graphs between services, the search for
-- cycles and the services that a scenario needs. A graph is a `Map` from a service's name to the
-- names of its dependencies, in the order of insertion; a set of names is a list of them.
--
-- The two searches recur on fuel. A node with dependencies is a key, and a search goes below a key
-- only while it is not marked; so the number of keys and one more is enough (Graph/Dfs).
pub mod Texts
pub mod Sets
pub mod Walks
mod Dfs
mod Sound
mod Complete
pub mod Cycles
pub mod Subset
mod Tests
use mathlib.Core.List.{foldl}
use tokyo_tester.Base.{
  ℕ, zero, suc, ◌+◌, Bool, true, false, ◌||◌, Option, none, some, List, [], ◌∷◌, ◌++◌, map, length,
  if◌then◌else◌,
}
use tokyo_tester.Names.{Text}
use tokyo_tester.Graph.Texts.{text_eq, has, remove}

abbrev pub DependencyGraph : Type 0
DependencyGraph = List (Text × List Text)

abbrev pub keys : DependencyGraph → List Text
keys g = map (λ e. e.0) g

-- `graph.get(name) || []`
unfoldable pub deps : DependencyGraph → Text → List Text
deps [] name = []
deps ((key, ds) ∷ g) name = if text_eq key name then ds else deps g name

-- `path.slice(path.indexOf(node))`
unfoldable pub slice_from : Text → List Text → List Text
slice_from node [] = []
slice_from node (x ∷ path) = if text_eq x node then x ∷ path else slice_from node path

-- The variables of `detectCycles`; `starved` tells that the fuel ran out.
pub record Search : Type 0 where
  pub visited : List Text
  pub visiting : List Text
  pub cycles : List (List Text)
  pub starved : Bool

abbrev pub enter : Text → Search → Search
enter node s = record s { visiting = node ∷ s.visiting }

abbrev pub leave : Text → Search → Search
leave node s = record s { visiting = remove node s.visiting; visited = node ∷ s.visited }

abbrev pub report : Text → List Text → Search → Search
report node path s = record s { cycles = s.cycles ++ (slice_from node path ++ node ∷ []) ∷ [] }

-- `dfs`
pub dfs : DependencyGraph → ℕ → Text → List Text → Search → Search
dfs g zero node path s = record s { starved = true }
dfs g (suc fuel) node path s =
    let below = foldl (λ t m. dfs g fuel m (path ++ node ∷ []) t) (enter node s) (deps g node) in
    if has node s.visiting
    then report node path s
    else if has node s.visited
    then s
    else leave node below

abbrev pub nothing_seen : Search
nothing_seen = record { visited = []; visiting = []; cycles = []; starved = false }

-- The loop over `graph.keys()`.
pub search_all : DependencyGraph → List Text → Search → Search
search_all g names s = foldl (λ t m. dfs g (suc (length (keys g))) m [] t) s names

unfoldable pub detect_cycles : DependencyGraph → List (List Text)
unfolding search_all dfs deps slice_from
detect_cycles g = (search_all g (keys g) nothing_seen).cycles

-- `visit` of `expandScenarioServiceSubset`; `none` tells that the fuel ran out.
pub record Required : Type 0 where
  pub names : List Text
  pub starved : Bool

pub visit : DependencyGraph → ℕ → Text → Required → Required
visit g zero name r = record r { starved = true }
visit g (suc fuel) name r =
    let below =
      foldl (λ t m. visit g fuel m t) (record r { names = name ∷ r.names }) (deps g name) in
    if has name r.names then r else below

-- The targets of the tests in their order, as the two loops visit them.
unfoldable pub expand_scenario_service_subset : DependencyGraph → List Text → Required
unfolding visit deps
expand_scenario_service_subset g targets =
    foldl (λ r name. visit g (suc (length (keys g))) name r)
      (record { names = []; starved = false }) targets
