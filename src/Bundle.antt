-- ===== src/Bundle.antt =====
-- ui-v2/src/modules/workflow/lib/workflow-bundle.ts: a name for the workflow that is brought in, the
-- scenarios that a bundle may hold, and the copy of a scenario with new ids. What `generateId` returns
-- the n-th time is an argument. A check that throws returns the error.
pub mod Named
pub mod Accepted
pub mod Ordered
pub mod Renaming
pub mod Cloned
mod Tests
use Prim.Native.Char.{code}
use Prim.Native.String.{String}
use tokyo_tester.Base.{
  ℕ, zero, suc, ◌+◌, ◌/◌, ◌%◌, Bool, true, false, not, ◌&&◌, ◌||◌, Option, none, some, List, [],
  ◌∷◌, ◌++◌, map, length, ltb, ◌==◌, if◌then◌else◌,
}
use tokyo_tester.Names.{Text}
use tokyo_tester.Graph.Texts.{text_eq, has}
use tokyo_tester.Scenario.{
  TestType, delay, RetryMode, transient, never, TestRetryPolicy, ScenarioTestDefinition, Scenario,
  is_space, is_blank, ids, set_of,
}

-- The code units of a literal.
abbrev pub codes : String → Text
codes String.[] = []
codes (String.◌∷◌ c s) = code c ∷ codes s

unfoldable pub trim_start : Text → Text
trim_start [] = []
trim_start (c ∷ t) = let rest = trim_start t in if is_space c then rest else c ∷ t

abbrev pub is_empty : Text → Bool
is_empty [] = true
is_empty (_ ∷ _) = false

unfoldable pub trim_end : Text → Text
trim_end [] = []
trim_end (c ∷ t) = let rest = trim_end t in if is_space c && is_empty rest then [] else c ∷ rest

unfoldable pub trim : Text → Text
trim t = trim_end (trim_start t)

-- The digits of a number of at most this many.
unfoldable pub digits : ℕ → ℕ → Text
digits zero n = []
digits (suc fuel) n =
    let rest = digits fuel (n / 10) in
    if ltb n 10 then (48 + n) ∷ [] else rest ++ (48 + n % 10) ∷ []

unfoldable pub decimal : ℕ → Text
decimal n = digits (suc n) n

unfoldable pub or_imported : Text → Text
or_imported [] = codes "Imported Workflow"
or_imported (c ∷ t) = c ∷ t

abbrev pub numbered : Text → ℕ → Text
numbered name suffix = name ++ 32 ∷ decimal suffix

-- The loop, on fuel.
unfoldable pub free_suffix : ℕ → Text → List Text → ℕ → Option ℕ
free_suffix zero name existing suffix = none
free_suffix (suc fuel) name existing suffix =
    let rest = free_suffix fuel name existing (suffix + 1) in
    if has (numbered name suffix) existing then rest else some suffix

abbrev pub with_suffix : Text → Option ℕ → Option Text
with_suffix name none = none
with_suffix name (some suffix) = some (numbered name suffix)

-- There is fuel for one round more than there are names.
unfoldable pub get_unique_workflow_name : Text → List Text → Option Text
get_unique_workflow_name base existing =
    let trimmed = or_imported (trim base) in
    if has trimmed existing
    then with_suffix trimmed (free_suffix (suc (length existing)) trimmed existing 2)
    else some trimmed

pub data BundleError : Type 0 where
  no_name : ℕ → BundleError
  no_tests duplicate_test_ids duplicate_order_ids order_not_of_all : Text → BundleError
  order_unknown : Text → Text → BundleError
  never_confirmed delay_confirmed : Text → BundleError

-- `new Set(ids).size !== ids.length`
abbrev pub repeats : List Text → Bool
repeats is = not (length (set_of [] is) == length is)

unfoldable pub unknown_id : Text → List Text → List Text → Option BundleError
unknown_id name known [] = none
unknown_id name known (i ∷ is) =
    let rest = unknown_id name known is in if has i known then rest else some (order_unknown name i)

abbrev pub is_never : RetryMode → Bool
is_never never = true
is_never transient = false

abbrev pub is_delay : TestType → Bool
is_delay delay = true
is_delay _ = false

-- One round of the last loop. A mode is one of the two by its type.
unfoldable pub policy_error : ScenarioTestDefinition → Option TestRetryPolicy → Option BundleError
policy_error t none = none
policy_error t (some policy) =
    if is_never policy.mode && policy.idempotency_confirmed
    then some (never_confirmed t.name)
    else if is_delay t.test_type && policy.idempotency_confirmed
    then some (delay_confirmed t.name)
    else none

-- The first of two errors.
abbrev pub or_else : Option BundleError → Option BundleError → Option BundleError
or_else none later = later
or_else (some e) later = some e

unfoldable pub policy_errors : List ScenarioTestDefinition → Option BundleError
policy_errors [] = none
policy_errors (t ∷ ts) = or_else (policy_error t t.retry_policy) (policy_errors ts)

-- `none` where nothing is thrown. A bundle's scenario that is not an object, or has no array where one
-- belongs, is none of the type.
unfoldable pub validate_bundle_scenario : Scenario → ℕ → Option BundleError
validate_bundle_scenario scenario index =
    let test_ids = ids scenario.tests in
    let order_ids = scenario.test_order in
    if is_blank scenario.name
    then some (no_name (index + 1))
    else if length scenario.tests == 0
    then some (no_tests scenario.name)
    else if repeats test_ids
    then some (duplicate_test_ids scenario.name)
    else if repeats order_ids
    then some (duplicate_order_ids scenario.name)
    else if not (length order_ids == length test_ids)
    then some (order_not_of_all scenario.name)
    else or_else (unknown_id scenario.name test_ids order_ids) (policy_errors scenario.tests)

-- A `Map` of ids, the last one set first.
abbrev pub IdMap : Type 0
IdMap = List (Text × Text)

unfoldable pub get_id : Text → IdMap → Option Text
get_id i [] = none
get_id i (e ∷ m) = if text_eq e.0 i then some e.1 else get_id i m

abbrev pub if_truthy : Option Text → List Text → List Text
if_truthy none rest = rest
if_truthy (some i) rest = if is_empty i then rest else i ∷ rest

-- `.map((id) => idMap.get(id)).filter(Boolean)`
unfoldable pub renamed : IdMap → List Text → List Text
renamed m [] = []
renamed m (i ∷ is) = if_truthy (get_id i m) (renamed m is)

module _ (generate_id : ℕ → Text) where
  -- The first loop; the number says how many ids were generated before it.
  unfoldable pub id_map : ℕ → List ScenarioTestDefinition → IdMap → IdMap
  id_map n [] m = m
  id_map n (t ∷ ts) m = id_map (n + 1) ts ((t.id, generate_id n) ∷ m)

  -- `idMap.get(test.id) || generateId()`, and how many ids were generated then.
  unfoldable pub or_generated : ℕ → Option Text → Text × ℕ
  or_generated n none = (generate_id n, n + 1)
  or_generated n (some i) = if is_empty i then (generate_id n, n + 1) else (i, n)

  unfoldable pub clone_tests : ℕ → IdMap → List ScenarioTestDefinition → List ScenarioTestDefinition
  clone_tests n m [] = []
  clone_tests n m (t ∷ ts) =
      let (i, n') = or_generated n (get_id t.id m) in
      record t { id = i; depends_on_test_ids = renamed m t.depends_on_test_ids }
      ∷ clone_tests n' m ts

  unfoldable pub clone_scenario_for_import : ℕ → Scenario → Scenario
  clone_scenario_for_import n scenario =
      let m = id_map n scenario.tests [] in
      record {
        name = scenario.name;
        tests = clone_tests (n + length scenario.tests) m scenario.tests;
        test_order = renamed m scenario.test_order;
      }
