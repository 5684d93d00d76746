-- ===== src/Bundle/Cloned.antt =====
-- `cloneScenarioForImport` of workflow-bundle.ts gives the tests new names and changes nothing else.
use tokyo_tester.Base.{
  ℕ, ◌+◌, ◌≤◌, ◌≡◌, refl, sym, ap, ◌∙◌, true, false, none, some, List, [], ◌∷◌, length, map, filter,
  arith, if◌then◌else◌,
}
use tokyo_tester.Names.{Text}
use tokyo_tester.Graph.Texts.{text_eq, text_eq_iff, has}
use tokyo_tester.Graph.Sets.{distinct, all_in, all_in-of, IsOneToOne}
use tokyo_tester.Scenario.{ScenarioTestDefinition, Scenario, ids, validate_scenario}
use tokyo_tester.Scenario.Validation.{validate_scenario-is_sound}
use tokyo_tester.Bundle.{
  IdMap, is_empty, get_id, id_map, renamed, or_generated, clone_tests, clone_scenario_for_import,
  validate_bundle_scenario,
}
use tokyo_tester.Bundle.Ordered.{filter_all}
use tokyo_tester.Bundle.Accepted.{is_bundled, validate_bundle_scenario-is_bundled}
use tokyo_tester.Bundle.Renaming.{rename_test, rename_scenario, is_bundled-rename, is_sound-rename}

-- The place of an id among these tests, of which the first one has this number.
pub place : ℕ → Text → List ScenarioTestDefinition → ℕ
place n i [] = n
place n i (t ∷ ts) = let rest = place (n + 1) i ts in if text_eq t.id i then n else rest

place_ge : (n : ℕ) (i : Text) (ts : List ScenarioTestDefinition) → n ≤ place n i ts
unfolding place
place_ge n i [] = omega arith
place_ge n i (t ∷ ts) = ground (arith, place_ge (n + 1) i ts)

place-Injective :
    (n : ℕ) (i j : Text) (ts : List ScenarioTestDefinition)
    → has i (ids ts) ≡ true
    → has j (ids ts) ≡ true
    → place n i ts ≡ place n j ts
    → i ≡ j
unfolding place has
place-Injective n i j [] h k e = cc
place-Injective n i j (t ∷ ts) h k e = ground (
  arith,
  text_eq_iff t.id i,
  text_eq_iff t.id j,
  place_ge (n + 1) i ts,
  place_ge (n + 1) j ts,
  place-Injective (n + 1) i j ts,
)

-- A map that gives the known ids a new one that is not empty.
record Renames (m : IdMap) (known : List Text) (f : Text → Text) : Type 0 where
  pub known_id : (i : Text) → has i known ≡ true → get_id i m ≡ some (f i)
  pub unknown_id : (i : Text) → has i known ≡ false → get_id i m ≡ none
  pub full : (i : Text) → is_empty (f i) ≡ false

renamed-map :
    (m : IdMap) (known : List Text) (f : Text → Text) (is : List Text)
    → Renames m known f
    → renamed m is ≡ map f (filter (λ i. has i known) is)
unfolding renamed
renamed-map m known f [] r = refl
renamed-map m known f (i ∷ is) r =
    ground (arith, renamed-map m known f is r, r.known_id i, r.unknown_id i, r.full i)

module _ (generate_id : ℕ → Text) where
  get_id-absent :
      (n : ℕ) (i : Text) (ts : List ScenarioTestDefinition) (m : IdMap)
      → has i (ids ts) ≡ false
      → get_id i (id_map generate_id n ts m) ≡ get_id i m
  unfolding id_map get_id has
  get_id-absent n i [] m h = refl
  get_id-absent n i (t ∷ ts) m h =
      ground (arith, get_id-absent (n + 1) i ts ((t.id, generate_id n) ∷ m))

  get_id-place :
      (n : ℕ) (i : Text) (ts : List ScenarioTestDefinition) (m : IdMap)
      → distinct (ids ts) ≡ true
      → has i (ids ts) ≡ true
      → get_id i (id_map generate_id n ts m) ≡ some (generate_id (place n i ts))
  unfolding id_map get_id has place
  get_id-place n i [] m d h = cc
  get_id-place n i (t ∷ ts) m d h = ground (
    arith,
    text_eq_iff t.id i,
    get_id-absent (n + 1) i ts ((t.id, generate_id n) ∷ m),
    get_id-place (n + 1) i ts ((t.id, generate_id n) ∷ m),
  )

  clone_tests-rename :
      (k : ℕ) (m : IdMap) (known : List Text) (f : Text → Text) (ts : List ScenarioTestDefinition)
      → Renames m known f
      → all_in known (ids ts) ≡ true
      → clone_tests generate_id k m ts ≡ map (rename_test f known) ts
  unfolding clone_tests or_generated
  clone_tests-rename k m known f [] r h = refl
  clone_tests-rename k m known f (t ∷ ts) r h =
      let here : has t.id known ≡ true = ground arith in
      let later : all_in known (ids ts) ≡ true = ground arith in
      rw (r.known_id t.id here, r.full t.id, renamed-map m known f t.depends_on_test_ids r)
        (ap (λ l. rename_test f known t ∷ l) (clone_tests-rename k m known f ts r later))

module _ (generate_id : ℕ → Text) (differ : (a b : ℕ) → generate_id a ≡ generate_id b → a ≡ b)
    (full : (a : ℕ) → is_empty (generate_id a) ≡ false) where
  fresh : ℕ → Scenario → Text → Text
  fresh n s i = generate_id (place n i s.tests)

  fresh-IsOneToOne : (n : ℕ) (s : Scenario) → IsOneToOne (fresh n s) (ids s.tests)
  unfolding fresh
  fresh-IsOneToOne n s i j h k e =
      place-Injective n i j s.tests h k (differ (place n i s.tests) (place n j s.tests) e)

  fresh-Renames :
      (n : ℕ) (s : Scenario)
      → distinct (ids s.tests) ≡ true
      → Renames (id_map generate_id n s.tests []) (ids s.tests) (fresh n s)
  unfolding fresh get_id
  fresh-Renames n s d = record {
    known_id = λ i h. get_id-place generate_id n i s.tests [] d h;
    unknown_id = λ i h. get_id-absent generate_id n i s.tests [] h;
    full = λ i. full (place n i s.tests);
  }

  clone_lem :
      (n : ℕ) (s : Scenario)
      → is_bundled s ≡ true
      → clone_scenario_for_import generate_id n s ≡ rename_scenario (fresh n s) s
  unfolding clone_scenario_for_import
  clone_lem n s h =
      let known = ids s.tests in
      let d : distinct known ≡ true = ground arith in
      let inside : all_in known s.test_order ≡ true = ground arith in
      let r = fresh-Renames n s d in
      let m = id_map generate_id n s.tests [] in
      rw
        (
          clone_tests-rename generate_id (n + length s.tests) m known (fresh n s) s.tests r
              (all_in-of known known (λ i k. k)),
          renamed-map m known (fresh n s) s.test_order r,
          filter_all known s.test_order inside,
        )
        refl

  -- The copy of a scenario that is let through has new ids from `generateId`, different ones for
  -- different tests. The order and the dependencies name the same tests by their new ids, without
  -- those dependencies that name no test, and nothing else of the scenario changes. This needs
  -- that `generateId` returns no text twice and none that is empty.
  pub clone_scenario_for_import-rename :
      (n index : ℕ) (s : Scenario)
      → validate_bundle_scenario s index ≡ none
      → (f : Text → Text) × ((clone_scenario_for_import generate_id n s ≡ rename_scenario f s)
          × (IsOneToOne f (ids s.tests)
              × ((i : Text) → (k : ℕ) × ((n ≤ k) × (f i ≡ generate_id k)))))
  unfolding fresh
  clone_scenario_for_import-rename n index s e =
      let ok = (validate_bundle_scenario-is_bundled s index).0 e in
      (
        fresh n s,
        (
          clone_lem n s ok,
          (fresh-IsOneToOne n s, λ i. (place n i s.tests, (place_ge n i s.tests, refl))),
        ),
      )

  -- The copy of a scenario that is let through is let through again, and is valid for every graph
  -- for which the scenario is, provided that `generateId` returns no text twice and none that is
  -- empty.
  pub clone_scenario_for_import-valid :
      (n index : ℕ) (names : List Text) (s : Scenario)
      → validate_bundle_scenario s index ≡ none
      → (validate_scenario names s).valid ≡ true
      → (validate_bundle_scenario (clone_scenario_for_import generate_id n s) index ≡ none)
        × ((validate_scenario names (clone_scenario_for_import generate_id n s)).valid ≡ true)
  clone_scenario_for_import-valid n index names s e v =
      let ok = (validate_bundle_scenario-is_bundled s index).0 e in
      let one = fresh-IsOneToOne n s in
      let c = rename_scenario (fresh n s) s in
      let sound = sym (validate_scenario-is_sound names s) ∙ v in
      rw (clone_lem n s ok) (
        (validate_bundle_scenario-is_bundled c index).1 (is_bundled-rename (fresh n s) s one ok),
        validate_scenario-is_sound names c ∙ is_sound-rename (fresh n s) names s one sound,
      )
