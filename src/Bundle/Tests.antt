-- ===== src/Bundle/Tests.antt =====
-- Names and scenarios that workflow-bundle.ts brings in.
use tokyo_tester.Base.{ℕ, ◌≤◌, ◌≡◌, refl, ap, true, none, some, List, [], ◌∷◌}
use tokyo_tester.Names.{Text}
use tokyo_tester.Graph.Texts.{has, text_eq}
use tokyo_tester.Graph.Sets.{IsOneToOne}
use tokyo_tester.Scenario.{
  transient, Operations, ScenarioTestDefinition, http, Scenario, ids, validate_scenario, is_space,
  set_of, add_to,
}
use tokyo_tester.Bundle.{
  codes, trim, trim_start, trim_end, decimal, digits, free_suffix, policy_errors, policy_error,
  unknown_id, or_imported, get_unique_workflow_name, validate_bundle_scenario,
  clone_scenario_for_import,
}
use tokyo_tester.Bundle.Named.{IsNew, get_unique_workflow_name-IsNew}
use tokyo_tester.Bundle.Renaming.{rename_scenario}
use tokyo_tester.Bundle.Cloned.{clone_scenario_for_import-rename, clone_scenario_for_import-valid}

bundle : Unit {0}
unfolding get_unique_workflow_name validate_bundle_scenario clone_scenario_for_import
    validate_scenario is_space has text_eq or_imported trim trim_start trim_end decimal digits
    free_suffix policy_errors policy_error unknown_id set_of add_to
bundle = tt

abbrev existing : List Text
existing = codes "Shop" ∷ codes "Shop 2" ∷ codes "Bank" ∷ []

-- A third shop.
third_shop : get_unique_workflow_name (codes " Shop ") existing ≡ some (codes "Shop 3")
unfolding bundle
third_shop = refl

get_unique_workflow_name-IsNew_example :
    (name : Text) × ((get_unique_workflow_name (codes " Shop ") existing ≡ some name)
      × IsNew (or_imported (trim (codes " Shop "))) existing name)
get_unique_workflow_name-IsNew_example = get_unique_workflow_name-IsNew (codes " Shop ") existing

abbrev nothing_set : Operations
nothing_set = record {
  http_method = none;
  document_operation = none;
  cache_operation = none;
  queue_operation = none;
  database_query = none;
  shell_command = none;
  delay_duration_ms = none;
}

abbrev login : ScenarioTestDefinition
login = record {
  id = codes "a";
  name = codes "login";
  test_type = http;
  target_services = codes "api" ∷ [];
  depends_on_test_ids = [];
  retry_policy = some (record { mode = transient; idempotency_confirmed = true });
  operations = nothing_set;
}

abbrev pay : ScenarioTestDefinition
pay = record {
  id = codes "b";
  name = codes "pay";
  test_type = http;
  target_services = codes "api" ∷ [];
  depends_on_test_ids = codes "a" ∷ [];
  retry_policy = none;
  operations = nothing_set;
}

-- The order is not that of the list.
abbrev purchase : Scenario
purchase = record {
  name = codes "purchase";
  tests = pay ∷ login ∷ [];
  test_order = codes "a" ∷ codes "b" ∷ [];
}

purchase-let_through : validate_bundle_scenario purchase 0 ≡ none
unfolding bundle
purchase-let_through = refl

-- The n-th id is one code unit.
abbrev serial : ℕ → Text
serial n = n ∷ []

abbrev first_unit : Text → ℕ
first_unit [] = 0
first_unit (c ∷ _) = c

serial_differ : (a b : ℕ) → serial a ≡ serial b → a ≡ b
serial_differ a b e = ap first_unit e

clone_scenario_for_import-rename_example :
    (f : Text → Text) × ((clone_scenario_for_import serial 5 purchase ≡ rename_scenario f purchase)
      × (IsOneToOne f (ids purchase.tests) × ((i : Text) → (k : ℕ) × ((5 ≤ k) × (f i ≡ serial k)))))
clone_scenario_for_import-rename_example =
    clone_scenario_for_import-rename serial serial_differ (λ n. refl) 5 0 purchase
      purchase-let_through

purchase-valid : (validate_scenario (codes "api" ∷ []) purchase).valid ≡ true
unfolding bundle
purchase-valid = refl

clone_scenario_for_import-valid_example :
    (validate_bundle_scenario (clone_scenario_for_import serial 5 purchase) 0 ≡ none)
    × ((validate_scenario (codes "api" ∷ []) (clone_scenario_for_import serial 5 purchase)).valid
        ≡ true)
clone_scenario_for_import-valid_example =
    clone_scenario_for_import-valid serial serial_differ (λ n. refl) 5 0 (codes "api" ∷ []) purchase
      purchase-let_through purchase-valid
