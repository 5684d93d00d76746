-- ===== src/Scenario/Tests.antt =====
-- A concrete scenario: `validateScenario` and `translateScenarioTests` of scenario-translator.ts.
use tokyo_tester.Base.{◌≡◌, refl, true, some, none, [], ◌∷◌}
use tokyo_tester.Names.{Text}
use tokyo_tester.Scenario.{
  transient, Operations, ScenarioTestDefinition, http, delay, Scenario, validate_scenario,
}
use tokyo_tester.Scenario.Validation.{is_sound, validate_scenario-is_sound}
use tokyo_tester.Scenario.Retry.{
  confirmed, retry_operation_signature, operation, type_text, edit_all, edit_all-confirmed,
}

abbrev api : Text
api = b'a' ∷ []

abbrev nothing_set : Operations
nothing_set = record {
  http_method = none;
  document_operation = none;
  cache_operation = none;
  queue_operation = none;
  database_query = none;
  shell_command = none;
  delay_duration_ms = none;
}

abbrev pub ping : ScenarioTestDefinition
ping = record {
  id = b'1' ∷ [];
  name = b'p' ∷ [];
  test_type = http;
  target_services = api ∷ [];
  depends_on_test_ids = [];
  retry_policy = none;
  operations = nothing_set;
}

abbrev pub pause : ScenarioTestDefinition
pause = record {
  id = b'2' ∷ [];
  name = b'q' ∷ [];
  test_type = delay;
  target_services = api ∷ [];
  depends_on_test_ids = (b'1' ∷ []) ∷ [];
  retry_policy = none;
  operations = nothing_set;
}

-- The order names a test that does not exist and leaves out the first one.
abbrev pub checkout : Scenario
checkout = record {
  name = b'c' ∷ [];
  tests = ping ∷ pause ∷ [];
  test_order = (b'9' ∷ []) ∷ (b'2' ∷ []) ∷ [];
}

validate_scenario-is_sound_example :
    (validate_scenario (api ∷ []) checkout).valid ≡ is_sound (api ∷ []) checkout
validate_scenario-is_sound_example = validate_scenario-is_sound (api ∷ []) checkout

abbrev posted : ScenarioTestDefinition
posted = record ping {
  retry_policy = some (record { mode = transient; idempotency_confirmed = true });
  operations = record nothing_set { http_method = some "POST" };
}

abbrev rename : ScenarioTestDefinition → ScenarioTestDefinition
rename t = record t { name = b'r' ∷ [] }

still_confirmed : confirmed (edit_all (λ n. "") (rename ∷ rename ∷ []) posted) ≡ true
unfolding edit_all retry_operation_signature operation type_text
still_confirmed = refl

edit_all-confirmed_example :
    (confirmed posted ≡ true)
    × (retry_operation_signature (λ n. "") (edit_all (λ n. "") (rename ∷ rename ∷ []) posted)
        ≡ retry_operation_signature (λ n. "") posted)
edit_all-confirmed_example =
    edit_all-confirmed (λ n. "") (rename ∷ rename ∷ []) posted (λ t h. h, (λ t h. h, tt))
      still_confirmed
