-- ===== src/Bundle/Accepted.antt =====
-- What `validateBundleScenario` of workflow-bundle.ts lets through.
use tokyo_tester.Base.{
  ℕ, ◌+◌, ◌≤◌, ◌≡◌, refl, sym, ap, ◌∙◌, ◌↔◌, Bool, true, false, not, ◌&&◌, ◌||◌, Option, none, some,
  List, [], ◌∷◌, ◌++◌, length, length-append, all, arith, ◌==◌,
}
use tokyo_tester.Names.{Text}
use tokyo_tester.Graph.Texts.{text_eq_iff, has}
use tokyo_tester.Graph.Sets.{distinct, all_in}
use tokyo_tester.Scenario.{
  ScenarioTestDefinition, Scenario, TestRetryPolicy, is_blank, ids, add_to, set_of,
}
use tokyo_tester.Scenario.Order.{has-append}
use tokyo_tester.Bundle.{
  BundleError, repeats, unknown_id, is_never, is_delay, policy_error, or_else, policy_errors,
  validate_bundle_scenario,
}

-- The texts of a list that are new to this set, each counted each time before it is in it.
abbrev new_to : List Text → List Text → Bool
new_to s [] = true
new_to s (i ∷ is) = not (has i s) && new_to (s ++ i ∷ []) is

length-set_of_le : (is s : List Text) → length (set_of s is) ≤ length s + length is
unfolding set_of add_to
length-set_of_le [] s = omega arith
length-set_of_le (i ∷ is) s =
    ground
      (arith, length-set_of_le is s, length-set_of_le is (s ++ i ∷ []), length-append s (i ∷ []))

length-set_of : (is s : List Text) → (length (set_of s is) == (length s + length is)) ≡ new_to s is
unfolding set_of add_to
length-set_of [] s = ground arith
length-set_of (i ∷ is) s =
    ground (arith, length-set_of is (s ++ i ∷ []), length-set_of_le is s, length-append s (i ∷ []))

all-unseen-append :
    (t : Text) (s is : List Text)
    → all (λ i. not (has i (s ++ t ∷ []))) is ≡ (not (has t is) && all (λ i. not (has i s)) is)
unfolding has
all-unseen-append t s [] = refl
all-unseen-append t s (i ∷ is) =
    ground
      (arith, text_eq_iff t i, text_eq_iff i t, has-append i s (t ∷ []), all-unseen-append t s is)

new_to-distinct : (s is : List Text) → new_to s is ≡ (all (λ i. not (has i s)) is && distinct is)
new_to-distinct s [] = refl
new_to-distinct s (i ∷ is) =
    ground (arith, new_to-distinct (s ++ i ∷ []) is, all-unseen-append i s is)

all-unseen : (is : List Text) → all (λ i. not (has i [])) is ≡ true
unfolding has
all-unseen [] = refl
all-unseen (i ∷ is) = all-unseen is

repeats-distinct : (is : List Text) → repeats is ≡ not (distinct is)
repeats-distinct is = ground (arith, length-set_of is [], new_to-distinct [] is, all-unseen is)

-- A policy that the code lets through: it does not confirm what is never retried or a delay.
abbrev pub is_plain_policy : ScenarioTestDefinition → Option TestRetryPolicy → Bool
is_plain_policy t none = true
is_plain_policy t (some policy) =
    not (policy.idempotency_confirmed && (is_never policy.mode || is_delay t.test_type))

is_no_error : Option BundleError → Bool
is_no_error none = true
is_no_error (some e) = false

no_error : is_no_error none ≡ true
unfolding is_no_error
no_error = refl

none_of : (o : Option BundleError) → is_no_error o ≡ true → o ≡ none
unfolding is_no_error
none_of none h = refl
none_of (some e) h = cc

is_no_error-policy_error :
    (t : ScenarioTestDefinition) (p : Option TestRetryPolicy)
    → is_no_error (policy_error t p) ≡ is_plain_policy t p
unfolding is_no_error policy_error
is_no_error-policy_error t none = refl
is_no_error-policy_error t (some p) = ground arith

is_no_error-or_else :
    (a b : Option BundleError) → is_no_error (or_else a b) ≡ (is_no_error a && is_no_error b)
unfolding is_no_error
is_no_error-or_else none b = refl
is_no_error-or_else (some e) b = refl

is_no_error-policy_errors :
    (ts : List ScenarioTestDefinition)
    → is_no_error (policy_errors ts) ≡ all (λ t. is_plain_policy t t.retry_policy) ts
unfolding policy_errors is_no_error
is_no_error-policy_errors [] = refl
is_no_error-policy_errors (t ∷ ts) = ground (
  arith,
  is_no_error-policy_error t t.retry_policy,
  is_no_error-or_else (policy_error t t.retry_policy) (policy_errors ts),
  is_no_error-policy_errors ts,
)

is_no_error-unknown_id :
    (name : Text) (known is : List Text) → is_no_error (unknown_id name known is) ≡ all_in known is
unfolding unknown_id is_no_error
is_no_error-unknown_id name known [] = refl
is_no_error-unknown_id name known (i ∷ is) = ground (arith, is_no_error-unknown_id name known is)

-- A scenario that may stand in a bundle: it has a name and tests, the tests' ids differ, the order has
-- each id once and as many ids as there are tests, and no policy confirms what is not retried.
abbrev pub is_bundled : Scenario → Bool
is_bundled scenario =
    not (is_blank scenario.name)
    && (not (length scenario.tests == 0)
        && (distinct (ids scenario.tests)
            && (distinct scenario.test_order
                && (length scenario.test_order == length (ids scenario.tests)
                    && (all_in (ids scenario.tests) scenario.test_order
                        && all (λ t. is_plain_policy t t.retry_policy) scenario.tests)))))

is_no_error-validate :
    (scenario : Scenario) (index : ℕ)
    → is_no_error (validate_bundle_scenario scenario index) ≡ is_bundled scenario
unfolding validate_bundle_scenario is_no_error
is_no_error-validate scenario index =
    let is = ids scenario.tests in
    let order = scenario.test_order in
    ground (
      arith,
      repeats-distinct is,
      repeats-distinct order,
      is_no_error-or_else (unknown_id scenario.name is order) (policy_errors scenario.tests),
      is_no_error-unknown_id scenario.name is order,
      is_no_error-policy_errors scenario.tests,
    )

-- A scenario is let through exactly if it may stand in a bundle.
pub validate_bundle_scenario-is_bundled :
    (scenario : Scenario) (index : ℕ)
    → (validate_bundle_scenario scenario index ≡ none) ↔ (is_bundled scenario ≡ true)
validate_bundle_scenario-is_bundled scenario index =
    let same = is_no_error-validate scenario index in
    (
      λ e. sym same ∙ ap is_no_error e ∙ no_error,
      λ e. none_of (validate_bundle_scenario scenario index) (same ∙ e),
    )
