-- ===== src/Scenario/Retry.antt =====
-- ui-v2/src/modules/workflow/lib/test-retry-policy.ts: which tests may be retried, and how long the
-- confirmation that an operation may run twice stands. How a number is written is an argument.
use Prim.Native.String.{◌++◌}
use tokyo_tester.Base.{
  ℕ, ◌≡◌, refl, ◌∙◌, String, Bool, true, false, not, ◌&&◌, ◌||◌, Option, none, some, List, [], ◌∷◌,
  All, any, arith, eq_iff, ◌===◌, if◌then◌else◌,
}
use tokyo_tester.Scenario.{
  TestType, database, document, http, shell, cache, queue, delay, RetryMode, transient, never,
  TestRetryPolicy, ScenarioTestDefinition,
}

abbrev pub or_text : Option String → String → String
or_text none other = other
or_text (some s) other = s

abbrev pub listed : List String → String → Bool
listed xs s = any (λ x. s === x) xs

unfoldable pub is_automatically_retry_safe : ScenarioTestDefinition → Bool
is_automatically_retry_safe t = elim t.test_type [
  | http ↦ listed ("GET" ∷ "HEAD" ∷ "OPTIONS" ∷ []) (or_text t.operations.http_method "GET")
  | document ↦
      listed ("find_one" ∷ "find_many" ∷ "count_documents" ∷ "exists" ∷ [])
        (or_text t.operations.document_operation "")
  | cache ↦ listed ("ping" ∷ "get" ∷ "exists" ∷ []) (or_text t.operations.cache_operation "")
  | queue ↦ listed ("check_topic" ∷ "list_topics" ∷ []) (or_text t.operations.queue_operation "")
  | _ ↦ false
]

abbrev pub is_never : RetryMode → Bool
is_never never = true
is_never transient = false

abbrev pub confirmed : ScenarioTestDefinition → Bool
confirmed t = elim t.retry_policy [ none ↦ false | some p ↦ p.idempotency_confirmed ]

abbrev pub never_retried : ScenarioTestDefinition → Bool
never_retried t = elim t.retry_policy [ none ↦ false | some p ↦ is_never p.mode ]

unfoldable pub has_explicit_idempotency_retry : ScenarioTestDefinition → Bool
has_explicit_idempotency_retry t = not (never_retried t) && confirmed t

-- The five answers of `guidedRetryDescription`.
pub data RetryDescription : Type 0 where
  delays_never disabled once_confirmed once_safe not_retried : RetryDescription

abbrev pub is_delay : TestType → Bool
is_delay delay = true
is_delay _ = false

unfoldable pub guided_retry_description : ScenarioTestDefinition → RetryDescription
unfolding has_explicit_idempotency_retry is_automatically_retry_safe
guided_retry_description t =
    if is_delay t.test_type
    then delays_never
    else if never_retried t
    then disabled
    else if has_explicit_idempotency_retry t
    then once_confirmed
    else if is_automatically_retry_safe t
    then once_safe
    else not_retried

-- The text of a type.
unfoldable pub type_text : TestType → String
type_text database = "database"
type_text document = "document"
type_text http = "http"
type_text shell = "shell"
type_text cache = "cache"
type_text queue = "queue"
type_text delay = "delay"

module _ (decimal : ℕ → String) where
  unfoldable pub operation : ScenarioTestDefinition → String
  operation t = elim t.test_type [
    | http ↦ or_text t.operations.http_method "GET"
    | document ↦ or_text t.operations.document_operation ""
    | cache ↦ or_text t.operations.cache_operation ""
    | queue ↦ or_text t.operations.queue_operation ""
    | database ↦ or_text t.operations.database_query ""
    | shell ↦ or_text t.operations.shell_command ""
    | delay ↦ elim t.operations.delay_duration_ms [ none ↦ "" | some n ↦ decimal n ]
  ]

  unfoldable pub retry_operation_signature : ScenarioTestDefinition → String
  retry_operation_signature t = type_text t.test_type ++ (":" ++ operation t)

  -- `next.retryPolicy?.mode ?? previous.retryPolicy.mode`
  abbrev pub mode_of : ScenarioTestDefinition → TestRetryPolicy → RetryMode
  mode_of next p = elim next.retry_policy [ none ↦ p.mode | some q ↦ q.mode ]

  unfoldable pub clear_stale_idempotency_confirmation :
      ScenarioTestDefinition → ScenarioTestDefinition → ScenarioTestDefinition
  clear_stale_idempotency_confirmation previous next = elim previous.retry_policy [
    | none ↦ next
    | some p ↦
        if not p.idempotency_confirmed
          || retry_operation_signature previous === retry_operation_signature next
        then next
        else record next {
          retry_policy = some (record { mode = mode_of next p; idempotency_confirmed = false });
        }
  ]

  -- A sequence of edits, each given by what it makes of the test.
  unfoldable pub edit_all :
      List (ScenarioTestDefinition → ScenarioTestDefinition)
      → ScenarioTestDefinition
      → ScenarioTestDefinition
  unfolding clear_stale_idempotency_confirmation
  edit_all [] t = t
  edit_all (f ∷ fs) t = edit_all fs (clear_stale_idempotency_confirmation t (f t))

  -- An edit that does not itself confirm anything.
  abbrev pub IsQuiet : (ScenarioTestDefinition → ScenarioTestDefinition) → Type 0
  IsQuiet f = (t : ScenarioTestDefinition) → confirmed (f t) ≡ true → confirmed t ≡ true

  signature-policy :
      (t : ScenarioTestDefinition) (p : Option TestRetryPolicy)
      → retry_operation_signature (record t { retry_policy = p }) ≡ retry_operation_signature t
  unfolding retry_operation_signature operation
  signature-policy t p = refl

  -- Where the confirmation is still there after an edit, it was there before and the operation is the
  -- same.
  clear-confirmed :
      (f : ScenarioTestDefinition → ScenarioTestDefinition) (t : ScenarioTestDefinition)
      → IsQuiet f
      → confirmed (clear_stale_idempotency_confirmation t (f t)) ≡ true
      → (confirmed t ≡ true)
        × (retry_operation_signature (clear_stale_idempotency_confirmation t (f t))
            ≡ retry_operation_signature t)
  unfolding clear_stale_idempotency_confirmation
  clear-confirmed f t quiet h =
      let same = eq_iff (retry_operation_signature t) (retry_operation_signature (f t)) in
      (ground (arith, quiet t, same), ground (arith, quiet t, same))

  -- However a test is edited, as long as no edit confirms it anew: where it is still confirmed at the
  -- end, it was confirmed at the start, and its operation is the one that was confirmed.
  pub edit_all-confirmed :
      (fs : List (ScenarioTestDefinition → ScenarioTestDefinition)) (t : ScenarioTestDefinition)
      → All IsQuiet fs
      → confirmed (edit_all fs t) ≡ true
      → (confirmed t ≡ true)
        × (retry_operation_signature (edit_all fs t) ≡ retry_operation_signature t)
  unfolding edit_all
  edit_all-confirmed [] t quiet h = (h, refl)
  edit_all-confirmed (f ∷ fs) t (q, quiet) h =
      let (c, same) =
        edit_all-confirmed fs (clear_stale_idempotency_confirmation t (f t)) quiet h in
      let (c', same') = clear-confirmed f t q c in (c', same ∙ same')
