-- ===== src/Queue/Tests.antt =====
-- Runs of the queue of fast-queue.ts on concrete calls.
use tokyo_tester.Base.{ℕ, ◌≡◌, List, [], ◌∷◌, arith}
use tokyo_tester.Queue.{new, to_array}
use tokyo_tester.Queue.Runs.{
  Call, enqueue_call, unshift_call, unshift_many_call, dequeue_call, dequeue_many_call, run,
  run_list, run-to_array,
}

-- The buffer of two slots wraps and grows twice.
abbrev calls : List (Call ℕ)
calls =
    enqueue_call 1
    ∷ enqueue_call 2
    ∷ dequeue_call
    ∷ enqueue_call 3
    ∷ enqueue_call 4
    ∷ unshift_call 5
    ∷ unshift_many_call (6 ∷ 7 ∷ [])
    ∷ dequeue_many_call 2
    ∷ []

run-to_array_example :
    ((run calls (new 2)).0 ≡ (run_list calls []).0)
    × (to_array (run calls (new 2)).1 ≡ (run_list calls []).1)
run-to_array_example = run-to_array calls 2 (omega arith)
