-- ===== src/Stores/Draining.antt =====
-- The microtasks of a store, syncMiddleware in ui-v2/src/modules/sync/sync-middleware.ts, when all of
-- them have run.
use tokyo_tester.Base.{
  ◌≡◌, refl, sym, ap, ◌∙◌, String, Bool, true, false, not, ◌||◌, Option, none, some, List, [], ◌∷◌,
  ◌++◌, any, filter, ◌===◌, eq_iff, arith, if◌then◌else◌,
}
use tokyo_tester.Json.{JsonValue}
use tokyo_tester.Sync.{ChangeType}
use tokyo_tester.Sync.Middleware.{Tracker, get, remove, get-remove, consume, microtask}
use tokyo_tester.Sync.Service.{SyncService, Env, queue_change}
use tokyo_tester.Stores.{Options, schedule, drain}

-- The first occurrence of each text.
abbrev pub once : List String → List String
once [] = []
once (i ∷ is) = i ∷ filter (λ j. not (j === i)) (once is)

abbrev pub change_with :
    String → Option ChangeType → Option JsonValue → List (String × (ChangeType × JsonValue))
change_with i none content = []
change_with i (some k) none = []
change_with i (some k) (some content) = (i, (k, content)) ∷ []

module _ {S : Type 0} (env : Env) (o : Options S) (now : String) (st : S) where
  -- The change of each of these entities that has a tracked operation and can be serialized.
  abbrev pub changes_of : Tracker → List String → List (String × (ChangeType × JsonValue))
  changes_of ops [] = []
  changes_of ops (i ∷ is) = change_with i (get i ops) (o.serialize_entity st i) ++ changes_of ops is

  abbrev pub queue_all : List (String × (ChangeType × JsonValue)) → SyncService → SyncService
  queue_all [] s = s
  queue_all ((i, (k, content)) ∷ cs) s =
      queue_all cs (queue_change env o.entity_type i k content now s)

  changes_of-remove :
      (i : String) (ops : Tracker) (js : List String)
      → changes_of (remove i ops) js ≡ changes_of ops (filter (λ j. not (j === i)) js)
  changes_of-remove i ops [] = refl
  changes_of-remove i ops (j ∷ js) =
      ground (arith, get-remove i j ops, eq_iff i j, eq_iff j i, changes_of-remove i ops js)

  queue_all-change_with :
      (i : String) (k : Option ChangeType) (content : Option JsonValue)
      (cs : List (String × (ChangeType × JsonValue))) (s : SyncService)
      → queue_all (change_with i k content ++ cs) s
        ≡ queue_all cs (queue_all (change_with i k content) s)
  queue_all-change_with i none content cs s = refl
  queue_all-change_with i (some k) none cs s = refl
  queue_all-change_with i (some k) (some content) cs s = refl

  microtask_queues :
      (i : String) (ops : Tracker) (s : SyncService)
      → microtask env o.entity_type i (o.serialize_entity st i) now (ops, s)
        ≡ (remove i ops, queue_all (change_with i (get i ops) (o.serialize_entity st i)) s)
  unfolding microtask consume
  microtask_queues i ops s = ground arith

  -- (statement below)
  pub drain-queue_all :
      (is : List String) (ops : Tracker) (s : SyncService)
      → (drain env o now st is (ops, s)).1 ≡ queue_all (changes_of ops (once is)) s
  unfolding drain
  drain-queue_all [] ops s = refl
  drain-queue_all (i ∷ is) ops s =
      ap (λ p. (drain env o now st is p).1) (microtask_queues i ops s)
      ∙ drain-queue_all is (remove i ops) _
      ∙ ap (λ cs. queue_all cs (queue_all (change_with i (get i ops) (o.serialize_entity st i)) s))
          (changes_of-remove i ops (once is))
      ∙ sym (queue_all-change_with i (get i ops) (o.serialize_entity st i) _ s)

  pub get-drain :
      (j : String) (is : List String) (ops : Tracker) (s : SyncService)
      → get j (drain env o now st is (ops, s)).0
        ≡ (if any (λ i. i === j) is then none else get j ops)
  unfolding drain
  get-drain j [] ops s = refl
  get-drain j (i ∷ is) ops s =
      ap (λ p. get j (drain env o now st is p).0) (microtask_queues i ops s)
      ∙ get-drain j is (remove i ops) _
      ∙ ground (arith, get-remove i j ops)

-- The change of an entity.
abbrev pub change_of :
    String → List (String × (ChangeType × JsonValue)) → Option (ChangeType × JsonValue)
change_of j [] = none
change_of j ((i, c) ∷ cs) = let rest = change_of j cs in if i === j then some c else rest

abbrev pub waits : String → List String → Bool
waits j is = any (λ i. i === j) is

pub waits-append :
    (j : String) (is js : List String) → waits j (is ++ js) ≡ (waits j is || waits j js)
waits-append j [] js = refl
waits-append j (i ∷ is) js = ground (arith, waits-append j is js)

pub waits-schedule_self :
    (i j : String) (is : List String)
    → j === "" ≡ false
    → i === j ≡ true
    → waits j (schedule (some i) is) ≡ true
waits-schedule_self i j is n h = ground (arith, waits-append j is (i ∷ []), eq_iff i j)

waits-filter :
    (i j : String) (is : List String)
    → i === j ≡ false
    → waits j (filter (λ l. not (l === i)) is) ≡ waits j is
waits-filter i j [] n = refl
waits-filter i j (l ∷ is) n =
    ground (arith, eq_iff l i, eq_iff l j, eq_iff i j, waits-filter i j is)

waits-once : (j : String) (is : List String) → waits j (once is) ≡ waits j is
waits-once j [] = refl
waits-once j (i ∷ is) = ground (arith, waits-filter i j (once is), waits-once j is)

module _ {S : Type 0} (env : Env) (o : Options S) (now : String) (st : S) where
  change_of-changes_of :
      (j : String) (k : ChangeType) (content : JsonValue) (ops : Tracker) (is : List String)
      → get j ops ≡ some k
      → o.serialize_entity st j ≡ some content
      → waits j is ≡ true
      → change_of j (changes_of env o now st ops is) ≡ some (k, content)
  change_of-changes_of j k content ops [] e f h = cc
  change_of-changes_of j k content ops (i ∷ is) e f h =
      ground (arith, eq_iff i j, change_of-changes_of j k content ops is)

  -- A tracked entity that waits is queued once, as its tracked operation and with its content.
  pub change_of-once :
      (j : String) (k : ChangeType) (content : JsonValue) (ops : Tracker) (is : List String)
      → get j ops ≡ some k
      → o.serialize_entity st j ≡ some content
      → waits j is ≡ true
      → change_of j (changes_of env o now st ops (once is)) ≡ some (k, content)
  change_of-once j k content ops is e f h =
      change_of-changes_of j k content ops (once is) e f (waits-once j is ∙ h)
