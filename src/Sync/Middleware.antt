-- ===== src/Sync/Middleware.antt =====
-- ui-v2/src/modules/sync/sync-middleware.ts: the operations that a store tracks between two
-- microtasks, and the change that the microtask queues.
use tokyo_tester.Base.{
  ◌≡◌, refl, ap, ◌∙◌, String, Option, none, some, List, [], ◌∷◌, arith, any, ◌===◌, eq_iff, eq_refl,
  if◌then◌else◌,
}
use tokyo_tester.Json.{JsonValue}
use tokyo_tester.Sync.{EntityType, ChangeType, insert, update, delete}
use tokyo_tester.Sync.Service.{SyncService, Env, is_insert, is_delete, queue_change}

unfoldable pub coalesce_change_type : Option ChangeType → ChangeType → ChangeType
coalesce_change_type none incoming = incoming
coalesce_change_type (some insert) update = insert
coalesce_change_type (some delete) incoming = delete
coalesce_change_type (some _) incoming = incoming

-- `Map<string, ChangeType>`, in the order of insertion.
abbrev pub Tracker : Type 0
Tracker = List (String × ChangeType)

unfoldable pub get : String → Tracker → Option ChangeType
get i [] = none
get i ((j, k) ∷ ops) = if j === i then some k else get i ops

unfoldable pub put : String → ChangeType → Tracker → Tracker
put i k [] = (i, k) ∷ []
put i k ((j, l) ∷ ops) = if j === i then (j, k) ∷ ops else (j, l) ∷ put i k ops

unfoldable pub remove : String → Tracker → Tracker
remove i [] = []
remove i ((j, k) ∷ ops) = let rest = remove i ops in if j === i then rest else (j, k) ∷ rest

unfoldable pub track : String → ChangeType → Tracker → Tracker
unfolding get put coalesce_change_type
track i k ops = put i (coalesce_change_type (get i ops) k) ops

unfoldable pub consume : String → Tracker → Option ChangeType × Tracker
unfolding get remove
consume i ops = (get i ops, remove i ops)

-- The microtask that `syncSet` schedules. `serialized` is what `serializeEntity` gives for the latest
-- state: `none` where that is null or throws.
unfoldable pub microtask :
    Env
    → EntityType
    → String
    → Option JsonValue
    → String
    → Tracker × SyncService
    → Tracker × SyncService
microtask env t i serialized now (ops, s) =
    let (change_type, ops') = consume i ops in
    elim change_type [
      | none ↦ (ops', s)
      | some k ↦ elim serialized [
        | none ↦ (ops', s)
        | some content ↦ (ops', queue_change env t i k content now s)
      ]
    ]

pub get-put :
    (i j : String) (k : ChangeType) (ops : Tracker)
    → get j (put i k ops) ≡ (if i === j then some k else get j ops)
unfolding get put
get-put i j k [] = refl
get-put i j k ((l, m) ∷ ops) = ground (arith, eq_iff i j, eq_iff l i, eq_iff l j, get-put i j k ops)

pub get-remove :
    (i j : String) (ops : Tracker) → get j (remove i ops) ≡ (if i === j then none else get j ops)
unfolding get remove
get-remove i j [] = ground arith
get-remove i j ((l, m) ∷ ops) =
    ground (arith, eq_iff i j, eq_iff l i, eq_iff l j, get-remove i j ops)

abbrev pub track_all : String → List ChangeType → Tracker → Tracker
track_all i [] ops = ops
track_all i (k ∷ ks) ops = track_all i ks (track i k ops)

-- What a list of operations on one entity amounts to.
abbrev pub net_of : ChangeType → List ChangeType → ChangeType
net_of k ks =
    if any is_delete (k ∷ ks) then delete else if any is_insert (k ∷ ks) then insert else update

-- An operation after one that is pending.
net-step :
    (k l : ChangeType) (ks : List ChangeType)
    → net_of (coalesce_change_type (some k) l) ks ≡ net_of k (l ∷ ks)
unfolding coalesce_change_type
net-step k l ks = ground arith

get-track_self :
    (i : String) (k : ChangeType) (ops : Tracker)
    → get i (track i k ops) ≡ some (coalesce_change_type (get i ops) k)
unfolding track
get-track_self i k ops = simp (get-put, eq_refl)

track_all-pending :
    (i : String) (ks : List ChangeType) (k : ChangeType) (ops : Tracker)
    → get i ops ≡ some k
    → get i (track_all i ks ops) ≡ some (net_of k ks)
track_all-pending i [] k ops e = ground arith
track_all-pending i (l ∷ ks) k ops e =
    let tracked : get i (track i l ops) ≡ some (coalesce_change_type (some k) l) =
      get-track_self i l ops ∙ ap (λ o. some (coalesce_change_type o l)) e in
    track_all-pending i ks (coalesce_change_type (some k) l) (track i l ops) tracked
    ∙ ap some (net-step k l ks)

track_all_net :
    (i : String) (k : ChangeType) (ks : List ChangeType) (ops : Tracker)
    → get i ops ≡ none
    → get i (track_all i (k ∷ ks) ops) ≡ some (net_of k ks)
unfolding coalesce_change_type
track_all_net i k ks ops e =
    track_all-pending i ks k (track i k ops)
      (get-track_self i k ops ∙ ap (λ o. some (coalesce_change_type o k)) e)

-- The operations that a store tracks on an entity before the microtask runs are queued as one
-- change of the latest state: a delete if one of them is, else an insert if one is, else an update.
pub microtask-track_all :
    (env : Env) (t : EntityType) (i : String) (content : JsonValue) (now : String) (k : ChangeType)
    (ks : List ChangeType) (ops : Tracker) (s : SyncService)
    → get i ops ≡ none
    → (microtask env t i (some content) now (track_all i (k ∷ ks) ops, s)).1
      ≡ queue_change env t i (net_of k ks) content now s
unfolding microtask consume
microtask-track_all env t i content now k ks ops s e = rw (track_all_net i k ks ops e, microtask)

-- After the microtask nothing is pending for its entity, whatever was serialized, and the pending
-- operations of the other entities are as before.
pub get-microtask :
    (env : Env) (t : EntityType) (i j : String) (serialized : Option JsonValue) (now : String)
    (ops : Tracker) (s : SyncService)
    → get j (microtask env t i serialized now (ops, s)).0 ≡ (if i === j then none else get j ops)
unfolding microtask consume
get-microtask env t i j serialized now ops s = ground (arith, get-remove i j ops)
