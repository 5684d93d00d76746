-- ===== src/Sync/Service.antt =====
-- ui-v2/src/modules/sync/sync-service.ts: the methods that queue changes and send them to the batch
-- endpoint. Its state is in Sync/State, the repair of a refused batch in Sync/Repair.
pub mod View
pub mod Queueing
pub mod Flushing
pub mod Draining
pub mod Matching
pub mod Storage
use tokyo_tester.Base.{
  ℕ, zero, suc, ◌+◌, ◌-◌, String, Bool, true, false, not, ◌&&◌, ◌||◌, Option, none, some, List, [],
  ◌∷◌, map, any, ltb, ◌===◌, if◌then◌else◌,
}
use tokyo_tester.Json.{JsonValue, bool, num, obj, get_field}
use tokyo_tester.Queue.{FastQueue, enqueue, unshift_many, dequeue_many, is_empty, clear, to_array}
use tokyo_tester.Sync.{
  EntityType, workflow, scenario, same_type, ChangeType, insert, SyncChange, ConflictInfo,
  SyncBatchResponse, same_entity,
}
use tokyo_tester.Sync.Order.{order_sync_changes}
pub use tokyo_tester.Sync.State.{Stored, absent, malformed, items, SyncService, Env}
unfoldable pub use tokyo_tester.Sync.State.{
  is_nil, enqueue_all, set_queue, replace_queue, persist_queue, restore_queue, new_service, requeue,
}
unfoldable pub use tokyo_tester.Sync.Repair.{
  is_insert, is_update, is_delete, as_insert, missing_updates, is_missing, needs_repair,
  repair_change, repair_missing_entity_updates,
}

-- `Number(data?.version ?? 0)`. The declared type of `version` is a number; an object, an array or a
-- text there reads as 0 here.
unfoldable pub number_of : Option JsonValue → ℕ
number_of (some (num n)) = n
number_of (some (bool true)) = 1
number_of _ = 0

unfoldable pub serialized_version : JsonValue → ℕ
unfolding number_of get_field
serialized_version (obj fs) = number_of (get_field "version" fs)
serialized_version _ = 0

-- `Math.max(0, serializedVersion - 1)` is the truncated difference.
unfoldable pub client_version : ChangeType → JsonValue → ℕ
client_version insert content = 0
client_version _ content = serialized_version content - 1

-- `PRE_RUN_SYNC_ENTITIES.has(change.entity_type)`
unfoldable pub is_pre_run : SyncChange → Bool
is_pre_run c = same_type c.entity_type workflow || same_type c.entity_type scenario

-- The scan of `dequeueMatching`: `taken` counts the changes that the batch has already.
unfoldable pub split_matching :
    (SyncChange → Bool) → ℕ → ℕ → List SyncChange → List SyncChange × List SyncChange
split_matching p most taken [] = ([], [])
split_matching p most taken (c ∷ cs) =
    let hit = p c && ltb taken most in
    let (batch, remaining) = split_matching p most (if hit then taken + 1 else taken) cs in
    if hit then (c ∷ batch, remaining) else (batch, c ∷ remaining)

-- The list with the first change of the same entity replaced, if that is an insert and the new one
-- an update.
unfoldable pub coalesce : SyncChange → List SyncChange → Option (List SyncChange)
unfolding same_entity as_insert
coalesce incoming [] = none
coalesce incoming (c ∷ cs) =
    let rest : Option (List SyncChange) = elim (coalesce incoming cs) [
      | none ↦ none
      | some l ↦ some (c ∷ l)
    ] in
    if same_entity c incoming
    then (if is_insert c.change_type && is_update incoming.change_type
        then some (as_insert incoming ∷ cs)
        else none)
    else rest

-- The first change of the entity that a conflict names.
unfoldable pub local_data_of : ConflictInfo → List SyncChange → Option JsonValue
local_data_of k [] = none
local_data_of k (c ∷ cs) =
    if same_type c.entity_type k.entity_type && c.entity_id === k.entity_id
    then some c.content
    else local_data_of k cs

unfoldable pub with_local_data : List SyncChange → ConflictInfo → ConflictInfo
unfolding local_data_of
with_local_data batch k = record k { local_data = local_data_of k batch }

abbrev pub rejected : SyncBatchResponse → Bool
rejected r = not r.success || elim r.errors [ [] ↦ false | _ ∷ _ ↦ true ]

pub has_pending_pre_run_changes : SyncService → Bool
unfolding is_pre_run to_array
has_pending_pre_run_changes s = any is_pre_run (to_array s.sync_queue)

-- `hasBlockingPreRunChanges`
unfoldable pub has_blocking_pre_run_changes : String → SyncService → Bool
unfolding to_array
has_blocking_pre_run_changes workflow_id s =
    any
      (λ c.
        same_type c.entity_type workflow
        && (c.entity_id === workflow_id && (is_insert c.change_type || is_delete c.change_type)))
      (to_array s.sync_queue)

-- What `flushOnPageHide` does: it may return or throw, with the service as it then is.
pub data Outcome : Type 0 where
  returned : Bool → SyncService → Outcome
  threw : SyncService → Outcome

module _ (env : Env) where
  -- `queueChange`: the caller's fields and the time of the call.
  unfoldable pub queue_change :
      EntityType → String → ChangeType → JsonValue → String → SyncService → SyncService
  unfolding client_version serialized_version coalesce replace_queue persist_queue enqueue
  queue_change entity_type entity_id change_type content now s =
      let change : SyncChange = record {
        entity_type = entity_type;
        entity_id = entity_id;
        change_type = change_type;
        content = content;
        client_time = now;
        client_version = client_version change_type content;
      } in
      if s.enabled
      then elim (coalesce change (to_array s.sync_queue)) [
        | some changes ↦ persist_queue env (replace_queue changes s)
        | none ↦ persist_queue env (set_queue (enqueue change s.sync_queue) s)
      ]
      else s

  -- A batch goes out in entity order; without a user or a project nothing is sent.
  unfoldable pub send_batch : List SyncChange → SyncService → SyncService × Option SyncBatchResponse
  unfolding order_sync_changes
  send_batch changes s =
      let batch = order_sync_changes changes in
      if env.identity
      then (record s { sent = batch ∷ s.sent }, env.respond s.sent batch)
      else (s, none)

  unfoldable pub dispatch_conflicts :
      SyncBatchResponse → List SyncChange → SyncService → SyncService
  unfolding with_local_data
  dispatch_conflicts response batch s = elim response.conflicts [
    | [] ↦ s
    | k ∷ ks ↦
        if env.window
        then record s { conflict_events = map (with_local_data batch) (k ∷ ks) ∷ s.conflict_events }
        else s
  ]

  -- The end of `commitBatch`, the same for a first answer and for the answer to a repaired batch.
  unfoldable pub conclude :
      List SyncChange → SyncBatchResponse → SyncService → SyncService × Option SyncBatchResponse
  unfolding requeue dispatch_conflicts
  conclude batch response s =
      if rejected response
      then (requeue env batch s, none)
      else (dispatch_conflicts response batch s, some response)

  -- The end of the second `await`: where it throws, the batch as it was is queued again.
  unfoldable pub end_retry :
      List SyncChange
      → List SyncChange
      → Option SyncBatchResponse
      → SyncService
      → SyncService × Option SyncBatchResponse
  unfolding conclude requeue
  end_retry batch repaired none s = (requeue env batch s, none)
  end_retry batch repaired (some response) s = conclude repaired response s

  -- The repaired batch is sent again.
  unfoldable pub retry_repaired :
      List SyncChange → List SyncChange → SyncService → SyncService × Option SyncBatchResponse
  unfolding send_batch conclude end_retry
  retry_repaired batch repaired s =
      let (s', answer) = send_batch repaired s in end_retry batch repaired answer s'

  -- What follows the repair, if one is made.
  unfoldable pub after_repair :
      List SyncChange
      → SyncBatchResponse
      → Option (List SyncChange)
      → SyncService
      → SyncService × Option SyncBatchResponse
  unfolding retry_repaired conclude
  after_repair batch response (some repaired) s = retry_repaired batch repaired s
  after_repair batch response none s = conclude batch response s

  unfoldable pub end_commit :
      List SyncChange
      → Option SyncBatchResponse
      → SyncService
      → SyncService × Option SyncBatchResponse
  unfolding after_repair repair_missing_entity_updates requeue
  end_commit batch none s = (requeue env batch s, none)
  end_commit batch (some response) s =
      after_repair batch response (repair_missing_entity_updates batch response.errors) s

  unfoldable pub commit_batch :
      List SyncChange → SyncService → SyncService × Option SyncBatchResponse
  unfolding retry_repaired repair_missing_entity_updates end_commit
  commit_batch batch s = let (s', answer) = send_batch batch s in end_commit batch answer s'

  unfoldable pub flush : SyncService → SyncService × Option SyncBatchResponse
  unfolding commit_batch is_empty dequeue_many
  flush s =
      if not s.enabled || is_empty s.sync_queue
      then (s, none)
      else let (batch, q) = dequeue_many s.max_batch_size s.sync_queue in
        let s' = persist_queue env (set_queue q s) in
        if is_nil batch then (s', none) else commit_batch batch s'

  -- The loop of `flushPending`, on the attempts that are left.
  unfoldable pub flush_pending : ℕ → SyncService → SyncService
  flush_pending zero s = s
  flush_pending (suc n) s =
      let (s', answer) = flush s in
      let next : SyncService = elim answer [ none ↦ s' | some _ ↦ flush_pending n s' ] in
      if is_empty s.sync_queue then s else next

  unfoldable pub dequeue_matching :
      (SyncChange → Bool) → SyncService → List SyncChange × SyncService
  unfolding split_matching replace_queue persist_queue
  dequeue_matching p s =
      let (batch, remaining) = split_matching p s.max_batch_size 0 (to_array s.sync_queue) in
      (batch, persist_queue env (replace_queue remaining s))

  -- The loop of `flushPendingBeforeRun`, on the attempts that are left.
  unfoldable pub flush_pending_before_run : ℕ → SyncService → SyncService
  flush_pending_before_run zero s = s
  flush_pending_before_run (suc n) s =
      let (batch, s') = dequeue_matching is_pre_run s in
      let (s'', answer) = commit_batch batch s' in
      let next : SyncService = elim answer [
        | none ↦ s''
        | some _ ↦ flush_pending_before_run n s''
      ] in
      if has_pending_pre_run_changes s then (if is_nil batch then s' else next) else s

  -- The batch is out of the queue and of storage when `getUserId` or `getProjectId` throws.
  unfoldable pub flush_on_page_hide : SyncService → Outcome
  unfolding is_empty dequeue_many requeue
  flush_on_page_hide s = elim env.beacon [
    | none ↦ returned false s
    | some beacon ↦
        if not s.enabled || (is_empty s.sync_queue || not env.window)
        then returned false s
        else let (batch, q) = dequeue_many s.max_batch_size s.sync_queue in
          let s' = persist_queue env (set_queue q s) in
          if is_nil batch
          then returned false s'
          else if not env.identity
          then threw s'
          else if beacon batch
          then returned true (record s' { sent = batch ∷ s'.sent })
          else returned false (requeue env batch s')
  ]

  unfoldable pub clear_queue : SyncService → SyncService
  unfolding persist_queue clear
  clear_queue s = persist_queue env (set_queue (clear s.sync_queue) s)
