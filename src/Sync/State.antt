-- ===== src/Sync/State.antt =====
-- The state of ui-v2/src/modules/sync/sync-service.ts, what is around it, and the methods that
-- move changes between the queue and the browser's storage.
--
-- A method returns the new service. What the browser and the server do is the argument `env`: an
-- `await` is a call of it, so that a method runs here with no other call in between.
use tokyo_tester.Base.{ℕ, Bool, true, false, Option, none, List, [], ◌∷◌, if◌then◌else◌}
use tokyo_tester.Queue.{FastQueue, new, enqueue, unshift_many, clear, to_array}
use tokyo_tester.Sync.{SyncChange, ConflictInfo, SyncBatchResponse}

-- The item "cots_sync_queue" of `localStorage`: absent, not JSON, or the JSON of a list.
pub data Stored : Type 0 where
  absent malformed : Stored
  items : List SyncChange → Stored

pub record SyncService : Type 0 where
  pub sync_queue : FastQueue SyncChange
  pub stored : Stored
  pub sync_interval : ℕ
  pub max_batch_size : ℕ
  -- The period of the timer that runs, if one does.
  pub timer : Option ℕ
  pub enabled : Bool
  pub flush_count : ℕ
  -- The batches sent so far and the conflict events dispatched, the last one first.
  pub sent : List (List SyncChange)
  pub conflict_events : List (List ConflictInfo)

-- What is not the program's: is there a `window`; do `getUserId` and `getProjectId` return; does
-- storage take these items; the answer to a batch after the batches sent before it, where `none`
-- stands for a time-out, a status that is not ok or a body that is not JSON; `navigator.sendBeacon`.
pub record Env : Type 0 where
  pub window : Bool
  pub identity : Bool
  pub quota : List SyncChange → Bool
  pub respond : List (List SyncChange) → List SyncChange → Option SyncBatchResponse
  pub beacon : Option (List SyncChange → Bool)

abbrev pub is_nil : List SyncChange → Bool
is_nil [] = true
is_nil _ = false

-- The loop of `replaceQueue` and of `restoreQueue`.
unfoldable pub enqueue_all : List SyncChange → FastQueue SyncChange → FastQueue SyncChange
unfolding enqueue
enqueue_all [] q = q
enqueue_all (c ∷ cs) q = enqueue_all cs (enqueue c q)

abbrev pub set_queue : FastQueue SyncChange → SyncService → SyncService
set_queue q s = record s { sync_queue = q }

unfoldable pub replace_queue : List SyncChange → SyncService → SyncService
unfolding enqueue_all clear
replace_queue changes s = set_queue (enqueue_all changes (clear s.sync_queue)) s

module _ (env : Env) where
  unfoldable pub persist_queue : SyncService → SyncService
  unfolding to_array
  persist_queue s =
      let queued = to_array s.sync_queue in
      if env.window
      then (if is_nil queued
          then record s { stored = absent }
          else if env.quota queued
          then record s { stored = items queued }
          else s)
      else s

  unfoldable pub restore_queue : SyncService → SyncService
  unfolding enqueue_all
  restore_queue s =
      if env.window
      then elim s.stored [
        | absent ↦ s
        | malformed ↦ record s { stored = absent }
        | items changes ↦ set_queue (enqueue_all changes s.sync_queue) s
      ]
      else s

  -- The constructor, where `stored` is what the browser's storage holds.
  unfoldable pub new_service : Stored → SyncService
  unfolding restore_queue new
  new_service stored = restore_queue (record {
    sync_queue = new 1024;
    stored = stored;
    sync_interval = 3000;
    max_batch_size = 100;
    timer = none;
    enabled = true;
    flush_count = 0;
    sent = [];
    conflict_events = [];
  })

  unfoldable pub requeue : List SyncChange → SyncService → SyncService
  unfolding persist_queue unshift_many
  requeue batch s = persist_queue (set_queue (unshift_many batch s.sync_queue) s)
