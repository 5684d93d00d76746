-- ===== src/Sync/Tests.antt =====
-- The queue of changes of sync-service.ts on concrete changes, browsers and servers.
use tokyo_tester.Base.{◌≡◌, refl, String, true, false, none, some, List, [], ◌∷◌, drop, arith}
use tokyo_tester.Json.{obj, end}
use tokyo_tester.Queue.{to_array}
use tokyo_tester.Sync.{
  EntityType, workflow, scenario, test_result, ChangeType, insert, update, delete, SyncChange,
  SyncBatchResponse,
}
use tokyo_tester.Sync.Order.{order_sync_changes}
use tokyo_tester.Sync.Service.{
  SyncService, Env, items, new_service, is_pre_run, rejected, queue_change, persist_queue, flush,
  flush_pending, flush_pending_before_run, flush_on_page_hide, threw,
}
use tokyo_tester.Sync.Service.View.{Holds, new_service-Holds, stored_for}
use tokyo_tester.Sync.Service.Queueing.{stamped}
use tokyo_tester.Sync.Service.Flushing.{flush-delivers}
use tokyo_tester.Sync.Service.Draining.{Accepts, flush_pending-drains}
use tokyo_tester.Sync.Service.Matching.{WentOut, flush_pending_before_run-drains}
use tokyo_tester.Sync.Service.Storage.{new_service-persist_queue, flush_on_page_hide-loses}
use tokyo_tester.Sync.Timer.{SyncConfig}
use tokyo_tester.Sync.Metadata.{SyncMetadataShape}
use tokyo_tester.Sync.Overlap.{
  System, Event, queue_event, flush_event, answer_event, page_hide_event, begin_send, resume,
  run_events, step, answer, answer_at, begin_flush, begin_commit, mend, conclude_with,
}

sync : Unit {0}
unfolding new_service flush flush_pending queue_change order_sync_changes flush_on_page_hide resume
    begin_send run_events step answer answer_at begin_flush begin_commit mend conclude_with
sync = tt

abbrev change : EntityType → String → ChangeType → SyncChange
change t i k = record {
  entity_type = t;
  entity_id = i;
  change_type = k;
  content = obj end;
  client_time = "12:00";
  client_version = 0;
}

-- A result, a scenario and a new workflow, as they were queued.
abbrev three : List SyncChange
three =
    change test_result "t1" insert ∷ change scenario "s1" update ∷ change workflow "w1" insert ∷ []

abbrev accepted : SyncBatchResponse
accepted = record {
  success = true;
  processed_count = 3;
  conflicts = [];
  errors = [];
  server_version = 1;
}

-- A browser with a user and a server that accepts every batch.
abbrev pub online : Env
online = record {
  window = true;
  identity = true;
  quota = λ cs. true;
  respond = λ log batch. some accepted;
  beacon = none;
}

-- A server that does not answer.
abbrev offline : Env
offline = record {
  window = true;
  identity = true;
  quota = λ cs. true;
  respond = λ log batch. none;
  beacon = none;
}

-- A page that closes with no user.
abbrev closing : Env
closing = record {
  window = true;
  identity = false;
  quota = λ cs. true;
  respond = λ log batch. none;
  beacon = some (λ batch. true);
}

abbrev started : SyncService
started = new_service online (items three)

started-Holds : Holds started three
started-Holds = new_service-Holds online three refl

abbrev renamed : SyncChange
renamed = stamped workflow "w1" update (obj end) "12:05"

abbrev cut_off : SyncService
cut_off = new_service offline (items three)

flush-delivers_example :
    (to_array (flush online started).0.sync_queue ≡ drop started.max_batch_size three)
    × (rejected accepted ≡ false)
unfolding sync
flush-delivers_example = flush-delivers online started three accepted started-Holds refl

online-Accepts : Accepts online
online-Accepts = record { known = refl; answers = λ log batch. (accepted, refl, refl) }

-- Batches of two.
abbrev small : SyncService
small = record started { max_batch_size = 2 }

small-Holds : Holds small three
small-Holds = started-Holds

flush_pending-drains_example : to_array (flush_pending online 10 small).sync_queue ≡ []
unfolding sync
flush_pending-drains_example =
    flush_pending-drains online online-Accepts 10 small three small-Holds refl (omega arith)
      (omega arith)

flush_pending_before_run-drains_example :
    WentOut three small (flush_pending_before_run online 20 small)
unfolding sync is_pre_run
flush_pending_before_run-drains_example =
    flush_pending_before_run-drains online online-Accepts 20 small three small-Holds (omega arith)
      (omega arith)

new_service-persist_queue_example :
    to_array (new_service online (persist_queue online started).stored).sync_queue
    ≡ to_array started.sync_queue
new_service-persist_queue_example =
    new_service-persist_queue online started three refl refl started-Holds

abbrev open_page : SyncService
open_page = new_service closing (items three)

flush_on_page_hide-loses_example :
    (t : SyncService) × (flush_on_page_hide closing open_page ≡ threw t)
    × (to_array t.sync_queue ≡ drop open_page.max_batch_size three)
    × (t.stored ≡ stored_for (drop open_page.max_batch_size three))
    × (t.sent ≡ open_page.sent)
unfolding sync
flush_on_page_hide-loses_example =
    flush_on_page_hide-loses closing open_page (change test_result "t1" insert)
      (change scenario "s1" update ∷ change workflow "w1" insert ∷ []) (λ batch. true)
      (new_service-Holds closing three refl) refl refl refl refl refl (omega arith)

abbrev slow : SyncConfig
slow = record { sync_interval = 9000; max_batch_size = 50; enabled = true; auto_start = true }

abbrev fresh : SyncMetadataShape
fresh = record {
  version = 3;
  created_at = none;
  updated_at = none;
  user_id = none;
  client_id = none;
  is_deleted = false;
}

-- While the first batch waits, another change is queued and a second batch is sent; the second answer
-- comes first, and the first request fails. Then the page
-- is hidden.
abbrev crossing : List Event
crossing =
    flush_event
    ∷ queue_event workflow "w2" insert (obj end) "12:05"
    ∷ flush_event
    ∷ answer_event 1 (some accepted)
    ∷ answer_event 0 none
    ∷ page_hide_event
    ∷ []

abbrev from_small : System
from_small = record { service = small; waiting = []; delivered = []; abandoned = [] }

abbrev crossed : System
crossed = run_events online crossing from_small

-- Two batches of one change, of which the second is answered first: the first one fails, and its older
-- change is delivered after the newer one.
abbrev overtaking : List Event
overtaking =
    flush_event
    ∷ flush_event
    ∷ answer_event 1 (some accepted)
    ∷ answer_event 0 none
    ∷ flush_event
    ∷ answer_event 0 (some accepted)
    ∷ []

abbrev two_updates : System
two_updates = record {
  service =
      record (new_service online
        (items (change workflow "w1" insert ∷ change workflow "w1" delete ∷ []))) {
          max_batch_size = 1;
        };
  waiting = [];
  delivered = [];
  abandoned = [];
}

overtaken :
    (run_events online overtaking two_updates).delivered
    ≡ change workflow "w1" delete ∷ change workflow "w1" insert ∷ []
unfolding sync
overtaken = refl
