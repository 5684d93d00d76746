-- ===== src/Sync/Service/Storage.antt =====
-- What the storage of the browser keeps of the service of sync-service.ts, and what a page that
-- closes loses.
use tokyo_tester.Base.{◌<◌, ◌≡◌, Bool, true, false, some, List, ◌∷◌, drop}
use tokyo_tester.Queue.{dequeue_many, to_array}
use tokyo_tester.Queue.Refines.{to_array-Repr, dequeue_many-Repr}
use tokyo_tester.Sync.{SyncChange}
use tokyo_tester.Sync.Service.{
  SyncService, Env, set_queue, persist_queue, new_service, threw, flush_on_page_hide,
}
use tokyo_tester.Sync.Service.View.{
  Holds, stored_for, new_service-Holds, stored-persist_queue, persist_queue-Holds,
  sent-persist_queue,
}
use tokyo_tester.Sync.Service.Flushing.{not_empty, is_nil-take}

module _ (env : Env) where
  -- A browser that restarts after the queue was persisted queues the same changes again.
  pub new_service-persist_queue :
      (s : SyncService) (xs : List SyncChange)
      → env.window ≡ true
      → env.quota xs ≡ true
      → Holds s xs
      → to_array (new_service env (persist_queue env s).stored).sync_queue ≡ to_array s.sync_queue
  new_service-persist_queue s xs w k h =
      rw (stored-persist_queue env s xs w k h, to_array-Repr s.sync_queue xs h)
        (to_array-Repr _ xs (new_service-Holds env xs w))

  -- Where there is no session user or no project when the page is hidden, `flushOnPageHide` throws,
  -- and the first batch of changes is in neither the queue nor storage: a restart does not find it.
  pub flush_on_page_hide-loses :
      (s : SyncService) (x : SyncChange) (xs : List SyncChange) (send : List SyncChange → Bool)
      → Holds s (x ∷ xs)
      → env.window ≡ true
      → env.quota (drop s.max_batch_size (x ∷ xs)) ≡ true
      → env.identity ≡ false
      → env.beacon ≡ some send
      → s.enabled ≡ true
      → 0 < s.max_batch_size
      → (t : SyncService) × (flush_on_page_hide env s ≡ threw t)
        × (to_array t.sync_queue ≡ drop s.max_batch_size (x ∷ xs))
        × (t.stored ≡ stored_for (drop s.max_batch_size (x ∷ xs)))
        × (t.sent ≡ s.sent)
  unfolding flush_on_page_hide
  flush_on_page_hide-loses s x xs send h w k nobody b on room =
      let (batch, rest) = dequeue_many-Repr s.max_batch_size s.sync_queue (x ∷ xs) h in
      let q = (dequeue_many s.max_batch_size s.sync_queue).1 in
      let t = persist_queue env (set_queue q s) in
      (
        t,
        rw (
          b,
          on,
          not_empty env s x xs h,
          w,
          batch,
          is_nil-take s.max_batch_size x xs room,
          nobody,
        ),
        to_array-Repr _ _
            (persist_queue-Holds env (set_queue q s) (drop s.max_batch_size (x ∷ xs)) rest),
        stored-persist_queue env (set_queue q s) _ w k rest,
        sent-persist_queue env (set_queue q s),
      )
