-- ===== src/Sync/Service/View.antt =====
-- The list of changes that a service of sync-service.ts holds, and what its storage mirrors.
use mathlib.Core.Path.{subst}
use tokyo_tester.Base.{◌≡◌, true, List, [], ◌∷◌, ◌++◌, append-nil, append_assoc, arith}
use tokyo_tester.Queue.{FastQueue, enqueue, clear}
use tokyo_tester.Queue.View.{Repr}
use tokyo_tester.Queue.Refines.{
  enqueue-Repr, clear-Repr, to_array-Repr, unshift_many-Repr, new-Repr,
}
use tokyo_tester.Sync.{SyncChange}
use tokyo_tester.Sync.Service.{
  Stored, absent, items, SyncService, Env, enqueue_all, replace_queue, persist_queue, requeue,
  restore_queue, new_service,
}

-- The queue of the service stands for these changes.
abbrev pub Holds : SyncService → List SyncChange → Type 0
Holds s xs = Repr s.sync_queue xs

pub enqueue_all-Repr :
    (cs : List SyncChange) (q : FastQueue SyncChange) (xs : List SyncChange)
    → Repr q xs
    → Repr (enqueue_all cs q) (xs ++ cs)
unfolding enqueue_all
enqueue_all-Repr [] q xs r = rw (append-nil xs) r
enqueue_all-Repr (c ∷ cs) q xs r =
    subst (Repr (enqueue_all cs (enqueue c q))) (append_assoc xs (c ∷ []) cs)
      (enqueue_all-Repr cs (enqueue c q) (xs ++ c ∷ []) (enqueue-Repr c q xs r))

pub replace_queue-Holds :
    (cs xs : List SyncChange) (s : SyncService) → Holds s xs → Holds (replace_queue cs s) cs
unfolding replace_queue
replace_queue-Holds cs xs s h =
    enqueue_all-Repr cs (clear s.sync_queue) [] (clear-Repr s.sync_queue xs h)

-- What storage should hold for these changes.
abbrev pub stored_for : List SyncChange → Stored
stored_for [] = absent
stored_for (c ∷ cs) = items (c ∷ cs)

module _ (env : Env) where
  -- Storage is written only, and the settings stay.
  pub sync_queue-persist_queue : (s : SyncService) → (persist_queue env s).sync_queue ≡ s.sync_queue
  unfolding persist_queue
  sync_queue-persist_queue s = ground arith

  pub persist_queue-Holds :
      (s : SyncService) (xs : List SyncChange) → Holds s xs → Holds (persist_queue env s) xs
  persist_queue-Holds s xs h = rw (sync_queue-persist_queue s) h

  pub requeue-Holds :
      (batch : List SyncChange) (s : SyncService) (xs : List SyncChange)
      → Holds s xs
      → Holds (requeue env batch s) (batch ++ xs)
  unfolding requeue
  requeue-Holds batch s xs h =
      persist_queue-Holds _ (batch ++ xs) (unshift_many-Repr batch s.sync_queue xs h)

  -- In a browser whose storage takes the items, what is stored is the queue.
  pub stored-persist_queue :
      (s : SyncService) (xs : List SyncChange)
      → env.window ≡ true
      → env.quota xs ≡ true
      → Holds s xs
      → (persist_queue env s).stored ≡ stored_for xs
  unfolding persist_queue
  stored-persist_queue s [] w k h = rw (to_array-Repr s.sync_queue [] h, w)
  stored-persist_queue s (c ∷ cs) w k h = rw (to_array-Repr s.sync_queue (c ∷ cs) h, w, k)

  -- A new service holds what storage holds.
  pub new_service-Holds :
      (xs : List SyncChange) → env.window ≡ true → Holds (new_service env (stored_for xs)) xs
  unfolding new_service restore_queue
  new_service-Holds [] w = rw w (new-Repr 1024 (omega arith))
  new_service-Holds (c ∷ cs) w = rw w (enqueue_all-Repr (c ∷ cs) _ [] (new-Repr 1024 (omega arith)))

  pub settings-persist_queue :
      (s : SyncService)
      → ((persist_queue env s).enabled ≡ s.enabled)
        × ((persist_queue env s).max_batch_size ≡ s.max_batch_size)
  unfolding persist_queue
  settings-persist_queue s = (ground arith, ground arith)

  pub sent-persist_queue : (s : SyncService) → (persist_queue env s).sent ≡ s.sent
  unfolding persist_queue
  sent-persist_queue s = ground arith
