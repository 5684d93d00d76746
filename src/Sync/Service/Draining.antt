-- ===== src/Sync/Service/Draining.antt =====
-- `flushPending` of sync-service.ts against a server that accepts what it is sent.
use mathlib.Core.Path.{subst}
use tokyo_tester.Base.{
  ℕ, zero, suc, ◌*◌, ◌≤◌, ◌<◌, ◌≡◌, refl, ap, ◌∙◌, true, false, none, some, List, [], ◌∷◌, arith,
  length, take, drop, any, length-drop,
}
use tokyo_tester.Queue.{is_empty, to_array}
use tokyo_tester.Queue.Refines.{is_empty-Repr, to_array-Repr}
use tokyo_tester.Sync.{SyncChange, SyncBatchResponse}
use tokyo_tester.Sync.Order.{order_sync_changes}
use tokyo_tester.Sync.Service.{
  SyncService, Env, needs_repair, missing_updates, repair_missing_entity_updates, rejected,
  send_batch, dispatch_conflicts, conclude, commit_batch, flush, flush_pending,
}
use tokyo_tester.Sync.Service.View.{Holds}
use tokyo_tester.Sync.Service.Flushing.{not_empty, flush-commit, commit_batch-Settled}

-- There are a user and a project, and the server answers every batch with a success.
pub record Accepts (env : Env) : Type 0 where
  pub known : env.identity ≡ true
  pub answers :
      (log : List (List SyncChange)) (batch : List SyncChange)
      → (r : SyncBatchResponse) × (env.respond log batch ≡ some r) × (rejected r ≡ false)

any-needs_repair_nil : (cs : List SyncChange) → any (needs_repair []) cs ≡ false
unfolding needs_repair
any-needs_repair_nil [] = refl
any-needs_repair_nil (c ∷ cs) = ground (arith, any-needs_repair_nil cs)

repair_no_errors :
    (batch : List SyncChange) (r : SyncBatchResponse)
    → rejected r ≡ false
    → repair_missing_entity_updates batch r.errors ≡ none
unfolding repair_missing_entity_updates missing_updates
repair_no_errors batch r good =
    let clean : r.errors ≡ [] = ground arith in rw (clean, any-needs_repair_nil batch)

-- A later service with the settings of an earlier one.
abbrev pub SameSettings : SyncService → SyncService → Type 0
SameSettings s t = (t.enabled ≡ s.enabled) × (t.max_batch_size ≡ s.max_batch_size)

module _ (env : Env) where
  settings-dispatch_conflicts :
      (r : SyncBatchResponse) (batch : List SyncChange) (s : SyncService)
      → SameSettings s (dispatch_conflicts env r batch s)
  unfolding dispatch_conflicts
  settings-dispatch_conflicts r batch s = (ground arith, ground arith)

  sent-dispatch_conflicts :
      (r : SyncBatchResponse) (batch : List SyncChange) (s : SyncService)
      → (dispatch_conflicts env r batch s).sent ≡ s.sent
  unfolding dispatch_conflicts
  sent-dispatch_conflicts r batch s = ground arith

  pub commit_batch_accepted :
      Accepts env
      → (batch : List SyncChange) (s : SyncService)
      → (t : SyncService) × (r : SyncBatchResponse) × (commit_batch env batch s ≡ (t, some r))
        × (SameSettings s t × (t.sent ≡ order_sync_changes batch ∷ s.sent))
  unfolding commit_batch send_batch conclude
  commit_batch_accepted a batch s =
      let (r, answered, good) = a.answers s.sent (order_sync_changes batch) in
      let s' = record s { sent = order_sync_changes batch ∷ s.sent } in
      (
        dispatch_conflicts env r batch s',
        r,
        rw (a.known, answered, repair_no_errors batch r good, good),
        (settings-dispatch_conflicts r batch s', sent-dispatch_conflicts r batch s'),
      )

  flush_accepted :
      Accepts env
      → (s : SyncService) (x : SyncChange) (xs : List SyncChange) → Holds s (x ∷ xs)
      → s.enabled ≡ true
      → 0 < s.max_batch_size
      → (t : SyncService) × (r : SyncBatchResponse) × (flush env s ≡ (t, some r))
        × Holds t (drop s.max_batch_size (x ∷ xs))
        × SameSettings s t
  flush_accepted a s x xs h on room =
      let (u, queued, e, on_u, max_u) = flush-commit env s x xs h on room in
      let batch = take s.max_batch_size (x ∷ xs) in
      let rest = drop s.max_batch_size (x ∷ xs) in
      let (t, r, done, (same, _)) = commit_batch_accepted a batch u in
      let (delivered, _) =
        (commit_batch-Settled env batch rest u queued).delivered r (ap (λ p. p.1) done) in
      (t, r, e ∙ done, subst (λ p. Holds p.0 rest) done delivered, (same.0 ∙ on_u, same.1 ∙ max_u))

  flush_pending-suc :
      (n : ℕ) (s t : SyncService) (r : SyncBatchResponse)
      → is_empty s.sync_queue ≡ false
      → flush env s ≡ (t, some r)
      → flush_pending env (suc n) s ≡ flush_pending env n t
  unfolding flush_pending
  flush_pending-suc n s t r more e = ground arith

  -- Against a server that accepts every batch, `flushPending` empties the queue of an enabled service
  -- where the attempts it is given are enough for the batches that the changes make.
  pub flush_pending-drains :
      Accepts env
      → (n : ℕ) (s : SyncService) (xs : List SyncChange) → Holds s xs
      → s.enabled ≡ true
      → 0 < s.max_batch_size
      → length xs ≤ n * s.max_batch_size
      → to_array (flush_pending env n s).sync_queue ≡ []
  unfolding flush_pending
  flush_pending-drains a zero s [] h on room enough = to_array-Repr s.sync_queue [] h
  flush_pending-drains a zero s (x ∷ xs) h on room enough = absurd (omega arith)
  flush_pending-drains a (suc n) s [] h on room enough =
      rw (is_empty-Repr s.sync_queue [] h) (to_array-Repr s.sync_queue [] h)
  flush_pending-drains a (suc n) s (x ∷ xs) h on room enough =
      let (t, r, e, h', same) = flush_accepted a s x xs h on room in
      rw (flush_pending-suc n s t r (not_empty env s x xs h) e) (
        flush_pending-drains a n t (drop s.max_batch_size (x ∷ xs)) h' (same.0 ∙ on)
          (rw same.1 room) (rw same.1 (omega (arith, length-drop s.max_batch_size (x ∷ xs)))))
