-- ===== src/Sync/Service/Flushing.antt =====
-- `flush` of sync-service.ts: what becomes of a batch, whatever the server answers.
use mathlib.Core.Path.{subst}
use mathlib.Core.List.{map-append}
use tokyo_tester.Base.{
  ℕ, suc, zero, ◌<◌, ◌≡◌, refl, sym, ap, ◌∙◌, ◌⊎◌, inl, inr, String, true, false, Option, none,
  some, List, [], ◌∷◌, ◌++◌, map, arith, take, drop, any, take-append-drop, Bool-cases,
  Option-cases, ◌==◌,
}
use tokyo_tester.Queue.{dequeue_many, is_empty, to_array}
use tokyo_tester.Queue.Refines.{dequeue_many-Repr, is_empty-Repr, to_array-Repr}
use tokyo_tester.Sync.{EntityType, SyncChange, SyncError, SyncBatchResponse}
use tokyo_tester.Sync.Service.{
  SyncService, Env, set_queue, as_insert, needs_repair, repair_change, missing_updates,
  repair_missing_entity_updates, rejected, is_nil, persist_queue, send_batch, requeue,
  dispatch_conflicts, conclude, retry_repaired, commit_batch, flush,
}
use tokyo_tester.Sync.Service.View.{
  settings-persist_queue, Holds, persist_queue-Holds, requeue-Holds,
}

-- Which entity a change is about.
abbrev pub entity : SyncChange → EntityType × String
entity c = (c.entity_type, c.entity_id)

entity-repair_change :
    (ks : List (EntityType × String)) (c : SyncChange) → entity (repair_change ks c) ≡ entity c
unfolding repair_change as_insert
entity-repair_change ks c = elim (Bool-cases (needs_repair ks c)) [ inl e ↦ rw e | inr e ↦ rw e ]

map-entity-repair :
    (ks : List (EntityType × String)) (cs : List SyncChange)
    → map entity (map (repair_change ks) cs) ≡ map entity cs
map-entity-repair ks [] = refl
map-entity-repair ks (c ∷ cs) = rw (entity-repair_change ks c, map-entity-repair ks cs)

-- A repaired batch is about the same entities in the same order.
pub repair-entities :
    (batch : List SyncChange) (errors : List SyncError) (repaired : List SyncChange)
    → repair_missing_entity_updates batch errors ≡ some repaired
    → map entity repaired ≡ map entity batch
unfolding repair_missing_entity_updates
repair-entities batch errors repaired e =
    elim (Bool-cases (any (needs_repair (missing_updates errors)) batch)) [
      | inl some_repair ↦
          let same : map (repair_change (missing_updates errors)) batch ≡ repaired = ground arith in
          rw (← same) (map-entity-repair (missing_updates errors) batch)
      | inr no_repair ↦ ground arith
    ]

pub is_nil-take :
    (n : ℕ) (x : SyncChange) (xs : List SyncChange) → 0 < n → is_nil (take n (x ∷ xs)) ≡ false
is_nil-take zero x xs h = absurd (omega arith)
is_nil-take (suc n) x xs h = refl

module _ (env : Env) where
  pub sync_queue-dispatch_conflicts :
      (r : SyncBatchResponse) (batch : List SyncChange) (s : SyncService)
      → (dispatch_conflicts env r batch s).sync_queue ≡ s.sync_queue
  unfolding dispatch_conflicts
  sync_queue-dispatch_conflicts r batch s = ground arith

  sync_queue-send_batch :
      (batch : List SyncChange) (s : SyncService)
      → (send_batch env batch s).0.sync_queue ≡ s.sync_queue
  unfolding send_batch
  sync_queue-send_batch batch s = ground arith

  -- The two ends of a commit: the batch is delivered, or its entities are queued in front again.
  pub record Settled (batch xs : List SyncChange) (end : SyncService × Option SyncBatchResponse)
      : Type 0 where
    pub kept :
        end.1 ≡ none
        → (ys : List SyncChange) × Holds end.0 (ys ++ xs) × (map entity ys ≡ map entity batch)
    pub delivered : (r : SyncBatchResponse) → end.1 ≡ some r → Holds end.0 xs × (rejected r ≡ false)

  requeued-Settled :
      (batch batch' xs : List SyncChange) (s : SyncService)
      → Holds s xs
      → map entity batch' ≡ map entity batch
      → Settled batch xs (requeue env batch' s, none)
  requeued-Settled batch batch' xs s h e = record {
    kept = λ _. (batch', requeue-Holds env batch' s xs h, e);
    delivered = λ r d. cc;
  }

  conclude-Settled :
      (batch batch' xs : List SyncChange) (r : SyncBatchResponse) (s : SyncService)
      → Holds s xs
      → map entity batch' ≡ map entity batch
      → Settled batch xs (conclude env batch' r s)
  unfolding conclude
  conclude-Settled batch batch' xs r s h e = elim (Bool-cases (rejected r)) [
    | inl bad ↦ rw bad (requeued-Settled batch batch' xs s h e)
    | inr good ↦ rw good (record {
      kept = λ k. cc;
      delivered = λ r' d. (
        rw (sync_queue-dispatch_conflicts r batch' s) h,
        (let same : r ≡ r' = cc in rw (← same) good),
      );
    })
  ]

  send_batch-Holds :
      (batch xs : List SyncChange) (s : SyncService)
      → Holds s xs
      → Holds (send_batch env batch s).0 xs
  send_batch-Holds batch xs s h = rw (sync_queue-send_batch batch s) h

  retry_repaired-Settled :
      (batch repaired xs : List SyncChange) (s : SyncService)
      → Holds s xs
      → map entity repaired ≡ map entity batch
      → Settled batch xs (retry_repaired env batch repaired s)
  unfolding retry_repaired
  retry_repaired-Settled batch repaired xs s h e =
      let h' = send_batch-Holds repaired xs s h in
      let s' = (send_batch env repaired s).0 in
      elim (Option-cases (send_batch env repaired s).1) [
        | inl failed ↦ rw (failed, retry_repaired) (requeued-Settled batch batch xs s' h' refl)
        | inr (r, answered) ↦
            rw (answered, retry_repaired) (conclude-Settled batch repaired xs r s' h' e)
      ]

  pub commit_batch-Settled :
      (batch xs : List SyncChange) (s : SyncService)
      → Holds s xs
      → Settled batch xs (commit_batch env batch s)
  unfolding commit_batch
  commit_batch-Settled batch xs s h =
      let h' = send_batch-Holds batch xs s h in
      let s' = (send_batch env batch s).0 in
      elim (Option-cases (send_batch env batch s).1) [
        | inl failed ↦ rw (failed, commit_batch) (requeued-Settled batch batch xs s' h' refl)
        | inr (r, answered) ↦ elim (Option-cases (repair_missing_entity_updates batch r.errors)) [
          | inl whole ↦
              rw (answered, whole, commit_batch) (conclude-Settled batch batch xs r s' h' refl)
          | inr (repaired, e) ↦
              rw (answered, e, commit_batch)
                (retry_repaired-Settled batch repaired xs s' h'
                  (repair-entities batch r.errors repaired e))
        ]
      ]

  -- What a flush takes off the queue: the batch, and the service that is left.
  pub taken :
      (s : SyncService) (xs : List SyncChange)
      → Holds s xs
      → ((dequeue_many s.max_batch_size s.sync_queue).0 ≡ take s.max_batch_size xs)
        × Holds
            (persist_queue env (set_queue (dequeue_many s.max_batch_size s.sync_queue).1 s))
            (drop s.max_batch_size xs)
  taken s xs h =
      let (batch, rest) = dequeue_many-Repr s.max_batch_size s.sync_queue xs h in
      (batch, persist_queue-Holds env _ (drop s.max_batch_size xs) rest)

  flush_idle : (s : SyncService) → Holds s [] → flush env s ≡ (s, none)
  unfolding flush
  flush_idle s h = rw (is_empty-Repr s.sync_queue [] h) (ground arith)

  flush_off : (s : SyncService) → s.enabled ≡ false → flush env s ≡ (s, none)
  unfolding flush
  flush_off s off = rw off

  pub not_empty :
      (s : SyncService) (x : SyncChange) (xs : List SyncChange)
      → Holds s (x ∷ xs)
      → is_empty s.sync_queue ≡ false
  not_empty s x xs h = is_empty-Repr s.sync_queue (x ∷ xs) h ∙ ground arith

  flush_no_room :
      (s : SyncService) (x : SyncChange) (xs : List SyncChange)
      → Holds s (x ∷ xs)
      → s.enabled ≡ true
      → s.max_batch_size ≡ 0
      → (t : SyncService) × Holds t (x ∷ xs) × (flush env s ≡ (t, none))
  unfolding flush
  flush_no_room s x xs h on no_room =
      let (batch, rest) = taken s (x ∷ xs) h in
      let t = persist_queue env (set_queue (dequeue_many s.max_batch_size s.sync_queue).1 s) in
      (
        t,
        subst (λ n. Holds t (drop n (x ∷ xs))) no_room rest,
        rw (on, not_empty s x xs h, batch ∙ ap (λ n. take n (x ∷ xs)) no_room),
      )

  pub flush-commit :
      (s : SyncService) (x : SyncChange) (xs : List SyncChange)
      → Holds s (x ∷ xs)
      → s.enabled ≡ true
      → 0 < s.max_batch_size
      → (t : SyncService) × Holds t (drop s.max_batch_size (x ∷ xs))
        × (flush env s ≡ commit_batch env (take s.max_batch_size (x ∷ xs)) t)
        × (t.enabled ≡ s.enabled)
        × (t.max_batch_size ≡ s.max_batch_size)
  unfolding flush
  flush-commit s x xs h on room =
      let (batch, rest) = taken s (x ∷ xs) h in
      let t = persist_queue env (set_queue (dequeue_many s.max_batch_size s.sync_queue).1 s) in
      let (same_on, same_max) =
        settings-persist_queue env (set_queue (dequeue_many s.max_batch_size s.sync_queue).1 s) in
      (
        t,
        rest,
        rw (on, not_empty s x xs h, batch, is_nil-take s.max_batch_size x xs room),
        same_on,
        same_max,
      )

  -- A flush leaves the items, or commits the first batch of them.
  pub flush-cases :
      (s : SyncService) (xs : List SyncChange)
      → Holds s xs
      → ((t : SyncService) × Holds t xs × (flush env s ≡ (t, none)))
        ⊎ ((t : SyncService) × Holds t (drop s.max_batch_size xs)
            × (flush env s ≡ commit_batch env (take s.max_batch_size xs) t))
  flush-cases s [] h = inl (s, h, flush_idle s h)
  flush-cases s (x ∷ xs) h = elim (Bool-cases s.enabled) [
    | inr off ↦ inl (s, h, flush_off s off)
    | inl on ↦ elim (Bool-cases (s.max_batch_size == 0)) [
      | inl no_room ↦ inl (flush_no_room s x xs h on (ground arith))
      | inr room ↦ (let (t, k, e, _, _) = flush-commit s x xs h on (ground arith) in inr (t, k, e))
    ]
  ]

  -- Where a flush returns no answer, as it does when it fails, the queue is afterwards about the same
  -- entities in the same order as before, whatever the server answered.
  pub flush-keeps :
      (s : SyncService) (xs : List SyncChange)
      → Holds s xs
      → (flush env s).1 ≡ none
      → map entity (to_array (flush env s).0.sync_queue) ≡ map entity xs
  flush-keeps s xs h failed = elim (flush-cases s xs h) [
    | inl (t, k, e) ↦ rw (e, to_array-Repr t.sync_queue xs k)
    | inr (t, k, e) ↦
        let batch = take s.max_batch_size xs in
        let rest = drop s.max_batch_size xs in
        let (ys, queued, same) =
          (commit_batch-Settled batch rest t k).kept (sym (ap (λ p. p.1) e) ∙ failed) in
        rw (e, to_array-Repr _ (ys ++ rest) queued)
          (map-append entity ys rest
            ∙ ap (λ l. l ++ map entity rest) same
            ∙ sym (map-append entity batch rest)
            ∙ ap (map entity) (take-append-drop s.max_batch_size xs))
  ]

  -- Where a flush reports success, exactly the first batch has left the queue, and the answer
  -- that it returns is a success without errors.
  pub flush-delivers :
      (s : SyncService) (xs : List SyncChange) (r : SyncBatchResponse)
      → Holds s xs
      → (flush env s).1 ≡ some r
      → (to_array (flush env s).0.sync_queue ≡ drop s.max_batch_size xs) × (rejected r ≡ false)
  flush-delivers s xs r h done = elim (flush-cases s xs h) [
    | inl (t, k, e) ↦ let no_answer : none ≡ some r = sym (ap (λ p. p.1) e) ∙ done in cc
    | inr (t, k, e) ↦
        let rest = drop s.max_batch_size xs in
        let (queued, good) =
          (commit_batch-Settled (take s.max_batch_size xs) rest t k).delivered r
            (sym (ap (λ p. p.1) e) ∙ done) in
        (rw e (to_array-Repr _ rest queued), good)
  ]
