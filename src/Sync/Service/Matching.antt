-- ===== src/Sync/Service/Matching.antt =====
-- `dequeueMatching` and `flushPendingBeforeRun` of sync-service.ts.
use mathlib.Core.Path.{subst}
use tokyo_tester.Base.{
  ℕ, zero, suc, ◌+◌, ◌*◌, ◌≤◌, ◌<◌, ◌≡◌, refl, sym, ap, ◌∙◌, inl, inr, Bool, true, false, not, some,
  List, [], ◌∷◌, ◌++◌, arith, length, take, drop, any, filter, length-drop, take-append-drop, ltb,
  Bool-cases, List-cases,
}
use tokyo_tester.Queue.{to_array}
use tokyo_tester.Queue.Refines.{to_array-Repr}
use tokyo_tester.Sync.{SyncChange, SyncBatchResponse}
use tokyo_tester.Sync.Order.{order_sync_changes}
use tokyo_tester.Sync.Service.{
  SyncService, Env, is_pre_run, split_matching, replace_queue, is_nil, persist_queue,
  has_pending_pre_run_changes, dequeue_matching, commit_batch, flush_pending_before_run,
}
use tokyo_tester.Sync.Service.View.{
  Holds, replace_queue-Holds, persist_queue-Holds, settings-persist_queue, sent-persist_queue,
}
use tokyo_tester.Sync.Service.Flushing.{commit_batch-Settled, is_nil-take}
use tokyo_tester.Sync.Service.Draining.{Accepts, commit_batch_accepted}

-- The two parts of a scan that has `room` places left for its batch.
pub record Splits (p : SyncChange → Bool) (room : ℕ) (cs : List SyncChange)
    (parts : List SyncChange × List SyncChange) : Type 0 where
  pub batch : parts.0 ≡ take room (filter p cs)
  pub later : filter p parts.1 ≡ drop room (filter p cs)
  pub others : filter (λ c. not (p c)) parts.1 ≡ filter (λ c. not (p c)) cs

-- `taken` changes are in the batch, and `room` more fit.
split_matching-Splits :
    (p : SyncChange → Bool) (most taken room : ℕ) (cs : List SyncChange)
    → most ≡ taken + room
    → Splits p room cs (split_matching p most taken cs)
unfolding split_matching
split_matching-Splits p most taken zero [] e = record { batch = refl; later = refl; others = refl }
split_matching-Splits p most taken (suc room) [] e = record {
  batch = refl;
  later = refl;
  others = refl;
}
split_matching-Splits p most taken zero (c ∷ cs) e =
    let full : ltb taken most ≡ false = ground arith in
    let s = split_matching-Splits p most taken zero cs e in
    elim (Bool-cases (p c)) [
      | inl hit ↦
          rw (full, hit)
            (record {
              batch = s.batch;
              later = ground (arith, hit, s.later);
              others = ground (arith, hit, s.others);
            })
      | inr miss ↦ rw miss (record {
        batch = ground (arith, miss, s.batch);
        later = ground (arith, miss, s.later);
        others = ground (arith, miss, s.others);
      })
    ]
split_matching-Splits p most taken (suc room) (c ∷ cs) e =
    let free : ltb taken most ≡ true = ground arith in
    elim (Bool-cases (p c)) [
      | inl hit ↦
          let s = split_matching-Splits p most (taken + 1) room cs (omega arith) in
          rw (free, hit)
            (record {
              batch = ground (arith, hit, s.batch);
              later = ground (arith, hit, s.later);
              others = ground (arith, hit, s.others);
            })
      | inr miss ↦
          let s = split_matching-Splits p most taken (suc room) cs e in
          rw miss (record {
            batch = ground (arith, miss, s.batch);
            later = ground (arith, miss, s.later);
            others = ground (arith, miss, s.others);
          })
    ]

nil_of_length : (l : List SyncChange) → length l ≤ 0 → l ≡ []
nil_of_length [] h = refl
nil_of_length (x ∷ l) h = absurd (omega arith)

-- A test that nothing passes.
module _ (p : SyncChange → Bool) where
  any_none : (xs : List SyncChange) → filter p xs ≡ [] → any p xs ≡ false
  any_none [] e = refl
  any_none (x ∷ xs) e = ground (arith, any_none xs)

  any_some : (xs ys : List SyncChange) (y : SyncChange) → filter p xs ≡ y ∷ ys → any p xs ≡ true
  any_some [] ys y e = cc
  any_some (x ∷ xs) ys y e = ground (arith, any_some xs ys y)

  filter-not_none : (xs : List SyncChange) → filter p xs ≡ [] → filter (λ c. not (p c)) xs ≡ xs
  filter-not_none [] e = refl
  filter-not_none (x ∷ xs) e = ground (arith, filter-not_none xs)

-- The changes of the batches.
abbrev pub in_all : List (List SyncChange) → List SyncChange
in_all [] = []
in_all (b ∷ bs) = b ++ in_all bs

-- The requests with these batches behind earlier ones, the last request first.
abbrev pub sent_after : List (List SyncChange) → List (List SyncChange) → List (List SyncChange)
sent_after [] log = log
sent_after (b ∷ bs) log = sent_after bs (order_sync_changes b ∷ log)

-- The matching changes went out in batches, and the others wait.
abbrev pub WentOut : List SyncChange → SyncService → SyncService → Type 0
WentOut xs s t =
    (to_array t.sync_queue ≡ filter (λ c. not (is_pre_run c)) xs)
    × ((bs : List (List SyncChange)) × ((in_all bs ≡ filter is_pre_run xs)
          × (t.sent ≡ sent_after bs s.sent)))

module _ (env : Env) where
  pub matching-Holds :
      (p : SyncChange → Bool) (s : SyncService) (xs : List SyncChange)
      → Holds s xs
      → ((dequeue_matching env p s).0 ≡ (split_matching p s.max_batch_size 0 xs).0)
        × Holds (dequeue_matching env p s).1 (split_matching p s.max_batch_size 0 xs).1
        × (((dequeue_matching env p s).1.max_batch_size ≡ s.max_batch_size)
            × ((dequeue_matching env p s).1.sent ≡ s.sent))
  unfolding dequeue_matching
  matching-Holds p s xs h =
      let e = to_array-Repr s.sync_queue xs h in
      let rest = (split_matching p s.max_batch_size 0 xs).1 in
      (
        ap (λ l. (split_matching p s.max_batch_size 0 l).0) e,
        subst
            (λ l.
              Holds (persist_queue env (replace_queue (split_matching p s.max_batch_size 0 l).1 s))
                rest)
            (sym e)
            (persist_queue-Holds env (replace_queue rest s) rest (replace_queue-Holds rest xs s h)),
        (
          (settings-persist_queue env
              (replace_queue (split_matching p s.max_batch_size 0 (to_array s.sync_queue)).1 s)).1,
          sent-persist_queue env
              (replace_queue (split_matching p s.max_batch_size 0 (to_array s.sync_queue)).1 s),
        ),
      )

  -- The changes that fit the test leave the queue in their order, up to the size of a batch; the
  -- rest of them stays, and so do all other changes, each in its order.
  pub dequeue_matching-Splits :
      (p : SyncChange → Bool) (s : SyncService) (xs : List SyncChange)
      → Holds s xs
      → Splits p s.max_batch_size xs
          ((dequeue_matching env p s).0, to_array (dequeue_matching env p s).1.sync_queue)
  dequeue_matching-Splits p s xs h =
      let (batch, rest, _) = matching-Holds p s xs h in
      rw (batch, to_array-Repr _ _ rest)
        (split_matching-Splits p s.max_batch_size 0 s.max_batch_size xs (omega arith))

  flush_pending_before_run_idle :
      (n : ℕ) (s : SyncService) (xs : List SyncChange)
      → Holds s xs
      → filter is_pre_run xs ≡ []
      → flush_pending_before_run env n s ≡ s
  unfolding flush_pending_before_run has_pending_pre_run_changes
  flush_pending_before_run_idle zero s xs h e = refl
  flush_pending_before_run_idle (suc n) s xs h e =
      rw (to_array-Repr s.sync_queue xs h, any_none is_pre_run xs e)

  pending :
      (s : SyncService) (xs : List SyncChange)
      → Holds s xs
      → any is_pre_run xs ≡ true
      → has_pending_pre_run_changes s ≡ true
  unfolding has_pending_pre_run_changes
  pending s xs h found = rw (to_array-Repr s.sync_queue xs h) found

  flush_pending_before_run-suc :
      (n : ℕ) (s t : SyncService) (r : SyncBatchResponse) (xs : List SyncChange)
      → Holds s xs
      → any is_pre_run xs ≡ true
      → is_nil (dequeue_matching env is_pre_run s).0 ≡ false
      → commit_batch env (dequeue_matching env is_pre_run s).0 (dequeue_matching env is_pre_run s).1
        ≡ (t, some r)
      → flush_pending_before_run env (suc n) s ≡ flush_pending_before_run env n t
  unfolding flush_pending_before_run
  flush_pending_before_run-suc n s t r xs h found more e = ground (arith, pending s xs h found)

  -- One round of the loop delivers a batch of workflow and scenario changes.
  pre_run_round :
      Accepts env
      → (s : SyncService) (xs : List SyncChange) (y : SyncChange) (ys : List SyncChange)
      → Holds s xs
      → 0 < s.max_batch_size
      → filter is_pre_run xs ≡ y ∷ ys
      → (t : SyncService) × Holds t (split_matching is_pre_run s.max_batch_size 0 xs).1
        × (t.max_batch_size ≡ s.max_batch_size)
        × (t.sent ≡ order_sync_changes (take s.max_batch_size (filter is_pre_run xs)) ∷ s.sent)
        × ((n : ℕ) → flush_pending_before_run env (suc n) s ≡ flush_pending_before_run env n t)
  pre_run_round a s xs y ys h room e =
      let (batch, rest, (max_u, sent_u)) = matching-Holds is_pre_run s xs h in
      let parts =
        split_matching-Splits is_pre_run s.max_batch_size 0 s.max_batch_size xs (omega arith) in
      let first = (dequeue_matching env is_pre_run s).0 in
      let u = (dequeue_matching env is_pre_run s).1 in
      let (t, r, done, (same, out)) = commit_batch_accepted env a first u in
      let end = commit_batch-Settled env first _ u rest in
      let (delivered, _) = end.delivered r (ap (λ p. p.1) done) in
      let more : is_nil first ≡ false =
        ap is_nil (batch ∙ parts.batch ∙ ap (take s.max_batch_size) e)
        ∙ is_nil-take s.max_batch_size y ys room in
      (
        t,
        subst (λ p. Holds p.0 (split_matching is_pre_run s.max_batch_size 0 xs).1) done delivered,
        same.1 ∙ max_u,
        out
            ∙ ap (λ b. order_sync_changes b ∷ u.sent) (batch ∙ parts.batch)
            ∙ ap (λ log. order_sync_changes (take s.max_batch_size (filter is_pre_run xs)) ∷ log)
                sent_u,
        λ n. flush_pending_before_run-suc n s t r xs h (any_some is_pre_run xs ys y e) more done,
      )

  pre_run_idle :
      (n : ℕ) (s : SyncService) (xs : List SyncChange)
      → Holds s xs
      → filter is_pre_run xs ≡ []
      → WentOut xs s (flush_pending_before_run env n s)
  pre_run_idle n s xs h e =
      rw (flush_pending_before_run_idle n s xs h e) (
        to_array-Repr s.sync_queue xs h ∙ sym (filter-not_none is_pre_run xs e),
        ([], (sym e, refl)),
      )

  -- Against a server that accepts every batch, and with attempts enough for the batches that they
  -- make, `flushPendingBeforeRun` sends all workflow and scenario changes: cut into batches, they are
  -- in their order the batches of the requests that it makes, each put in order by
  -- `orderSyncChanges`, and it makes no other request. All other changes stay queued in their order.
  pub flush_pending_before_run-drains :
      Accepts env
      → (n : ℕ) (s : SyncService) (xs : List SyncChange) → Holds s xs
      → 0 < s.max_batch_size
      → length (filter is_pre_run xs) ≤ n * s.max_batch_size
      → WentOut xs s (flush_pending_before_run env n s)
  flush_pending_before_run-drains a zero s xs h room enough =
      pre_run_idle zero s xs h (nil_of_length (filter is_pre_run xs) (omega arith))
  flush_pending_before_run-drains a (suc n) s xs h room enough =
      elim (List-cases (filter is_pre_run xs)) [
        | inl e ↦ pre_run_idle (suc n) s xs h e
        | inr (y, ys, e) ↦
            let parts =
              split_matching-Splits is_pre_run s.max_batch_size 0 s.max_batch_size xs
                (omega arith) in
            let hits = filter is_pre_run xs in
            let (t, rest, same_max, out, next) = pre_run_round a s xs y ys h room e in
            let (queue, (bs, (all_sent, log))) =
              flush_pending_before_run-drains a n t
                (split_matching is_pre_run s.max_batch_size 0 xs).1 rest (rw same_max room)
                (rw (same_max, parts.later) (omega (arith, length-drop s.max_batch_size hits))) in
            rw (next n) (
              queue ∙ parts.others,
              (
                take s.max_batch_size hits ∷ bs,
                (
                  ap (λ l. take s.max_batch_size hits ++ l) (all_sent ∙ parts.later)
                      ∙ take-append-drop s.max_batch_size hits,
                  log ∙ ap (sent_after bs) out,
                ),
              ),
            )
      ]
