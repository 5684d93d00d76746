-- ===== src/Sync/Overlap/Sends.antt =====
-- The calls of sync-service.ts up to the `await` of the server's answer: each change that they take
-- out of the queue is in a call that waits.
use tokyo_tester.Base.{
  ℕ, ◌+◌, ◌≡◌, sym, ap, ◌∙◌, inl, inr, String, Bool, true, not, ◌||◌, List, [], ◌∷◌, take, drop,
  tally-append, take-append-drop, All, All-append, arith, Bool-cases,
}
use tokyo_tester.Queue.{dequeue_many, is_empty}
use tokyo_tester.Sync.{EntityType, SyncChange}
use tokyo_tester.Sync.Service.{
  SyncService, Env, is_nil, dequeue_matching, is_pre_run, split_matching,
}
use tokyo_tester.Sync.Service.View.{Holds}
use tokyo_tester.Sync.Service.Flushing.{taken}
use tokyo_tester.Sync.Service.Matching.{matching-Holds}
use tokyo_tester.Sync.Overlap.{first, System, begin_commit, begin_flush, begin_pre_run}
use tokyo_tester.Sync.Overlap.Counts.{of_entity, many, many_waiting-append}
use tokyo_tester.Sync.Overlap.Kept.{IsSound, Kept, begin_send-Holds}

module _ (env : Env) (t : EntityType) (i : String) where
  -- A batch that leaves the queue waits.
  begin_commit-Kept :
      (batch left xs : List SyncChange) (s : SyncService) (sys : System)
      → All IsSound sys.waiting
      → Holds s left
      → many t i xs ≡ many t i batch + many t i left
      → Kept env t i xs sys (begin_commit env batch s sys) 0
  unfolding begin_commit
  begin_commit-Kept batch left xs s sys k h e =
      let more = many_waiting-append t i sys.waiting (first batch ∷ []) in
      record {
        rest = left;
        holds = begin_send-Holds env t i batch left s h;
        sound = All-append IsSound sys.waiting (first batch ∷ []) k (tt, tt);
        none_lost = omega (arith, more, e);
        none_doubled = omega (arith, more, e);
      }

  pub same-Kept :
      (xs : List SyncChange) (sys : System) (s : SyncService)
      → All IsSound sys.waiting
      → Holds s xs
      → Kept env t i xs sys (record sys { service = s }) 0
  same-Kept xs sys s k h = record {
    rest = xs;
    holds = h;
    sound = k;
    none_lost = omega arith;
    none_doubled = omega arith;
  }

  pub many-take-drop :
      (n : ℕ) (xs : List SyncChange) → many t i xs ≡ many t i (take n xs) + many t i (drop n xs)
  many-take-drop n xs =
      ap (many t i) (sym (take-append-drop n xs))
      ∙ tally-append (of_entity t i) (take n xs) (drop n xs)

  -- What is left when nothing was taken out.
  nothing_taken :
      (batch left xs : List SyncChange)
      → is_nil batch ≡ true
      → many t i xs ≡ many t i batch + many t i left
      → many t i left ≡ many t i xs
  nothing_taken [] left xs e k = omega (arith, k)
  nothing_taken (c ∷ cs) left xs e k = cc

  pub emptied-Kept :
      (batch left xs : List SyncChange) (sys : System) (s : SyncService)
      → All IsSound sys.waiting
      → Holds s left
      → is_nil batch ≡ true
      → many t i xs ≡ many t i batch + many t i left
      → Kept env t i xs sys (record sys { service = s }) 0
  emptied-Kept batch left xs sys s k h e m = record {
    rest = left;
    holds = h;
    sound = k;
    none_lost = omega (arith, nothing_taken batch left xs e m);
    none_doubled = omega (arith, nothing_taken batch left xs e m);
  }

  pub begin_flush-Kept :
      (xs : List SyncChange) (sys : System)
      → All IsSound sys.waiting
      → Holds sys.service xs
      → Kept env t i xs sys (begin_flush env sys) 0
  unfolding begin_flush
  begin_flush-Kept xs sys k h =
      let s = sys.service in
      let (batch, left) = taken env s xs h in
      let b = (dequeue_many s.max_batch_size s.sync_queue).0 in
      let counted : many t i xs ≡ many t i b + many t i (drop s.max_batch_size xs) =
        many-take-drop s.max_batch_size xs
        ∙ ap (λ l. many t i l + many t i (drop s.max_batch_size xs)) (sym batch) in
      elim (Bool-cases (not s.enabled || is_empty s.sync_queue)) [
        | inl idle ↦ rw idle (same-Kept xs sys s k h)
        | inr going ↦ elim (Bool-cases (is_nil b)) [
          | inl empty ↦
              rw (going, empty)
                (emptied-Kept b (drop s.max_batch_size xs) xs sys _ k left empty counted)
          | inr full ↦
              rw (going, full)
                (begin_commit-Kept b (drop s.max_batch_size xs) xs _ sys k left counted)
        ]
      ]

  many-split_matching :
      (p : SyncChange → Bool) (most n : ℕ) (xs : List SyncChange)
      → many t i xs
        ≡ many t i (split_matching p most n xs).0 + many t i (split_matching p most n xs).1
  unfolding split_matching
  many-split_matching p most n [] = omega arith
  many-split_matching p most n (x ∷ xs) =
      ground (arith, many-split_matching p most (n + 1) xs, many-split_matching p most n xs)

  pub begin_pre_run-Kept :
      (xs : List SyncChange) (sys : System)
      → All IsSound sys.waiting
      → Holds sys.service xs
      → Kept env t i xs sys (begin_pre_run env sys) 0
  unfolding begin_pre_run
  begin_pre_run-Kept xs sys k h =
      let s = sys.service in
      let (batch, left, _) = matching-Holds env is_pre_run s xs h in
      let b = (dequeue_matching env is_pre_run s).0 in
      let stays = (split_matching is_pre_run s.max_batch_size 0 xs).1 in
      let counted : many t i xs ≡ many t i b + many t i stays =
        many-split_matching is_pre_run s.max_batch_size 0 xs
        ∙ ap (λ l. many t i l + many t i stays) (sym batch) in
      elim (Bool-cases (is_nil b)) [
        | inl empty ↦ rw empty (emptied-Kept b stays xs sys _ k left empty counted)
        | inr full ↦ rw full (begin_commit-Kept b stays xs _ sys k left counted)
      ]
