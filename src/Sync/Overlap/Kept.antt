-- ===== src/Sync/Overlap/Kept.antt =====
-- No step of the overlapping calls of sync-service.ts loses or doubles a change.
use mathlib.Core.Path.{subst}
use tokyo_tester.Base.{
  ℕ, suc, zero, ◌+◌, ◌≤◌, ◌≡◌, refl, inl, inr, String, Option, none, some, List, [], ◌∷◌, ◌++◌, map,
  get_elem?, take, drop, tally-append, All, arith, Bool-cases,
}
use tokyo_tester.Sync.{EntityType, SyncChange, SyncBatchResponse}
use tokyo_tester.Sync.Service.{SyncService, Env, rejected, requeue, repair_missing_entity_updates}
use tokyo_tester.Sync.Service.View.{Holds, requeue-Holds}
use tokyo_tester.Sync.Service.Flushing.{entity, repair-entities, sync_queue-dispatch_conflicts}
use tokyo_tester.Sync.Overlap.{
  Waiting, first, second, System, Finish, begin_send, conclude_with, mend, resume,
}
use tokyo_tester.Sync.Overlap.Counts.{of_entity, many, many_waiting, batch_of, many-entities}

-- A repaired batch is about the entities of the batch that it repairs.
abbrev pub IsSound : Waiting → Type 0
IsSound (first batch) = Unit
IsSound (second batch repaired) = map entity repaired ≡ map entity batch

module _ (env : Env) (t : EntityType) (i : String) where
  abbrev pub total : List SyncChange → System → ℕ
  total xs sys =
      many t i xs
      + (many_waiting t i sys.waiting + (many t i sys.delivered + many t i sys.abandoned))

  -- From a system whose queue holds `xs` to a later one, in which `extra` changes of the entity
  -- are new.
  pub record Kept (xs : List SyncChange) (before after : System) (extra : ℕ) : Type 0 where
    pub rest : List SyncChange
    pub holds : Holds after.service rest
    pub sound : All IsSound after.waiting
    pub none_lost : total xs before + extra ≤ total rest after
    pub none_doubled : total rest after ≤ total xs before + extra

  sync_queue-begin_send :
      (cs : List SyncChange) (s : SyncService) → (begin_send env cs s).sync_queue ≡ s.sync_queue
  unfolding begin_send
  sync_queue-begin_send cs s = ground arith

  pub begin_send-Holds :
      (cs xs : List SyncChange) (s : SyncService) → Holds s xs → Holds (begin_send env cs s) xs
  begin_send-Holds cs xs s h = rw (sync_queue-begin_send cs s) h

  -- What going on with a call leaves, of the changes that it held and those in the queue.
  pub record Goes (w : Waiting) (xs : List SyncChange) (f : Finish) : Type 0 where
    pub left : List SyncChange
    pub holds : Holds f.service left
    pub sound : All IsSound f.more
    pub counts :
        many t i left + (many_waiting t i f.more + many t i f.done)
        ≡ many t i xs + many t i (batch_of w)

  requeue-Goes :
      (w : Waiting) (batch xs : List SyncChange) (s : SyncService)
      → Holds s xs
      → many t i batch ≡ many t i (batch_of w)
      → Goes w xs (record { service = requeue env batch s; more = []; done = [] })
  requeue-Goes w batch xs s h e = record {
    left = batch ++ xs;
    holds = requeue-Holds env batch s xs h;
    sound = tt;
    counts = omega (arith, tally-append (of_entity t i) batch xs, e);
  }

  conclude_with-Goes :
      (w : Waiting) (batch xs : List SyncChange) (r : SyncBatchResponse) (s : SyncService)
      → Holds s xs
      → many t i batch ≡ many t i (batch_of w)
      → Goes w xs (conclude_with env batch r s)
  unfolding conclude_with
  conclude_with-Goes w batch xs r s h e = elim (Bool-cases (rejected r)) [
    | inl bad ↦ rw bad (requeue-Goes w batch xs s h e)
    | inr good ↦ rw good (record {
      left = xs;
      holds = rw (sync_queue-dispatch_conflicts env r batch s) h;
      sound = tt;
      counts = omega (arith, e);
    })
  ]

  mend-Goes :
      (batch xs : List SyncChange) (r : SyncBatchResponse) (m : Option (List SyncChange))
      (s : SyncService)
      → Holds s xs
      → ((repaired : List SyncChange) → m ≡ some repaired → map entity repaired ≡ map entity batch)
      → Goes (first batch) xs (mend env batch r m s)
  unfolding mend
  mend-Goes batch xs r none s h e = conclude_with-Goes (first batch) batch xs r s h refl
  mend-Goes batch xs r (some repaired) s h e = record {
    left = xs;
    holds = begin_send-Holds repaired xs s h;
    sound = (e repaired refl, tt);
    counts = omega arith;
  }

  pub resume-Goes :
      (w : Waiting) (a : Option SyncBatchResponse) (xs : List SyncChange) (s : SyncService)
      → IsSound w
      → Holds s xs
      → Goes w xs (resume env w a s)
  unfolding resume
  resume-Goes (first batch) none xs s k h = requeue-Goes (first batch) batch xs s h refl
  resume-Goes (first batch) (some r) xs s k h =
      mend-Goes batch xs r (repair_missing_entity_updates batch r.errors) s h
        (λ repaired e. repair-entities batch r.errors repaired e)
  resume-Goes (second batch repaired) none xs s k h =
      requeue-Goes (second batch repaired) batch xs s h refl
  resume-Goes (second batch repaired) (some r) xs s k h =
      conclude_with-Goes (second batch repaired) repaired xs r s h
        (many-entities t i repaired batch k)

  pub All-take : (n : ℕ) (ws : List Waiting) → All IsSound ws → All IsSound (take n ws)
  All-take zero ws k = tt
  All-take (suc n) [] k = tt
  All-take (suc n) (w ∷ ws) (k, ks) = (k, All-take n ws ks)

  pub All-drop : (n : ℕ) (ws : List Waiting) → All IsSound ws → All IsSound (drop n ws)
  All-drop zero ws k = k
  All-drop (suc n) [] k = tt
  All-drop (suc n) (w ∷ ws) (k, ks) = All-drop n ws ks

  pub All-get :
      (n : ℕ) (ws : List Waiting) (w : Waiting)
      → get_elem? ws n ≡ some w
      → All IsSound ws
      → IsSound w
  All-get n [] w e k = cc
  All-get zero (v ∷ ws) w e (k, ks) = let same : v ≡ w = cc in subst IsSound same k
  All-get (suc n) (v ∷ ws) w e (k, ks) = All-get n ws w e ks
