-- ===== src/Sync/Overlap/Steps.antt =====
-- Whole runs of overlapping calls of sync-service.ts.
use tokyo_tester.Base.{ℕ, String, Bool, not, ◌&&◌, List, if◌then◌else◌}
use tokyo_tester.Sync.{EntityType, ChangeType, SyncChange}
use tokyo_tester.Sync.Service.{Env}
use tokyo_tester.Sync.Overlap.Counts.{about, first_change, merges}
use tokyo_tester.Sync.Overlap.Kept.{Kept}

module _ (env : Env) (t : EntityType) (i : String) where
  -- What a request to queue a change adds, with these changes in the queue.
  abbrev adds : Bool → EntityType → String → ChangeType → List SyncChange → ℕ
  adds enabled u j k xs =
      if about t i (u, j) && (enabled && not (merges t i k (first_change t i xs))) then 1 else 0
