-- ===== src/Sync/Order.antt =====
-- `orderSyncChanges` of ui-v2/src/modules/sync/sync-service.ts: a batch goes out parents first.
pub mod Laws
use tokyo_tester.Base.{ℕ, ◌+◌, zero, Bool, not, List, [], ◌∷◌, map, ltb, ◌==◌, if◌then◌else◌}
use tokyo_tester.Sync.{
  EntityType, workflow, scenario, workflow_run, scenario_run, test_result, SyncChange,
}

-- `SYNC_ENTITY_ORDER`
pub rank : EntityType → ℕ
rank workflow = 0
rank scenario = 1
rank workflow_run = 2
rank scenario_run = 3
rank test_result = 4

pub record Indexed : Type 0 where
  pub change : SyncChange
  pub index : ℕ

-- Is the comparator's number for these two negative or zero? It is the difference of the ranks or,
-- where that is zero, of the indices.
pub not_after : Indexed → Indexed → Bool
unfolding rank
not_after a b =
    if rank a.change.entity_type == rank b.change.entity_type
    then not (ltb b.index a.index)
    else ltb (rank a.change.entity_type) (rank b.change.entity_type)

-- `Array.prototype.sort` by that comparator.
pub place : Indexed → List Indexed → List Indexed
unfolding not_after
place a [] = a ∷ []
place a (b ∷ bs) = if not_after a b then a ∷ b ∷ bs else b ∷ place a bs

pub sort : List Indexed → List Indexed
unfolding place
sort [] = []
sort (a ∷ rest) = place a (sort rest)

pub number_from : ℕ → List SyncChange → List Indexed
number_from i [] = []
number_from i (c ∷ cs) = record { change = c; index = i } ∷ number_from (i + 1) cs

unfoldable pub order_sync_changes : List SyncChange → List SyncChange
unfolding sort number_from
order_sync_changes changes = map (λ a. a.change) (sort (number_from 0 changes))
