-- ===== src/Sync/Service/Queueing.antt =====
-- `queueChange` of sync-service.ts on the list of queued changes.
use tokyo_tester.Base.{◌≡◌, refl, String, true, false, ◌&&◌, none, some, List, [], ◌∷◌, ◌++◌, All}
use tokyo_tester.Json.{JsonValue}
use tokyo_tester.Queue.{to_array}
use tokyo_tester.Queue.Refines.{enqueue-Repr, to_array-Repr}
use tokyo_tester.Sync.{EntityType, ChangeType, insert, update, SyncChange, same_entity}
use tokyo_tester.Sync.Service.{
  SyncService, Env, client_version, is_insert, is_update, as_insert, coalesce, queue_change,
}
use tokyo_tester.Sync.Service.View.{Holds, replace_queue-Holds, persist_queue-Holds}

-- The change that `queueChange` builds from its argument and the time.
abbrev pub stamped : EntityType → String → ChangeType → JsonValue → String → SyncChange
stamped entity_type entity_id change_type content now = record {
  entity_type = entity_type;
  entity_id = entity_id;
  change_type = change_type;
  content = content;
  client_time = now;
  client_version = client_version change_type content;
}

-- No change in the list is about this entity.
abbrev pub IsFree : SyncChange → List SyncChange → Type 0
IsFree c xs = All (λ x. same_entity x c ≡ false) xs

coalesce-insert :
    (c e : SyncChange) (before after : List SyncChange)
    → IsFree c before
    → same_entity e c ≡ true
    → e.change_type ≡ insert
    → c.change_type ≡ update
    → coalesce c (before ++ e ∷ after) ≡ some (before ++ as_insert c ∷ after)
unfolding coalesce
coalesce-insert c e [] after f same i u = rw (same, i, u)
coalesce-insert c e (b ∷ before) after (here, f) same i u =
    rw (here, coalesce-insert c e before after f same i u)

coalesce-free : (c : SyncChange) (xs : List SyncChange) → IsFree c xs → coalesce c xs ≡ none
unfolding coalesce
coalesce-free c [] f = refl
coalesce-free c (x ∷ xs) (here, f) = rw (here, coalesce-free c xs f)

coalesce-blocked :
    (c e : SyncChange) (before after : List SyncChange)
    → IsFree c before
    → same_entity e c ≡ true
    → (is_insert e.change_type && is_update c.change_type) ≡ false
    → coalesce c (before ++ e ∷ after) ≡ none
unfolding coalesce
coalesce-blocked c e [] after f same no_merge = rw (same, no_merge)
coalesce-blocked c e (b ∷ before) after (here, f) same no_merge =
    rw (here, coalesce-blocked c e before after f same no_merge)

-- When a change goes to the end of the queue.
pub data Appends (c : SyncChange) (xs : List SyncChange) : Type 0 where
  free : IsFree c xs → Appends c xs
  blocked :
      (before : List SyncChange) (e : SyncChange) (after : List SyncChange)
      → xs ≡ before ++ e ∷ after
      → IsFree c before
      → same_entity e c ≡ true
      → (is_insert e.change_type && is_update c.change_type) ≡ false
      → Appends c xs

coalesce-Appends : (c : SyncChange) (xs : List SyncChange) → Appends c xs → coalesce c xs ≡ none
coalesce-Appends c xs (free f) = coalesce-free c xs f
coalesce-Appends c xs (blocked before e after at f same no_merge) =
    rw at (coalesce-blocked c e before after f same no_merge)

module _ (env : Env) (t : EntityType) (i : String) (k : ChangeType) (content : JsonValue)
    (now : String) where
  pub queue_change-some :
      (s : SyncService) (xs ys : List SyncChange)
      → Holds s xs
      → s.enabled ≡ true
      → coalesce (stamped t i k content now) xs ≡ some ys
      → Holds (queue_change env t i k content now s) ys
  unfolding queue_change
  queue_change-some s xs ys h on e =
      rw (on, to_array-Repr s.sync_queue xs h, e)
        (persist_queue-Holds env _ ys (replace_queue-Holds ys xs s h))

  pub queue_change-none :
      (s : SyncService) (xs : List SyncChange)
      → Holds s xs
      → s.enabled ≡ true
      → coalesce (stamped t i k content now) xs ≡ none
      → Holds (queue_change env t i k content now s) (xs ++ stamped t i k content now ∷ [])
  unfolding queue_change
  queue_change-none s xs h on e =
      rw (on, to_array-Repr s.sync_queue xs h, e)
        (persist_queue-Holds env _ _ (enqueue-Repr (stamped t i k content now) s.sync_queue xs h))

  -- An update of an entity whose first queued change is an insert takes that change's place, as an
  -- insert with version 0. The other changes keep their places.
  pub queue_change-merges :
      (s : SyncService) (e : SyncChange) (before after : List SyncChange)
      → Holds s (before ++ e ∷ after)
      → s.enabled ≡ true
      → IsFree (stamped t i k content now) before
      → same_entity e (stamped t i k content now) ≡ true
      → e.change_type ≡ insert
      → k ≡ update
      → to_array (queue_change env t i k content now s).sync_queue
        ≡ before ++ as_insert (stamped t i k content now) ∷ after
  queue_change-merges s e before after h on f same ins upd =
      let c = stamped t i k content now in
      to_array-Repr _ _ (
        queue_change-some s (before ++ e ∷ after) (before ++ as_insert c ∷ after) h on
          (coalesce-insert c e before after f same ins upd))

  -- Every other change goes to the end of the queue: one of an entity that has no queued change, one
  -- that is no update, and one whose entity has a first queued change that is no insert.
  pub queue_change-Appends :
      (s : SyncService) (xs : List SyncChange)
      → Holds s xs
      → s.enabled ≡ true
      → Appends (stamped t i k content now) xs
      → to_array (queue_change env t i k content now s).sync_queue
        ≡ xs ++ stamped t i k content now ∷ []
  queue_change-Appends s xs h on a =
      to_array-Repr _ _
        (queue_change-none s xs h on (coalesce-Appends (stamped t i k content now) xs a))
