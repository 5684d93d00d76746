-- ===== src/Sync/Repair.antt =====
-- `repairMissingEntityUpdates` and `isDeletedPayload` of ui-v2/src/modules/sync/sync-service.ts: the
-- updates of a batch that the server refuses because their entity is gone are sent as inserts.
use text.Mathlib.Text.{find?}
use tokyo_tester.Base.{
  String, Bool, true, false, not, ◌&&◌, ◌||◌, Option, none, some, List, [], ◌∷◌, map, any, ◌===◌,
  if◌then◌else◌,
}
use tokyo_tester.Json.{JsonValue, bool, obj, get_field}
use tokyo_tester.Sync.{
  EntityType, workflow, scenario, same_type, ChangeType, insert, update, delete, SyncChange,
  SyncError,
}

abbrev pub is_insert : ChangeType → Bool
is_insert insert = true
is_insert _ = false

abbrev pub is_update : ChangeType → Bool
is_update update = true
is_update _ = false

abbrev pub is_delete : ChangeType → Bool
is_delete delete = true
is_delete _ = false

is_deleted_payload : JsonValue → Bool
unfolding get_field
is_deleted_payload (obj fs) = elim (get_field "is_deleted" fs) [ some (bool b) ↦ b | _ ↦ false ]
is_deleted_payload _ = false

-- The change that replaces a queued insert when an update of the same entity follows.
unfoldable pub as_insert : SyncChange → SyncChange
as_insert c = record c { change_type = insert; client_version = 0 }

-- The entity types and ids that the server reports as missing. The source joins the two by a colon
-- to one text; here they are a pair.
names_missing : SyncError → Option (EntityType × String)
names_missing e = elim e.entity_type [
  | none ↦ none
  | some t ↦ elim e.entity_id [
    | none ↦ none
    | some i ↦
        if (same_type t workflow || same_type t scenario)
          && (not (i === "")
              && elim (find? e.message "no longer exists") [ none ↦ false | some _ ↦ true ])
        then some (t, i)
        else none
  ]
]

unfoldable pub missing_updates : List SyncError → List (EntityType × String)
unfolding names_missing
missing_updates [] = []
missing_updates (e ∷ es) = elim (names_missing e) [
  | none ↦ missing_updates es
  | some k ↦ k ∷ missing_updates es
]

unfoldable pub is_missing : List (EntityType × String) → SyncChange → Bool
is_missing ks c = any (λ k. same_type k.0 c.entity_type && k.1 === c.entity_id) ks

-- Is the change one that the repair turns into an insert?
unfoldable pub needs_repair : List (EntityType × String) → SyncChange → Bool
unfolding is_missing is_deleted_payload
needs_repair ks c =
    is_update c.change_type && (is_missing ks c && not (is_deleted_payload c.content))

unfoldable pub repair_change : List (EntityType × String) → SyncChange → SyncChange
unfolding needs_repair as_insert
repair_change ks c = if needs_repair ks c then as_insert c else c

unfoldable pub repair_missing_entity_updates :
    List SyncChange → List SyncError → Option (List SyncChange)
unfolding missing_updates repair_change
repair_missing_entity_updates batch errors =
    let ks = missing_updates errors in
    if any (needs_repair ks) batch then some (map (repair_change ks) batch) else none
