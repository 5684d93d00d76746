-- ===== src/Sync/Metadata.antt =====
-- `addSyncMetadata` and `markAsDeleted` of ui-v2/src/modules/sync/sync-middleware.ts: the metadata of
-- an entity that a store changes. The user, the client and the time of a call are arguments.
use tokyo_tester.Base.{
  ℕ, zero, suc, ◌+◌, ◌-◌, ◌≡◌, refl, String, Bool, true, Option, none, some, arith, ◌===◌,
  if◌then◌else◌,
}
use tokyo_tester.Json.{JsonValue, num, obj, field, end, get_field}
use tokyo_tester.Sync.{delete}
use tokyo_tester.Sync.Service.{client_version, serialized_version, number_of}

-- A version that is absent or 0, and a flag that is absent or false, are the same to the code here.
pub record SyncMetadataShape : Type 0 where
  pub version : ℕ
  pub created_at : Option String
  pub updated_at : Option String
  pub user_id : Option String
  pub client_id : Option String
  pub is_deleted : Bool

-- `entity.version || other`
abbrev pub or_version : ℕ → ℕ → ℕ
or_version zero other = other
or_version (suc n) other = suc n

abbrev pub or_time : Option String → String → String
or_time none now = now
or_time (some t) now = if t === "" then now else t

-- `getUserId` throws without a user of the session: the answer is then `none`.
unfoldable pub add_sync_metadata :
    Option String → String → String → SyncMetadataShape → Option SyncMetadataShape
add_sync_metadata none client now e = none
add_sync_metadata (some user) client now e = some (record {
  version = or_version e.version 1;
  created_at = some (or_time e.created_at now);
  updated_at = some now;
  user_id = some user;
  client_id = some client;
  is_deleted = e.is_deleted;
})

unfoldable pub mark_as_deleted : String → SyncMetadataShape → SyncMetadataShape
mark_as_deleted now e = record e {
  is_deleted = true;
  version = e.version + 1;
  updated_at = some now;
}

-- What `queueChange` reads of an entity.
abbrev pub content_of : SyncMetadataShape → JsonValue
content_of e = obj (field "version" (num e.version) end)

minus_one : (n : ℕ) → n + 1 - 1 ≡ n
minus_one n = omega arith

added : (n : ℕ) → or_version (n + 1) 1 - 1 ≡ n
added n = ground arith

-- The delete that is queued for an entity which was marked as deleted has the version that the
-- entity had before, so that the server can tell whether it has changed since. This holds too where
-- the metadata are added again, and the entity stays deleted.
pub client_version-mark_as_deleted :
    (user client now : String) (e : SyncMetadataShape)
    → (client_version delete (content_of (mark_as_deleted now e)) ≡ e.version)
      × ((after : SyncMetadataShape) × ((add_sync_metadata
                (some user)
                client
                now
                (mark_as_deleted now e)
              ≡ some after)
            × ((client_version delete (content_of after) ≡ e.version) × (after.is_deleted ≡ true))))
unfolding client_version serialized_version number_of get_field add_sync_metadata mark_as_deleted
client_version-mark_as_deleted user client now e =
    (minus_one e.version, (_, (refl, (added e.version, refl))))
