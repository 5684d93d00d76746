-- ===== src/Sync.antt =====
-- ui-v2/src/modules/sync/sync-types.ts: the changes that the browser queues, and the replies of the
-- batch endpoint. A list that may be absent is empty when it is.
pub mod Order
pub mod State
pub mod Repair
pub mod Service
pub mod Timer
pub mod Middleware
pub mod Metadata
pub mod Overlap
pub mod Tests
use tokyo_tester.Base.{ℕ, String, Bool, true, false, Option, List, ◌===◌, ◌&&◌}
use tokyo_tester.Json.{JsonValue}

pub data EntityType : Type 0 where
  workflow scenario workflow_run scenario_run test_result : EntityType

pub data ChangeType : Type 0 where
  insert update delete : ChangeType

pub record SyncChange : Type 0 where
  pub entity_type : EntityType
  pub entity_id : String
  pub change_type : ChangeType
  pub content : JsonValue
  pub client_time : String
  pub client_version : ℕ

pub data Resolution : Type 0 where
  server_wins client_wins manual : Resolution

pub record ConflictInfo : Type 0 where
  pub entity_type : EntityType
  pub entity_id : String
  pub resolution : Resolution
  pub message : String
  pub local_data : Option JsonValue

pub record SyncError : Type 0 where
  pub entity_type : Option EntityType
  pub entity_id : Option String
  pub message : String

pub record SyncBatchResponse : Type 0 where
  pub success : Bool
  pub processed_count : ℕ
  pub conflicts : List ConflictInfo
  pub errors : List SyncError
  pub server_version : ℕ

-- `===` on the texts that name the entity types.
abbrev pub same_type : EntityType → EntityType → Bool
same_type workflow workflow = true
same_type scenario scenario = true
same_type workflow_run workflow_run = true
same_type scenario_run scenario_run = true
same_type test_result test_result = true
same_type _ _ = false

-- `a.entity_type === b.entity_type && a.entity_id === b.entity_id`
unfoldable pub same_entity : SyncChange → SyncChange → Bool
same_entity a b = same_type a.entity_type b.entity_type && a.entity_id === b.entity_id
