-- ===== src/Stores.antt =====
-- What the stores of ui-v2/src/modules/workflow/stores share: the objects that map ids to entities, and
-- a store behind `syncMiddleware` of ui-v2/src/modules/sync/sync-middleware.ts, with the microtasks that
-- its calls of `set` have scheduled.
pub mod Draining
pub mod Newest
pub mod Scenarios
pub mod Workflows
pub mod Actions
pub mod Ordering
pub mod Running
pub mod Edits
pub mod Lingering
mod Tests
use tokyo_tester.Base.{
  ℕ, ◌+◌, ◌≡◌, refl, String, Bool, true, false, not, ◌&&◌, ◌||◌, Option, none, some, List, [], ◌∷◌,
  ◌++◌, any, all, ltb, ◌==◌, ◌===◌, eq_iff, arith, if◌then◌else◌,
}
use tokyo_tester.Json.{JsonValue}
use tokyo_tester.Names.{Text}
use tokyo_tester.Bundle.{codes}
use tokyo_tester.Sync.{EntityType, ChangeType}
use tokyo_tester.Sync.Metadata.{SyncMetadataShape}
use tokyo_tester.Sync.Middleware.{Tracker, track, microtask}
use tokyo_tester.Sync.Service.{SyncService, Env}

-- `Record<string, E>`, in the order of insertion.
module _ {E : Type 0} where
  unfoldable pub lookup : String → List (String × E) → Option E
  lookup i [] = none
  lookup i ((j, e) ∷ m) = if j === i then some e else lookup i m

  -- `{ ...m, [i]: e }`
  unfoldable pub put : String → E → List (String × E) → List (String × E)
  put i e [] = (i, e) ∷ []
  put i e ((j, f) ∷ m) = let rest = put i e m in if j === i then (j, e) ∷ m else (j, f) ∷ rest

  pub lookup-put :
      (i j : String) (e : E) (m : List (String × E))
      → lookup j (put i e m) ≡ (if i === j then some e else lookup j m)
  unfolding lookup put
  lookup-put i j e [] = refl
  lookup-put i j e ((k, f) ∷ m) =
      ground (arith, eq_iff i j, eq_iff k i, eq_iff k j, lookup-put i j e m)

  pub all-put :
      (P : E → Bool) (i : String) (e : E) (m : List (String × E))
      → P e ≡ true
      → all (λ p. P p.1) m ≡ true
      → all (λ p. P p.1) (put i e m) ≡ true
  unfolding put
  all-put P i e [] h k = ground arith
  all-put P i e ((j, f) ∷ m) h k = ground (arith, all-put P i e m)

  pub lookup-all :
      (P : E → Bool) (i : String) (m : List (String × E)) (e : E)
      → lookup i m ≡ some e
      → all (λ p. P p.1) m ≡ true
      → P e ≡ true
  unfolding lookup
  lookup-all P i [] e h k = cc
  lookup-all P i ((j, f) ∷ m) e h k = ground (arith, lookup-all P i m e)

-- The options of the middleware that a store gives.
pub record Options (S : Type 0) : Type 0 where
  pub entity_type : EntityType
  pub get_entity_id : S → Option String
  pub serialize_entity : S → String → Option JsonValue

-- A store, the tracked operations, and the entities of the microtasks that wait, the first one first.
pub record Wrapped (S : Type 0) : Type 0 where
  pub state : S
  pub tracker : Tracker
  pub scheduled : List String

-- `if (!entityId) return;`
abbrev pub schedule : Option String → List String → List String
schedule none waiting = waiting
schedule (some i) waiting = if i === "" then waiting else waiting ++ i ∷ []

module _ {S : Type 0} where
  unfoldable pub sync_set : Options S → (S → S) → Wrapped S → Wrapped S
  sync_set o f w = record {
    state = f w.state;
    tracker = w.tracker;
    scheduled = schedule (o.get_entity_id (f w.state)) w.scheduled;
  }

  -- The `set` of the middleware for an update that answers this; `none` where it throws, which
  -- leaves the state and schedules no microtask.
  abbrev pub try_set : Options S → Option S → Wrapped S → Wrapped S
  try_set o none w = w
  try_set o (some st) w = sync_set o (λ _. st) w

  unfoldable pub track_sync : String → ChangeType → Wrapped S → Wrapped S
  track_sync i k w = record {
    state = w.state;
    tracker = track i k w.tracker;
    scheduled = w.scheduled;
  }

  -- The microtasks that wait run one after the other.
  unfoldable pub drain :
      Env → Options S → String → S → List String → Tracker × SyncService → Tracker × SyncService
  drain env o now st [] p = p
  drain env o now st (i ∷ is) p =
      drain env o now st is (microtask env o.entity_type i (o.serialize_entity st i) now p)

-- `left > right` for two texts.
abbrev pub text_gt : Text → Text → Bool
text_gt [] u = false
text_gt (c ∷ t) [] = true
text_gt (c ∷ t) (d ∷ u) = ltb d c || (c == d && text_gt t u)

abbrev pub or_blank : Option String → String
or_blank none = ""
or_blank (some t) = t

-- The condition under which an entity that comes from the server is dropped.
unfoldable pub is_newer : SyncMetadataShape → SyncMetadataShape → Bool
is_newer existing incoming =
    ltb incoming.version existing.version
    || (existing.version == incoming.version
        && text_gt (codes (or_blank existing.updated_at)) (codes (or_blank incoming.updated_at)))

-- The user of the session, if there is one, the browser and the time of a call of an action.
pub record Call : Type 0 where
  pub user : Option String
  pub client : String
  pub now : String

-- `value ?? other`
abbrev pub or_other {ℓ} : {A : Type ℓ} → Option A → A → A
or_other none other = other
or_other (some a) other = a

abbrev pub no_metadata : SyncMetadataShape
no_metadata = record {
  version = 0;
  created_at = none;
  updated_at = none;
  user_id = none;
  client_id = none;
  is_deleted = false;
}
