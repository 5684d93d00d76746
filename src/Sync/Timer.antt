-- ===== src/Sync/Timer.antt =====
-- The timer of ui-v2/src/modules/sync/sync-service.ts (`start`, `stop`, `setEnabled`, `isRunning` and
-- the setters) and `initSync` of ui-v2/src/modules/sync/sync-init.ts. A timer is its period.
use tokyo_tester.Base.{
  ℕ, ◌+◌, ◌≡◌, ◌⊎◌, Bool, true, false, ◌&&◌, none, some, List, [], ◌∷◌, arith, ◌==◌, if◌then◌else◌,
}
use tokyo_tester.Sync.Service.{SyncService, Env, flush}

abbrev pub is_running : SyncService → Bool
is_running s = elim s.timer [ none ↦ false | some _ ↦ true ]

-- A timer that runs keeps its period.
unfoldable pub start : SyncService → SyncService
start s = elim s.timer [ some _ ↦ s | none ↦ record s { timer = some s.sync_interval } ]

unfoldable pub stop : SyncService → SyncService
stop s = elim s.timer [ none ↦ s | some _ ↦ record s { timer = none } ]

unfoldable pub set_sync_interval : ℕ → SyncService → SyncService
unfolding start stop
set_sync_interval interval s =
    let s' = record s { sync_interval = interval } in if is_running s' then start (stop s') else s'

unfoldable pub set_max_batch_size : ℕ → SyncService → SyncService
set_max_batch_size size s = record s { max_batch_size = size }

unfoldable pub set_enabled : Bool → SyncService → SyncService
set_enabled enabled s = record s { enabled = enabled }

-- The timer's callback.
unfoldable pub tick : Env → SyncService → SyncService
tick env s = (flush env (record s { flush_count = s.flush_count + 1 })).0

pub record SyncConfig : Type 0 where
  pub sync_interval : ℕ
  pub max_batch_size : ℕ
  pub enabled : Bool
  pub auto_start : Bool

-- The defaults of `initSync`.
abbrev pub default_config : SyncConfig
default_config = record {
  sync_interval = 3000;
  max_batch_size = 100;
  enabled = true;
  auto_start = true;
}

-- `baseUrl` has no part in what the service does here.
unfoldable pub init_sync : SyncConfig → SyncService → SyncService
unfolding set_sync_interval set_max_batch_size set_enabled start
init_sync config s =
    let s1 =
      if config.sync_interval == s.sync_interval
      then s
      else set_sync_interval config.sync_interval s in
    let s2 =
      if config.max_batch_size == s1.max_batch_size
      then s1
      else set_max_batch_size config.max_batch_size s1 in
    let s3 = set_enabled config.enabled s2 in
    if config.auto_start && config.enabled then start s3 else s3

-- A timer that runs has the period that is set.
abbrev pub InStep : SyncService → Type 0
InStep s = (s.timer ≡ none) ⊎ (s.timer ≡ some s.sync_interval)

-- What a program may do to the timer and the settings.
pub data Control : Type 0 where
  start_call stop_call : Control
  interval_call size_call : ℕ → Control
  enabled_call : Bool → Control
  init_call : SyncConfig → Control

pub control : Control → SyncService → SyncService
control start_call s = start s
control stop_call s = stop s
control (interval_call n) s = set_sync_interval n s
control (size_call n) s = set_max_batch_size n s
control (enabled_call b) s = set_enabled b s
control (init_call c) s = init_sync c s

pub control_all : List Control → SyncService → SyncService
control_all [] s = s
control_all (c ∷ cs) s = control_all cs (control c s)

start-InStep : (s : SyncService) → InStep s → InStep (start s)
unfolding start
start-InStep s h = ground arith

stop-InStep : (s : SyncService) → InStep s → InStep (stop s)
unfolding stop
stop-InStep s h = ground arith

set_sync_interval-InStep : (n : ℕ) (s : SyncService) → InStep s → InStep (set_sync_interval n s)
unfolding set_sync_interval
set_sync_interval-InStep n s h = ground arith

init_sync-InStep : (c : SyncConfig) (s : SyncService) → InStep s → InStep (init_sync c s)
unfolding init_sync
init_sync-InStep c s h = ground arith

control-InStep : (c : Control) (s : SyncService) → InStep s → InStep (control c s)
unfolding control set_max_batch_size set_enabled
control-InStep start_call s h = start-InStep s h
control-InStep stop_call s h = stop-InStep s h
control-InStep (interval_call n) s h = set_sync_interval-InStep n s h
control-InStep (size_call n) s h = h
control-InStep (enabled_call b) s h = h
control-InStep (init_call c) s h = init_sync-InStep c s h

-- Whatever is called on a service whose timer, if it runs, has the period that is set: afterwards
-- the timer, if it runs, has the period that is then set.
pub control_all-InStep :
    (cs : List Control) (s : SyncService) → InStep s → InStep (control_all cs s)
unfolding control_all
control_all-InStep [] s h = h
control_all-InStep (c ∷ cs) s h = control_all-InStep cs (control c s) (control-InStep c s h)

-- After `initSync` the settings are the configuration's. A configuration that is enabled and starts
-- by itself has the timer run with its interval.
pub init_sync_lem :
    (c : SyncConfig) (s : SyncService)
    → InStep s
    → ((init_sync c s).sync_interval ≡ c.sync_interval)
      × ((init_sync c s).max_batch_size ≡ c.max_batch_size)
      × ((init_sync c s).enabled ≡ c.enabled)
      × ((c.auto_start && c.enabled) ≡ true → (init_sync c s).timer ≡ some c.sync_interval)
unfolding init_sync
init_sync_lem c s h = (ground arith, ground arith, ground arith, ground arith)
