-- ===== src/Reload.antt =====
-- The configuration file's watcher (`start_watcher` in lact-daemon/src/config.rs) as a step relation,
-- and what a new configuration does (`listen_config_changes` in lact-daemon/src/lib.rs).
pub mod Debounce
use lact.Prelude.{ℕ, ◌+◌, ◌-◌, ◌≤◌, ◌<◌, Option, none, some}
use lact.Prelude.Exec.{Exec, Result, ok, err}
use lact.Config.{Config}
use lact.Handler.State.{Env, Handler}
use lact.Handler.Profiles.{apply_current_config}

-- `CONFIG_RELOAD_INTERVAL_MILLIS`
abbrev pub reload_interval : ℕ
reload_interval = 50

-- Idle, or waiting until a time before the reload.
pub data Watcher : Type 0 where
  idle : Watcher
  waiting : ℕ → Watcher

-- What happens at a time: a change of the file (modified, created or removed), with the time of the
-- last save; any other event or an error; or the end of the wait, with the reload.
pub data Event : Type 0 where
  changed : ℕ → Event
  unrelated : Event
  reload : Event

-- The steps of the watcher, each at a time. An event at the very end of the wait may come before the
-- end or after it.
pub data Step : Watcher → ℕ → Event → Watcher → Type 0 where
  own_save : (now saved : ℕ) → now - saved < reload_interval → Step idle now (changed saved) idle
  first :
      (now saved : ℕ)
      → reload_interval ≤ now - saved
      → Step idle now (changed saved) (waiting (now + reload_interval))
  again :
      (now saved until : ℕ)
      → Step (waiting until) now (changed saved) (waiting (now + reload_interval))
  skip_idle : (now : ℕ) → Step idle now unrelated idle
  skip_waiting : (now until : ℕ) → Step (waiting until) now unrelated (waiting until)
  done : (now until : ℕ) → until ≤ now → Step (waiting until) now reload idle

module _ (E : Env) where
  -- The new configuration replaces the old one; an error is only logged.
  pub reload_config : Config E.platform → Handler E → Handler E
  reload_config config h = (apply_current_config E (record h { config = config })).1
