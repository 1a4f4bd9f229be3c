-- ===== src/Reload/Debounce.antt =====
-- When the watcher reloads the configuration.
use lact.Prelude.{ℕ, ◌+◌, ◌≤◌, ◌≡◌, refl, List, [], ◌∷◌, arith}
use lact.Reload.{
  Watcher, idle, waiting, Event, changed, unrelated, reload, Step, own_save, first, again,
  skip_idle, skip_waiting, done, reload_interval,
}

-- What has happened, the newest first, each with its time.
abbrev pub Log : Type 0
Log = List (ℕ × Event)

pub data Run : Watcher → Log → Type 0 where
  start : Run idle []
  next :
      {w w' : Watcher} {log : Log} {now : ℕ} {event : Event}
      → Run w log
      → Step w now event w'
      → Run w' ((now, event) ∷ log)

-- The last change of the file came at this time, and no reload after it.
abbrev pub IsLastChange : ℕ → Log → Type 0
IsLastChange time [] = ⊥
IsLastChange time ((now, changed saved) ∷ log) = time ≡ now
IsLastChange time ((now, unrelated) ∷ log) = IsLastChange time log
IsLastChange time ((now, reload) ∷ log) = ⊥

-- Every reload waited long enough after the last change, which no other reload has answered.
abbrev pub IsDebounced : Log → Type 0
IsDebounced [] = Unit {0}
IsDebounced ((now, changed saved) ∷ log) = IsDebounced log
IsDebounced ((now, unrelated) ∷ log) = IsDebounced log
IsDebounced ((now, reload) ∷ log) =
    ((time : ℕ) × IsLastChange time log × (time + reload_interval ≤ now)) × IsDebounced log

abbrev IsDue : Watcher → Log → Type 0
IsDue idle log = Unit {0}
IsDue (waiting until) log = (time : ℕ) × IsLastChange time log × (time + reload_interval ≡ until)

Step-IsDebounced :
    (log : Log) {now : ℕ} {w : Watcher} {event : Event} {w' : Watcher}
    → Step w now event w'
    → IsDue w log
    → IsDebounced log
    → IsDue w' ((now, event) ∷ log) × IsDebounced ((now, event) ∷ log)
Step-IsDebounced log (own_save now saved p) d b = (tt, b)
Step-IsDebounced log (first now saved p) d b = ((now, refl, refl), b)
Step-IsDebounced log (again now saved until) d b = ((now, refl, refl), b)
Step-IsDebounced log (skip_idle now) d b = (tt, b)
Step-IsDebounced log (skip_waiting now until) d b = (d, b)
Step-IsDebounced log (done now until p) (time, last, e) b = (tt, ((time, last, omega arith), b))

Run-IsDue : {w : Watcher} {log : Log} → Run w log → IsDue w log × IsDebounced log
Run-IsDue start = (tt, tt)
Run-IsDue (next {log = log} r s) = let (d, b) = Run-IsDue r in Step-IsDebounced log s d b

-- Over any steps of the watcher from its start, every reload came at least 50 ms after the last
-- change of the file before it, and there was such a change since the reload before.
pub Run-IsDebounced : {w : Watcher} {log : Log} → Run w log → IsDebounced log
Run-IsDebounced r = (Run-IsDue r).1
