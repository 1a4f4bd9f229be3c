-- ===== src/Tests/Reloads.antt =====
-- The examples of the configuration file's watcher.
use lact.Prelude.{[], ◌∷◌, arith}
use lact.Reload.{idle, changed, reload, own_save, first, again, done}
use lact.Reload.Debounce.{Log, Run, start, next, IsDebounced, Run-IsDebounced}

-- An own save at 1000, then a change at 2000 and another at 2030: the reload comes at 2080.
abbrev log : Log
log = (2080, reload) ∷ (2030, changed 1000) ∷ (2000, changed 1000) ∷ (1010, changed 1000) ∷ []

burst : Run idle log
burst =
    next
      (next (next (next start (own_save 1010 1000 (omega arith))) (first 2000 1000 (omega arith)))
        (again 2030 1000 2050))
      (done 2080 2080 (omega arith))

Run-IsDebounced_example : IsDebounced log
Run-IsDebounced_example = Run-IsDebounced burst
