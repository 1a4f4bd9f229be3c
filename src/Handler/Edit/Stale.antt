-- ===== src/Handler/Edit/Stale.antt =====
-- An older task that ends while a newer change is pending.
use lact.Prelude.{◌≡◌, ◌≢◌, true, none, some, arith, inl, inr}
use lact.Prelude.Exec.{Result-cases, ok, is_ok}
use lact.Schema.{ConfirmCommand}
use lact.Handler.State.{Env, Task, Handler, find_controller}
use lact.Handler.Edit.{confirm_pending_config, Wake, dropped, wake, finish_task}

-- A task ends by clearing `confirm_config_tx`, whoever's sender it holds. So when an older task of
-- a known card ends while a newer change waits for its answer, the newer change's sender is
-- dropped: its task, which slept, wakes at once as after a dropped sender, and an answer is
-- refused.
pub finish_drops_newer :
    (E : Env) (h : Handler E) (older newer : Task E.platform) (w : Wake)
    → is_ok (find_controller E older.id) ≡ true
    → newer.received ≡ none
    → h.confirm_config_tx ≡ some newer.channel
    → (wake E h newer ≡ none)
      × (wake E (finish_task E older w h) newer ≡ some dropped)
      × ((cmd : ConfirmCommand)
          → (confirm_pending_config E cmd (finish_task E older w h)).0 ≢ ok tt)
unfolding wake finish_task confirm_pending_config
finish_drops_newer E h older newer w c r p = elim (Result-cases (find_controller E older.id)) [
  | inl (controller, found) ↦ (ground arith, ground arith, λ cmd e. ground arith)
  | inr (e, missing) ↦ absurd (ground arith)
]
