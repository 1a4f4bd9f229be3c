-- ===== src/Handler/Edit.antt =====
-- `edit_gpu_config`, `wait_config_confirm` and `confirm_pending_config` of handler.rs. Each runs to
-- its end: the waits inside `apply_config` are part of its step. Steps takes these waits apart.
pub mod Outcome
pub mod Answer
pub mod Steps
pub mod Held
pub mod Channels
pub mod Stale
use lact.Prelude.{
  ℕ, suc, String, ◌≡◌, Bool, true, false, Option, none, some, List, [], ◌∷◌, ◌++◌, ◌==◌, ◌||◌,
  str_eq, if◌then◌else◌,
}
use lact.Prelude.Exec.{
  Exec, Error, msg, context, Result, ok, err, pure, raise, lift, gets, attempt, modify, ◌>>=◌, ◌>>◌,
}
use lact.Prelude.Dict.{Dict, get, insert}
use lact.Platform.{Platform}
use lact.Schema.{ConfirmCommand}
use lact.Config.{Config, Gpu, default_gpu, gpus, set_gpus}
use lact.Handler.State.{
  GpuController, Env, Task, Handler, on_world, find_controller, controller_by_id,
}

abbrev pub or_default : {P : Platform} → Option (Gpu P) → Gpu P
or_default {P} none = default_gpu P
or_default (some gpu) = gpu

-- What a task sees when it wakes: its timer, a command, or that the sender was dropped.
pub data Wake : Type 0 where
  timeout : Wake
  command : ConfirmCommand → Wake
  dropped : Wake

abbrev pub unconfirmed_pending : Error
unconfirmed_pending = msg "There is an unconfirmed configuration change pending"

pub edit_error : Error → Result (Unit {0}) → Error
edit_error apply_err (ok _) = context "Could not apply settings" apply_err
edit_error apply_err (err e) =
    context "Could not apply settings, and could not reset to default settings" apply_err

module _ {P : Platform} where
  -- `tx.send(command)`: does the receiver of this channel still exist, and the tasks after the send.
  unfoldable pub has_channel : ℕ → List (Task P) → Bool
  has_channel c [] = false
  has_channel c (t ∷ ts) = t.channel == c || has_channel c ts

  unfoldable pub deliver : ℕ → ConfirmCommand → List (Task P) → List (Task P)
  deliver c cmd [] = []
  deliver c cmd (t ∷ ts) =
      let rest = deliver c cmd ts in
      (if t.channel == c then record t { received = some cmd } else t) ∷ rest

  unfoldable pub remove_task : ℕ → List (Task P) → List (Task P)
  remove_task c [] = []
  remove_task c (t ∷ ts) = let rest = remove_task c ts in if t.channel == c then rest else t ∷ rest

  -- `gpus_mut()`, then `insert`; an unknown profile is only logged.
  unfoldable pub write_gpu : Config P → String → Gpu P → Config P
  unfolding gpus set_gpus
  write_gpu config id gpu = elim (gpus P config) [
    | ok old ↦ set_gpus P config (insert str_eq old id gpu)
    | err e ↦ config
  ]

module _ (E : Env) where
  unfoldable pub refuse_if_pending : Exec (Handler E) (Unit {0})
  refuse_if_pending h = elim h.confirm_config_tx [
    | none ↦ (ok tt, h)
    | some c ↦ (err unconfirmed_pending, h)
  ]

  unfoldable pub wait_config_confirm :
      String → Gpu E.platform → Gpu E.platform → Exec (Handler E) (Unit {0})
  wait_config_confirm id previous_config new_config h = (
    ok tt,
    record h {
      confirm_config_tx = some h.next_channel;
      tasks = h.tasks ++ task ∷ [];
      next_channel = suc h.next_channel;
    },
  )
    where
      task : Task E.platform
      task = record {
        channel = h.next_channel;
        id = id;
        previous_config = previous_config;
        new_config = new_config;
        received = none;
      }

  unfoldable pub after_apply :
      GpuController E.platform E.World E.Reply
      → String
      → Gpu E.platform
      → Gpu E.platform
      → ℕ
      → Result (Unit {0})
      → Exec (Handler E) ℕ
  unfolding wait_config_confirm edit_error
  after_apply controller id gpu_config new_config apply_timer (ok _) = do
    wait_config_confirm id gpu_config new_config
    pure apply_timer
  after_apply controller id gpu_config new_config apply_timer (err apply_err) = do
    reverted ← attempt (on_world E (controller.apply_config gpu_config))
    raise (edit_error apply_err reverted)

  unfoldable pub edit_gpu_config : String → (Gpu E.platform → Gpu E.platform) → Exec (Handler E) ℕ
  unfolding refuse_if_pending controller_by_id after_apply
  edit_gpu_config id f = do
    refuse_if_pending
    config ← gets (λ h. h.config)
    settings ← lift (gpus E.platform config)
    let gpu_config = or_default (get str_eq settings id)
    let new_config = f gpu_config
    controller ← controller_by_id E id
    applied ← attempt (on_world E (controller.apply_config new_config))
    after_apply controller id gpu_config new_config config.apply_settings_timer applied

  unfoldable pub confirm_pending_config : ConfirmCommand → Exec (Handler E) (Unit {0})
  unfolding has_channel deliver
  confirm_pending_config cmd h = elim h.confirm_config_tx [
    | none ↦ (err (msg "No pending config changes"), h)
    | some c ↦
        if has_channel c h.tasks
        then (ok tt, record h { confirm_config_tx = none; tasks = deliver c cmd h.tasks })
        else (err (msg "Could not confirm config"), record h { confirm_config_tx = none })
  ]

  -- What the receiver of a task yields, if anything yet.
  unfoldable pub wake : Handler E → Task E.platform → Option Wake
  wake h t = elim t.received [
    | some cmd ↦ some (command cmd)
    | none ↦ elim h.confirm_config_tx [
      | none ↦ some dropped
      | some c ↦ if t.channel == c then none else some dropped
    ]
  ]

  pub revert_task :
      GpuController E.platform E.World E.Reply → Task E.platform → Handler E → Handler E
  revert_task controller t h = (on_world E (controller.apply_config t.previous_config) h).1

  unfoldable pub save_task : Task E.platform → Handler E → Handler E
  unfolding write_gpu
  save_task t h =
      let config : Config E.platform = write_gpu h.config t.id t.new_config in
      let saved = E.save config h.world in
      record h { config = config; world = saved.1; config_last_saved = E.now saved.1 }

  unfoldable pub on_wake :
      GpuController E.platform E.World E.Reply → Task E.platform → Wake → Handler E → Handler E
  unfolding revert_task save_task
  on_wake controller t timeout h = revert_task controller t h
  on_wake controller t (command ConfirmCommand.confirm) h = save_task t h
  on_wake controller t (command ConfirmCommand.revert) h = revert_task controller t h
  on_wake controller t dropped h = revert_task controller t h

  -- The task wakes: `select!` drops the receiver, whatever branch it takes.
  abbrev pub stop_listening : Task E.platform → Handler E → Handler E
  stop_listening t h = record h { tasks = remove_task t.channel h.tasks }

  -- What a woken task does to its end. A missing controller is a panic, which ends the task alone.
  unfoldable pub end_task : Task E.platform → Wake → Handler E → Handler E
  unfolding on_wake
  end_task t w h = elim (find_controller E t.id) [
    | ok controller ↦ record (on_wake controller t w h) { confirm_config_tx = none }
    | err e ↦ h
  ]

  -- The task from its waking to its end, where nothing else runs while it waits for the card.
  unfoldable pub finish_task : Task E.platform → Wake → Handler E → Handler E
  unfolding end_task remove_task
  finish_task t w h = end_task t w (stop_listening t h)
