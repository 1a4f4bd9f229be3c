-- ===== src/Handler/Edit/Answer.antt =====
-- A change from the edit to its answer.
use lact.Prelude.{
  String, ◌≡◌, refl, true, false, none, some, List, [], ◌∷◌, ◌++◌, arith, str_eq, sym, subst,
}
use lact.Prelude.Exec.{ok}
use lact.Prelude.Dict.{Dict, insert}
use lact.Platform.{Platform}
use lact.Schema.{ConfirmCommand}
use lact.Config.{Config, Gpu, gpus}
use lact.Config.Profiles.{gpus-set_gpus}
use lact.Handler.State.{GpuController, Env, Task, Handler, find_controller}
use lact.Handler.Edit.{
  edit_gpu_config, confirm_pending_config, Wake, timeout, command, wake, write_gpu, finish_task,
  on_wake, has_channel, deliver, remove_task,
}
use lact.Handler.Edit.Outcome.{previous, waiting, accepted, edit_accepted}

module _ {P : Platform} where
  has_channel-last : (ts : List (Task P)) (t : Task P) → has_channel t.channel (ts ++ t ∷ []) ≡ true
  unfolding has_channel
  has_channel-last [] t = ground arith
  has_channel-last (u ∷ ts) t = ground (arith, has_channel-last ts t)

  deliver-last :
      (cmd : ConfirmCommand) (ts : List (Task P)) (t : Task P)
      → has_channel t.channel ts ≡ false
      → deliver t.channel cmd (ts ++ t ∷ []) ≡ ts ++ record t { received = some cmd } ∷ []
  unfolding deliver has_channel
  deliver-last cmd [] t e = ground arith
  deliver-last cmd (u ∷ ts) t e = ground (arith, deliver-last cmd ts t)

  remove_task-last :
      (ts : List (Task P)) (t : Task P)
      → has_channel t.channel ts ≡ false
      → remove_task t.channel (ts ++ t ∷ []) ≡ ts
  unfolding remove_task has_channel
  remove_task-last [] t e = ground arith
  remove_task-last (u ∷ ts) t e = ground (arith, remove_task-last ts t)

  pub gpus-write_gpu :
      (config : Config P) (settings : Dict String (Gpu P)) (id : String) (gpu : Gpu P)
      → gpus P config ≡ ok settings
      → gpus P (write_gpu config id gpu) ≡ ok (insert str_eq settings id gpu)
  unfolding write_gpu
  gpus-write_gpu config settings id gpu e =
      rw (e, write_gpu) ((gpus-set_gpus P config settings (insert str_eq settings id gpu) e).0)

module _ (E : Env) (h : Handler E) (id : String) (f : Gpu E.platform → Gpu E.platform)
    (settings : Dict String (Gpu E.platform))
    (controller : GpuController E.platform E.World E.Reply) (w : E.World)
    (idle : h.confirm_config_tx ≡ none) (fresh : has_channel h.next_channel h.tasks ≡ false)
    (read : gpus E.platform h.config ≡ ok settings) (found : find_controller E id ≡ ok controller)
    (applied : controller.apply_config (f (previous E h id f settings)) h.world ≡ (ok tt, w)) where
  abbrev old : Gpu E.platform
  old = previous E h id f settings

  -- The task once the answer is in its channel.
  abbrev pub answered : ConfirmCommand → Task E.platform
  answered cmd = record (waiting E h id f old) { received = some cmd }

  -- The state after the edit and the answer.
  abbrev delivered : ConfirmCommand → Handler E
  delivered cmd = record (accepted E h id f old w) {
    confirm_config_tx = none;
    tasks = h.tasks ++ answered cmd ∷ [];
  }

  confirm_delivered :
      (cmd : ConfirmCommand)
      → confirm_pending_config E cmd (accepted E h id f old w) ≡ (ok tt, delivered cmd)
  unfolding confirm_pending_config
  confirm_delivered cmd = ground (
    arith,
    has_channel-last h.tasks (waiting E h id f old),
    deliver-last cmd h.tasks (waiting E h id f old) fresh,
  )

  finish_lem :
      (t : Task E.platform) (wk : Wake) (s : Handler E)
      → t.id ≡ id
      → finish_task E t wk s
        ≡ record (on_wake E controller t wk (record s { tasks = remove_task t.channel s.tasks })) {
          confirm_config_tx = none;
        }
  unfolding finish_task
  finish_lem t wk s e = ground (arith, found)

  -- What a confirmed change leaves.
  abbrev pub IsSaved : Handler E → Type 0
  IsSaved s =
      (gpus E.platform s.config ≡ ok (insert str_eq settings id (f old)))
      × (s.confirm_config_tx ≡ none)
      × (s.tasks ≡ h.tasks)
      × (s.world ≡ (E.save s.config w).1)

  -- What a change leaves that was not confirmed.
  abbrev pub IsReverted : Handler E → Type 0
  IsReverted s =
      (s.config ≡ h.config)
      × (s.confirm_config_tx ≡ none)
      × (s.tasks ≡ h.tasks)
      × (s.world ≡ (controller.apply_config old w).1)

  finish_confirmed : IsSaved (
      finish_task E
        (answered ConfirmCommand.confirm)
        (command ConfirmCommand.confirm)
        (delivered ConfirmCommand.confirm))
  unfolding on_wake
  finish_confirmed = subst IsSaved (sym (finish_lem _ _ _ refl)) (
    gpus-write_gpu h.config settings id (f old) read,
    refl,
    remove_task-last h.tasks (answered ConfirmCommand.confirm) fresh,
    refl,
  )

  finish-IsReverted : IsReverted (
      finish_task E
        (answered ConfirmCommand.revert)
        (command ConfirmCommand.revert)
        (delivered ConfirmCommand.revert))
  unfolding on_wake
  finish-IsReverted =
      subst IsReverted (sym (finish_lem _ _ _ refl))
        (refl, refl, remove_task-last h.tasks (answered ConfirmCommand.revert) fresh, refl)

  finish_timed_out :
      IsReverted (finish_task E (waiting E h id f old) timeout (accepted E h id f old w))
  unfolding on_wake
  finish_timed_out =
      subst IsReverted (sym (finish_lem _ _ _ refl))
        (refl, refl, remove_task-last h.tasks (waiting E h id f old) fresh, refl)

  -- The task as the executor finds it: its timer runs out, or it is answered and woken.
  abbrev pub timed_out : Handler E → Handler E
  timed_out s = finish_task E (waiting E h id f old) timeout s

  abbrev pub replied : ConfirmCommand → Handler E → Handler E
  replied cmd s = finish_task E (answered cmd) (command cmd) (confirm_pending_config E cmd s).1

  -- After an accepted edit of a card under a known profile, with no change pending before: an
  -- answer is accepted and wakes the task that waits. If it confirms, the settings that `gpus`
  -- reads are the old ones with the edited card's replaced, and that configuration is saved. If it
  -- reverts, or if the timer runs out, the configuration is as before the edit and the card has
  -- been given its old settings again. Each time no change is pending and no task is left over.
  pub edit_answered :
      let s = (edit_gpu_config E id f h).1 in
      ((cmd : ConfirmCommand)
        → ((confirm_pending_config E cmd s).0 ≡ ok tt)
          × (wake E (confirm_pending_config E cmd s).1 (answered cmd) ≡ some (command cmd)))
      × IsSaved (replied ConfirmCommand.confirm s)
      × IsReverted (replied ConfirmCommand.revert s)
      × IsReverted (timed_out s)
  unfolding wake
  edit_answered = rw (edit_accepted E h id f settings controller idle read found w applied) (
    λ cmd. (rw (confirm_delivered cmd) refl, refl),
    rw (confirm_delivered ConfirmCommand.confirm) finish_confirmed,
    rw (confirm_delivered ConfirmCommand.revert) finish-IsReverted,
    finish_timed_out,
  )
