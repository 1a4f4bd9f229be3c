-- ===== src/Tests/Edits.antt =====
-- The examples of handler.rs.
use lact.Prelude.{ℕ, [], ◌≡◌, ◌≢◌, ◌↔◌, refl, false, none, some}
use lact.Prelude.Exec.{msg, ok, err}
use lact.Prelude.Dict.{get}
use lact.Platform.Fixed.{fixed}
use lact.Schema.{ConfirmCommand}
use lact.Config.{gpus, default_gpu}
use lact.Handler.State.{Handler, find_controller, controller_by_id}
use lact.Handler.Edit.{
  edit_gpu_config, confirm_pending_config, timeout, command, dropped, wake, finish_task,
  has_channel, stop_listening, refuse_if_pending, after_apply, wait_config_confirm, remove_task,
}
use lact.Handler.Edit.Outcome.{previous, waiting}
use lact.Handler.Edit.Answer.{edit_answered, answered, replied, timed_out, IsSaved, IsReverted}
use lact.Handler.Edit.Steps.{is_woken, here, next, edit}
use lact.Handler.Edit.Channels.{confirm_reaches}
use lact.Handler.Edit.Stale.{finish_drops_newer}
use lact.Tests.Fixtures.{env, card, config, daemon, saved, set_cap, pending, waiting_task}

abbrev h : Handler env
h = daemon config

read : gpus fixed config ≡ ok saved
unfolding gpus
read = refl

found : find_controller env "gpu" ≡ ok card
unfolding find_controller get
found = refl

fresh : has_channel 7 h.tasks ≡ false
unfolding has_channel
fresh = refl

applied : card.apply_config (set_cap 150 (previous env h "gpu" (set_cap 150) saved)) 0 ≡ (ok tt, 1)
unfolding get
applied = refl

abbrev edited : Handler env
edited = (edit_gpu_config env "gpu" (set_cap 150) h).1

edit_answered_example :
    ((cmd : ConfirmCommand)
      → ((confirm_pending_config env cmd edited).0 ≡ ok tt)
        × (wake env
              (confirm_pending_config env cmd edited).1
              (answered env h "gpu" (set_cap 150) saved card 1 refl fresh read found applied cmd)
            ≡ some (command cmd)))
    × IsSaved env h "gpu" (set_cap 150) saved card 1 refl fresh read found applied (
        replied env h "gpu"
          (set_cap 150)
          saved
          card
          1
          refl
          fresh
          read
          found
          applied
          ConfirmCommand.confirm
          edited)
    × IsReverted env h "gpu" (set_cap 150) saved card 1 refl fresh read found applied (
        replied env h "gpu"
          (set_cap 150)
          saved
          card
          1
          refl
          fresh
          read
          found
          applied
          ConfirmCommand.revert
          edited)
    × IsReverted env h "gpu"
        (set_cap 150)
        saved
        card
        1
        refl
        fresh
        read
        found
        applied
        (timed_out env h "gpu" (set_cap 150) saved card 1 refl fresh read found applied edited)
edit_answered_example =
    edit_answered env h "gpu" (set_cap 150) saved card 1 refl fresh read found applied

confirm_reaches_example :
    ((confirm_pending_config env ConfirmCommand.revert edited).0 ≡ ok tt)
    ↔ ((c : ℕ) × (edited.confirm_config_tx ≡ some c) × (is_woken {P = fixed} c [] ≡ false))
confirm_reaches_example =
    confirm_reaches env h edited [] ConfirmCommand.revert refl refl
      (next here (edit h [] "gpu" (set_cap 150)))

-- The timer of the edit's task runs out: its change is pending still, and nobody listens.
abbrev expired : Handler env
expired = stop_listening env (waiting env h "gpu" (set_cap 150) (default_gpu fixed)) edited

late_answer :
    (confirm_pending_config env ConfirmCommand.confirm expired).0
    ≡ err (msg "Could not confirm config")
unfolding confirm_pending_config edit_gpu_config after_apply wait_config_confirm refuse_if_pending
    has_channel remove_task gpus get find_controller controller_by_id
late_answer = refl

finish_drops_newer_example :
    (wake env pending (waiting_task 4) ≡ none)
    × (wake env (finish_task env (waiting_task 3) timeout pending) (waiting_task 4) ≡ some dropped)
    × ((cmd : ConfirmCommand)
        → (confirm_pending_config env cmd (finish_task env (waiting_task 3) timeout pending)).0
          ≢ ok tt)
unfolding find_controller get
finish_drops_newer_example =
    finish_drops_newer env pending (waiting_task 3) (waiting_task 4) timeout refl refl refl
