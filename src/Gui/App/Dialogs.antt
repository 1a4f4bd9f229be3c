-- ===== src/Gui/App/Dialogs.antt =====
-- The dialog that asks to keep the clocks: its timer of one second, and the user's answer.
use lact.Prelude.{
  ℕ, zero, suc, ◌-◌, ◌≤◌, ◌<◌, ◌≡◌, refl, ap, ◌∙◌, Bool, true, false, none, some, [], ◌∷◌, ◌++◌,
  ◌==◌, arith, if◌then◌else◌,
}
use lact.Platform.{Platform}
use lact.Schema.{ConfirmCommand, Request}
use lact.Gui.Apply.{DaemonCalls}
use lact.Gui.App.{AppMsg, Dialog, App, opened}

-- `delay -= 1` in a `u64`, as a release build wraps it.
unfoldable pub pred_u64 : ℕ → ℕ
pred_u64 zero = 18446744073709551615
pred_u64 (suc n) = n

module _ {P : Platform} {World : Type 0} where
  -- The dialog with its new time, or its end.
  abbrev counted : ℕ → Dialog → App P World → App P World
  counted left d app =
      if left == 0
      then record app {
        dialog = some (record d { delay = left; shown = false; ticking = false });
        sent = app.sent ++ AppMsg.reload_data false ∷ [];
      }
      else record app { dialog = some (record d { delay = left }) }

  abbrev ticked : Dialog → App P World → App P World
  ticked d app =
      if d.confirmed
      then record app { dialog = some (record d { ticking = false }) }
      else counted (pred_u64 d.delay) d app

  -- A second passes.
  unfoldable pub tick : App P World → App P World
  unfolding pred_u64
  tick app = elim app.dialog [ none ↦ app | some d ↦ if d.ticking then ticked d app else app ]

  unfoldable pub ticks : ℕ → App P World → App P World
  unfolding tick
  ticks zero app = app
  ticks (suc n) app = ticks n (tick app)

  module _ {Payload : Type 0} (daemon : DaemonCalls P Payload World) where
    abbrev command_of : Bool → ConfirmCommand
    command_of true = ConfirmCommand.confirm
    command_of false = ConfirmCommand.revert

    -- The answer of the dialog; an error of the daemon is only shown.
    unfoldable pub respond : Bool → App P World → App P World
    respond keep app = elim app.dialog [
      | none ↦ app
      | some d ↦ record app {
        dialog = some (record d { confirmed = true; shown = false });
        sent = app.sent ++ AppMsg.reload_data false ∷ [];
        daemon = (daemon.call (Request.confirm_pending_config (command_of keep)) app.daemon).1;
      }
    ]

  -- The window with the dialog open, and with the dialog's time over.
  abbrev pub open_at : ℕ → App P World → App P World
  open_at delay app = record app { dialog = some (opened delay) }

  abbrev pub over : App P World → App P World
  over app = record app {
    dialog = some (record (opened 0) { shown = false; ticking = false });
    sent = app.sent ++ AppMsg.reload_data false ∷ [];
  }

  ticks-over : (n : ℕ) (app : App P World) → ticks n (over app) ≡ over app
  unfolding ticks tick
  ticks-over zero app = refl
  ticks-over (suc n) app = ticks-over n app

  tick-open :
      (delay : ℕ) (app : App P World)
      → tick (open_at (suc (suc delay)) app) ≡ open_at (suc delay) app
  unfolding tick pred_u64
  tick-open delay app = let left : (suc delay == 0) ≡ false = ground arith in rw left refl

  same_time : (app : App P World) (a b : ℕ) → a ≡ b → open_at a app ≡ open_at b app
  same_time app a b p = ap (λ d. open_at d app) p

  -- The dialog that asks to keep the clocks, opened with a time and not answered: before that many
  -- seconds it is open, shows the rest, and has sent nothing; from then on, if the time is not 0,
  -- it is closed for good and has asked once for the data to be read again.
  pub ticks-open :
      (n delay : ℕ) (app : App P World)
      → (n < delay → ticks n (open_at delay app) ≡ open_at (delay - n) app)
        × (0 < delay → delay ≤ n → ticks n (open_at delay app) ≡ over app)
  unfolding ticks tick pred_u64
  ticks-open zero delay app =
      (λ h. same_time app delay (delay - 0) (omega arith), λ p h. absurd (omega arith))
  ticks-open (suc n) zero app = (λ h. absurd (omega arith), λ p h. absurd (omega arith))
  ticks-open (suc n) (suc zero) app = (λ h. absurd (omega arith), λ p h. ticks-over n app)
  ticks-open (suc n) (suc (suc delay)) app =
      let (before, after) = ticks-open n (suc delay) app in
      let step = ap (ticks n) (tick-open delay app) in
      (
        λ h.
            step
            ∙ before (omega arith)
            ∙ same_time app (suc delay - n) (suc (suc delay) - suc n) (omega arith),
        λ p h. step ∙ after (omega arith) (omega arith),
      )
