-- ===== src/Server/Prompt.antt =====
-- A daemon whose waiting tasks go on as soon as they can, before the next request is read.
pub mod Edits
pub mod Requests
use lact.Prelude.{
  ℕ, zero, suc, String, ◌≡◌, refl, sym, ap, ◌∙◌, subst, Bool, true, false, Option, none, some, List,
  [], ◌∷◌, ◌==◌, arith, str_eq, eq_iff,
}
use lact.Prelude.Exec.{Exec, Result, ok, err}
use lact.Prelude.Dict.{Dict, get, insert, get-insert}
use lact.Schema.{Request, ConfirmCommand}
use lact.Config.{Gpu, gpus}
use lact.Handler.State.{GpuController, Env, Task, Handler, find_controller}
use lact.Handler.Edit.{
  or_default, Wake, command, wake, finish_task, confirm_pending_config, has_channel, deliver,
  on_wake, remove_task, save_task, write_gpu,
}
use lact.Handler.Edit.Answer.{gpus-write_gpu}
use lact.Server.{System, Payload, handle_request}

module _ (E : Env) where
  abbrev finish_woken : Task E.platform → Option Wake → Handler E → Handler E
  finish_woken t none h = h
  finish_woken t (some w) h = finish_task E t w h

  unfoldable pub settle_all : List (Task E.platform) → Handler E → Handler E
  settle_all [] h = h
  settle_all (t ∷ ts) h = settle_all ts (finish_woken t (wake E h t) h)

  -- The woken tasks go on, each to its end.
  unfoldable pub settle : Handler E → Handler E
  unfolding settle_all
  settle h = settle_all h.tasks h

  -- No change waits for its answer.
  pub record IsQuiet (h : Handler E) : Type 0 where
    pub no_change : h.confirm_config_tx ≡ none
    pub no_task : h.tasks ≡ []

  -- The settings of the card under the selected profile are `gpu`, and no change waits.
  pub record Holds (id : String) (gpu : Gpu E.platform) (h : Handler E) : Type 0 where
    pub quiet : IsQuiet h
    pub settings : Dict String (Gpu E.platform)
    pub read : gpus E.platform h.config ≡ ok settings
    pub entry : or_default (get str_eq settings id) ≡ gpu

  abbrev pub with_task : Task E.platform → Handler E → Handler E
  with_task t h = record h { confirm_config_tx = some t.channel; tasks = t ∷ [] }

  -- One change of the card waits for its answer, from the settings `old` to the settings `gpu`.
  pub record Waits (id : String) (old gpu : Gpu E.platform) (h : Handler E) : Type 0 where
    pub task : Task E.platform
    pub state : h ≡ with_task task h
    pub unanswered : task.received ≡ none
    pub of_card : task.id ≡ id
    pub before : task.previous_config ≡ old
    pub asked : task.new_config ≡ gpu
    pub settings : Dict String (Gpu E.platform)
    pub read : gpus E.platform h.config ≡ ok settings
    pub kept : or_default (get str_eq settings id) ≡ old
    pub controller : GpuController E.platform E.World E.Reply
    pub found : find_controller E id ≡ ok controller

  pub settle-IsQuiet : (h : Handler E) → IsQuiet h → settle h ≡ h
  unfolding settle settle_all
  settle-IsQuiet h q = rw (q.no_task, settle_all) refl

  settle-with_task :
      (t : Task E.platform) (h : Handler E)
      → t.received ≡ none
      → settle (with_task t h) ≡ with_task t h
  unfolding settle settle_all wake
  settle-with_task t h p = ground arith

  pub settle-Waits :
      {id : String} {old gpu : Gpu E.platform} (h : Handler E) → Waits id old gpu h → settle h ≡ h
  settle-Waits h w =
      subst (λ k. settle k ≡ k) (sym w.state) (settle-with_task w.task h w.unanswered)

  module _ (id : String) (gpu : Gpu E.platform) where
    -- What confirming a waiting change leads to.
    abbrev Confirmed : Handler E → Type 0
    Confirmed h =
        ((confirm_pending_config E ConfirmCommand.confirm h).0 ≡ ok tt)
        × Holds id gpu (settle (confirm_pending_config E ConfirmCommand.confirm h).1)

    abbrev answered : Task E.platform → Task E.platform
    answered t = record t { received = some ConfirmCommand.confirm }

    confirm-with_task :
        (t : Task E.platform) (h : Handler E)
        → confirm_pending_config E ConfirmCommand.confirm (with_task t h)
          ≡ (ok tt, record h { confirm_config_tx = none; tasks = answered t ∷ [] })
    unfolding confirm_pending_config has_channel deliver
    confirm-with_task t h = ground arith

    settle-answered :
        (t : Task E.platform) (h : Handler E)
        → settle (record h { confirm_config_tx = none; tasks = answered t ∷ [] })
          ≡ finish_task E
              (answered t)
              (command ConfirmCommand.confirm)
              (record h { confirm_config_tx = none; tasks = answered t ∷ [] })
    unfolding settle settle_all wake
    settle-answered t h = refl

    module _ (controller : GpuController E.platform E.World E.Reply)
        (found : find_controller E id ≡ ok controller) where
      finish-answered :
          (t : Task E.platform) (h : Handler E)
          → t.id ≡ id
          → finish_task E
              (answered t)
              (command ConfirmCommand.confirm)
              (record h { confirm_config_tx = none; tasks = answered t ∷ [] })
            ≡ record (save_task E
                (answered t)
                (record h { confirm_config_tx = none; tasks = [] })) { confirm_config_tx = none }
      unfolding finish_task on_wake remove_task
      finish-answered t h p = ground (arith, found)

      save_task-Holds :
          (t : Task E.platform) (h : Handler E) (settings : Dict String (Gpu E.platform))
          → t.id ≡ id
          → t.new_config ≡ gpu
          → gpus E.platform h.config ≡ ok settings
          → Holds id gpu
              (record (save_task E
                (answered t)
                (record h { confirm_config_tx = none; tasks = [] })) { confirm_config_tx = none })
      unfolding save_task
      save_task-Holds t h settings p q r = record {
        quiet = record { no_change = refl; no_task = refl };
        settings = insert str_eq settings id gpu;
        read = rw (p, q) (gpus-write_gpu h.config settings id gpu r);
        entry = rw (get-insert str_eq eq_iff settings id id gpu, (eq_iff id id).1 refl) refl;
      }

    pub confirm-Waits : {old : Gpu E.platform} (h : Handler E) → Waits id old gpu h → Confirmed h
    confirm-Waits h w =
        let done =
          save_task-Holds w.controller w.found w.task h w.settings w.of_card w.asked w.read in
        subst Confirmed (sym w.state) (
          rw (confirm-with_task w.task h) (
            refl,
            rw (settle-answered w.task h, finish-answered w.controller w.found w.task h w.of_card)
                done,
          ))

  module _ (system : System E) where
    -- A request, after which the woken tasks go on.
    unfoldable pub prompt : Request E.platform → Exec (Handler E) (Payload E)
    unfolding handle_request settle
    prompt r h = ((handle_request E system r h).0, settle (handle_request E system r h).1)
