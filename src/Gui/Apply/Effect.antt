-- ===== src/Gui/Apply/Effect.antt =====
-- What a press on `Apply` does to a card's settings, over a daemon whose tasks go on at once.
use lact.Prelude.{ℕ, String, ◌≡◌, refl, sym, subst, inl, inr}
use lact.Prelude.Exec.{Exec, msg, Result, ok, err, with_context, continue}
use lact.Prelude.Io.{pure, in_context, ◌>>=◌, ◌>>◌}
use lact.Schema.{Request, ConfirmCommand}
use lact.Config.{Gpu}
use lact.Handler.State.{Env, Handler}
use lact.Handler.Edit.{confirm_pending_config}
use lact.Server.{System, Payload, timer, handle_request}
use lact.Server.Prompt.{
  IsQuiet, Holds, Waits, settle, settle-IsQuiet, settle-Waits, confirm-Waits, prompt,
}
use lact.Server.Prompt.Edits.{Edited, Failed}
use lact.Gui.Apply.{DaemonCalls, commit}

module _ (E : Env) where
  abbrev pub Change : Type 0
  Change = Gpu E.platform → Result (Gpu E.platform)

  abbrev pub and_then : Result (Gpu E.platform) → Change → Result (Gpu E.platform)
  and_then (ok gpu) change = change gpu
  and_then (err e) change = err e

  module _ (id : String) where
    -- The card has the settings expected; after an error, no change waits, and the error was
    -- expected or is the card's.
    abbrev pub Applied : {A : Type 0} → Result (Gpu E.platform) → Result A × Handler E → Type 0
    Applied expected (ok a, h) = (gpu : Gpu E.platform) × (expected ≡ ok gpu) × Holds E id gpu h
    Applied expected (err e, h) = Failed E id expected h

    -- The action changes the card's settings as `change` says.
    pub record Does (change : Change) (act : Exec (Handler E) (Unit {0})) : Type 0 where
      pub after :
          (gpu : Gpu E.platform) (h : Handler E) → Holds E id gpu h → Applied (change gpu) (act h)

module _ (E : Env) (system : System E) where
  abbrev pub read_timer : Payload E → Result ℕ
  read_timer (timer n) = ok n
  read_timer _ = err (msg "invalid type")

  -- The client of a daemon that finishes its woken tasks between two requests.
  abbrev pub prompt_daemon : DaemonCalls E.platform (Payload E) (Handler E)
  prompt_daemon = record { call = prompt E system; timer = read_timer }

  module _ (id : String) where
    abbrev confirmation : Exec (Handler E) (Unit {0})
    confirmation =
        in_context "Could not commit config"
          (prompt E system (Request.confirm_pending_config ConfirmCommand.confirm))
        >> pure tt

    confirm_request :
        (h : Handler E)
        → (confirm_pending_config E ConfirmCommand.confirm h).0 ≡ ok tt
        → confirmation h ≡ (ok tt, settle E (confirm_pending_config E ConfirmCommand.confirm h).1)
    unfolding prompt handle_request ◌>>=◌ in_context pure
    confirm_request h p = rw p refl

    confirmed :
        (old gpu : Gpu E.platform) (expected : Result (Gpu E.platform)) (h : Handler E)
        → expected ≡ ok gpu
        → Waits E id old gpu h
        → Applied E id expected (confirmation h)
    confirmed old gpu expected h p waits =
        let (taken, holds) = confirm-Waits E id gpu h waits in
        subst (Applied E id expected) (sym (confirm_request h taken)) (gpu, p, holds)

    commit_ends :
        (message : String) (old : Gpu E.platform) (expected : Result (Gpu E.platform))
        (answer : Result (Payload E)) (h : Handler E)
        → Edited E id old expected (answer, h)
        → Applied E id expected
            (continue (with_context message answer) (λ _. confirmation) (settle E h))
    commit_ends message old expected (ok payload) h (gpu, p, waits) =
        subst (λ k. Applied E id expected (confirmation k)) (sym (settle-Waits E h waits))
          (confirmed old gpu expected h p waits)
    commit_ends message old expected (err e) h (quiet, blame) =
        (subst (IsQuiet E) (sym (settle-IsQuiet E h quiet)) quiet, blame)

    pub commit-Does :
        (message : String) (request : Request E.platform) (change : Change E)
        → ((gpu : Gpu E.platform) (h : Handler E)
            → Holds E id gpu h
            → Edited E id gpu (change gpu) (handle_request E system request h))
        → Does E id change (commit prompt_daemon message request)
    unfolding commit prompt ◌>>=◌ in_context
    commit-Does message request change edits = record {
      after = λ gpu h holds. commit_ends message gpu (change gpu) _ _ (edits gpu h holds);
    }

    pub pure-Does : Does E id ok (pure tt)
    unfolding pure
    pure-Does = record { after = λ gpu h holds. (gpu, refl, holds) }

    continue-Does :
        (expected : Result (Gpu E.platform)) (change : Change E)
        (rest : Exec (Handler E) (Unit {0})) (answer : Result (Unit {0})) (h : Handler E)
        → Applied E id expected (answer, h)
        → Does E id change rest
        → Applied E id (and_then E expected change) (continue answer (λ _. rest) h)
    continue-Does expected change rest (ok a) h (gpu, p, holds) does = rw p (does.after gpu h holds)
    continue-Does expected change rest (err e) h (quiet, inl (e', p)) does =
        (quiet, inl (e', rw p refl))
    continue-Does expected change rest (err e) h (quiet, inr refuses) does = (quiet, inr refuses)

    pub bind-Does :
        (first second : Change E) (act rest : Exec (Handler E) (Unit {0}))
        → Does E id first act
        → Does E id second rest
        → Does E id (λ gpu. and_then E (first gpu) second) (act >> rest)
    unfolding ◌>>=◌
    bind-Does first second act rest does does' = record {
      after = λ gpu h holds.
          continue-Does (first gpu) second rest (act h).0 (act h).1 (does.after gpu h holds) does';
    }
