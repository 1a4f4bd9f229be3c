-- ===== src/Gui/Apply/Ends.antt =====
-- The whole of `apply_settings`, against the settings that the pages show.
use lact.Prelude.{
  ℕ, String, ◌≡◌, refl, sym, ap, subst, Option, none, some, List, [], ◌∷◌, inl, inr, arith,
}
use lact.Prelude.Exec.{Exec, Result, ok, err, with_context, continue}
use lact.Prelude.Io.{pure, lift, in_context, ◌>>=◌, ◌>>◌}
use lact.Schema.{SetClocksCommand}
use lact.Config.{Gpu}
use lact.Config.Clocks.{apply_commands}
use lact.Handler.State.{Env, Handler}
use lact.Handler.Settings.{batch_set_clocks_value}
use lact.Server.{System, Payload, timer, handle_request}
use lact.Server.Prompt.{IsQuiet, Holds, Waits, settle, settle-IsQuiet, settle-Waits, prompt}
use lact.Server.Prompt.Edits.{Edited, Failed, edit-Edited}
use lact.Server.Prompt.Requests.{set_power_profile_mode-Does}
use lact.Gui.Toolkit.{Toolkit}
use lact.Gui.Clocks.{get_commands}
use lact.Gui.OcPage.{OcPage}
use lact.Gui.ThermalsPage.{ThermalsPage}
use lact.Gui.Apply.{apply_clocks, apply_settings}
use lact.Gui.Apply.Changes.{
  mode_change, pages_change, apply_power_cap-Does, apply_performance_level-Does,
  apply_thermals-Does, apply_power_states-Does,
}
use lact.Gui.Apply.Effect.{Change, and_then, Applied, Does, prompt_daemon, read_timer, commit-Does}

module _ (E : Env) (system : System E) (id : String) where
  -- How `apply_settings` ends, with the settings that the pages ask for and the clocks commands.
  abbrev pub Ended :
      Result (Gpu E.platform) → List SetClocksCommand → Result (Option ℕ) × Handler E → Type 0
  Ended expected commands (ok none, h) =
      (gpu : Gpu E.platform) × (expected ≡ ok gpu) × (commands ≡ []) × Holds E id gpu h
  Ended expected commands (ok (some delay), h) =
      (gpu : Gpu E.platform) × (expected ≡ ok gpu)
      × Waits E id gpu (apply_commands E.platform gpu commands) h
  Ended expected commands (err e, h) = Failed E id expected h

  -- The answer to the clocks commands, and how `apply_clocks` goes on with it.
  abbrev answered : Result ℕ → Handler E → Result (Payload E) × Handler E
  answered r h =
      continue (with_context "Failed to edit GPU config and batch set clocks" r)
        (λ n k. (ok (timer n), k)) h

  abbrev timed : Result (Payload E) × Handler E → Result ℕ × Handler E
  timed (r, h) = continue r (λ payload k. (read_timer E system payload, k)) (settle E h)

  abbrev asked : Result (Payload E) × Handler E → Result (Option ℕ) × Handler E
  asked x =
      continue (with_context "Could not commit clocks settings" (timed x).0)
        (λ n k. (ok (some n), k)) (timed x).1

  asked_ends :
      (gpu : Gpu E.platform) (commands : List SetClocksCommand) (r : Result ℕ) (h : Handler E)
      → Edited E id gpu (ok (apply_commands E.platform gpu commands)) (r, h)
      → Ended (ok gpu) commands (asked (answered r h))
  asked_ends gpu commands (ok n) h (gpu', p, waits) =
      let same : apply_commands E.platform gpu commands ≡ gpu' =
        ap (λ r. elim r [ ok g ↦ g | err e ↦ gpu' ]) p in
      let settled = subst (Waits E id gpu gpu') (sym (settle-Waits E h waits)) waits in
      (gpu, refl, subst (λ g. Waits E id gpu g (settle E h)) (sym same) settled)
  asked_ends gpu commands (err e) h (quiet, inl (e', p)) = absurd (ground arith)
  asked_ends gpu commands (err e) h (quiet, inr refuses) =
      (subst (IsQuiet E) (sym (settle-IsQuiet E h quiet)) quiet, inr refuses)

  clocks_end :
      (gpu : Gpu E.platform) (commands : List SetClocksCommand) (h : Handler E)
      → Holds E id gpu h
      → Ended (ok gpu) commands (apply_clocks (prompt_daemon E system) id commands h)
  unfolding apply_clocks ◌>>=◌ in_context pure lift prompt handle_request batch_set_clocks_value
  clocks_end gpu [] h holds = (gpu, refl, refl, holds)
  clocks_end gpu (command ∷ commands) h holds =
      asked_ends gpu (command ∷ commands) _ _
        (edit-Edited E id (λ g. apply_commands E.platform g (command ∷ commands)) gpu h holds)

  goes_on :
      (expected : Result (Gpu E.platform)) (commands : List SetClocksCommand)
      (r : Result (Unit {0})) (h : Handler E)
      → Applied E id expected (r, h)
      → Ended expected commands
          (continue r (λ _. apply_clocks (prompt_daemon E system) id commands) h)
  goes_on expected commands (ok _) h (gpu, p, holds) =
      subst (λ x. Ended x commands (apply_clocks (prompt_daemon E system) id commands h)) (sym p)
        (clocks_end gpu commands h holds)
  goes_on expected commands (err e) h failed = failed

  record Finishes (change : Change E) (commands : List SetClocksCommand)
      (act : Exec (Handler E) (Option ℕ)) : Type 0 where
    after :
        (gpu : Gpu E.platform) (h : Handler E)
        → Holds E id gpu h
        → Ended (change gpu) commands (act h)

  clocks-Finishes :
      (change : Change E) (commands : List SetClocksCommand) (act : Exec (Handler E) (Unit {0}))
      → Does E id change act
      → Finishes change commands (act >> apply_clocks (prompt_daemon E system) id commands)
  unfolding ◌>>=◌
  clocks-Finishes change commands act does = record {
    after = λ gpu h holds. goes_on _ commands (act h).0 (act h).1 (does.after gpu h holds);
  }

  goes_further :
      (expected : Result (Gpu E.platform)) (second : Change E) (commands : List SetClocksCommand)
      (rest : Exec (Handler E) (Option ℕ)) (r : Result (Unit {0})) (h : Handler E)
      → Applied E id expected (r, h)
      → Finishes second commands rest
      → Ended (and_then E expected second) commands (continue r (λ _. rest) h)
  goes_further expected second commands rest (ok _) h (gpu, p, holds) finishes =
      rw p (finishes.after gpu h holds)
  goes_further expected second commands rest (err e) h (quiet, inl (e', p)) finishes =
      (quiet, inl (e', rw p refl))
  goes_further expected second commands rest (err e) h (quiet, inr refuses) finishes =
      (quiet, inr refuses)

  bind-Finishes :
      (first second : Change E) (commands : List SetClocksCommand)
      (act : Exec (Handler E) (Unit {0})) (rest : Exec (Handler E) (Option ℕ))
      → Does E id first act
      → Finishes second commands rest
      → Finishes (λ gpu. and_then E (first gpu) second) commands (act >> rest)
  unfolding ◌>>=◌
  bind-Finishes first second commands act rest does finishes = record {
    after = λ gpu h holds.
        goes_further (first gpu) second commands rest (act h).0 (act h).1 (does.after gpu h holds)
          finishes;
  }

  module _ (tk : Toolkit E.platform) (oc_page : OcPage E.platform)
      (thermals_page : ThermalsPage E.platform) where
    settings-Finishes :
        Finishes
          (pages_change E id tk oc_page thermals_page)
          (get_commands oc_page.clocks_frame)
          (apply_settings (prompt_daemon E system) id tk oc_page thermals_page)
    unfolding apply_settings pages_change
    settings-Finishes = bind-Finishes _ _ _ _ _ (apply_power_cap-Does E system id _) (
        bind-Finishes _ _ _ _ _
          (commit-Does E system id _ _ (mode_change E _ _)
            (λ gpu h holds. set_power_profile_mode-Does E id system gpu h holds _ _))
          (bind-Finishes _ _ _ _ _ (apply_performance_level-Does E system id _ _) (
            bind-Finishes _ _ _ _ _ (apply_thermals-Does E system id _)
              (clocks-Finishes _ _ _ (apply_power_states-Does E system id _)))))

    -- Over a daemon whose woken tasks go on before the next request, where no change waits and the
    -- card's settings are `gpu`: if `apply_settings` succeeds, the pages ask for settings that
    -- `pages_change` computes from `gpu`, and the card has them; without clocks commands no change
    -- waits, otherwise one does, from those settings to the same ones under the commands. If it
    -- fails, no change waits, and either what the pages ask for is refused, or the card is unknown
    -- or refuses some settings.
    pub apply_settings_lem :
        (gpu : Gpu E.platform) (h : Handler E)
        → Holds E id gpu h
        → Ended
            (pages_change E id tk oc_page thermals_page gpu)
            (get_commands oc_page.clocks_frame)
            (apply_settings (prompt_daemon E system) id tk oc_page thermals_page h)
    apply_settings_lem gpu h holds = settings-Finishes.after gpu h holds
