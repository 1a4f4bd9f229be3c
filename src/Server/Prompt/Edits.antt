-- ===== src/Server/Prompt/Edits.antt =====
-- How an edit of a card's settings ends, for a daemon where no change waits.
use lact.Prelude.{String, ◌≡◌, refl, sym, ap, ◌∙◌, subst, inl, inr, ◌⊎◌, List, [], ◌∷◌, ◌++◌}
use lact.Prelude.Exec.{Error, Result, Result-cases, ok, err}
use lact.Config.{Gpu}
use lact.Handler.State.{GpuController, Env, Handler, Task, find_controller}
use lact.Handler.Edit.{edit_gpu_config}
use lact.Handler.Edit.Outcome.{waiting, accepted, edit_accepted, edit_rejected, edit_refused}
use lact.Server.Prompt.{IsQuiet, Holds, Waits}

module _ (E : Env) (id : String) where
  -- The card is not known, or it refuses some settings in some state.
  abbrev pub Refuses : Type 0
  Refuses =
      ((e : Error) × (find_controller E id ≡ err e))
      ⊎ ((controller : GpuController E.platform E.World E.Reply) × (find_controller E id
            ≡ ok controller)
          × (gpu : Gpu E.platform) × (w : E.World) × (e : Error) × ((controller.apply_config gpu
                w).0
              ≡ err e))

  -- No change waits, and the failure was expected or is the card's.
  abbrev pub Failed : Result (Gpu E.platform) → Handler E → Type 0
  Failed expected h = IsQuiet E h × (((e : Error) × (expected ≡ err e)) ⊎ Refuses)

  -- With the settings that are expected, one change waits; after an error, none does.
  abbrev pub Edited :
      {A : Type 0} → Gpu E.platform → Result (Gpu E.platform) → Result A × Handler E → Type 0
  Edited old expected (ok a, h) =
      (gpu : Gpu E.platform) × (expected ≡ ok gpu) × Waits E id old gpu h
  Edited old expected (err e, h) = Failed expected h

  module _ (f : Gpu E.platform → Gpu E.platform) (gpu : Gpu E.platform) (h : Handler E)
      (holds : Holds E id gpu h) where
    accepted-Waits :
        (controller : GpuController E.platform E.World E.Reply) (w : E.World)
        → find_controller E id ≡ ok controller
        → Waits E id gpu (f gpu) (accepted E h id f gpu w)
    accepted-Waits controller w found = record {
      task = waiting E h id f gpu;
      state =
          ap
            (λ (ts : List (Task E.platform)). record (accepted E h id f gpu w) {
              tasks = ts ++ waiting E h id f gpu ∷ [];
            })
            holds.quiet.no_task;
      unanswered = refl;
      of_card = refl;
      before = refl;
      asked = refl;
      settings = holds.settings;
      read = holds.read;
      kept = holds.entry;
      controller = controller;
      found = found;
    }

    stays-IsQuiet : (w : E.World) → IsQuiet E (record h { world = w })
    stays-IsQuiet w = record { no_change = holds.quiet.no_change; no_task = holds.quiet.no_task }

    applied-Edited :
        (controller : GpuController E.platform E.World E.Reply)
        → find_controller E id ≡ ok controller
        → (r : Result (Unit {0})) (w : E.World) → controller.apply_config (f gpu) h.world ≡ (r, w)
        → Edited gpu (ok (f gpu)) (edit_gpu_config E id f h)
    applied-Edited controller found (ok _) w p =
        let taken = ap (λ g. controller.apply_config (f g) h.world) holds.entry ∙ p in
        let ends =
          edit_accepted E h id f holds.settings controller holds.quiet.no_change holds.read found w
            taken in
        subst (Edited gpu (ok (f gpu)))
          (sym (
            ends ∙ ap (λ g. (ok h.config.apply_settings_timer, accepted E h id f g w)) holds.entry))
          (f gpu, refl, accepted-Waits controller w found)
    applied-Edited controller found (err e) w p =
        let refused = ap (λ g. controller.apply_config (f g) h.world) holds.entry ∙ p in
        subst (Edited gpu (ok (f gpu)))
          (sym (
            edit_rejected E h id f holds.settings controller holds.quiet.no_change holds.read found
              e w refused))
          (
            stays-IsQuiet _,
            inr (
                inr (
                  controller,
                  found,
                  f gpu,
                  h.world,
                  e,
                  ap (λ (x : Result (Unit {0}) × E.World). x.0) p,
                )),
          )

    pub edit-Edited : Edited gpu (ok (f gpu)) (edit_gpu_config E id f h)
    edit-Edited = elim (Result-cases (find_controller E id)) [
      | inl (controller, found) ↦ applied-Edited controller found _ _ refl
      | inr (e, p) ↦
          let (e', q) = edit_refused E h id f (inr (holds.quiet.no_change, (e, inr p))) in
          subst (Edited gpu (ok (f gpu))) (sym q) (holds.quiet, inr (inl (e, p)))
    ]
