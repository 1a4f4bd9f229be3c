-- ===== src/Handler/Edit/Outcome.antt =====
-- How an edit ends, on every branch of `edit_gpu_config`.
use lact.Prelude.{
  ℕ, suc, String, ◌≡◌, ◌≢◌, refl, ap, sym, subst, none, some, [], ◌∷◌, ◌++◌, arith, ◌⊎◌, inl, inr,
  str_eq, true, Option-cases,
}
use lact.Prelude.Exec.{Error, Result, Result-cases, is_ok, ok, err}
use lact.Prelude.Dict.{Dict, get}
use lact.Config.{Gpu, gpus}
use lact.Handler.State.{GpuController, Env, Task, Handler, find_controller}
use lact.Handler.Edit.{or_default, edit_error, edit_gpu_config, unconfirmed_pending}

module _ (E : Env) (h : Handler E) (id : String) (f : Gpu E.platform → Gpu E.platform) where
  abbrev pub previous : Dict String (Gpu E.platform) → Gpu E.platform
  previous settings = or_default (get str_eq settings id)

  -- The task that an accepted edit leaves.
  abbrev pub waiting : Gpu E.platform → Task E.platform
  waiting old = record {
    channel = h.next_channel;
    id = id;
    previous_config = old;
    new_config = f old;
    received = none;
  }

  -- The state that an accepted edit leaves: the change is on the card and not in the config.
  abbrev pub accepted : Gpu E.platform → E.World → Handler E
  accepted old w = record h {
    confirm_config_tx = some h.next_channel;
    tasks = h.tasks ++ waiting old ∷ [];
    next_channel = suc h.next_channel;
    world = w;
  }

  module _ (settings : Dict String (Gpu E.platform))
      (controller : GpuController E.platform E.World E.Reply) (idle : h.confirm_config_tx ≡ none)
      (read : gpus E.platform h.config ≡ ok settings)
      (found : find_controller E id ≡ ok controller) where
    -- With no change pending, a known profile and a known card: if the card takes the edited
    -- settings, the edit answers with the confirmation time, and leaves one more task that waits
    -- with the old and the new settings; the configuration is unchanged.
    pub edit_accepted :
        (w : E.World)
        → controller.apply_config (f (previous settings)) h.world ≡ (ok tt, w)
        → edit_gpu_config E id f h
          ≡ (ok h.config.apply_settings_timer, accepted (previous settings) w)
    unfolding edit_gpu_config
    edit_accepted w e = ground arith

    -- With no change pending, a known profile and a known card: if the card refuses the edited
    -- settings, the edit fails, the card is given its old settings again, and nothing else changes.
    pub edit_rejected :
        (e : Error) (w : E.World)
        → controller.apply_config (f (previous settings)) h.world ≡ (err e, w)
        → edit_gpu_config E id f h ≡ (
          err (edit_error e (controller.apply_config (previous settings) w).0),
          record h { world = (controller.apply_config (previous settings) w).1 },
        )
    unfolding edit_gpu_config
    edit_rejected e w p = ground arith

  -- While a change is pending, under an unknown profile, or for an unknown card, the edit fails and
  -- has changed nothing, the card included.
  pub edit_refused :
      (h.confirm_config_tx ≢ none)
        ⊎ ((h.confirm_config_tx ≡ none)
            × ((e : Error) × ((gpus E.platform h.config ≡ err e) ⊎ (find_controller E id ≡ err e))))
      → (e : Error) × (edit_gpu_config E id f h ≡ (err e, h))
  unfolding edit_gpu_config
  edit_refused (inl p) = (unconfirmed_pending, ground arith)
  edit_refused (inr (idle, (e, inl p))) = (e, ground arith)
  edit_refused (inr (idle, (e, inr p))) = elim (Result-cases (gpus E.platform h.config)) [
    | inl (settings, q) ↦ (e, ground arith)
    | inr (e', q) ↦ (e', ground arith)
  ]

  -- To prove something of the state after an edit.
  module _ (Q : Handler E → Type 0) where
    pub ends_in :
        (r : Result ℕ) (k : Handler E)
        → edit_gpu_config E id f h ≡ (r, k)
        → Q k
        → Q (edit_gpu_config E id f h).1
    ends_in r k e q = subst Q (sym (ap (λ (x : Result ℕ × Handler E). x.1) e)) q

    applied_cases :
        (settings : Dict String (Gpu E.platform))
        (controller : GpuController E.platform E.World E.Reply)
        → h.confirm_config_tx ≡ none
        → gpus E.platform h.config ≡ ok settings
        → find_controller E id ≡ ok controller
        → (r : Result (Unit {0})) (w : E.World)
        → controller.apply_config (f (previous settings)) h.world ≡ (r, w)
        → ((w' : E.World) → Q (record h { world = w' }))
        → ((old : Gpu E.platform) (w' : E.World)
            → is_ok (find_controller E id) ≡ true
            → Q (accepted old w'))
        → Q (edit_gpu_config E id f h).1
    applied_cases settings controller idle read found (ok _) w e same new =
        ends_in _ _ (edit_accepted settings controller idle read found w e) (new _ w (rw found))
    applied_cases settings controller idle read found (err x) w e same new =
        ends_in _ _ (edit_rejected settings controller idle read found x w e) (same _)

    pub edit_cases :
        ((w : E.World) → Q (record h { world = w }))
        → ((old : Gpu E.platform) (w : E.World)
            → is_ok (find_controller E id) ≡ true
            → Q (accepted old w))
        → Q (edit_gpu_config E id f h).1
    edit_cases same new = elim (Option-cases h.confirm_config_tx) [
      | inr (c, p) ↦ refused (inl (λ q. cc))
      | inl idle ↦ elim (Result-cases (gpus E.platform h.config)) [
        | inr (e, p) ↦ refused (inr (idle, (e, inl p)))
        | inl (settings, read) ↦ elim (Result-cases (find_controller E id)) [
          | inr (e, p) ↦ refused (inr (idle, (e, inr p)))
          | inl (controller, found) ↦
              applied_cases settings controller idle read found _ _ refl same new
        ]
      ]
    ]
      where
        refused :
            (h.confirm_config_tx ≢ none)
              ⊎ ((h.confirm_config_tx ≡ none)
                  × ((e : Error) × ((gpus E.platform h.config ≡ err e)
                        ⊎ (find_controller E id ≡ err e))))
            → Q (edit_gpu_config E id f h).1
        refused p = ends_in _ h (edit_refused p).1 (same h.world)
