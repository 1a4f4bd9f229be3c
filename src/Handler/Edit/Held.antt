-- ===== src/Handler/Edit/Held.antt =====
-- Each step of the daemon keeps a listener, or a woken task, for the pending channel.
use lact.Prelude.{
  ℕ, suc, String, ◌≡◌, refl, sym, ap, ◌∙◌, true, false, none, some, List, [], ◌∷◌, ◌++◌, ◌==◌, ◌<◌,
  arith, subst, ◌⊎◌, inl, inr, All, Option-cases, Bool-cases,
}
use mathlib.Core.Bool.{false≢true}
use lact.Handler.Edit.Outcome.{edit_cases, waiting}
use lact.Prelude.Exec.{is_ok, Result-cases}
use lact.Schema.{ConfirmCommand}
use lact.Config.{Gpu}
use lact.Handler.State.{GpuController, Env, Task, Handler, find_controller}
use lact.Handler.Edit.{
  edit_gpu_config, wait_config_confirm, confirm_pending_config, Wake, timeout, command, dropped,
  on_wake, stop_listening, end_task, has_channel, deliver,
}
use lact.Handler.Edit.Steps.{
  HasController, Among, Woken, is_woken, drop_woken, has_channel-append, has_channel-other,
  has_channel-deliver, has_channel-remove, has_channel-Among, is_woken-drop, Among-drop, All-append,
  All-remove, All-among,
}

-- The pending channel has a task, which listens or has woken; one that has woken does not listen, and
-- its channel is not given out again; every task has its card.
pub record IsHeld {E : Env} (h : Handler E) (ts : Woken E.platform) : Type 0 where
  pub held :
      (c : ℕ)
      → h.confirm_config_tx ≡ some c
      → (has_channel c h.tasks ≡ true) ⊎ (is_woken c ts ≡ true)
  pub deaf : (c : ℕ) → is_woken c ts ≡ true → has_channel c h.tasks ≡ false
  pub given : (c : ℕ) → is_woken c ts ≡ true → c < h.next_channel
  pub listed : (c : ℕ) → has_channel c h.tasks ≡ true → c < h.next_channel
  pub known : All (HasController E) h.tasks
  pub known_woken : (t : Task E.platform) (w : Wake) → Among (t, w) ts → HasController E t

module _ (E : Env) where
  All-deliver :
      (c : ℕ) (cmd : ConfirmCommand) (ts : List (Task E.platform))
      → All (HasController E) ts
      → All (HasController E) (deliver c cmd ts)
  unfolding deliver
  All-deliver c cmd [] a = tt
  All-deliver c cmd (u ∷ ts) a = (ground arith, All-deliver c cmd ts (a.1))

  -- A handler with one more task, which has the next channel and is pending.
  stored-IsHeld :
      (h k : Handler E) (ts : Woken E.platform) (t : Task E.platform)
      → HasController E t
      → t.channel ≡ h.next_channel
      → k.confirm_config_tx ≡ some h.next_channel
      → k.tasks ≡ h.tasks ++ t ∷ []
      → k.next_channel ≡ suc h.next_channel
      → IsHeld h ts
      → IsHeld k ts
  stored-IsHeld h k ts t known channel pending tasks counted v = record {
    held = λ c e. inl (rw tasks (has_channel-append c h.tasks t (ground arith)));
    deaf = λ c woken.
        let older = v.given c woken in
        rw tasks (has_channel-other c h.tasks t (λ e. absurd (omega arith)) ∙ v.deaf c woken);
    given = λ c woken. let older = v.given c woken in omega arith;
    listed = λ c listens. elim (Bool-cases (t.channel == c)) [
      | inl e ↦ ground arith
      | inr e ↦
          let apart = has_channel-other c h.tasks t (λ s. ground arith) in
          let older = v.listed c (sym apart ∙ ap (has_channel c) (sym tasks) ∙ listens) in
          omega arith
    ];
    known = rw tasks (All-append (HasController E) h.tasks t v.known known);
    known_woken = v.known_woken;
  }

  pub edit-IsHeld :
      (h : Handler E) (ts : Woken E.platform) (id : String) (f : Gpu E.platform → Gpu E.platform)
      → IsHeld h ts
      → IsHeld (edit_gpu_config E id f h).1 ts
  edit-IsHeld h ts id f v =
      edit_cases E h id f (λ k. IsHeld k ts)
        (λ w. record {
          held = v.held;
          deaf = v.deaf;
          given = v.given;
          listed = v.listed;
          known = v.known;
          known_woken = v.known_woken;
        })
        (λ old w c. stored-IsHeld h _ ts (waiting E h id f old) c refl refl refl refl v)

  pub store-IsHeld :
      (h : Handler E) (ts : Woken E.platform) (id : String) (previous new : Gpu E.platform)
      → is_ok (find_controller E id) ≡ true
      → IsHeld h ts
      → IsHeld (wait_config_confirm E id previous new h).1 ts
  unfolding wait_config_confirm
  store-IsHeld h ts id previous new known v =
      let t : Task E.platform = record {
        channel = h.next_channel;
        id = id;
        previous_config = previous;
        new_config = new;
        received = none;
      } in
      stored-IsHeld h _ ts t known refl refl refl refl v

  -- An answer empties the slot, and keeps who listens.
  answered-IsHeld :
      (h k : Handler E) (ts : Woken E.platform)
      → k.confirm_config_tx ≡ none
      → ((c : ℕ) → has_channel c k.tasks ≡ has_channel c h.tasks)
      → k.next_channel ≡ h.next_channel
      → All (HasController E) k.tasks
      → IsHeld h ts
      → IsHeld k ts
  answered-IsHeld h k ts idle same counted known v = record {
    held = λ c e. absurd (ground arith);
    deaf = λ c woken. same c ∙ v.deaf c woken;
    given = λ c woken. let older = v.given c woken in omega arith;
    listed = λ c listens. let older = v.listed c (sym (same c) ∙ listens) in omega arith;
    known = known;
    known_woken = v.known_woken;
  }

  pub answer-IsHeld :
      (h : Handler E) (ts : Woken E.platform) (cmd : ConfirmCommand)
      → IsHeld h ts
      → IsHeld (confirm_pending_config E cmd h).1 ts
  unfolding confirm_pending_config
  answer-IsHeld h ts cmd v = elim (Option-cases h.confirm_config_tx) [
    | inl idle ↦ rw (idle, confirm_pending_config) v
    | inr (c, p) ↦ elim (Bool-cases (has_channel c h.tasks)) [
      | inl listens ↦
          answered-IsHeld h _ ts (ground arith)
            (λ d. ground (arith, has_channel-deliver d c cmd h.tasks)) (ground arith)
            (rw (p, confirm_pending_config) (rw listens (All-deliver c cmd h.tasks v.known))) v
      | inr deaf ↦
          answered-IsHeld h _ ts (ground arith) (λ d. ground arith) (ground arith)
            (rw (p, confirm_pending_config) (rw deaf v.known)) v
    ]
  ]

  pub wakes-IsHeld :
      (h : Handler E) (ts : Woken E.platform) (t : Task E.platform) (w : Wake)
      → Among t h.tasks
      → IsHeld h ts
      → IsHeld (stop_listening E t h) ((t, w) ∷ ts)
  wakes-IsHeld h ts t w m v =
      let own = v.listed t.channel (has_channel-Among t h.tasks m) in
      record {
        held = λ c e. elim (Bool-cases (t.channel == c)) [
          | inl same ↦ inr (ground arith)
          | inr differs ↦ elim (v.held c e) [
            | inl listens ↦ inl (ground (arith, has_channel-remove c t.channel h.tasks))
            | inr woken ↦ inr (ground arith)
          ]
        ];
        deaf = λ c woken. ground (arith, has_channel-remove c t.channel h.tasks, v.deaf c);
        given = λ c woken. ground (arith, v.given c);
        listed = λ c listens. ground (arith, has_channel-remove c t.channel h.tasks, v.listed c);
        known = All-remove (HasController E) t.channel h.tasks v.known;
        known_woken = λ u x among. elim among [
          | inl e ↦
              subst (λ y. HasController E y.0) e (All-among (HasController E) h.tasks t v.known m)
          | inr among' ↦ v.known_woken u x among'
        ];
      }

  on_wake_keeps :
      (controller : GpuController E.platform E.World E.Reply) (t : Task E.platform) (w : Wake)
      (h : Handler E)
      → ((on_wake E controller t w h).tasks ≡ h.tasks)
        × ((on_wake E controller t w h).next_channel ≡ h.next_channel)
  unfolding on_wake
  on_wake_keeps controller t timeout h = (refl, refl)
  on_wake_keeps controller t (command ConfirmCommand.confirm) h = (refl, refl)
  on_wake_keeps controller t (command ConfirmCommand.revert) h = (refl, refl)
  on_wake_keeps controller t dropped h = (refl, refl)

  pub ends-IsHeld :
      (h : Handler E) (ts : Woken E.platform) (t : Task E.platform) (w : Wake)
      → Among (t, w) ts
      → IsHeld h ts
      → IsHeld (end_task E t w h) (drop_woken t.channel ts)
  unfolding end_task
  ends-IsHeld h ts t w m v = elim (Result-cases (find_controller E t.id)) [
    | inr (e, missing) ↦ absurd (false≢true (sym (ap is_ok missing) ∙ v.known_woken t w m))
    | inl (controller, found) ↦
        let (tasks, counted) = on_wake_keeps controller t w h in
        rw (found, end_task)
          (record {
            held = λ c e. absurd (ground arith);
            deaf =
                λ c woken. ap (has_channel c) tasks ∙ v.deaf c (is_woken-drop c t.channel ts woken);
            given = λ c woken.
                let older = v.given c (is_woken-drop c t.channel ts woken) in omega arith;
            listed = λ c listens.
                let older = v.listed c (sym (ap (has_channel c) tasks) ∙ listens) in omega arith;
            known = subst (All (HasController E)) (sym tasks) v.known;
            known_woken = λ u x among. v.known_woken u x (Among-drop (u, x) t.channel ts among);
          })
  ]
