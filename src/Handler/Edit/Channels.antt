-- ===== src/Handler/Edit/Channels.antt =====
-- Who listens to an answer, after any steps of the daemon.
use lact.Prelude.{
  ℕ, ◌≡◌, sym, ap, ◌∙◌, false, none, some, [], arith, ◌↔◌, inl, inr, Option-cases, Bool-cases,
}
use mathlib.Core.Bool.{false≢true}
use lact.Prelude.Exec.{ok}
use lact.Schema.{ConfirmCommand}
use lact.Handler.State.{Env, Handler}
use lact.Handler.Edit.{confirm_pending_config, has_channel}
use lact.Handler.Edit.Steps.{
  Woken, is_woken, Step, edit, store, answer, wakes, ends, other, Reach, here, next,
}
use lact.Handler.Edit.Held.{
  IsHeld, edit-IsHeld, store-IsHeld, answer-IsHeld, wakes-IsHeld, ends-IsHeld,
}

module _ (E : Env) where
  Step-IsHeld :
      {h k : Handler E} {ts us : Woken E.platform} → Step E h ts k us → IsHeld h ts → IsHeld k us
  Step-IsHeld (edit h ts id f) v = edit-IsHeld E h ts id f v
  Step-IsHeld (store h ts id previous new known) v = store-IsHeld E h ts id previous new known v
  Step-IsHeld (answer h ts cmd) v = answer-IsHeld E h ts cmd v
  Step-IsHeld (wakes h ts t w m _) v = wakes-IsHeld E h ts t w m v
  Step-IsHeld (ends h ts t w m) v = ends-IsHeld E h ts t w m v
  Step-IsHeld (other h ts config saved world) v = record {
    held = v.held;
    deaf = v.deaf;
    given = v.given;
    listed = v.listed;
    known = v.known;
    known_woken = v.known_woken;
  }

  Reach-IsHeld :
      {h : Handler E} {ts : Woken E.platform} {k : Handler E} {us : Woken E.platform}
      → IsHeld h ts
      → Reach E h ts k us
      → IsHeld k us
  Reach-IsHeld v here = v
  Reach-IsHeld v (next r s) = Step-IsHeld s (Reach-IsHeld v r)

  start-IsHeld : (h : Handler E) → h.tasks ≡ [] → h.confirm_config_tx ≡ none → IsHeld h []
  unfolding has_channel
  start-IsHeld h quiet idle = record {
    held = λ c e. absurd (ground arith);
    deaf = λ c woken. absurd (false≢true woken);
    given = λ c woken. absurd (false≢true woken);
    listed = λ c listens. absurd (false≢true (sym (ap (has_channel c) quiet) ∙ listens));
    known = rw quiet tt;
    known_woken = λ t w m. absurd m;
  }

  -- From a state with no task and no change pending, after any steps of the daemon, where a request
  -- and a woken task let others run while they wait for the card: an answer is accepted exactly if
  -- a change is pending whose task has not woken. So an answer fails while the task of a change
  -- whose time is over still reverts the card.
  pub confirm_reaches :
      (h k : Handler E) (us : Woken E.platform) (cmd : ConfirmCommand)
      → h.tasks ≡ []
      → h.confirm_config_tx ≡ none
      → Reach E h [] k us
      → ((confirm_pending_config E cmd k).0 ≡ ok tt)
        ↔ ((c : ℕ) × (k.confirm_config_tx ≡ some c) × (is_woken c us ≡ false))
  unfolding confirm_pending_config
  confirm_reaches h k us cmd quiet idle r =
      let v = Reach-IsHeld (start-IsHeld h quiet idle) r in
      (
        λ e. elim (Option-cases k.confirm_config_tx) [
          | inl i ↦ absurd (ground arith)
          | inr (c, p) ↦ elim (Bool-cases (is_woken c us)) [
            | inl woken ↦ absurd (ground (arith, v.deaf c woken))
            | inr asleep ↦ (c, p, asleep)
          ]
        ],
        λ (c, p, asleep). elim (v.held c p) [
          | inl listens ↦ ground arith
          | inr woken ↦ absurd (false≢true (sym asleep ∙ woken))
        ],
      )
