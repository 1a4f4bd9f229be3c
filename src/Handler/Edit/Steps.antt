-- ===== src/Handler/Edit/Steps.antt =====
-- The daemon's steps around the confirmation channel, where a request or a task that waits for a card
-- lets others run.
use lact.Prelude.{
  ℕ, String, ◌≡◌, ◌≢◌, refl, ap, true, false, some, List, [], ◌∷◌, ◌++◌, ◌==◌, ◌||◌, Bool, arith,
  subst, ◌⊎◌, inl, inr, All, if◌then◌else◌,
}
use lact.Prelude.Exec.{is_ok}
use lact.Platform.{Platform}
use lact.Schema.{ConfirmCommand}
use lact.Config.{Config, Gpu}
use lact.Handler.State.{Env, Task, Handler, find_controller}
use lact.Handler.Edit.{
  edit_gpu_config, wait_config_confirm, confirm_pending_config, Wake, timeout, stop_listening,
  end_task, wake, has_channel, deliver, remove_task,
}

abbrev pub HasController : (E : Env) → Task E.platform → Type 0
HasController E t = is_ok (find_controller E t.id) ≡ true

abbrev pub Among : {A : Type 0} → A → List A → Type 0
Among t [] = ⊥
Among t (u ∷ us) = (u ≡ t) ⊎ Among t us

-- The tasks that have woken, each with what it saw: they wait for the card, or are about to end.
abbrev pub Woken : Platform → Type 0
Woken P = List (Task P × Wake)

abbrev pub is_woken : {P : Platform} → ℕ → Woken P → Bool
is_woken c [] = false
is_woken c ((t, w) ∷ ts) = t.channel == c || is_woken c ts

abbrev pub drop_woken : {P : Platform} → ℕ → Woken P → Woken P
drop_woken c [] = []
drop_woken c ((t, w) ∷ ts) =
    let rest = drop_woken c ts in if t.channel == c then rest else (t, w) ∷ rest

-- One step of the daemon. `edit` is an edit that nothing interrupts; `store` is its end alone, after
-- any other steps. A task wakes in one step, with its receiver dropped, and ends in another.
-- `other` is whatever leaves the channels alone, a change on a card among it.
pub data Step (E : Env) : Handler E → Woken E.platform → Handler E → Woken E.platform → Type 0 where
  edit :
      (h : Handler E) (ts : Woken E.platform) (id : String) (f : Gpu E.platform → Gpu E.platform)
      → Step E h ts (edit_gpu_config E id f h).1 ts
  store :
      (h : Handler E) (ts : Woken E.platform) (id : String) (previous new : Gpu E.platform)
      → is_ok (find_controller E id) ≡ true
      → Step E h ts (wait_config_confirm E id previous new h).1 ts
  answer :
      (h : Handler E) (ts : Woken E.platform) (cmd : ConfirmCommand)
      → Step E h ts (confirm_pending_config E cmd h).1 ts
  wakes :
      (h : Handler E) (ts : Woken E.platform) (t : Task E.platform) (w : Wake)
      → Among t h.tasks
      → (w ≡ timeout) ⊎ (wake E h t ≡ some w)
      → Step E h ts (stop_listening E t h) ((t, w) ∷ ts)
  ends :
      (h : Handler E) (ts : Woken E.platform) (t : Task E.platform) (w : Wake)
      → Among (t, w) ts
      → Step E h ts (end_task E t w h) (drop_woken t.channel ts)
  other :
      (h : Handler E) (ts : Woken E.platform) (config : Config E.platform) (saved : ℕ)
      (world : E.World)
      → Step E h ts (record h { config = config; config_last_saved = saved; world = world }) ts

pub data Reach (E : Env) (h : Handler E) (ts : Woken E.platform)
    : Handler E → Woken E.platform → Type 0 where
  here : Reach E h ts h ts
  next :
      {k l : Handler E} {us vs : Woken E.platform}
      → Reach E h ts k us
      → Step E k us l vs
      → Reach E h ts l vs

module _ {P : Platform} where
  pub has_channel-append :
      (c : ℕ) (ts : List (Task P)) (t : Task P)
      → t.channel ≡ c
      → has_channel c (ts ++ t ∷ []) ≡ true
  unfolding has_channel
  has_channel-append c [] t e = ground arith
  has_channel-append c (u ∷ ts) t e = ground (arith, has_channel-append c ts t e)

  pub has_channel-other :
      (c : ℕ) (ts : List (Task P)) (t : Task P)
      → t.channel ≢ c
      → has_channel c (ts ++ t ∷ []) ≡ has_channel c ts
  unfolding has_channel
  has_channel-other c [] t n = ground arith
  has_channel-other c (u ∷ ts) t n = ground (arith, has_channel-other c ts t n)

  pub has_channel-deliver :
      (c d : ℕ) (cmd : ConfirmCommand) (ts : List (Task P))
      → has_channel c (deliver d cmd ts) ≡ has_channel c ts
  unfolding has_channel deliver
  has_channel-deliver c d cmd [] = refl
  has_channel-deliver c d cmd (u ∷ ts) = ground (arith, has_channel-deliver c d cmd ts)

  pub has_channel-remove :
      (c d : ℕ) (ts : List (Task P))
      → has_channel c (remove_task d ts) ≡ (if d == c then false else has_channel c ts)
  unfolding has_channel remove_task
  has_channel-remove c d [] = ground arith
  has_channel-remove c d (u ∷ ts) = ground (arith, has_channel-remove c d ts)

  pub has_channel-Among :
      (t : Task P) (ts : List (Task P)) → Among t ts → has_channel t.channel ts ≡ true
  unfolding has_channel
  has_channel-Among t [] m = absurd m
  has_channel-Among t (u ∷ ts) (inl e) =
      let same : u.channel ≡ t.channel = ap (λ x. x.channel) e in ground arith
  has_channel-Among t (u ∷ ts) (inr m) = ground (arith, has_channel-Among t ts m)

  pub is_woken-drop :
      (c d : ℕ) (ts : Woken P) → is_woken c (drop_woken d ts) ≡ true → is_woken c ts ≡ true
  is_woken-drop c d [] p = p
  is_woken-drop c d ((t, w) ∷ ts) p = ground (arith, is_woken-drop c d ts)

  Among-if :
      (b : Bool) (x y : Task P × Wake) (rest ts : Woken P)
      → (Among x rest → Among x ts)
      → Among x (if b then rest else y ∷ rest)
      → Among x (y ∷ ts)
  Among-if true x y rest ts f m = inr (f m)
  Among-if false x y rest ts f (inl e) = inl e
  Among-if false x y rest ts f (inr m) = inr (f m)

  pub Among-drop :
      (x : Task P × Wake) (d : ℕ) (ts : Woken P) → Among x (drop_woken d ts) → Among x ts
  Among-drop x d [] m = m
  Among-drop x d ((t, w) ∷ ts) m =
      Among-if (t.channel == d) x (t, w) (drop_woken d ts) ts (Among-drop x d ts) m

  module _ (Q : Task P → Type 0) where
    pub All-append : (ts : List (Task P)) (t : Task P) → All Q ts → Q t → All Q (ts ++ t ∷ [])
    All-append [] t a q = (q, tt)
    All-append (u ∷ ts) t a q = (a.0, All-append ts t (a.1) q)

    pub All-remove : (c : ℕ) (ts : List (Task P)) → All Q ts → All Q (remove_task c ts)
    unfolding remove_task
    All-remove c [] a = tt
    All-remove c (u ∷ ts) a = ground (arith, All-remove c ts (a.1))

    pub All-among : (ts : List (Task P)) (t : Task P) → All Q ts → Among t ts → Q t
    All-among [] t a m = absurd m
    All-among (u ∷ ts) t a (inl e) = subst Q e (a.0)
    All-among (u ∷ ts) t a (inr m) = All-among ts t (a.1) m
