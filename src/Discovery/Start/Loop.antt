-- ===== src/Discovery/Start/Loop.antt =====
-- How the daemon's start ends.
use lact.Prelude.{
  ◌≡◌, refl, ap, subst, ◌∙◌, ℕ, zero, suc, ◌+◌, ◌<◌, true, false, some, [], arith, All, ◌⊎◌, inl,
  inr,
}
use lact.Prelude.Exec.{Error, ok, err}
use lact.Discovery.{Machine, Controllers}
use lact.Discovery.Start.{attempt, load_loop, load_at_start}
use lact.Discovery.Start.Complete.{
  turns, AreNamed, IsComplete, Fails, Loads, Lacks, Turn, Turn-lem, IsComplete-lem,
}

module _ {Drm : Type 0} where
  -- Some turns that lack a card, then a turn that fails.
  abbrev FailsAfter : (ℕ → Machine Drm) → ℕ → ℕ → Controllers Drm → Type 0
  FailsAfter M n i old =
      (d : ℕ) × (e : Error) × (load_loop M n i old ≡ some (err e))
      × (d < n)
      × All (λ j. Lacks (M j)) (turns i d)
      × Fails (M (i + d)) e

  abbrev IsLast : (ℕ → Machine Drm) → ℕ → ℕ → Controllers Drm → Controllers Drm → Type 0
  IsLast M zero i old cs = cs ≡ old
  IsLast M (suc n) i old cs = Loads (M (i + n)) cs

  -- Some turns that lack a card, then one that lacks none, or no turn.
  abbrev EndsAfter : (ℕ → Machine Drm) → ℕ → ℕ → Controllers Drm → Type 0
  EndsAfter M n i old =
      (d : ℕ) × (cs : Controllers Drm) × (load_loop M n i old ≡ some (ok (cs, i + d)))
      × All (λ j. Lacks (M j)) (turns i d)
      × (((d < n) × Loads (M (i + d)) cs × IsComplete (M (i + d)) cs)
          ⊎ ((d ≡ n) × IsLast M n i old cs))

  abbrev Ends : (ℕ → Machine Drm) → ℕ → ℕ → Controllers Drm → Type 0
  Ends M n i old = FailsAfter M n i old ⊎ EndsAfter M n i old

  IsLast-suc :
      (M : ℕ → Machine Drm) (n i : ℕ) (found cs : Controllers Drm)
      → Loads (M i) found
      → IsLast M n (suc i) found cs
      → Loads (M (i + n)) cs
  IsLast-suc M zero i found cs loaded p = rw p (subst (λ x. Loads (M x) found) (omega arith) loaded)
  IsLast-suc M (suc n) i found cs loaded p = subst (λ x. Loads (M x) cs) (omega arith) p

  Ends-again :
      (M : ℕ → Machine Drm) (n i : ℕ) (old found : Controllers Drm)
      → Lacks (M i)
      → Loads (M i) found
      → load_loop M (suc n) i old ≡ load_loop M n (suc i) found
      → Ends M n (suc i) found
      → Ends M (suc n) i old
  Ends-again M n i old found lacks loaded step (inl (d, e, p, lt, before, fails)) = inl (
    suc d,
    e,
    step ∙ p,
    omega arith,
    (lacks, before),
    subst (λ x. Fails (M x) e) (omega arith) fails,
  )
  Ends-again M n i old found lacks loaded step (inr (d, cs, p, before, inl (lt, loads, complete))) =
      inr (
        suc d,
        cs,
        step ∙ p ∙ ap (λ x. some (ok (cs, x))) (omega arith),
        (lacks, before),
        inl (
          omega arith,
          subst (λ x. Loads (M x) cs) (omega arith) loads,
          subst (λ x. IsComplete (M x) cs) (omega arith) complete,
        ),
      )
  Ends-again M n i old found lacks loaded step (inr (d, cs, p, before, inr (same, last))) = inr (
    suc d,
    cs,
    step ∙ p ∙ ap (λ x. some (ok (cs, x))) (omega arith),
    (lacks, before),
    inr (omega arith, IsLast-suc M n i found cs loaded last),
  )

  Ends-Turn :
      (M : ℕ → Machine Drm) (n i : ℕ) (old : Controllers Drm)
      → Turn (M i)
      → ((found : Controllers Drm) → Ends M n (suc i) found)
      → Ends M (suc n) i old
  unfolding load_loop attempt
  Ends-Turn M n i old (inl (e, p)) rest =
      inl (
        zero,
        e,
        rw (p, load_loop) refl,
        omega arith,
        tt,
        subst (λ x. Fails (M x) e) (omega arith) p,
      )
  Ends-Turn M n i old (inr (cs, false, p, q)) rest = inr (
    zero,
    cs,
    rw (p, q, load_loop) (ap (λ x. some (ok (cs, x))) (omega arith)),
    tt,
    inl (
      omega arith,
      subst (λ x. Loads (M x) cs) (omega arith) p,
      subst (λ x. IsComplete (M x) cs) (omega arith) (IsComplete-lem (M i) cs q),
    ),
  )
  Ends-Turn M n i old (inr (cs, true, p, q)) rest =
      Ends-again M n i old cs (cs, p, q) p (rw (p, q, load_loop) refl) (rest cs)

  Ends-loop :
      (M : ℕ → Machine Drm) (n i : ℕ) (old : Controllers Drm)
      → ((j : ℕ) → AreNamed (M j).pci_devices)
      → Ends M n i old
  unfolding load_loop
  Ends-loop M zero i old named =
      inr (zero, old, ap (λ x. some (ok (old, x))) (omega arith), tt, inr (refl, refl))
  Ends-loop M (suc n) i old named =
      Ends-Turn M n i old (Turn-lem (M i) (named i)) λ found. Ends-loop M n (suc i) found named

  -- From the first turn, with the five turns of `Handler::new`.
  abbrev pub Starts : (ℕ → Machine Drm) → Type 0
  Starts M =
      ((k : ℕ) × (e : Error) × (load_at_start M ≡ some (err e))
        × (k < 5)
        × All (λ j. Lacks (M j)) (turns 0 k)
        × Fails (M k) e)
      ⊎ ((k : ℕ) × (cs : Controllers Drm) × (load_at_start M ≡ some (ok (cs, k)))
          × All (λ j. Lacks (M j)) (turns 0 k)
          × (((k < 5) × Loads (M k) cs × IsComplete (M k) cs) ⊎ ((k ≡ 5) × Loads (M 4) cs)))

  Starts-Ends : (M : ℕ → Machine Drm) → Ends M 5 0 [] → Starts M
  unfolding load_at_start
  Starts-Ends M (inl (d, e, p, lt, before, fails)) =
      inl (d, e, p, lt, before, subst (λ x. Fails (M x) e) (omega arith) fails)
  Starts-Ends M (inr (d, cs, p, before, inl (lt, loads, complete))) = inr (
    d,
    cs,
    p ∙ ap (λ x. some (ok (cs, x))) (omega arith),
    before,
    inl (
      lt,
      subst (λ x. Loads (M x) cs) (omega arith) loads,
      subst (λ x. IsComplete (M x) cs) (omega arith) complete,
    ),
  )
  Starts-Ends M (inr (d, cs, p, before, inr (same, last))) =
      inr (d, cs, p ∙ ap (λ x. some (ok (cs, x))) (omega arith), before, inr (same, last))

-- Where the directory names of the PCI devices are UTF-8 in every turn, the loop of `Handler::new`
-- ends without a panic: after some turns that lack a card, either with the error of a turn that
-- failed, or with the controllers of a turn that found one for every device that names `amdgpu` or
-- `radeon`, and at least one; or after five such turns, and a sleep after each of them, the last
-- one too, with the controllers of the fifth.
pub load_at_start_lem :
    {Drm : Type 0} (M : ℕ → Machine Drm) → ((j : ℕ) → AreNamed (M j).pci_devices) → Starts M
load_at_start_lem M named = Starts-Ends M (Ends-loop M 5 0 [] named)
