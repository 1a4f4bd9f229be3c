-- ===== src/Amd/Commits.antt =====
-- The writes that amd.rs stages, and when `apply_config` commits them.
use lact.Prelude.{◌≡◌, refl, subst, true, Option, none, some, List, [], ◌∷◌}
use lact.Prelude.Exec.{Error, ok, err, is_ok}
use lact.Platform.{Platform}
use lact.Config.{Gpu}
use lact.Prelude.Io.{pure, bind_ok, bind_err}
use lact.Amd.Card.{Card, Amd, Call, Trace, ask, write}
use lact.Amd.Apply.{configure, commit_all, apply_config}
use lact.Amd.Kept.{IsKept, handle_of}
use lact.Amd.KeptFan.{Upholds-configure}

abbrev pub add {ℓ} : {A : Type ℓ} → Option A → List A → List A
add none hs = hs
add (some h) hs = h ∷ hs

module _ {P : Platform} where
  -- The handles committed, the newest first.
  abbrev pub commits : Trace P → List P.CommitHandle
  commits [] = []
  commits (call ∷ t) = add (handle_of call) (commits t)

  -- The commits of `handles` in order, on top of `t`.
  abbrev pub committed : List P.CommitHandle → Trace P → Trace P
  committed [] t = t
  committed (handle ∷ handles) t = committed handles (Call.commit handle ∷ t)

module _ {P : Platform} (card : Card P) where
  commits-IsKept : (hs : List P.CommitHandle) → IsKept card λ t. commits t ≡ hs
  commits-IsKept hs = record { other = λ call t p q g. rw (q, add) g; new_cap = λ c t d g. g }

  commits-configure :
      (config : Gpu P) (s : Amd P) → commits (configure card config s).1.calls ≡ commits s.calls
  commits-configure config s =
      (Upholds-configure card (λ t. commits t ≡ commits s.calls) (commits-IsKept (commits s.calls))
          config).after
        s refl

  commit_all_lem :
      (handles : List P.CommitHandle) (s : Amd P)
      → is_ok (commit_all card handles s).0 ≡ true
      → (commit_all card handles s).1.calls ≡ committed handles s.calls
  unfolding commit_all write ask pure
  commit_all_lem [] s p = refl
  commit_all_lem (handle ∷ handles) s p =
      let (u, (e, q)) =
        bind_ok (write card (Call.commit handle)) (λ _. commit_all card handles) s p in
      rw q (
        commit_all_lem handles (write card (Call.commit handle) s).1
          (subst (λ r. is_ok r.0 ≡ true) q p))

  -- `apply_config` succeeds only if `configure` does, with some handles to commit; then it adds to
  -- the calls of `configure`, none of which commits, the commits of these handles, in their order,
  -- and no other call.
  pub apply_config_commits :
      (config : Gpu P) (s : Amd P)
      → is_ok (apply_config card config s).0 ≡ true
      → (handles : List P.CommitHandle) × ((configure card config s).0 ≡ ok handles)
        × ((apply_config card config s).1.calls
            ≡ committed handles (configure card config s).1.calls)
        × (commits (configure card config s).1.calls ≡ commits s.calls)
  unfolding apply_config
  apply_config_commits config s p =
      let (handles, (e, q)) = bind_ok (configure card config) (commit_all card) s p in
      (
        handles,
        e,
        rw q (
            commit_all_lem handles (configure card config s).1 (subst (λ r. is_ok r.0 ≡ true) q p)),
        commits-configure config s,
      )

  -- Where `configure` fails, `apply_config` fails with the same error and commits nothing.
  apply_config_aborts :
      (config : Gpu P) (s : Amd P) (e : Error)
      → (configure card config s).0 ≡ err e
      → ((apply_config card config s).0 ≡ err e)
        × (commits (apply_config card config s).1.calls ≡ commits s.calls)
  unfolding apply_config
  apply_config_aborts config s e p =
      rw (bind_err (configure card config) (commit_all card) s e p)
        (refl, commits-configure config s)
