-- ===== src/FanTask/Ending.antt =====
-- When the fan control task gives up on errors of its writes.
use lact.Prelude.{
  ℕ, ◌≡◌, refl, sym, ap, ◌∙◌, Bool, true, false, Option, none, some, List, [], ◌∷◌, arith, inl, inr,
  Bool-cases, ◌≢◌, All,
}
use mathlib.Core.Bool.{false≢true}
use lact.Platform.{Platform}
use lact.Curve.{FanCurve, Temperature, pwm_at_temp}
use lact.Config.{FanControlSettings}
use lact.FanTask.Alive.{is_panicked, IsReadable, run-IsAlive}
use lact.FanTask.{
  Loop, Reading, Write, start, tick, run, on_reading, on_temp, on_target, set_pwm, after_write,
  is_delayed, is_unchanged, Status, running, ended, panicked,
}

abbrev pub is_running : Status → Bool
is_running running = true
is_running ended = false
is_running panicked = false

abbrev is_ended : Status → Bool
is_ended running = false
is_ended ended = true
is_ended panicked = false

module _ (P : Platform) (settings : FanControlSettings P) where
  -- The task has ended itself after a single write that failed; while it runs with its control not
  -- known to be available, there was no write.
  record IsTrying (l : Loop P) : Type 0 where
    gave_up : is_ended l.status ≡ true → (w : Write) × (l.writes ≡ w ∷ []) × (w.done ≡ false)
    quiet : is_running l.status ≡ true → l.control_available ≡ false → l.writes ≡ []

  -- The task has just tried its first write, unless its control is known to be available.
  HasTried : Bool → Loop P → Type 0
  HasTried works l =
      l.control_available ≡ false → (w : Write) × (l.writes ≡ w ∷ []) × (w.done ≡ works)

  not_ended : (s : Status) → is_running s ≡ true → is_ended s ≡ false
  not_ended running e = refl
  not_ended ended e = ground arith
  not_ended panicked e = refl

  after_write-IsTrying :
      (works : Bool) (l : Loop P)
      → is_running l.status ≡ true
      → HasTried works l
      → IsTrying (after_write P works l)
  unfolding after_write HasTried
  after_write-IsTrying true l r t = record {
    gave_up = λ e. absurd (false≢true (sym (not_ended l.status r) ∙ e));
    quiet = λ e n. absurd (false≢true (sym n));
  }
  after_write-IsTrying false l r t = elim (Bool-cases l.control_available) [
    | inl a ↦
        rw (a, after_write)
          (record {
            gave_up = λ e. absurd (false≢true (sym (not_ended l.status r) ∙ e));
            quiet = λ e n. absurd (false≢true (sym n));
          })
    | inr a ↦
        rw (a, after_write) (record { gave_up = λ e. t a; quiet = λ e n. absurd (false≢true e) })
  ]

  set_pwm-IsTrying :
      (target : ℕ) (current : P.F32) (r : Reading P) (l : Loop P)
      → is_running l.status ≡ true
      → IsTrying l
      → IsTrying (set_pwm P target current r l)
  unfolding set_pwm HasTried
  set_pwm-IsTrying target current r l a v =
      let written : Write = record { pwm = target; time = r.now; done = r.works } in
      after_write-IsTrying r.works _ a λ n. (written, ap (λ ws. written ∷ ws) (v.quiet a n), refl)

  panicked-IsTrying : (l : Loop P) → IsTrying (record l { status = panicked })
  panicked-IsTrying l = record {
    gave_up = λ e. absurd (false≢true e);
    quiet = λ e n. absurd (false≢true e);
  }

  on_target-IsTrying :
      (target : Option ℕ) (current : P.F32) (r : Reading P) (l : Loop P)
      → is_running l.status ≡ true
      → IsTrying l
      → IsTrying (on_target P settings target current r l)
  unfolding on_target
  on_target-IsTrying none current r l a v = panicked-IsTrying l
  on_target-IsTrying (some target) current r l a v =
      elim (Bool-cases (is_delayed P settings l.last_pwm target r.now)) [
        | inl e ↦ rw (e, on_target) v
        | inr e ↦ rw (e, on_target) (set_pwm-IsTrying target current r l a v)
      ]

  on_temp-IsTrying :
      (curve : FanCurve P) (temp : Temperature P) (maybe_current : Option P.F32) (r : Reading P)
      (l : Loop P)
      → is_running l.status ≡ true
      → IsTrying l
      → IsTrying (on_temp P curve settings temp maybe_current r l)
  unfolding on_temp
  on_temp-IsTrying curve temp none r l a v = panicked-IsTrying l
  on_temp-IsTrying curve temp (some current) r l a v =
      elim (Bool-cases (is_unchanged P settings l.last_temp current)) [
        | inl e ↦ rw (e, on_temp) v
        | inr e ↦ rw (e, on_temp) (on_target-IsTrying (pwm_at_temp P curve temp) current r l a v)
      ]

  on_reading-IsTrying :
      (curve : FanCurve P) (maybe_temp : Option (Temperature P)) (r : Reading P) (l : Loop P)
      → is_running l.status ≡ true
      → IsTrying l
      → IsTrying (on_reading P curve settings maybe_temp r l)
  unfolding on_reading
  on_reading-IsTrying curve none r l a v = panicked-IsTrying l
  on_reading-IsTrying curve (some temp) r l a v = on_temp-IsTrying curve temp temp.current r l a v

  tick-IsTrying :
      (curve : FanCurve P) (r : Reading P) (l : Loop P)
      → IsTrying l
      → IsTrying (tick P curve settings r l)
  unfolding tick
  tick-IsTrying curve r l v = go l.status refl
    where
      go : (status : Status) → l.status ≡ status → IsTrying (tick P curve settings r l)
      go running e = rw (e, tick) (on_reading-IsTrying curve r.temp r l (ap is_running e) v)
      go ended e = rw (e, tick) v
      go panicked e = rw (e, tick) v

  run-IsTrying :
      (curve : FanCurve P) (rs : List (Reading P)) (l : Loop P)
      → IsTrying l
      → IsTrying (run P curve settings rs l)
  unfolding run
  run-IsTrying curve [] l v = v
  run-IsTrying curve (r ∷ rs) l v =
      run-IsTrying curve rs (tick P curve settings r l) (tick-IsTrying curve r l v)

  ended_otherwise : (s : Status) → is_running s ≡ false → is_panicked s ≡ false → is_ended s ≡ true
  ended_otherwise running p q = absurd (false≢true (sym p))
  ended_otherwise ended p q = refl
  ended_otherwise panicked p q = absurd (false≢true (sym q))

  -- Where the curve has a point and every reading has the temperature that the settings name, with
  -- its current value: the fan control task stops by itself only after a single write, which
  -- failed; after a write that succeeded no error stops it.
  pub run_ended :
      (curve : FanCurve P) (rs : List (Reading P))
      → curve.points ≢ []
      → All (IsReadable P settings) rs
      → is_running (run P curve settings rs (start P)).status ≡ false
      → (w : Write) × ((run P curve settings rs (start P)).writes ≡ w ∷ []) × (w.done ≡ false)
  run_ended curve rs n readable stopped =
      let status = (run P curve settings rs (start P)).status in
      let alive = run-IsAlive P settings curve rs (start P) n readable refl in
      (run-IsTrying curve rs (start P)
          (record { gave_up = λ e. absurd (false≢true e); quiet = λ e n. refl })).gave_up
        (ended_otherwise status stopped alive)
