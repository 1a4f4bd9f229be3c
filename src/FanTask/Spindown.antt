-- ===== src/FanTask/Spindown.antt =====
-- When the fan control task lowers the PWM.
use lact.Prelude.{
  ℕ, ◌-◌, ◌≤◌, ◌≡◌, refl, Bool, true, false, Option, none, some, List, [], ◌∷◌, arith, ◌⊎◌, inl,
  inr, Bool-cases,
}
use lact.Platform.{Platform}
use lact.Curve.{FanCurve, Temperature, pwm_at_temp}
use lact.Config.{FanControlSettings}
use lact.FanTask.{
  Loop, Reading, Write, start, tick, run, unwrap_or_0, on_reading, on_temp, on_target, set_pwm,
  after_write, is_delayed, is_unchanged, Status, running, ended, panicked,
}

-- A PWM is lower than the one written before it only after the delay has passed.
abbrev pub IsSlow : ℕ → List Write → Type 0
IsSlow delay [] = Unit {0}
IsSlow delay (w ∷ []) = Unit {0}
IsSlow delay (w ∷ v ∷ rest) =
    ((v.pwm ≤ w.pwm) ⊎ (delay ≤ w.time - v.time)) × IsSlow delay (v ∷ rest)

-- `last_pwm` is the newest write.
abbrev pub IsNewest : Option (ℕ × ℕ) → List Write → Type 0
IsNewest last [] = last ≡ none
IsNewest last (w ∷ rest) = last ≡ some (w.pwm, w.time)

module _ (P : Platform) (settings : FanControlSettings P) where
  record IsPaced (l : Loop P) : Type 0 where
    slow : IsSlow (unwrap_or_0 P settings.spindown_delay_ms) l.writes
    newest : IsNewest l.last_pwm l.writes

  slow_write :
      (last : Option (ℕ × ℕ)) (writes : List Write) (w : Write)
      → is_delayed P settings last w.pwm w.time ≡ false
      → IsNewest last writes
      → IsSlow (unwrap_or_0 P settings.spindown_delay_ms) writes
      → IsSlow (unwrap_or_0 P settings.spindown_delay_ms) (w ∷ writes)
  unfolding is_delayed
  slow_write last [] w d n s = tt
  slow_write last (v ∷ rest) w d n s = (ground (arith, n), s)

  after_write-IsPaced : (works : Bool) (l : Loop P) → IsPaced l → IsPaced (after_write P works l)
  unfolding after_write
  after_write-IsPaced true l v = record { slow = v.slow; newest = v.newest }
  after_write-IsPaced false l v = elim (Bool-cases l.control_available) [
    | inl e ↦ rw (e, after_write) (record { slow = v.slow; newest = v.newest })
    | inr e ↦ rw (e, after_write) (record { slow = v.slow; newest = v.newest })
  ]

  set_pwm-IsPaced :
      (target : ℕ) (current : P.F32) (r : Reading P) (l : Loop P)
      → is_delayed P settings l.last_pwm target r.now ≡ false
      → IsPaced l
      → IsPaced (set_pwm P target current r l)
  unfolding set_pwm
  set_pwm-IsPaced target current r l d v =
      let written : Write = record { pwm = target; time = r.now; done = r.works } in
      after_write-IsPaced r.works _
        (record { slow = slow_write l.last_pwm l.writes written d v.newest v.slow; newest = refl })

  on_target-IsPaced :
      (target : Option ℕ) (current : P.F32) (r : Reading P) (l : Loop P)
      → IsPaced l
      → IsPaced (on_target P settings target current r l)
  unfolding on_target
  on_target-IsPaced none current r l v = record { slow = v.slow; newest = v.newest }
  on_target-IsPaced (some target) current r l v =
      elim (Bool-cases (is_delayed P settings l.last_pwm target r.now)) [
        | inl e ↦ rw (e, on_target) v
        | inr e ↦ rw (e, on_target) (set_pwm-IsPaced target current r l e v)
      ]

  on_temp-IsPaced :
      (curve : FanCurve P) (temp : Temperature P) (maybe_current : Option P.F32) (r : Reading P)
      (l : Loop P)
      → IsPaced l
      → IsPaced (on_temp P curve settings temp maybe_current r l)
  unfolding on_temp
  on_temp-IsPaced curve temp none r l v = record { slow = v.slow; newest = v.newest }
  on_temp-IsPaced curve temp (some current) r l v =
      elim (Bool-cases (is_unchanged P settings l.last_temp current)) [
        | inl e ↦ rw (e, on_temp) v
        | inr e ↦ rw (e, on_temp) (on_target-IsPaced (pwm_at_temp P curve temp) current r l v)
      ]

  on_reading-IsPaced :
      (curve : FanCurve P) (maybe_temp : Option (Temperature P)) (r : Reading P) (l : Loop P)
      → IsPaced l
      → IsPaced (on_reading P curve settings maybe_temp r l)
  unfolding on_reading
  on_reading-IsPaced curve none r l v = record { slow = v.slow; newest = v.newest }
  on_reading-IsPaced curve (some temp) r l v = on_temp-IsPaced curve temp temp.current r l v

  tick-IsPaced :
      (curve : FanCurve P) (r : Reading P) (l : Loop P)
      → IsPaced l
      → IsPaced (tick P curve settings r l)
  unfolding tick
  tick-IsPaced curve r l v = go l.status refl
    where
      go : (status : Status) → l.status ≡ status → IsPaced (tick P curve settings r l)
      go running e = rw (e, tick) (on_reading-IsPaced curve r.temp r l v)
      go ended e = rw (e, tick) v
      go panicked e = rw (e, tick) v

  run-IsPaced :
      (curve : FanCurve P) (rs : List (Reading P)) (l : Loop P)
      → IsPaced l
      → IsPaced (run P curve settings rs l)
  unfolding run
  run-IsPaced curve [] l v = v
  run-IsPaced curve (r ∷ rs) l v =
      run-IsPaced curve rs (tick P curve settings r l) (tick-IsPaced curve r l v)

  -- Over any readings, the fan control task writes a PWM that is lower than the one it wrote before
  -- only after the spindown delay has passed since then.
  pub run-IsSlow :
      (curve : FanCurve P) (rs : List (Reading P))
      → IsSlow (unwrap_or_0 P settings.spindown_delay_ms) (run P curve settings rs (start P)).writes
  run-IsSlow curve rs = (run-IsPaced curve rs (start P) (record { slow = tt; newest = refl })).slow
