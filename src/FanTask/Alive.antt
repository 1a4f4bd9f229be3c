-- ===== src/FanTask/Alive.antt =====
-- The fan control task does not panic where the card reports its temperature.
use lact.Prelude.{
  ℕ, ◌≡◌, refl, sym, subst, Bool, true, false, some, List, [], ◌∷◌, inl, inr, Bool-cases, ◌≢◌, All,
}
use lact.Platform.{Platform}
use lact.Curve.{FanCurve, Temperature}
use lact.Curve.Interpolate.{pwm_at_temp-some}
use lact.Config.{FanControlSettings}
use lact.FanTask.{
  Loop, Reading, tick, run, on_reading, on_temp, on_target, set_pwm, after_write, is_delayed,
  is_unchanged, Status, running, ended, panicked,
}

abbrev pub is_panicked : Status → Bool
is_panicked running = false
is_panicked ended = false
is_panicked panicked = true

module _ (P : Platform) (settings : FanControlSettings P) where
  -- Where the readings have a temperature and the curve a point, no tick panics.
  abbrev IsAlive : Loop P → Type 0
  IsAlive l = is_panicked l.status ≡ false

  after_write-IsAlive : (works : Bool) (l : Loop P) → IsAlive l → IsAlive (after_write P works l)
  unfolding after_write
  after_write-IsAlive true l v = v
  after_write-IsAlive false l v = elim (Bool-cases l.control_available) [
    | inl a ↦ rw (a, after_write) v
    | inr a ↦ rw (a, after_write) refl
  ]

  on_target-IsAlive :
      (target : ℕ) (current : P.F32) (r : Reading P) (l : Loop P)
      → IsAlive l
      → IsAlive (on_target P settings (some target) current r l)
  unfolding on_target set_pwm
  on_target-IsAlive target current r l v =
      elim (Bool-cases (is_delayed P settings l.last_pwm target r.now)) [
        | inl e ↦ rw (e, on_target) v
        | inr e ↦ rw (e, on_target) (after_write-IsAlive r.works _ v)
      ]

  on_temp-IsAlive :
      (curve : FanCurve P) (temp : Temperature P) (current : P.F32) (r : Reading P) (l : Loop P)
      → curve.points ≢ []
      → temp.current ≡ some current
      → IsAlive l
      → IsAlive (on_temp P curve settings temp (some current) r l)
  unfolding on_temp
  on_temp-IsAlive curve temp current r l n p v =
      elim (Bool-cases (is_unchanged P settings l.last_temp current)) [
        | inl e ↦ rw (e, on_temp) v
        | inr e ↦
            let (pwm, q) = pwm_at_temp-some P curve temp current p n in
            rw (e, on_temp) (rw q (on_target-IsAlive pwm current r l v))
      ]

  -- The card reports the temperature that the settings name, with its current value.
  abbrev pub IsReadable : Reading P → Type 0
  IsReadable r =
      (temp : Temperature P) × (current : P.F32) × (r.temp ≡ some temp)
      × (temp.current ≡ some current)

  tick-IsAlive :
      (curve : FanCurve P) (r : Reading P) (l : Loop P)
      → curve.points ≢ []
      → IsReadable r
      → IsAlive l
      → IsAlive (tick P curve settings r l)
  unfolding tick on_reading
  tick-IsAlive curve r l n (temp, current, p, q) v = go l.status refl
    where
      go : (status : Status) → l.status ≡ status → IsAlive (tick P curve settings r l)
      go running e =
          rw (e, tick)
            (subst (λ o. IsAlive (on_reading P curve settings o r l)) (sym p)
              (subst (λ o. IsAlive (on_temp P curve settings temp o r l)) (sym q)
                (on_temp-IsAlive curve temp current r l n q v)))
      go ended e = rw (e, tick) v
      go panicked e = rw (e, tick) v

  pub run-IsAlive :
      (curve : FanCurve P) (rs : List (Reading P)) (l : Loop P)
      → curve.points ≢ []
      → All IsReadable rs
      → IsAlive l
      → IsAlive (run P curve settings rs l)
  unfolding run
  run-IsAlive curve [] l n readable v = v
  run-IsAlive curve (r ∷ rs) l n (readable, others) v =
      run-IsAlive curve rs (tick P curve settings r l) n others
        (tick-IsAlive curve r l n readable v)
