-- ===== src/FanTask.antt =====
-- The task of amd.rs that follows a fan curve (`start_curve_fan_control_task`), one tick at a time.
pub mod Spindown
pub mod Alive
pub mod Ending
use lact.Prelude.{
  ℕ, ◌-◌, Bool, true, false, Option, none, some, List, [], ◌∷◌, ltb, ◌&&◌, if◌then◌else◌,
}
use lact.Prelude.Int.{pos}
use lact.Platform.{Platform}
use lact.Curve.{FanCurve, Temperature, pwm_at_temp}
use lact.Config.{FanControlSettings}

-- The task goes on, has ended itself, or has panicked.
pub data Status : Type 0 where
  running ended panicked : Status

-- A call of `set_fan_pwm`: its PWM, its time in ms, and whether it succeeded.
pub record Write : Type 0 where
  pub pwm : ℕ
  pub time : ℕ
  pub done : Bool

-- The variables of the loop. `last_pwm` is the PWM and the time of the last write; `writes` has all
-- writes, the newest first.
pub record Loop (P : Platform) : Type 0 where
  pub last_pwm : Option (ℕ × ℕ)
  pub last_temp : P.F32
  pub control_available : Bool
  pub status : Status
  pub writes : List Write

-- What a tick meets: the temperature under the settings' key, if the card reports it, the clock, and
-- whether a write would succeed.
pub record Reading (P : Platform) : Type 0 where
  pub temp : Option (Temperature P)
  pub now : ℕ
  pub works : Bool

module _ (P : Platform) where
  abbrev pub start : Loop P
  start = record {
    last_pwm = none;
    last_temp = P.f32.of_int (pos 0);
    control_available = false;
    status = running;
    writes = [];
  }

  abbrev pub unwrap_or_0 : Option ℕ → ℕ
  unwrap_or_0 none = 0
  unwrap_or_0 (some n) = n

  -- `diff < spindown_delay` for a PWM that falls; the clock's difference is cut off at 0.
  pub is_delayed : FanControlSettings P → Option (ℕ × ℕ) → ℕ → ℕ → Bool
  is_delayed settings none target now = false
  is_delayed settings (some (previous, time)) target now =
      ltb target previous && ltb (now - time) (unwrap_or_0 settings.spindown_delay_ms)

  -- The answer of `set_fan_pwm`: a first error ends the task, a later one is taken as temporary.
  pub after_write : Bool → Loop P → Loop P
  after_write true l = record l { control_available = true }
  after_write false l = if l.control_available then l else record l { status = ended }

  pub set_pwm : ℕ → P.F32 → Reading P → Loop P → Loop P
  unfolding after_write
  set_pwm target current r l = after_write r.works (record l {
    last_pwm = some (target, r.now);
    last_temp = current;
    writes = record { pwm = target; time = r.now; done = r.works } ∷ l.writes;
  })

  -- `(last_temp - current_temp).abs() < change_threshold`
  pub is_unchanged : FanControlSettings P → P.F32 → P.F32 → Bool
  is_unchanged settings last current =
      P.f32.lt (P.f32.abs (P.f32.sub last current))
        (P.f32.of_int (pos (unwrap_or_0 settings.change_threshold)))

  -- With the PWM of the curve, whose missing value is a panic.
  unfoldable pub on_target : FanControlSettings P → Option ℕ → P.F32 → Reading P → Loop P → Loop P
  unfolding is_delayed set_pwm
  on_target settings none current r l = record l { status = panicked }
  on_target settings (some target) current r l =
      if is_delayed settings l.last_pwm target r.now then l else set_pwm target current r l

  unfoldable pub on_temp :
      FanCurve P → FanControlSettings P → Temperature P → Option P.F32 → Reading P → Loop P → Loop P
  unfolding is_unchanged on_target
  on_temp curve settings temp none r l = record l { status = panicked }
  on_temp curve settings temp (some current) r l =
      if is_unchanged settings l.last_temp current
      then l
      else on_target settings (pwm_at_temp P curve temp) current r l

  pub on_reading :
      FanCurve P → FanControlSettings P → Option (Temperature P) → Reading P → Loop P → Loop P
  unfolding on_temp
  on_reading curve settings none r l = record l { status = panicked }
  on_reading curve settings (some temp) r l = on_temp curve settings temp temp.current r l

  -- A tick of a task that has ended does nothing.
  unfoldable pub tick : FanCurve P → FanControlSettings P → Reading P → Loop P → Loop P
  unfolding on_reading
  tick curve settings r l = elim l.status [
    | running ↦ on_reading curve settings r.temp r l
    | ended ↦ l
    | panicked ↦ l
  ]

  -- The ticks until the task is stopped, from the first to the last.
  unfoldable pub run : FanCurve P → FanControlSettings P → List (Reading P) → Loop P → Loop P
  run curve settings [] l = l
  run curve settings (r ∷ rs) l = run curve settings rs (tick curve settings r l)
