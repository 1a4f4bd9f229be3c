-- ===== src/Tests/Tasks.antt =====
-- The examples of the fan control task and of the power states of amd.rs.
use lact.Prelude.{
  ℕ, zero, suc, ◌*◌, ◌≤◌, ◌≡◌, refl, Bool, true, false, none, some, List, [], ◌∷◌, length, arith,
}
use lact.Prelude.Int.{pos}
use lact.Platform.Fixed.{fixed}
use lact.Schema.{FanControlMode}
use lact.Curve.{FanCurve, pwm_at_temp, interpolate, sub_i32}
use lact.Config.{FanControlSettings}
use lact.FanTask.{Reading, Write, start, run, tick}
use lact.FanTask.Spindown.{IsSlow, run-IsSlow}
use lact.FanTask.Ending.{is_running, run_ended}
use lact.Amd.States.{Levels, or_empty}

abbrev curve : FanCurve fixed
curve = record { points = (pos 0, 0) ∷ (pos 100, 1000) ∷ [] }

-- A fall of the speed waits for 5 s.
abbrev slow : FanControlSettings fixed
slow = record {
  mode = FanControlMode.curve;
  static_speed = 500;
  temperature_key = "edge";
  interval_ms = 500;
  curve = curve;
  spindown_delay_ms = some 5000;
  change_threshold = none;
}

abbrev reading : ℕ → ℕ → Bool → Reading fixed
reading degrees now works = record {
  temp = some (record { current = some (degrees * 1000); crit = none; crit_hyst = none });
  now = now;
  works = works;
}

abbrev readings : List (Reading fixed)
readings = reading 60 1000 true ∷ reading 40 2000 true ∷ reading 40 7000 true ∷ []

-- The second reading is within the delay, the third after it.
writes_of_readings :
    (run fixed curve slow readings (start fixed)).writes
    ≡ record { pwm = 102; time = 7000; done = true }
      ∷ record { pwm = 153; time = 1000; done = true }
      ∷ []
unfolding run tick pwm_at_temp interpolate sub_i32
writes_of_readings = refl

run-IsSlow_example : IsSlow 5000 (run fixed curve slow readings (start fixed)).writes
run-IsSlow_example = run-IsSlow fixed slow curve readings

stopped :
    is_running (run fixed curve slow (reading 60 1000 false ∷ []) (start fixed)).status ≡ false
unfolding run tick pwm_at_temp interpolate sub_i32
stopped = refl

run_ended_example :
    (w : Write) × ((run fixed curve slow (reading 60 1000 false ∷ []) (start fixed)).writes
      ≡ w ∷ [])
    × (w.done ≡ false)
run_ended_example =
    run_ended fixed slow curve (reading 60 1000 false ∷ []) (λ e. ground arith)
      ((_, 60000, refl, refl), tt) stopped

-- The first attempt reads nonsense.
abbrev levels : Levels
levels zero = some (300 ∷ 65535 ∷ [])
levels (suc n) = some (300 ∷ 2000 ∷ [])

few : (n : ℕ) → length (or_empty (levels n)) ≤ 256
few zero = omega arith
few (suc n) = omega arith
