-- ===== src/Tests/Nvidias.antt =====
-- The examples of nvidia.rs.
use lact.Prelude.{
  ◌≡◌, ◌↔◌, refl, true, false, All, none, some, [], ◌∷◌, List, arith, if◌then◌else◌, ◌&&◌, ◌==◌,
}
use lact.Prelude.Int.{pos, negsuc}
use lact.Prelude.Exec.{ok, err, msg}
use lact.Platform.Fixed.{fixed}
use lact.Config.{Gpu, default_gpu, default_clocks, default_fan_settings}
use lact.Schema.{PowerStates}
use lact.Curve.{FanCurve, wrap_i32}
use lact.FanTask.Ending.{is_running}
use lact.Nvidia.Device.{graphics, memory, same, Call, Pstate, Device, Nvidia, new}
use lact.Nvidia.Settings.{apply_config, cleanup_clocks}
use lact.Nvidia.Offsets.{IsKnown, offsets-IsKnown}
use lact.Nvidia.Report.{NvidiaClockInfo, clock_info, contains}
use lact.Nvidia.States.{no_states, read_states, try_get_power_states, get_power_states}
use lact.Nvidia.Task.{Reading, run, start, fan_percent, HasTemp, run_goes_on}

abbrev two_states : List Pstate
two_states = (0, omega arith) ∷ (8, omega arith) ∷ []

-- A device with a maximum of 2000 MHz that takes every call and misreports offsets below 0.
abbrev device : Device
device = record {
  power_limit = λ t. ok 200000;
  default_limit = λ t. ok 200000;
  max_clock = λ clock t. ok 2000;
  offset = λ clock t. ok (pos 4294967);
  offset_range = λ clock t. ok (negsuc 999, pos 1000);
  fan_count = λ t. ok 2;
  temp = λ t. ok 40;
  pstates = λ t. ok two_states;
  clock_of_pstate = λ clock pstate t. ok (210, 405);
  written = λ call t. ok tt;
}

-- A maximum of 1900 MHz.
abbrev slower : Gpu fixed
slower = record (default_gpu fixed) {
  clocks_configuration = record default_clocks { max_core_clock = some (pos 1900) };
}

abbrev start_state : Nvidia fixed
start_state = new

offsets-IsKnown_example :
    IsKnown device (apply_config device slower start_state).1
    × IsKnown device (cleanup_clocks device start_state).1
offsets-IsKnown_example = offsets-IsKnown device slower start_state λ clock. refl

-- The card after an offset of -100.
abbrev lowered : Nvidia fixed
lowered = record {
  calls = Call.set_vf_offset graphics (negsuc 99) ∷ [];
  last_applied = λ clock. elim clock [ graphics ↦ negsuc 99 | memory ↦ pos 0 ];
  fan_control_handle = none;
}

known : IsKnown device lowered
known graphics = refl
known memory = refl

abbrev shown : NvidiaClockInfo
shown = record { max = pos 2000; offset = negsuc 99; offset_range = (negsuc 999, pos 1000) }

misread : contains device lowered (negsuc 999, pos 1000) (pos 4294967) ≡ false
unfolding contains
misread = refl

shows : clock_info device lowered graphics ≡ some shown
unfolding clock_info wrap_i32
shows = refl

-- The whole speed is asked for as more than 100 percent.
full_speed : fan_percent fixed 255 ≡ 102
unfolding fan_percent
full_speed = refl

abbrev hot : Reading
hot = record { temp = some 90; now = 1000; works = λ fan. false }

abbrev curve : FanCurve fixed
curve = record { points = (pos 0, 0) ∷ (pos 100, 1000) ∷ [] }

run_goes_on_example :
    (is_running
        (run fixed curve (default_fan_settings fixed) 2 (hot ∷ hot ∷ []) (start fixed)).status
      ≡ true)
    ↔ All (HasTemp fixed curve (default_fan_settings fixed) 2) (hot ∷ hot ∷ [])
run_goes_on_example =
    run_goes_on fixed curve (default_fan_settings fixed) 2 (hot ∷ hot ∷ []) (λ e. ground arith)

abbrev found : PowerStates
found = get_power_states device start_state

-- A card that does not report the memory clocks of the state 8 shows no state at all.
abbrev secretive : Device
secretive = record device {
  clock_of_pstate = λ clock pstate t.
      if same clock memory && pstate.0 == 8 then err (msg "unknown") else ok (210, 405);
}

shows_none : get_power_states secretive start_state ≡ no_states
unfolding get_power_states try_get_power_states read_states
shows_none = refl
