-- ===== src/Nvidia/Settings.antt =====
-- `apply_config`, `cleanup_clocks` and the start and stop of the fan control in nvidia.rs.
use lact.Prelude.{
  ℕ, String, zero, suc, Bool, true, false, not, Option, none, some, ◌==◌, if◌then◌else◌,
}
use lact.Prelude.Int.{ℤ, pos, eqb_ℤ}
use lact.Prelude.Exec.{msg, Result, ok, err}
use lact.Platform.{Platform}
use lact.Schema.{FanControlMode}
use lact.Curve.{FanCurve, sub_i32, wrap_i32}
use lact.Config.{FanControlSettings, Gpu}
use lact.Prelude.Io.{pure, raise, attempt, in_context, ◌>>=◌, ◌>>◌}
use lact.Nvidia.Device.{Clock, graphics, memory, same, Call, Device, Io, ask, write}

abbrev pub read_failed : Clock → String
read_failed graphics = "Could not read max graphics clock"
read_failed memory = "Could not read max memory clock"

abbrev pub set_failed : Clock → String
set_failed graphics = "Could not set graphics clock offset"
set_failed memory = "Could not set memory clock offset"

module _ {P : Platform} (device : Device) where
  unfoldable pub limit_if : Bool → ℕ → Io P (Unit {0})
  limit_if true limit = write device (Call.set_power_management_limit limit)
  limit_if false limit = pure tt

  unfoldable pub set_limit : P.F64 → Io P (Unit {0})
  set_limit watts = do
    let limit = P.f64.to_u32 (P.f64.mul watts (P.f64.of_int (pos 1000)))
    current ←
        in_context "Could not get current cap" (ask Call.power_management_limit device.power_limit)
    in_context "Could not set power cap" (limit_if (not (current == limit)) limit)

  unfoldable pub reset_to : Result ℕ → Result ℕ → Io P (Unit {0})
  reset_to (ok current) (ok default_limit) =
      in_context "Could not reset power cap"
        (limit_if (not (current == default_limit)) default_limit)
  reset_to (ok current) (err e) = pure tt
  reset_to (err e) default_limit = pure tt

  unfoldable pub apply_limit : Option P.F64 → Io P (Unit {0})
  apply_limit (some watts) = set_limit watts
  apply_limit none = do
    current ← attempt (ask Call.power_management_limit device.power_limit)
    default_limit ← attempt (ask Call.power_management_limit_default device.default_limit)
    reset_to current default_limit

  -- `last_applied_…_offset.store(offset, …)`
  unfoldable pub store : Clock → ℤ → Io P (Unit {0})
  store clock offset s = (
    ok tt,
    record s { last_applied = λ other. if same clock other then offset else s.last_applied other },
  )

  -- A new offset is remembered once the card has taken it.
  unfoldable pub set_offset : Clock → ℤ → Io P (Unit {0})
  set_offset clock offset = do write device (Call.set_vf_offset clock offset); store clock offset

  unfoldable pub reset_offset_from : Clock → Result ℤ → Io P (Unit {0})
  reset_offset_from clock (err e) = pure tt
  reset_offset_from clock (ok current) =
      if eqb_ℤ current (pos 0) then pure tt else set_offset clock (pos 0)

  unfoldable pub reset_offset : Clock → Io P (Unit {0})
  reset_offset clock = do
    current ← attempt (ask (Call.vf_offset clock) (device.offset clock))
    reset_offset_from clock current

  unfoldable pub cleanup_clocks : Io P (Unit {0})
  cleanup_clocks = do
    in_context "Could not reset graphics clock offset" (reset_offset graphics)
    in_context "Could not reset memory clock offset" (reset_offset memory)

  -- The maximum clock that is asked for, as an offset of the card's; `as i32` and the subtraction wrap
  -- around.
  unfoldable pub apply_offset : Clock → Option ℤ → Io P (Unit {0})
  apply_offset clock none = pure tt
  apply_offset clock (some max_clock) = do
    default_max_clock ←
        in_context (read_failed clock) (ask (Call.max_clock_info clock) (device.max_clock clock))
    in_context (set_failed clock)
        (set_offset clock (sub_i32 max_clock (wrap_i32 (pos default_max_clock))))

  -- `for fan in 0..fan_count`, with `left` fans from `fan` on.
  unfoldable pub set_speeds : ℕ → ℕ → ℕ → Io P (Unit {0})
  set_speeds zero fan speed = pure tt
  set_speeds (suc left) fan speed = do
    in_context "Could not reset fan speed to default" (write device (Call.set_fan_speed fan speed))
    set_speeds left (suc fan) speed

  unfoldable pub check : Bool → Result (Unit {0}) → Io P (Unit {0})
  check fail_on_error (ok _) = pure tt
  check fail_on_error (err e) = if fail_on_error then raise e else pure tt

  unfoldable pub reset_speeds : Bool → ℕ → ℕ → Io P (Unit {0})
  reset_speeds fail_on_error zero fan = pure tt
  reset_speeds fail_on_error (suc left) fan = do
    answer ← attempt (
        in_context "Could not reset fan control to default"
          (write device (Call.set_default_fan_speed fan)))
    check fail_on_error answer
    reset_speeds fail_on_error left (suc fan)

  unfoldable pub take_handle : Io P Bool
  take_handle s = (
    ok (elim s.fan_control_handle [ none ↦ false | some task ↦ true ]),
    record s { fan_control_handle = none },
  )

  -- Errors count only if a task was running.
  unfoldable pub stop_fan_control : Io P (Unit {0})
  stop_fan_control = do
    running ← take_handle
    if running then write device Call.stop_task else pure tt
    fan_count ← in_context "Could not get fan count" (ask Call.num_fans device.fan_count)
    reset_speeds running fan_count 0

  unfoldable pub store_handle : FanCurve P → FanControlSettings P → Io P (Unit {0})
  store_handle curve settings s = (ok tt, record s { fan_control_handle = some (curve, settings) })

  unfoldable pub start_curve_fan_control_task : FanCurve P → FanControlSettings P → Io P (Unit {0})
  start_curve_fan_control_task curve settings = do
    stop_fan_control
    in_context "Could not read temperature" (ask Call.temperature device.temp)
    fan_count ← in_context "Could not read fan count" (ask Call.num_fans device.fan_count)
    if fan_count == 0 then raise (msg "Device has no fans") else pure tt
    write device Call.start_task
    store_handle curve settings

  unfoldable pub apply_mode : FanControlMode → FanControlSettings P → Io P (Unit {0})
  apply_mode FanControlMode.static settings = do
    in_context "Could not reset fan control" stop_fan_control
    fan_count ← in_context "Could not get fan count" (ask Call.num_fans device.fan_count)
    set_speeds fan_count 0 (P.f64.to_u32 (P.f64.mul settings.static_speed (P.f64.of_int (pos 100))))
  apply_mode FanControlMode.curve settings = start_curve_fan_control_task settings.curve settings

  unfoldable pub apply_settings : Option (FanControlSettings P) → Io P (Unit {0})
  apply_settings none = raise (msg "Fan control enabled with no settings")
  apply_settings (some settings) = apply_mode settings.mode settings

  unfoldable pub apply_config : Gpu P → Io P (Unit {0})
  apply_config config = do
    apply_limit config.power_cap
    cleanup_clocks
    apply_offset graphics config.clocks_configuration.max_core_clock
    apply_offset memory config.clocks_configuration.max_memory_clock
    if config.fan_control_enabled
        then apply_settings config.fan_control_settings
        else in_context "Could not reset fan control" stop_fan_control
