-- ===== src/Client/Api.antt =====
-- The methods of `DaemonClient`, and `ResponseBuffer::inner`.
use lact.Prelude.{ℕ, String, Option, none, some, List}
use lact.Prelude.Int.{ℤ}
use lact.Prelude.Exec.{context, Result, ok, err, with_context}
use lact.Schema.{FanOptions, SetClocksCommand, ConfirmCommand, ProfileBase, Request}
use lact.Handler.State.{Env}
use lact.Server.{Payload, Response, success, failure}
use lact.Client.{Network, DaemonClient, make_request}

-- `serde_json`, from the client's side: a request as text, and a response from text.
pub record Wire (E : Env) : Type 0 where
  pub write_request : Request E.platform → Result String
  pub read_response : String → Result (Response E)

module _ {E : Env} (wire : Wire E) where
  abbrev pub of_response : Response E → Result (Payload E)
  of_response (success payload) = ok payload
  of_response (failure e) = err (context "Got error from daemon, end of client boundary" e)

  abbrev pub inner_from : Result (Response E) → Result (Payload E)
  inner_from (ok response) = of_response response
  inner_from (err e) = err e

  unfoldable pub inner : String → Result (Payload E)
  inner buf =
      inner_from
        (with_context "Could not deserialize response from daemon" (wire.read_response buf))

  module _ {Connection World : Type 0} (net : Network Connection World) (fuel : ℕ) where
    -- A method's call: its answer, and the client after it, unless the fuel ran out.
    abbrev pub Call : Type 0
    Call =
        DaemonClient Connection World → Option (Result (Payload E) × DaemonClient Connection World)

    abbrev pub answer :
        Option (String × DaemonClient Connection World)
        → Option (Result (Payload E) × DaemonClient Connection World)
    answer none = none
    answer (some (buf, c)) = some (inner buf, c)

    -- `make_request(request).await?.inner()`
    unfoldable pub call : Request E.platform → Call
    call request c = elim (wire.write_request request) [
      | err e ↦ some (err e, c)
      | ok payload ↦ answer (make_request net fuel payload c)
    ]

    abbrev pub get_system_info : Call
    get_system_info = call Request.system_info

    abbrev pub enable_overdrive : Call
    enable_overdrive = call Request.enable_overdrive

    abbrev pub disable_overdrive : Call
    disable_overdrive = call Request.disable_overdrive

    abbrev pub generate_debug_snapshot : Call
    generate_debug_snapshot = call Request.generate_snapshot

    abbrev pub reset_config : Call
    reset_config = call Request.rest_config

    abbrev pub list_profiles : Call
    list_profiles = call Request.list_profiles

    abbrev pub list_devices : Call
    list_devices = call Request.list_devices

    abbrev pub get_device_info : String → Call
    get_device_info id = call (Request.device_info id)

    abbrev pub get_device_stats : String → Call
    get_device_stats id = call (Request.device_stats id)

    abbrev pub get_device_clocks_info : String → Call
    get_device_clocks_info id = call (Request.device_clocks_info id)

    abbrev pub get_device_power_profile_modes : String → Call
    get_device_power_profile_modes id = call (Request.device_power_profile_modes id)

    abbrev pub get_power_states : String → Call
    get_power_states id = call (Request.get_power_states id)

    abbrev pub reset_pmfw : String → Call
    reset_pmfw id = call (Request.reset_pmfw id)

    abbrev pub dump_vbios : String → Call
    dump_vbios id = call (Request.vbios_dump id)

    abbrev pub set_fan_control : FanOptions E.platform → Call
    set_fan_control cmd = call (Request.set_fan_control cmd)

    abbrev pub set_power_cap : String → Option E.platform.F64 → Call
    set_power_cap id cap = call (Request.set_power_cap id cap)

    abbrev pub set_profile : Option String → Call
    set_profile name = call (Request.set_profile name)

    abbrev pub create_profile : String → ProfileBase → Call
    create_profile name base = call (Request.create_profile name base)

    abbrev pub delete_profile : String → Call
    delete_profile name = call (Request.delete_profile name)

    abbrev pub set_performance_level : String → E.platform.PerformanceLevel → Call
    set_performance_level id level = call (Request.set_performance_level id level)

    abbrev pub set_clocks_value : String → SetClocksCommand → Call
    set_clocks_value id command = call (Request.set_clocks_value id command)

    abbrev pub batch_set_clocks_value : String → List SetClocksCommand → Call
    batch_set_clocks_value id commands = call (Request.batch_set_clocks_value id commands)

    abbrev pub set_enabled_power_states : String → E.platform.PowerLevelKind → List ℕ → Call
    set_enabled_power_states id kind states = call (Request.set_enabled_power_states id kind states)

    abbrev pub set_power_profile_mode : String → Option ℕ → List (List (Option ℤ)) → Call
    set_power_profile_mode id index custom_heuristics =
        call (Request.set_power_profile_mode id index custom_heuristics)

    abbrev pub confirm_pending_config : ConfirmCommand → Call
    confirm_pending_config command = call (Request.confirm_pending_config command)
