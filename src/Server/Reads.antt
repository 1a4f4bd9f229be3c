-- ===== src/Server/Reads.antt =====
-- The requests that only read.
use lact.Prelude.{String, ◌≡◌, Bool, true, false, arith}
use lact.Prelude.Exec.{Result}
use lact.Platform.{Platform}
use lact.Schema.{Request}
use lact.Handler.State.{Env, Handler, controller_by_id, GpuController}
use lact.Handler.Settings.{get_power_states, configured}
use lact.Server.{System, handle_request, from_card, get_gpu_stats}

abbrev pub is_read : {P : Platform} → Request P → Bool
is_read Request.ping = true
is_read Request.list_devices = true
is_read (Request.device_info id) = true
is_read (Request.device_stats id) = true
is_read (Request.device_clocks_info id) = true
is_read (Request.device_power_profile_modes id) = true
is_read (Request.get_power_states id) = true
is_read (Request.vbios_dump id) = true
is_read Request.list_profiles = true
is_read _ = false

module _ (E : Env) (system : System E) (h : Handler E) where
  from_card_reads :
      (id : String) (getter : GpuController E.platform E.World E.Reply → E.World → Result E.Reply)
      → (from_card E system id getter h).1 ≡ h
  unfolding from_card controller_by_id
  from_card_reads id getter = ground arith

  get_gpu_stats_reads : (id : String) → (get_gpu_stats E system id h).1 ≡ h
  unfolding get_gpu_stats configured from_card controller_by_id
  get_gpu_stats_reads id = ground arith

  get_power_states_reads : (id : String) → (get_power_states E id h).1 ≡ h
  unfolding get_power_states controller_by_id
  get_power_states_reads id = ground arith

  -- A request that reports something changes nothing, whether it succeeds or fails.
  pub handle_request_reads :
      (r : Request E.platform) → is_read r ≡ true → (handle_request E system r h).1 ≡ h
  unfolding handle_request get_power_states controller_by_id
  handle_request_reads (Request.device_info id) e = ground arith
  handle_request_reads r e = ground arith
