-- ===== src/Server.antt =====
-- lact-daemon/src/server.rs: the dispatch of requests, and the loop over the lines of a connection.
pub mod Reads
pub mod Pending
pub mod Prompt
pub mod Stream
use lact.Prelude.{ℕ, String, ◌≡◌, refl, Option, none, some, List, [], ◌∷◌}
use lact.Prelude.Exec.{Exec, Error, context, Result, ok, err, pure, lift, gets, modify, ◌>>=◌, ◌>>◌}
use lact.Prelude.Dict.{Dict, get}
use lact.Schema.{Request, PowerStates, ProfilesInfo, DeviceListEntry}
use lact.Config.{Gpu}
use lact.Handler.State.{Env, Handler, on_world, controller_by_id, GpuController}
use lact.Handler.Edit.{confirm_pending_config}
use lact.Handler.Settings.{
  set_fan_control, reset_pmfw, set_power_cap, set_performance_level, set_clocks_value,
  batch_set_clocks_value, set_power_profile_mode, set_enabled_power_states, get_power_states,
  configured,
}
use lact.Handler.Profiles.{list_profiles, set_profile, create_profile, delete_profile, reset_config}

-- The data of a successful response.
pub data Payload (E : Env) : Type 0 where
  pong nothing : Payload E
  timer : ℕ → Payload E
  devices : List DeviceListEntry → Payload E
  states : PowerStates → Payload E
  profiles : ProfilesInfo → Payload E
  reply : E.Reply → Payload E

-- server/system.rs and the snapshot: they touch the system, and nothing of the handler's state.
pub record System (E : Env) : Type 0 where
  pub info : Exec E.World E.Reply
  pub enable_overdrive : Exec E.World E.Reply
  pub disable_overdrive : Exec E.World E.Reply
  pub generate_snapshot : Exec E.World E.Reply

pub data Response (E : Env) : Type 0 where
  success : Payload E → Response E
  failure : Error → Response E

-- What `read_line` gives, and whether the response to it can be serialized and written.
pub record Line : Type 0 where
  pub text : Result String
  pub written : Result (Unit {0})

module _ (E : Env) (system : System E) where
  device_entries : Dict String (GpuController E.platform E.World E.Reply) → List DeviceListEntry
  device_entries [] = []
  device_entries ((id, controller) ∷ rest) =
      record { id = id; name = controller.pci_model } ∷ device_entries rest

  -- `ok_response(…?)`
  abbrev respond :
      {A : Type 0} → (A → Payload E) → Exec (Handler E) A → Exec (Handler E) (Payload E)
  respond f m = do a ← m; pure (f a)

  -- A getter of one card, which may fail.
  pub from_card :
      String
      → (GpuController E.platform E.World E.Reply → E.World → Result E.Reply)
      → Exec (Handler E) E.Reply
  from_card id getter = do
    controller ← controller_by_id E id
    world ← gets (λ h. h.world)
    lift (getter controller world)

  pub get_gpu_stats : String → Exec (Handler E) E.Reply
  get_gpu_stats id = do
    gpu_config ← configured E id
    from_card id (λ c w. ok (c.get_stats gpu_config w))

  unfoldable pub handle_request : Request E.platform → Exec (Handler E) (Payload E)
  unfolding device_entries from_card get_gpu_stats
  handle_request Request.ping = pure pong
  handle_request Request.system_info = respond reply (on_world E system.info)
  handle_request Request.list_devices = pure (devices (device_entries E.gpu_controllers))
  handle_request (Request.device_info id) = respond reply (from_card id (λ c w. ok (c.get_info w)))
  handle_request (Request.device_stats id) = respond reply (get_gpu_stats id)
  handle_request (Request.device_clocks_info id) =
      respond reply (from_card id (λ c. c.get_clocks_info))
  handle_request (Request.device_power_profile_modes id) =
      respond reply (from_card id (λ c. c.get_power_profile_modes))
  handle_request (Request.set_fan_control opts) = respond timer (set_fan_control E opts)
  handle_request (Request.reset_pmfw id) = respond timer (reset_pmfw E id)
  handle_request (Request.set_power_cap id cap) = respond timer (set_power_cap E id cap)
  handle_request (Request.set_performance_level id level) =
      respond timer (set_performance_level E id level)
  handle_request (Request.set_clocks_value id command) =
      respond timer (set_clocks_value E id command)
  handle_request (Request.batch_set_clocks_value id commands) =
      respond timer (batch_set_clocks_value E id commands)
  handle_request (Request.set_power_profile_mode id index custom_heuristics) =
      respond timer (set_power_profile_mode E id index custom_heuristics)
  handle_request (Request.get_power_states id) = respond states (get_power_states E id)
  handle_request (Request.set_enabled_power_states id kind enabled) =
      respond timer (set_enabled_power_states E id kind enabled)
  handle_request (Request.vbios_dump id) = respond reply (from_card id (λ c. c.vbios_dump))
  handle_request Request.list_profiles = respond profiles (gets (list_profiles E))
  handle_request (Request.set_profile name) = respond (λ _. nothing) (set_profile E name)
  handle_request (Request.create_profile name base) =
      respond (λ _. nothing) (create_profile E name base)
  handle_request (Request.delete_profile name) = respond (λ _. nothing) (delete_profile E name)
  handle_request Request.enable_overdrive = respond reply (on_world E system.enable_overdrive)
  handle_request Request.disable_overdrive = respond reply (on_world E system.disable_overdrive)
  handle_request Request.generate_snapshot = respond reply (on_world E system.generate_snapshot)
  handle_request (Request.confirm_pending_config command) =
      respond (λ _. nothing) (confirm_pending_config E command)
  handle_request Request.rest_config = respond (λ _. nothing) (modify (reset_config E))

  unfoldable pub to_response : Result (Payload E) → Response E
  to_response (ok payload) = success payload
  to_response (err e) = failure e

  -- One line of a connection. `parse` is `serde_json::from_str`.
  pub handle_line :
      (String → Result (Request E.platform)) → String → Handler E → Response E × Handler E
  unfolding to_response
  handle_line parse line h = elim (parse line) [
    | err e ↦ (failure (context "Failed to deserialize" e), h)
    | ok request ↦ (to_response (handle_request request h).0, (handle_request request h).1)
  ]

  pub handle_line_lem :
      (parse : String → Result (Request E.platform)) (line : String) (r : Request E.platform)
      (h : Handler E)
      → parse line ≡ ok r
      → handle_line parse line h ≡ (to_response (handle_request r h).0, (handle_request r h).1)
  unfolding handle_line
  handle_line_lem parse line r h p = rw (p, handle_line) refl

  -- A connection until it is closed, or until a line cannot be read or answered, with the responses
  -- that are written. A request is carried out also where its response cannot be written.
  pub handle_stream :
      (String → Result (Request E.platform))
      → List Line
      → Handler E
      → Result (Unit {0}) × List (Response E) × Handler E
  handle_stream parse [] h = (ok tt, [], h)
  handle_stream parse (line ∷ lines) h = elim line.text [
    | err e ↦ (err e, [], h)
    | ok text ↦
        let (response, h') = handle_line parse text h in
        let (result, responses, end) = handle_stream parse lines h' in
        elim line.written [ err e ↦ (err e, [], h') | ok _ ↦ (result, response ∷ responses, end) ]
  ]
