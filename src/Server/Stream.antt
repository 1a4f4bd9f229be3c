-- ===== src/Server/Stream.antt =====
-- A whole connection.
use lact.Prelude.{
  ℕ, suc, ◌&&◌, if◌then◌else◌, String, ◌≡◌, refl, ap, List, [], ◌∷◌, arith, inl, inr, length,
}
use lact.Prelude.Exec.{Result, Result-cases, is_ok}
use lact.Prelude.Dict.{insert}
use lact.Config.{apply_clocks_command}
use lact.Config.Clocks.{apply_commands}
use lact.Handler.Settings.{with_performance_level}
use lact.Schema.{default_pmfw_options, Request, SetClocksCommand}
use lact.Handler.State.{Env, Handler, find_controller, controller_by_id}
use lact.Handler.Edit.{confirm_pending_config}
use lact.Handler.Settings.{
  reset_pmfw, set_power_cap, set_performance_level, set_clocks_value, batch_set_clocks_value,
  set_power_profile_mode, set_enabled_power_states,
}
use lact.Handler.Settings.Fan.{edit-config}
use lact.Handler.Profiles.Valid.{
  IsReadable, set_profile-IsReadable, create_profile-IsReadable, delete_profile-IsReadable,
  reset_config-IsReadable, set_fan_control-IsReadable,
}
use lact.Server.{Line, System, handle_request, handle_line, handle_stream}
use lact.Server.Reads.{handle_request_reads}

module _ (E : Env) (system : System E) where
  reset_pmfw-IsReadable :
      (h : Handler E) (id : String) → IsReadable h.config → IsReadable (reset_pmfw E id h).1.config
  unfolding reset_pmfw controller_by_id
  reset_pmfw-IsReadable h id v = elim (Result-cases (find_controller E id)) [
    | inl (c, p) ↦ ground (
      arith,
      edit-config E (record h { world = c.reset_pmfw_settings h.world }) id
          (λ gpu. record gpu { pmfw_options = default_pmfw_options }),
    )
    | inr (e, p) ↦ ground arith
  ]

  set_clocks_value-IsReadable :
      (h : Handler E) (id : String) (command : SetClocksCommand)
      → IsReadable h.config
      → IsReadable (set_clocks_value E id command h).1.config
  unfolding set_clocks_value controller_by_id
  set_clocks_value-IsReadable h id SetClocksCommand.reset v =
      elim (Result-cases (find_controller E id)) [
        | inl (c, p) ↦ ground (
          arith,
          edit-config E (record h { world = (c.cleanup_clocks h.world).1 }) id
              (λ gpu. apply_clocks_command E.platform gpu SetClocksCommand.reset),
        )
        | inr (e, p) ↦ ground arith
      ]
  set_clocks_value-IsReadable h id _ v = rw edit-config v

  -- The settings of the selected profile stay readable under every request, successful or not: the
  -- selected profile always exists.
  pub handle_request-IsReadable :
      (h : Handler E) (r : Request E.platform)
      → IsReadable h.config
      → IsReadable (handle_request E system r h).1.config
  unfolding handle_request set_power_cap set_performance_level batch_set_clocks_value
      set_power_profile_mode set_enabled_power_states confirm_pending_config
  handle_request-IsReadable h (Request.set_fan_control opts) v =
      ground (arith, set_fan_control-IsReadable E h opts v)
  handle_request-IsReadable h (Request.reset_pmfw id) v =
      ground (arith, reset_pmfw-IsReadable h id v)
  handle_request-IsReadable h (Request.set_clocks_value id command) v =
      ground (arith, set_clocks_value-IsReadable h id command v)
  handle_request-IsReadable h (Request.set_power_cap id maybe_cap) v =
      ground (arith, edit-config E h id (λ gpu. record gpu { power_cap = maybe_cap }))
  handle_request-IsReadable h (Request.set_performance_level id level) v =
      ground (arith, edit-config E h id (with_performance_level E.platform level))
  handle_request-IsReadable h (Request.batch_set_clocks_value id commands) v =
      ground (arith, edit-config E h id (λ gpu. apply_commands E.platform gpu commands))
  handle_request-IsReadable h (Request.set_power_profile_mode id index heuristics) v = ground (
    arith,
    edit-config E h id (λ gpu. record gpu {
      power_profile_mode_index = index;
      custom_power_profile_mode_hueristics = heuristics;
    }),
  )
  handle_request-IsReadable h (Request.set_enabled_power_states id kind enabled) v = ground (
    arith,
    edit-config E h id (λ gpu. record gpu {
      power_states = insert E.platform.kind_eq gpu.power_states kind enabled;
    }),
  )
  handle_request-IsReadable h (Request.set_profile name) v =
      ground (arith, set_profile-IsReadable E h name v)
  handle_request-IsReadable h (Request.create_profile name base) v =
      ground (arith, create_profile-IsReadable E h name base v)
  handle_request-IsReadable h (Request.delete_profile name) v =
      ground (arith, delete_profile-IsReadable E h name v)
  handle_request-IsReadable h Request.rest_config v = reset_config-IsReadable E h
  handle_request-IsReadable h (Request.confirm_pending_config command) v = ground arith
  handle_request-IsReadable h r v = ground (arith, handle_request_reads E system h r)

  handle_line-IsReadable :
      (parse : String → Result (Request E.platform)) (line : String) (h : Handler E)
      → IsReadable h.config
      → IsReadable (handle_line E system parse line h).1.config
  unfolding handle_line
  handle_line-IsReadable parse line h v = elim (Result-cases (parse line)) [
    | inl (r, p) ↦ rw (p, handle_line) (handle_request-IsReadable h r v)
    | inr (e, p) ↦ rw (p, handle_line) v
  ]

  -- The lines before the first that cannot be read or answered.
  abbrev pub answered_lines : List Line → ℕ
  answered_lines [] = 0
  answered_lines (line ∷ lines) =
      if is_ok line.text && is_ok line.written then suc (answered_lines lines) else 0

  -- Each line before the first failure gets one response, and the selected profile exists when the
  -- connection has ended, if it did before.
  pub handle_stream_lem :
      (parse : String → Result (Request E.platform)) (lines : List Line) (h : Handler E)
      → IsReadable h.config
      → (length (handle_stream E system parse lines h).1 ≡ answered_lines lines)
        × IsReadable (handle_stream E system parse lines h).2.config
  unfolding handle_stream
  handle_stream_lem parse [] h v = (refl, v)
  handle_stream_lem parse (line ∷ lines) h v = elim (Result-cases line.text) [
    | inr (e, p) ↦ rw (p, handle_stream) (refl, v)
    | inl (text, p) ↦
        let next = handle_line-IsReadable parse text h v in
        let (count, kept) =
          handle_stream_lem parse lines (handle_line E system parse text h).1 next in
        elim (Result-cases line.written) [
          | inr (e, q) ↦ rw (p, handle_stream) (rw q (refl, next))
          | inl (u, q) ↦ rw (p, handle_stream) (rw q (ap suc count, kept))
        ]
  ]
