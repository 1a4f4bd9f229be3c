-- ===== src/Nvidia/Offsets.antt =====
-- The offsets that nvidia.rs remembers, and those that the card has taken.
use lact.Prelude.{
  ℕ, zero, suc, ◌≡◌, refl, Bool, true, false, Bool-cases, Option, none, some, [], ◌∷◌, ◌&&◌, inl,
  inr, if◌then◌else◌,
}
use lact.Prelude.Int.{ℤ, pos}
use lact.Prelude.Exec.{Result, ok, err, is_ok, continue}
use lact.Platform.{Platform}
use lact.Schema.{FanControlMode}
use lact.Curve.{FanCurve}
use lact.Config.{FanControlSettings, Gpu}
use lact.Prelude.Io.{
  Upholds, Upholds-bind, Upholds-in_context, upholds_rules, attempt, in_context, ◌>>=◌,
}
use lact.Nvidia.Device.{Clock, same, Call, Trace, Device, Nvidia, ask, write}
use lact.Nvidia.Settings.{
  limit_if, set_limit, reset_to, apply_limit, store, set_offset, reset_offset_from, reset_offset,
  cleanup_clocks, apply_offset, set_speeds, check, reset_speeds, take_handle, stop_fan_control,
  store_handle, start_curve_fan_control_task, apply_mode, apply_settings, apply_config,
}

-- The clock and the offset that a call sets.
abbrev pub offset_of : Call → Option (Clock × ℤ)
offset_of (Call.set_vf_offset clock offset) = some (clock, offset)
offset_of _ = none

module _ (device : Device) where
  -- The offset of the newest call for this clock that the card took, given the older ones'.
  abbrev pub newer : Clock → Option (Clock × ℤ) → Bool → ℤ → ℤ
  newer clock none taken older = older
  newer clock (some (other, offset)) taken older =
      if same other clock && taken then offset else older

  -- The offset that the card took last; 0 before the first.
  abbrev pub taken : Clock → Trace → ℤ
  taken clock [] = pos 0
  taken clock (call ∷ t) =
      newer clock (offset_of call) (is_ok (device.written call t)) (taken clock t)

  module _ {P : Platform} where
    abbrev pub IsKnown : Nvidia P → Type 0
    IsKnown s = (clock : Clock) → s.last_applied clock ≡ taken clock s.calls

    Upholds-ask :
        {A : Type 0} (call : Call) (answer : Trace → Result A)
        → offset_of call ≡ none
        → Upholds IsKnown (ask call answer)
    unfolding ask
    Upholds-ask call answer p = record { after = λ s h clock. rw (p, newer) (h clock) }

    Upholds-write : (call : Call) → offset_of call ≡ none → Upholds IsKnown (write device call)
    unfolding write
    Upholds-write call p = record { after = λ s h clock. rw (p, newer) (h clock) }

    Upholds-take_handle : Upholds IsKnown (take_handle device)
    unfolding take_handle
    Upholds-take_handle = record { after = λ s h. h }

    Upholds-store_handle :
        (curve : FanCurve P) (settings : FanControlSettings P)
        → Upholds IsKnown (store_handle device curve settings)
    unfolding store_handle
    Upholds-store_handle curve settings = record { after = λ s h. h }

    ruleset device_rules =
        (upholds_rules, refl, Upholds-ask, Upholds-write, Upholds-take_handle, Upholds-store_handle)

    -- The card's answer decides at once what is remembered and what counts as taken.
    stored :
        (answer : Result (Unit {0})) (clock : Clock) (offset : ℤ) (s : Nvidia P)
        → device.written (Call.set_vf_offset clock offset) s.calls ≡ answer
        → IsKnown s
        → IsKnown
            (continue answer
              (λ _. store device clock offset)
              (record s { calls = Call.set_vf_offset clock offset ∷ s.calls })).1
    unfolding store
    stored (ok u) clock offset s e h other = elim (Bool-cases (same clock other)) [
      | inl p ↦ rw (e, p) refl
      | inr p ↦ rw (e, p) (h other)
    ]
    stored (err er) clock offset s e h other = elim (Bool-cases (same clock other)) [
      | inl p ↦ rw (e, p) (h other)
      | inr p ↦ rw (e, p) (h other)
    ]

    Upholds-set_offset :
        (clock : Clock) (offset : ℤ) → Upholds IsKnown (set_offset device clock offset)
    unfolding set_offset write ◌>>=◌
    Upholds-set_offset clock offset = record {
      after = λ s h.
          stored (device.written (Call.set_vf_offset clock offset) s.calls) clock offset s refl h;
    }

    Upholds-limit_if : (b : Bool) (limit : ℕ) → Upholds IsKnown (limit_if device b limit)
    unfolding limit_if
    Upholds-limit_if true limit = search device_rules
    Upholds-limit_if false limit = search device_rules

    Upholds-set_limit : (watts : P.F64) → Upholds IsKnown (set_limit device watts)
    unfolding set_limit in_context ask
    Upholds-set_limit watts =
        Upholds-bind _ _ (search device_rules)
          λ current. Upholds-in_context _ _ (Upholds-limit_if _ _)

    Upholds-reset_to : (a b : Result ℕ) → Upholds IsKnown (reset_to device a b)
    unfolding reset_to
    Upholds-reset_to (ok a) (ok b) = search (device_rules, Upholds-limit_if)
    Upholds-reset_to (ok a) (err e) = search device_rules
    Upholds-reset_to (err e) b = search device_rules

    Upholds-apply_limit : (o : Option P.F64) → Upholds IsKnown (apply_limit device o)
    unfolding apply_limit attempt ask
    Upholds-apply_limit (some watts) = Upholds-set_limit watts
    Upholds-apply_limit none = Upholds-bind _ _ (search device_rules) λ current.
        Upholds-bind _ _ (search device_rules)
          λ default_limit. Upholds-reset_to current default_limit

    Upholds-reset_offset_from :
        (clock : Clock) (r : Result ℤ) → Upholds IsKnown (reset_offset_from device clock r)
    unfolding reset_offset_from
    Upholds-reset_offset_from clock (err e) = search device_rules
    Upholds-reset_offset_from clock (ok current) = search (device_rules, Upholds-set_offset)

    Upholds-reset_offset : (clock : Clock) → Upholds IsKnown (reset_offset device clock)
    unfolding reset_offset
    Upholds-reset_offset clock = search (device_rules, Upholds-reset_offset_from)

    Upholds-cleanup_clocks : Upholds IsKnown (cleanup_clocks device)
    unfolding cleanup_clocks
    Upholds-cleanup_clocks = search (device_rules, Upholds-reset_offset)

    Upholds-apply_offset :
        (clock : Clock) (o : Option ℤ) → Upholds IsKnown (apply_offset device clock o)
    unfolding apply_offset
    Upholds-apply_offset clock none = search device_rules
    Upholds-apply_offset clock (some max_clock) = search (device_rules, Upholds-set_offset) depth 9

    Upholds-set_speeds : (left fan speed : ℕ) → Upholds IsKnown (set_speeds device left fan speed)
    unfolding set_speeds
    Upholds-set_speeds zero fan speed = search device_rules
    Upholds-set_speeds (suc left) fan speed =
        Upholds-bind _ _ (search device_rules) λ _. Upholds-set_speeds left (suc fan) speed

    Upholds-check : (b : Bool) (r : Result (Unit {0})) → Upholds IsKnown (check device b r)
    unfolding check
    Upholds-check b (ok u) = search device_rules
    Upholds-check b (err e) = search device_rules

    Upholds-reset_speeds :
        (b : Bool) (left fan : ℕ) → Upholds IsKnown (reset_speeds device b left fan)
    unfolding reset_speeds
    Upholds-reset_speeds b zero fan = search device_rules
    Upholds-reset_speeds b (suc left) fan = Upholds-bind _ _ (search device_rules) λ answer.
        Upholds-bind _ _ (Upholds-check b answer) λ _. Upholds-reset_speeds b left (suc fan)

    Upholds-stop_fan_control : Upholds IsKnown (stop_fan_control device)
    unfolding stop_fan_control
    Upholds-stop_fan_control = search (device_rules, Upholds-reset_speeds) depth 12

    Upholds-start_task :
        (curve : FanCurve P) (settings : FanControlSettings P)
        → Upholds IsKnown (start_curve_fan_control_task device curve settings)
    unfolding start_curve_fan_control_task
    Upholds-start_task curve settings = search (device_rules, Upholds-stop_fan_control) depth 16

    Upholds-apply_mode :
        (mode : FanControlMode) (settings : FanControlSettings P)
        → Upholds IsKnown (apply_mode device mode settings)
    unfolding apply_mode
    Upholds-apply_mode FanControlMode.static settings =
        search (device_rules, Upholds-stop_fan_control, Upholds-set_speeds) depth 12
    Upholds-apply_mode FanControlMode.curve settings = Upholds-start_task settings.curve settings

    Upholds-apply_settings :
        (o : Option (FanControlSettings P)) → Upholds IsKnown (apply_settings device o)
    unfolding apply_settings
    Upholds-apply_settings none = search device_rules
    Upholds-apply_settings (some settings) = Upholds-apply_mode settings.mode settings

    Upholds-apply_config : (config : Gpu P) → Upholds IsKnown (apply_config device config)
    unfolding apply_config
    Upholds-apply_config config =
        search
          (
            device_rules, Upholds-apply_limit, Upholds-cleanup_clocks, Upholds-apply_offset,
            Upholds-apply_settings, Upholds-stop_fan_control,
          )
          depth 16

    -- Where the remembered offset of each clock is the last one that the card took (0 before the
    -- first), this is so after `apply_config` and after `cleanup_clocks`, whether they succeed or
    -- not.
    pub offsets-IsKnown :
        (config : Gpu P) (s : Nvidia P)
        → IsKnown s
        → IsKnown (apply_config device config s).1 × IsKnown (cleanup_clocks device s).1
    offsets-IsKnown config s h =
        ((Upholds-apply_config config).after s h, Upholds-cleanup_clocks.after s h)
