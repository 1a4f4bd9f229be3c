-- ===== src/Handler/State.antt =====
-- The state of handler.rs, and the `GpuController` trait of gpu_controller/mod.rs.
use lact.Prelude.{ℕ, String, Option, List, str_eq}
use lact.Prelude.Exec.{Exec, Result, lift, or_fail}
use lact.Prelude.Dict.{Dict, get}
use lact.Platform.{Platform}
use lact.Schema.{ConfirmCommand, PowerStates}
use lact.Config.{Config, Gpu}

-- `World` is what lies outside the daemon: the cards, the configuration file, the clock. `Reply` is
-- the data that a controller reports and the handler only passes on (`DeviceInfo`, `DeviceStats`,
-- `ClocksInfo`, `PowerProfileModesTable`, the VBIOS). `pci_model` is the model's name in the PCI info.
pub record GpuController (P : Platform) (World Reply : Type 0) : Type 0 where
  pub pci_model : Option String
  pub get_info : World → Reply
  pub get_stats : Option (Gpu P) → World → Reply
  pub get_clocks_info : World → Result Reply
  pub get_power_states : Option (Gpu P) → World → PowerStates
  pub get_power_profile_modes : World → Result Reply
  pub vbios_dump : World → Result Reply
  pub apply_config : Gpu P → Exec World (Unit {0})
  pub reset_pmfw_settings : World → World
  pub cleanup_clocks : Exec World (Unit {0})

-- `save` is `Config::save`, `now` is `Instant::now()`. The controllers are loaded once, at the start.
pub record Env : Type 1 where
  pub platform : Platform
  pub World : Type 0
  pub Reply : Type 0
  pub gpu_controllers : Dict String (GpuController platform World Reply)
  pub save : Config platform → Exec World (Unit {0})
  pub now : World → ℕ

-- A spawned task that waits for the answer to a change. `received` is what its channel holds.
pub record Task (P : Platform) : Type 0 where
  pub channel : ℕ
  pub id : String
  pub previous_config : Gpu P
  pub new_config : Gpu P
  pub received : Option ConfirmCommand

-- `confirm_config_tx` holds the sender's channel. Channels are numbered as they are made.
pub record Handler (E : Env) : Type 0 where
  pub config : Config E.platform
  pub confirm_config_tx : Option ℕ
  pub config_last_saved : ℕ
  pub tasks : List (Task E.platform)
  pub next_channel : ℕ
  pub world : E.World

module _ (E : Env) where
  -- An action of a card or of the system, inside the handler.
  abbrev pub on_world : {A : Type 0} → Exec E.World A → Exec (Handler E) A
  on_world m h = ((m h.world).0, record h { world = (m h.world).1 })

  unfoldable pub find_controller : String → Result (GpuController E.platform E.World E.Reply)
  find_controller id = or_fail "No controller with such id" (get str_eq E.gpu_controllers id)

  unfoldable pub controller_by_id :
      String → Exec (Handler E) (GpuController E.platform E.World E.Reply)
  controller_by_id id = lift (find_controller id)
