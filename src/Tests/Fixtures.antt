-- ===== src/Tests/Fixtures.antt =====
-- A configuration, a daemon with one card that counts its changes, and an AMD card, over `fixed`.
use lact.Prelude.{ℕ, suc, String, Option, none, some, [], ◌∷◌, ◌==◌, if◌then◌else◌}
use lact.Prelude.Exec.{Exec, msg, ok, err}
use lact.Prelude.Dict.{Dict}
use lact.Platform.Fixed.{fixed}
use lact.Config.{Config, Gpu, Profile, default_config, default_gpu}
use lact.Handler.State.{GpuController, Env, Handler, Task}

abbrev pub with_cap : ℕ → Gpu fixed
with_cap limit = record (default_gpu fixed) { power_cap = some limit }

abbrev pub set_cap : ℕ → Gpu fixed → Gpu fixed
set_cap limit gpu = record gpu { power_cap = some limit }

-- The world counts the changes. The card refuses a limit of 0.
abbrev accept_cap : Option ℕ → Exec ℕ (Unit {0})
accept_cap none w = (ok tt, suc w)
accept_cap (some limit) w = if limit == 0 then (err (msg "refused"), w) else (ok tt, suc w)

abbrev pub card : GpuController fixed ℕ ℕ
card = record {
  pci_model = some "Navi 31";
  get_info = λ w. w;
  get_stats = λ gpu w. w;
  get_clocks_info = λ w. ok w;
  get_power_states = λ gpu w. record { core = []; vram = [] };
  get_power_profile_modes = λ w. ok w;
  vbios_dump = λ w. err (msg "no VBIOS");
  apply_config = λ gpu. accept_cap gpu.power_cap;
  reset_pmfw_settings = λ w. suc w;
  cleanup_clocks = λ w. (ok tt, suc w);
}

abbrev pub env : Env
env = record {
  platform = fixed;
  World = ℕ;
  Reply = ℕ;
  gpu_controllers = ("gpu", card) ∷ [];
  save = λ config w. (ok tt, suc w);
  now = λ w. w;
}

abbrev pub saved : Dict String (Gpu fixed)
saved = ("gpu", with_cap 200) ∷ ("other", with_cap 90) ∷ []

abbrev pub config : Config fixed
config = record (default_config fixed) { gpus = saved }

abbrev pub gaming : Profile fixed
gaming = record { gpus = ("gpu", with_cap 300) ∷ [] }

-- With the profiles `gaming`, which is selected, and `quiet`.
abbrev pub with_profiles : Config fixed
with_profiles = record config {
  profiles = ("gaming", gaming) ∷ ("quiet", record { gpus = [] }) ∷ [];
  current_profile = some "gaming";
}

abbrev pub daemon : Config fixed → Handler env
daemon c = record {
  config = c;
  confirm_config_tx = none;
  config_last_saved = 0;
  tasks = [];
  next_channel = 7;
  world = 0;
}

abbrev pub waiting_task : ℕ → Task fixed
waiting_task channel = record {
  channel = channel;
  id = "gpu";
  previous_config = with_cap 200;
  new_config = with_cap 150;
  received = none;
}

-- An older task of channel 3 waits beside the pending one of channel 4.
abbrev pub pending : Handler env
pending = record (daemon config) {
  confirm_config_tx = some 4;
  tasks = waiting_task 3 ∷ waiting_task 4 ∷ [];
}
