-- ===== src/Tests/Discoveries.antt =====
-- The examples of the discovery of the cards.
use lact.Prelude.{
  ◌≡◌, refl, ℕ, zero, suc, Option, none, some, List, [], ◌∷◌, String, str_eq, if◌then◌else◌,
}
use lact.Prelude.Exec.{Result, msg, ok, err}
use lact.System.Text.{strip_prefix}
use lact.Discovery.{GpuHandle, NvmlDevice, Machine, Controllers, new_from_path}
use lact.Discovery.Load.{is_card, try_entry, load_entries, load_controllers}
use lact.Discovery.Ids.{ids, without_nvml, load_controllers-ids}
use lact.Discovery.Start.{
  is_radeon, any_in_slot, any_missing, should_retry, attempt, load_loop, load_at_start,
}
use lact.Discovery.Start.Complete.{AreNamed}
use lact.Discovery.Start.Loop.{Starts, load_at_start_lem}
use lact.Prelude.Dict.{insert}

abbrev geforce : GpuHandle
geforce = record {
  driver = "nvidia";
  pci_id = some ("10DE", "2684");
  pci_subsys_id = some ("1043", "889A");
  pci_slot_name = some "0000:01:00.0";
  path = "/sys/class/drm/card0/device";
}

abbrev radeon : GpuHandle
radeon = record {
  driver = "amdgpu";
  pci_id = some ("1002", "73DF");
  pci_subsys_id = some ("1DA2", "E445");
  pci_slot_name = some "0000:0b:00.0";
  path = "/sys/class/drm/card1/device";
}

abbrev handle_at : String → Result GpuHandle
handle_at path =
    if str_eq path "/sys/class/drm/card0/device"
    then ok geforce
    else if str_eq path "/sys/class/drm/card1/device"
    then ok radeon
    else err (msg "no such device")

abbrev listed : List String → List (Result (Option String))
listed [] = []
listed (name ∷ names) = ok (some name) ∷ listed names

abbrev machine : List String → Machine (Unit {0})
machine names = record {
  drm_sysfs_path = none;
  read_dir = λ path. ok (listed names);
  database = err (msg "no database");
  nvml =
      some (λ slot. if str_eq slot "0000:01:00.0" then NvmlDevice.found else NvmlDevice.not_found);
  new_handle = handle_at;
  get_drm_handle = λ handle. ok tt;
  pci_devices =
      ok (ok (record { file_name = some "0000:0b:00.0"; uevent = ok "DRIVER=amdgpu" }) ∷ []);
}

abbrev booted : Machine (Unit {0})
booted = machine ("card0" ∷ "card0-DP-1" ∷ "card1" ∷ "renderD128" ∷ [])

-- The Radeon's entry comes late.
abbrev boot : ℕ → Machine (Unit {0})
boot zero = machine ("card0" ∷ [])
boot (suc n) = booted

abbrev found_ids : Option (Result (Controllers (Unit {0}))) → Option (Result (List String))
found_ids none = none
found_ids (some r) = some (ids r)

load_controllers-booted :
    found_ids (load_controllers booted)
    ≡ some (ok ("10DE:2684-1043:889A-0000:01:00.0" ∷ "1002:73DF-1DA2:E445-0000:0b:00.0" ∷ []))
unfolding load_controllers load_entries try_entry is_card new_from_path insert strip_prefix
load_controllers-booted = refl

load_controllers-ids_example :
    (found : Result (Controllers (Unit {0}))) × (without : Result (Controllers (Unit {0})))
    × (load_controllers booted ≡ some found)
    × (load_controllers (without_nvml booted) ≡ some without)
    × (ids found ≡ ids without)
load_controllers-ids_example = load_controllers-ids booted

abbrev slept : Option (Result (Controllers (Unit {0}) × ℕ)) → Option ℕ
slept none = none
slept (some (err e)) = none
slept (some (ok (cs, k))) = some k

load_at_start-boot : slept (load_at_start boot) ≡ some 1
unfolding load_at_start load_loop attempt should_retry any_missing any_in_slot is_radeon
    load_controllers load_entries try_entry is_card new_from_path insert strip_prefix
load_at_start-boot = refl

boot-AreNamed : (j : ℕ) → AreNamed (boot j).pci_devices
boot-AreNamed zero = (("0000:0b:00.0", refl), tt)
boot-AreNamed (suc n) = (("0000:0b:00.0", refl), tt)

load_at_start_lem_example : Starts boot
load_at_start_lem_example = load_at_start_lem boot boot-AreNamed
