-- ===== src/Discovery/Load.antt =====
-- `load_controllers` of handler.rs. `none` stands for a panic.
use lact.Prelude.{
  ℕ, ◌==◌, Bool, true, false, not, ◌&&◌, ◌||◌, Option, none, some, List, [], ◌∷◌, String, append,
  str_eq, if◌then◌else◌,
}
use lact.Prelude.Exec.{Result, msg, context, ok, err}
use lact.Prelude.Dict.{insert}
use lact.System.Text.{Text, codes, strip_prefix}
use lact.Discovery.{
  Database, empty_database, GpuPciInfo, NvmlDevice, Machine, AmdGpuController, NvidiaGpuController,
  GpuController, Controllers, nvidia_id, amd_id, new_from_path,
}

abbrev contains_code : ℕ → Text → Bool
contains_code c [] = false
contains_code c (d ∷ s) = c == d || contains_code c s

abbrev pub is_prefix : Text → Text → Bool
is_prefix p s = elim (strip_prefix p s) [ none ↦ false | some rest ↦ true ]

-- `name.starts_with("card") && !name.contains('-')`
unfoldable pub is_card : String → Bool
unfolding strip_prefix
is_card name = is_prefix (codes "card") (codes name) && not (contains_code b'-' (codes name))

-- A device that NVML knows must have PCI info.
abbrev pub with_pci_info : Option GpuPciInfo → String → String → Option (Option NvidiaGpuController)
with_pci_info none slot path = none
with_pci_info (some info) slot path =
    some (some (record { pci_slot_id = slot; pci_info = info; sysfs_path = path }))

abbrev pub base_path : Option String → String
base_path none = "/sys/class/drm"
base_path (some custom_path) = custom_path

abbrev pub database_or_empty : Result Database → Database
database_or_empty (ok db) = db
database_or_empty (err e) = empty_database

module _ {Drm : Type 0} where
  abbrev pub on_device :
      NvmlDevice → String → AmdGpuController Drm → Option (Option NvidiaGpuController)
  on_device NvmlDevice.found slot c = with_pci_info c.pci_info slot c.handle.path
  on_device NvmlDevice.not_found slot c = some none
  on_device (NvmlDevice.failed e) slot c = some none

  abbrev pub on_slot :
      Option (String → NvmlDevice)
      → Option String
      → AmdGpuController Drm
      → Option (Option NvidiaGpuController)
  on_slot none slot c = some none
  on_slot (some nvml) none c = some none
  on_slot (some nvml) (some slot) c = on_device (nvml slot) slot c

  abbrev pub insert_nvidia :
      Result String
      → NvidiaGpuController
      → String
      → AmdGpuController Drm
      → Controllers Drm
      → Controllers Drm
  insert_nvidia (ok id) n old c cs = insert str_eq cs id (GpuController.nvidia n)
  insert_nvidia (err e) n old c cs = insert str_eq cs old (GpuController.amd c)

  abbrev pub insert_controller :
      Option (Option NvidiaGpuController)
      → String
      → AmdGpuController Drm
      → Controllers Drm
      → Option (Controllers Drm)
  insert_controller none id c cs = none
  insert_controller (some none) id c cs = some (insert str_eq cs id (GpuController.amd c))
  insert_controller (some (some n)) id c cs = some (insert_nvidia (nvidia_id n) n id c cs)

  abbrev pub on_id :
      Result String
      → Option (String → NvmlDevice)
      → AmdGpuController Drm
      → Controllers Drm
      → Option (Controllers Drm)
  on_id (err e) nvml c cs = some cs
  on_id (ok id) nvml c cs = insert_controller (on_slot nvml c.handle.pci_slot_name c) id c cs

  abbrev pub on_new :
      Result (AmdGpuController Drm)
      → Option (String → NvmlDevice)
      → Controllers Drm
      → Option (Controllers Drm)
  on_new (err e) nvml cs = some cs
  on_new (ok c) nvml cs = on_id (amd_id c) nvml c cs

  unfoldable pub try_entry :
      Machine Drm → Database → String → String → Controllers Drm → Option (Controllers Drm)
  try_entry M db base_path name cs =
      if is_card name
      then on_new (new_from_path M db (append base_path (append "/" (append name "/device"))))
          M.nvml cs
      else some cs

  unfoldable pub load_entries :
      Machine Drm
      → Database
      → String
      → List (Result (Option String))
      → Controllers Drm
      → Option (Result (Controllers Drm))
  load_entries M db base_path [] cs = some (ok cs)
  load_entries M db base_path (err e ∷ entries) cs = some (err e)
  load_entries M db base_path (ok none ∷ entries) cs = some (err (msg "non-utf path"))
  load_entries M db base_path (ok (some name) ∷ entries) cs =
      elim (try_entry M db base_path name cs) [
        | none ↦ none
        | some more ↦ load_entries M db base_path entries more
      ]

  abbrev pub load_listed :
      Machine Drm
      → String
      → Result (List (Result (Option String)))
      → Option (Result (Controllers Drm))
  load_listed M base (err e) = some (err (context "Failed to read sysfs" e))
  load_listed M base (ok entries) = load_entries M (database_or_empty M.database) base entries []

  unfoldable pub load_controllers : Machine Drm → Option (Result (Controllers Drm))
  load_controllers M = let base = base_path M.drm_sysfs_path in load_listed M base (M.read_dir base)
