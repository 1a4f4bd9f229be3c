-- ===== src/Discovery.antt =====
-- The cards that the daemon finds: `load_controllers` and the loop of `Handler::new` in handler.rs,
-- `new_from_path` and `get_id` of gpu_controller/amd.rs, `get_id` of gpu_controller/nvidia.rs.
pub mod Load
pub mod Ids
pub mod Start
use lact.Prelude.{
  ℕ, zero, suc, ◌==◌, Bool, true, false, not, ◌&&◌, ◌||◌, Option, none, some, List, [], ◌∷◌, String,
  append, str_eq, if◌then◌else◌,
}
use lact.Prelude.Exec.{Error, Result, msg, context, ok, err}
use lact.Prelude.Dict.{Dict, insert}
use lact.System.Text.{Text, codes, strip_prefix}

-- `GpuHandle` of the crate `amdgpu_sysfs`, as far as it is read here.
pub record GpuHandle : Type 0 where
  pub driver : String
  pub pci_id : Option (String × String)
  pub pci_subsys_id : Option (String × String)
  pub pci_slot_name : Option String
  pub path : String

pub record PciInfo : Type 0 where
  pub vendor_id : String
  pub vendor : Option String
  pub model_id : String
  pub model : Option String

pub record GpuPciInfo : Type 0 where
  pub device_pci_info : PciInfo
  pub subsystem_pci_info : PciInfo

-- The answer of the PCI database to `get_device_info`.
pub record DeviceNames : Type 0 where
  pub vendor_name : Option String
  pub device_name : Option String
  pub subvendor_name : Option String
  pub subdevice_name : Option String

abbrev pub Database : Type 0
Database = String → String → String → String → DeviceNames

-- A database without vendors, for one that cannot be read.
abbrev pub empty_database : Database
empty_database v m sv sm = record {
  vendor_name = none;
  device_name = none;
  subvendor_name = none;
  subdevice_name = none;
}

-- `nvml.device_by_pci_bus_id`
pub data NvmlDevice : Type 0 where
  found : NvmlDevice
  not_found : NvmlDevice
  failed : Error → NvmlDevice

-- A directory in `/sys/bus/pci/devices`; a name may not be UTF-8.
pub record PciDevice : Type 0 where
  pub file_name : Option String
  pub uevent : Result String

-- What the machine answers while the controllers are loaded once. The directory's entries are
-- given by their names; `Drm` stands for the handles that `get_drm_handle` opens.
pub record Machine (Drm : Type 0) : Type 0 where
  pub drm_sysfs_path : Option String
  pub read_dir : String → Result (List (Result (Option String)))
  pub database : Result Database
  pub nvml : Option (String → NvmlDevice)
  pub new_handle : String → Result GpuHandle
  pub get_drm_handle : GpuHandle → Result Drm
  pub pci_devices : Result (List (Result PciDevice))

pub record AmdGpuController (Drm : Type 0) : Type 0 where
  pub handle : GpuHandle
  pub drm_handle : Option Drm
  pub pci_info : Option GpuPciInfo

pub record NvidiaGpuController : Type 0 where
  pub pci_slot_id : String
  pub pci_info : GpuPciInfo
  pub sysfs_path : String

pub data GpuController (Drm : Type 0) : Type 0 where
  amd : AmdGpuController Drm → GpuController Drm
  nvidia : NvidiaGpuController → GpuController Drm

abbrev pub Controllers : Type 0 → Type 0
Controllers Drm = Dict String (GpuController Drm)

-- With the names only where the subsystem is known too.
abbrev pub device_info :
    Database → Option (String × String) → Option (String × String) → Option PciInfo
device_info db none subsys = none
device_info db (some (v, m)) none =
    some (record { vendor_id = v; vendor = none; model_id = m; model = none })
device_info db (some (v, m)) (some (sv, sm)) =
    let names = db v m sv sm in
    some (record {
      vendor_id = v;
      vendor = names.vendor_name;
      model_id = m;
      model = names.device_name;
    })

abbrev pub subsystem_info :
    Database → Option (String × String) → Option (String × String) → Option PciInfo
subsystem_info db none subsys = none
subsystem_info db (some (v, m)) none = none
subsystem_info db (some (v, m)) (some (sv, sm)) =
    let names = db v m sv sm in
    some (record {
      vendor_id = sv;
      vendor = names.subvendor_name;
      model_id = sm;
      model = names.subdevice_name;
    })

abbrev pub both_infos : Option PciInfo → Option PciInfo → Option GpuPciInfo
both_infos none s = none
both_infos (some d) none = none
both_infos (some d) (some s) = some (record { device_pci_info = d; subsystem_pci_info = s })

-- "{}:{}-{}:{}-{}"
abbrev pub format_id : String → String → String → String → String → String
format_id v m sv sm slot =
    append v
      (append ":" (append m (append "-" (append sv (append ":" (append sm (append "-" slot)))))))

abbrev pub id_of :
    Option (String × String) → Option (String × String) → Option String → Result String
id_of none subsys slot = err (msg "Device has no vendor id")
id_of (some i) none slot = err (msg "Device has no subsys id")
id_of (some i) (some s) none = err (msg "Device has no pci slot")
id_of (some (v, m)) (some (sv, sm)) (some slot) = ok (format_id v m sv sm slot)

abbrev pub nvidia_id : NvidiaGpuController → Result String
nvidia_id c =
    let device = c.pci_info.device_pci_info in
    let subsystem = c.pci_info.subsystem_pci_info in
    ok (
      format_id device.vendor_id device.model_id subsystem.vendor_id subsystem.model_id
        c.pci_slot_id)

abbrev opened : {A : Type 0} → Result A → Option A
opened (ok a) = some a
opened (err e) = none

module _ {Drm : Type 0} where
  abbrev pub amd_id : AmdGpuController Drm → Result String
  amd_id c = id_of c.handle.pci_id c.handle.pci_subsys_id c.handle.pci_slot_name

  abbrev pub drm_of : Machine Drm → GpuHandle → Option Drm
  drm_of M handle =
      if str_eq handle.driver "amdgpu" || str_eq handle.driver "radeon"
      then opened (M.get_drm_handle handle)
      else none

  abbrev pub controller_of : Database → Option Drm → GpuHandle → AmdGpuController Drm
  controller_of db drm h = record {
    handle = h;
    drm_handle = drm;
    pci_info =
        both_infos (device_info db h.pci_id h.pci_subsys_id)
          (subsystem_info db h.pci_id h.pci_subsys_id);
  }

  abbrev pub from_handle : Machine Drm → Database → Result GpuHandle → Result (AmdGpuController Drm)
  from_handle M db (err e) = err (context "failed to initialize gpu handle" e)
  from_handle M db (ok handle) = ok (controller_of db (drm_of M handle) handle)

  unfoldable pub new_from_path : Machine Drm → Database → String → Result (AmdGpuController Drm)
  new_from_path M db sysfs_path = from_handle M db (M.new_handle sysfs_path)
