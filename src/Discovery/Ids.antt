-- ===== src/Discovery/Ids.antt =====
-- The identifiers of the cards that are found do not depend on NVML.
use lact.Prelude.{
  append, ◌≡◌, refl, ap, ◌∙◌, sym, Bool, true, false, Option, none, some, List, [], ◌∷◌, String,
  str_eq, if◌then◌else◌, arith,
}
use lact.Prelude.Exec.{Result, ok, err, msg, context}
use lact.Prelude.Dict.{Dict, keys, insert}
use lact.Discovery.{
  GpuHandle, Database, NvmlDevice, Machine, AmdGpuController, Controllers, controller_of, drm_of,
  from_handle, format_id, amd_id, new_from_path,
}
use lact.Discovery.Load.{
  on_device, insert_controller, on_id, on_new, is_card, try_entry, load_entries, load_listed,
  database_or_empty, base_path, load_controllers,
}

unfoldable add_key : List String → String → List String
add_key [] k = k ∷ []
add_key (j ∷ ks) k = if str_eq j k then j ∷ ks else j ∷ add_key ks k

keys-insert :
    {V : Type 0} (d : Dict String V) (k : String) (v : V)
    → keys (insert str_eq d k v) ≡ add_key (keys d) k
unfolding insert add_key
keys-insert [] k v = refl
keys-insert ((j, w) ∷ d) k v = ground (arith, keys-insert d k v)

abbrev with_id : Result String → List String → List String
with_id (err e) ks = ks
with_id (ok id) ks = add_key ks id

-- A handle from its fields.
abbrev handle_with :
    String
    → String
    → Option (String × String)
    → Option (String × String)
    → Option String
    → GpuHandle
handle_with driver path pci subsys slot = record {
  driver = driver;
  pci_id = pci;
  pci_subsys_id = subsys;
  pci_slot_name = slot;
  path = path;
}

module _ {Drm : Type 0} where
  abbrev with_new : Result (AmdGpuController Drm) → List String → List String
  with_new (err e) ks = ks
  with_new (ok c) ks = with_id (amd_id c) ks

  -- One more card: there is no panic, and its identifier is the one without NVML.
  abbrev Adds : List String → Option (Controllers Drm) → Type 0
  Adds ks r = (cs : Controllers Drm) × (r ≡ some cs) × (keys cs ≡ ks)

  Adds-device :
      (answer : NvmlDevice) (db : Database) (drm : Option Drm) (driver path : String)
      (i s : String × String) (slot : String) (cs : Controllers Drm)
      → let c = controller_of db drm (handle_with driver path (some i) (some s) (some slot)) in
        let id = format_id i.0 i.1 s.0 s.1 slot in
        Adds (add_key (keys cs) id) (insert_controller (on_device answer slot c) id c cs)
  Adds-device NvmlDevice.found db drm driver path (v, m) (sv, sm) slot cs =
      (_, refl, keys-insert cs _ _)
  Adds-device NvmlDevice.not_found db drm driver path (v, m) (sv, sm) slot cs =
      (_, refl, keys-insert cs _ _)
  Adds-device (NvmlDevice.failed e) db drm driver path (v, m) (sv, sm) slot cs =
      (_, refl, keys-insert cs _ _)

  Adds-fields :
      (nvml : Option (String → NvmlDevice)) (db : Database) (drm : Option Drm)
      (driver path : String) (pci subsys : Option (String × String)) (slot : Option String)
      (cs : Controllers Drm)
      → let c = controller_of db drm (handle_with driver path pci subsys slot) in
        Adds (with_id (amd_id c) (keys cs)) (on_id (amd_id c) nvml c cs)
  Adds-fields nvml db drm driver path none s slot cs = (cs, refl, refl)
  Adds-fields nvml db drm driver path (some i) none slot cs = (cs, refl, refl)
  Adds-fields nvml db drm driver path (some i) (some s) none cs = (cs, refl, refl)
  Adds-fields none db drm driver path (some (v, m)) (some (sv, sm)) (some slot) cs =
      (_, refl, keys-insert cs _ _)
  Adds-fields (some nvml) db drm driver path (some i) (some s) (some slot) cs =
      Adds-device (nvml slot) db drm driver path i s slot cs

  Adds-new :
      (M : Machine Drm) (db : Database) (made : Result GpuHandle)
      (nvml : Option (String → NvmlDevice)) (cs : Controllers Drm)
      → Adds (with_new (from_handle M db made) (keys cs)) (on_new (from_handle M db made) nvml cs)
  Adds-new M db (err e) nvml cs = (cs, refl, refl)
  Adds-new M db (ok h) nvml cs =
      Adds-fields nvml db (drm_of M h) h.driver h.path h.pci_id h.pci_subsys_id h.pci_slot_name cs

  -- The same machine, where NVML cannot be initialized.
  abbrev pub without_nvml : Machine Drm → Machine Drm
  without_nvml M = record M { nvml = none }

  abbrev pub ids : Result (Controllers Drm) → Result (List String)
  ids (ok cs) = ok (keys cs)
  ids (err e) = err e

  abbrev with_entry : Machine Drm → Database → String → String → List String → List String
  with_entry M db base name ks =
      if is_card name
      then with_new (new_from_path M db (append base (append "/" (append name "/device")))) ks
      else ks

  Adds-if :
      (is_one : Bool) (M : Machine Drm) (db : Database) (path : String) (cs : Controllers Drm)
      → Adds
          (if is_one then with_new (from_handle M db (M.new_handle path)) (keys cs) else keys cs)
          (if is_one then on_new (from_handle M db (M.new_handle path)) M.nvml cs else some cs)
  Adds-if true M db path cs = Adds-new M db (M.new_handle path) M.nvml cs
  Adds-if false M db path cs = (cs, refl, refl)

  Adds-entry :
      (M : Machine Drm) (db : Database) (base name : String) (cs : Controllers Drm)
      → Adds (with_entry M db base name (keys cs)) (try_entry M db base name cs)
  unfolding try_entry new_from_path
  Adds-entry M db base name cs =
      Adds-if (is_card name) M db (append base (append "/" (append name "/device"))) cs

  unfoldable with_entries :
      Machine Drm
      → Database
      → String
      → List (Result (Option String))
      → List String
      → Result (List String)
  with_entries M db base [] ks = ok ks
  with_entries M db base (err e ∷ entries) ks = err e
  with_entries M db base (ok none ∷ entries) ks = err (msg "non-utf path")
  with_entries M db base (ok (some name) ∷ entries) ks =
      with_entries M db base entries (with_entry M db base name ks)

  abbrev Ends : Result (List String) → Option (Result (Controllers Drm)) → Type 0
  Ends found o = (r : Result (Controllers Drm)) × (o ≡ some r) × (ids r ≡ found)

  Ends-entries :
      (M : Machine Drm) (db : Database) (base : String) (entries : List (Result (Option String)))
      (cs : Controllers Drm)
      → Ends (with_entries M db base entries (keys cs)) (load_entries M db base entries cs)
  unfolding with_entries load_entries
  Ends-entries M db base [] cs = (ok cs, refl, refl)
  Ends-entries M db base (err e ∷ entries) cs = (err e, refl, refl)
  Ends-entries M db base (ok none ∷ entries) cs = (err (msg "non-utf path"), refl, refl)
  Ends-entries M db base (ok (some name) ∷ entries) cs =
      let (more, p, q) = Adds-entry M db base name cs in
      let (r, loaded, same) = Ends-entries M db base entries more in
      (r, rw (p, load_entries) loaded, same ∙ ap (with_entries M db base entries) q)

  abbrev with_listed :
      Machine Drm → String → Result (List (Result (Option String))) → Result (List String)
  with_listed M base (err e) = err (context "Failed to read sysfs" e)
  with_listed M base (ok entries) = with_entries M (database_or_empty M.database) base entries []

  Ends-listed :
      (M : Machine Drm) (base : String) (listed : Result (List (Result (Option String))))
      → Ends (with_listed M base listed) (load_listed M base listed)
  Ends-listed M base (err e) = (_, refl, refl)
  Ends-listed M base (ok entries) = Ends-entries M (database_or_empty M.database) base entries []

  without_nvml-entries :
      (M : Machine Drm) (db : Database) (base : String) (entries : List (Result (Option String)))
      (ks : List String)
      → with_entries (without_nvml M) db base entries ks ≡ with_entries M db base entries ks
  unfolding with_entries new_from_path
  without_nvml-entries M db base [] ks = refl
  without_nvml-entries M db base (err e ∷ entries) ks = refl
  without_nvml-entries M db base (ok none ∷ entries) ks = refl
  without_nvml-entries M db base (ok (some name) ∷ entries) ks =
      without_nvml-entries M db base entries (with_entry M db base name ks)

  without_nvml-listed :
      (M : Machine Drm) (base : String) (listed : Result (List (Result (Option String))))
      → with_listed (without_nvml M) base listed ≡ with_listed M base listed
  without_nvml-listed M base (err e) = refl
  without_nvml-listed M base (ok entries) =
      without_nvml-entries M (database_or_empty M.database) base entries []

-- `load_controllers` never panics, and it finds the same identifiers in the same order, or the same
-- error, as on a machine where NVML cannot be initialized.
pub load_controllers-ids :
    {Drm : Type 0} (M : Machine Drm)
    → (found : Result (Controllers Drm)) × (without : Result (Controllers Drm)) × (load_controllers
          M
        ≡ some found)
      × (load_controllers (without_nvml M) ≡ some without)
      × (ids found ≡ ids without)
unfolding load_controllers
load_controllers-ids M =
    let base = base_path M.drm_sysfs_path in
    let (found, p, q) = Ends-listed M base (M.read_dir base) in
    let (without, p', q') = Ends-listed (without_nvml M) base (M.read_dir base) in
    (found, without, p, p', q ∙ sym (without_nvml-listed M base (M.read_dir base)) ∙ sym q')
