-- ===== src/Discovery/Start.antt =====
-- The loop of `Handler::new` in handler.rs: the cards are loaded again where some are missing.
pub mod Complete
pub mod Loop
use lact.Prelude.{
  ℕ, zero, suc, ◌==◌, Bool, true, false, not, ◌||◌, Option, none, some, List, [], ◌∷◌, String,
  str_eq, if◌then◌else◌,
}
use lact.Prelude.Exec.{Result, ok, err}
use lact.System.Text.{Text, codes, strip_prefix}
use lact.Discovery.{Machine, PciDevice, GpuController, Controllers}
use lact.Discovery.Load.{is_prefix, load_controllers}

-- `uevent.replace('\0', "")`
abbrev without_nul : Text → Text
without_nul [] = []
without_nul (c ∷ s) = if c == 0 then without_nul s else c ∷ without_nul s

abbrev contains : Text → Text → Bool
contains p [] = is_prefix p []
contains p (c ∷ s) = is_prefix p (c ∷ s) || contains p s

unfoldable pub is_radeon : String → Bool
unfolding strip_prefix
is_radeon uevent =
    let text = without_nul (codes uevent) in
    contains (codes "amdgpu") text || contains (codes "radeon") text

abbrev same_slot : String → Option String → Bool
same_slot name none = false
same_slot name (some slot) = str_eq slot name

abbrev pub or_else : Bool → Option Bool → Option Bool
or_else b none = none
or_else b (some c) = some (b || c)

abbrev pub retry_attempts : ℕ
retry_attempts = 5

abbrev pub or_missing : Option Bool → Option Bool → Option Bool
or_missing none rest = none
or_missing (some b) rest = or_else b rest

module _ {Drm : Type 0} where
  abbrev pub slot_of : GpuController Drm → Option String
  slot_of (GpuController.amd c) = c.handle.pci_slot_name
  slot_of (GpuController.nvidia c) = some c.pci_slot_id

  unfoldable pub any_in_slot : String → Controllers Drm → Bool
  any_in_slot name [] = false
  any_in_slot name ((id, c) ∷ cs) = same_slot name (slot_of c) || any_in_slot name cs

  -- Whether a card is missing. `none` is a panic, on a name that is not UTF-8.
  abbrev pub is_missing_name : Controllers Drm → Option String → Option Bool
  is_missing_name cs none = none
  is_missing_name cs (some slot_name) = some (not (any_in_slot slot_name cs))

  abbrev pub is_missing_uevent : Controllers Drm → Option String → Result String → Option Bool
  is_missing_uevent cs name (err e) = some false
  is_missing_uevent cs name (ok uevent) =
      if is_radeon uevent then is_missing_name cs name else some false

  abbrev pub is_missing : Controllers Drm → Result PciDevice → Option Bool
  is_missing cs (err e) = some false
  is_missing cs (ok device) = is_missing_uevent cs device.file_name device.uevent

  unfoldable pub any_missing : Controllers Drm → List (Result PciDevice) → Option Bool
  any_missing cs [] = some false
  any_missing cs (device ∷ devices) = or_missing (is_missing cs device) (any_missing cs devices)

  abbrev pub is_empty_map : Controllers Drm → Bool
  is_empty_map [] = true
  is_empty_map (c ∷ cs) = false

  abbrev pub missing_of : Controllers Drm → Result (List (Result PciDevice)) → Option Bool
  missing_of cs (err e) = some false
  missing_of cs (ok devices) = any_missing cs devices

  unfoldable pub should_retry : Machine Drm → Controllers Drm → Option Bool
  should_retry M cs = or_else (is_empty_map cs) (missing_of cs M.pci_devices)

  abbrev pub with_retry : Controllers Drm → Option Bool → Option (Result (Controllers Drm × Bool))
  with_retry cs none = none
  with_retry cs (some b) = some (ok (cs, b))

  abbrev pub after_load :
      (Controllers Drm → Option Bool)
      → Option (Result (Controllers Drm))
      → Option (Result (Controllers Drm × Bool))
  after_load retry none = none
  after_load retry (some (err e)) = some (err e)
  after_load retry (some (ok cs)) = with_retry cs (retry cs)

  -- One turn of the loop: the controllers, and whether to try again.
  unfoldable pub attempt : Machine Drm → Option (Result (Controllers Drm × Bool))
  attempt M = after_load (should_retry M) (load_controllers M)

  -- The end of a turn, where `again` are the turns that are left.
  abbrev pub after_attempt :
      Option (Result (Controllers Drm × Bool))
      → ℕ
      → (Controllers Drm → Option (Result (Controllers Drm × ℕ)))
      → Option (Result (Controllers Drm × ℕ))
  after_attempt none i again = none
  after_attempt (some (err e)) i again = some (err e)
  after_attempt (some (ok (found, false))) i again = some (ok (found, i))
  after_attempt (some (ok (found, true))) i again = again found

  -- With the turns that are left, the turn, and the controllers of the turn before. The number
  -- counts the times that the daemon has slept; `M` is the machine in each turn.
  unfoldable pub load_loop :
      (ℕ → Machine Drm) → ℕ → ℕ → Controllers Drm → Option (Result (Controllers Drm × ℕ))
  load_loop M zero i cs = some (ok (cs, i))
  load_loop M (suc n) i cs = after_attempt (attempt (M i)) i (λ found. load_loop M n (suc i) found)

  -- The controllers that `Handler::new` starts with, and how often it has slept.
  unfoldable pub load_at_start : (ℕ → Machine Drm) → Option (Result (Controllers Drm × ℕ))
  load_at_start M = load_loop M retry_attempts 0 []
