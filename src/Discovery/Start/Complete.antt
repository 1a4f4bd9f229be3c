-- ===== src/Discovery/Start/Complete.antt =====
-- The controllers that the daemon starts with.
use lact.Prelude.{
  ◌≡◌, refl, ap, ℕ, zero, suc, Bool, true, false, Option, none, some, List, [], ◌∷◌, String,
  if◌then◌else◌, arith, All, ◌⊎◌, inl, inr,
}
use lact.Prelude.Exec.{Error, Result, ok, err}
use lact.Discovery.{Machine, PciDevice, Controllers}
use lact.Discovery.Load.{load_controllers}
use lact.Discovery.Ids.{load_controllers-ids}
use lact.Discovery.Start.{
  is_radeon, any_in_slot, is_missing_name, is_missing_uevent, is_missing, or_else, or_missing,
  any_missing, is_empty_map, missing_of, should_retry,
}

-- The turns from one on.
abbrev pub turns : ℕ → ℕ → List ℕ
turns i zero = []
turns i (suc d) = i ∷ turns (suc i) d

-- A directory entry whose name is UTF-8.
abbrev pub IsNamed : Result PciDevice → Type 0
IsNamed (err e) = Unit
IsNamed (ok device) = (name : String) × (device.file_name ≡ some name)

abbrev pub AreNamed : Result (List (Result PciDevice)) → Type 0
AreNamed (err e) = Unit
AreNamed (ok devices) = All IsNamed devices

or_else-false :
    (b : Bool) (o : Option Bool) → or_else b o ≡ some false → (b ≡ false) × (o ≡ some false)
or_else-false b none p = absurd (ground arith)
or_else-false false (some c) p = (refl, p)
or_else-false true (some c) p = absurd (ground arith)

or_missing-false :
    (o rest : Option Bool) → or_missing o rest ≡ some false → (o ≡ some false) × (rest ≡ some false)
or_missing-false none rest p = absurd (ground arith)
or_missing-false (some b) rest p =
    let (first, others) = or_else-false b rest p in (ap some first, others)

abbrev IsSome : Option Bool → Type 0
IsSome o = (b : Bool) × (o ≡ some b)

IsSome-if : (radeon b : Bool) → IsSome (if radeon then some b else some false)
IsSome-if true b = (b, refl)
IsSome-if false b = (false, refl)

IsSome-else : (b : Bool) (o : Option Bool) → IsSome o → IsSome (or_else b o)
IsSome-else b none (c, p) = absurd (ground arith)
IsSome-else b (some d) (c, p) = (_, refl)

IsSome-or : (o rest : Option Bool) → IsSome o → IsSome rest → IsSome (or_missing o rest)
IsSome-or none rest (c, p) q = absurd (ground arith)
IsSome-or (some b) rest p q = IsSome-else b rest q

module _ {Drm : Type 0} where
  -- A device that names one of the two drivers has its controller.
  abbrev HasSlot : Controllers Drm → Option String → Result String → Type 0
  HasSlot cs name (err e) = Unit
  HasSlot cs name (ok uevent) =
      (is_radeon uevent ≡ false)
      ⊎ ((slot : String) × (name ≡ some slot) × (any_in_slot slot cs ≡ true))

  abbrev HasController : Controllers Drm → Result PciDevice → Type 0
  HasController cs (err e) = Unit
  HasController cs (ok device) = HasSlot cs device.file_name device.uevent

  abbrev AllHave : Controllers Drm → Result (List (Result PciDevice)) → Type 0
  AllHave cs (err e) = Unit
  AllHave cs (ok devices) = All (HasController cs) devices

  -- The controllers of all cards that the machine shows, at least one.
  abbrev pub IsComplete : Machine Drm → Controllers Drm → Type 0
  IsComplete M cs = (is_empty_map cs ≡ false) × AllHave cs M.pci_devices

  HasSlot-named :
      (cs : Controllers Drm) (slot : String) (radeon : Bool)
      → (if radeon then is_missing_name cs (some slot) else some false) ≡ some false
      → (radeon ≡ false) ⊎ ((s : String) × (some slot ≡ some s) × (any_in_slot s cs ≡ true))
  HasSlot-named cs slot false p = inl refl
  HasSlot-named cs slot true p = inr (slot, refl, ground arith)

  HasSlot-lem :
      (cs : Controllers Drm) (name : Option String) (uevent : Result String)
      → is_missing_uevent cs name uevent ≡ some false
      → HasSlot cs name uevent
  HasSlot-lem cs name (err e) p = tt
  HasSlot-lem cs none (ok u) p = inl (ground arith)
  HasSlot-lem cs (some slot) (ok u) p = HasSlot-named cs slot (is_radeon u) p

  HasController-lem :
      (cs : Controllers Drm) (d : Result PciDevice)
      → is_missing cs d ≡ some false
      → HasController cs d
  HasController-lem cs (err e) p = tt
  HasController-lem cs (ok d) p = HasSlot-lem cs d.file_name d.uevent p

  All-HasController :
      (cs : Controllers Drm) (devices : List (Result PciDevice))
      → any_missing cs devices ≡ some false
      → All (HasController cs) devices
  unfolding any_missing
  All-HasController cs [] p = tt
  All-HasController cs (d ∷ devices) p =
      let (first, rest) = or_missing-false (is_missing cs d) (any_missing cs devices) p in
      (HasController-lem cs d first, All-HasController cs devices rest)

  AllHave-lem :
      (cs : Controllers Drm) (listed : Result (List (Result PciDevice)))
      → missing_of cs listed ≡ some false
      → AllHave cs listed
  AllHave-lem cs (err e) p = tt
  AllHave-lem cs (ok devices) p = All-HasController cs devices p

  pub IsComplete-lem :
      (M : Machine Drm) (cs : Controllers Drm) → should_retry M cs ≡ some false → IsComplete M cs
  unfolding should_retry
  IsComplete-lem M cs p =
      let (first, rest) = or_else-false (is_empty_map cs) (missing_of cs M.pci_devices) p in
      (first, AllHave-lem cs M.pci_devices rest)

  -- Where the names are UTF-8, the test for missing cards does not panic.
  IsSome-uevent :
      (cs : Controllers Drm) (name : Option String) (uevent : Result String)
      → (slot : String) × (name ≡ some slot)
      → IsSome (is_missing_uevent cs name uevent)
  IsSome-uevent cs name (err e) named = (false, refl)
  IsSome-uevent cs none (ok u) (slot, p) = absurd (ground arith)
  IsSome-uevent cs (some name) (ok u) named = IsSome-if (is_radeon u) _

  IsSome-missing :
      (cs : Controllers Drm) (d : Result PciDevice) → IsNamed d → IsSome (is_missing cs d)
  IsSome-missing cs (err e) named = (false, refl)
  IsSome-missing cs (ok d) named = IsSome-uevent cs d.file_name d.uevent named

  IsSome-any :
      (cs : Controllers Drm) (devices : List (Result PciDevice))
      → All IsNamed devices
      → IsSome (any_missing cs devices)
  unfolding any_missing
  IsSome-any cs [] named = (false, refl)
  IsSome-any cs (d ∷ devices) (named, rest) =
      IsSome-or (is_missing cs d) (any_missing cs devices) (IsSome-missing cs d named)
        (IsSome-any cs devices rest)

  IsSome-of :
      (cs : Controllers Drm) (listed : Result (List (Result PciDevice)))
      → AreNamed listed
      → IsSome (missing_of cs listed)
  IsSome-of cs (err e) named = (false, refl)
  IsSome-of cs (ok devices) named = IsSome-any cs devices named

  IsSome-retry :
      (M : Machine Drm) (cs : Controllers Drm) → AreNamed M.pci_devices → IsSome (should_retry M cs)
  unfolding should_retry
  IsSome-retry M cs named = IsSome-else (is_empty_map cs) _ (IsSome-of cs M.pci_devices named)

  -- The three ends of a turn.
  abbrev pub Fails : Machine Drm → Error → Type 0
  Fails M e = load_controllers M ≡ some (err e)

  abbrev pub Loads : Machine Drm → Controllers Drm → Type 0
  Loads M cs = load_controllers M ≡ some (ok cs)

  abbrev pub Lacks : Machine Drm → Type 0
  Lacks M = (cs : Controllers Drm) × Loads M cs × (should_retry M cs ≡ some true)

  abbrev pub Turn : Machine Drm → Type 0
  Turn M =
      ((e : Error) × Fails M e)
      ⊎ ((cs : Controllers Drm) × (b : Bool) × Loads M cs × (should_retry M cs ≡ some b))

  Turn-of :
      (M : Machine Drm) (r : Result (Controllers Drm))
      → AreNamed M.pci_devices
      → load_controllers M ≡ some r
      → Turn M
  Turn-of M (err e) named p = inl (e, p)
  Turn-of M (ok cs) named p = let (b, q) = IsSome-retry M cs named in inr (cs, b, p, q)

  pub Turn-lem : (M : Machine Drm) → AreNamed M.pci_devices → Turn M
  Turn-lem M named =
      let (found, without, p, q, same) = load_controllers-ids M in Turn-of M found named p
