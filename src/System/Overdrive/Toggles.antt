-- ===== src/System/Overdrive/Toggles.antt =====
-- Toggles of the overdrive one after another.
use lact.Prelude.{
  ℕ, ◌+◌, ◌≤◌, ◌≡◌, refl, Bool, true, false, Option, List, [], ◌∷◌, arith, inl, inr, ◌⊎◌,
}
use lact.Prelude.Exec.{Error, Result, ok, err}
use lact.Prelude.Io.{Ends, Ends-bind, pure, raise, ◌>>=◌}
use lact.System.Text.{Text}
use lact.System.Host.{Host, Machine, Io}
use lact.System.Initramfs.{InitramfsType}
use lact.System.Overdrive.{
  Message, regenerated, not_regenerated, already_toggled, ensure_not_toggled, store_toggled,
  finish_toggle, regenerate, remove_existing, enable_overdrive, disable_overdrive,
}

-- A toggle, on or off, and the machine as it is at that time.
abbrev toggle : Bool × Host → Io Message
toggle (true, host) = enable_overdrive host
toggle (false, host) = disable_overdrive host

abbrev count_regenerated : Result Message → ℕ
count_regenerated (ok (regenerated t)) = 1
count_regenerated (ok (not_regenerated e)) = 0
count_regenerated (err e) = 0

-- How often the initramfs was regenerated by these toggles.
regenerations : List (Bool × Host) → Machine → ℕ
regenerations [] m = 0
regenerations (t ∷ ts) m =
    let rest = regenerations ts (toggle t m).1 in count_regenerated (toggle t m).0 + rest

-- A regeneration leaves the mark.
abbrev IsMarked : Result Message → Machine → Type 0
IsMarked r m = count_regenerated r ≡ 1 → m.oc_toggled ≡ true

Ends-pure_message : (e : Error) → Ends IsMarked (pure (not_regenerated e))
unfolding pure
Ends-pure_message e = record { ending = λ m p. absurd (ground arith) }

Ends-finish : (host : Host) (r : Result InitramfsType) → Ends IsMarked (finish_toggle host r)
unfolding finish_toggle store_toggled pure ◌>>=◌
Ends-finish host (ok t) = record { ending = λ m p. refl }
Ends-finish host (err e) = record { ending = λ m p. absurd (ground arith) }

failed : (e : Error) (m : Machine) → IsMarked (err e) m
failed e m p = absurd (ground arith)

Ends-raise : (e : Error) → Ends IsMarked (raise e)
unfolding raise
Ends-raise e = record { ending = λ m. failed e m }

Ends-regenerate : (host : Host) → Ends IsMarked (regenerate host)
unfolding regenerate
Ends-regenerate host = search (Ends-bind, failed, Ends-finish)

Ends-enable : (host : Host) → Ends IsMarked (enable_overdrive host)
unfolding enable_overdrive
Ends-enable host = search (Ends-bind, failed, Ends-regenerate) depth 20

Ends-existing : (host : Host) (conf : Option Text) → Ends IsMarked (remove_existing host conf)
unfolding remove_existing
Ends-existing host Option.none = Ends-raise _
Ends-existing host (Option.some conf) = search (Ends-bind, failed, Ends-regenerate)

Ends-disable : (host : Host) → Ends IsMarked (disable_overdrive host)
unfolding disable_overdrive
Ends-disable host =
    Ends-bind _ _ failed λ u. record { ending = λ m. (Ends-existing host m.module_conf).ending m }

toggle-IsMarked : (t : Bool × Host) (m : Machine) → IsMarked (toggle t m).0 (toggle t m).1
toggle-IsMarked (true, host) m = (Ends-enable host).ending m
toggle-IsMarked (false, host) m = (Ends-disable host).ending m

-- With the mark set a toggle is refused, and changes nothing.
toggle_refused :
    (t : Bool × Host) (m : Machine) → m.oc_toggled ≡ true → toggle t m ≡ (err already_toggled, m)
unfolding enable_overdrive disable_overdrive ensure_not_toggled ◌>>=◌
toggle_refused (true, host) m e = ground arith
toggle_refused (false, host) m e = ground arith

none_later : (ts : List (Bool × Host)) (m : Machine) → m.oc_toggled ≡ true → regenerations ts m ≡ 0
unfolding regenerations
none_later [] m e = refl
none_later (t ∷ ts) m e = rw (toggle_refused t m e) (omega (arith, none_later ts m e))

count_cases : (r : Result Message) → (count_regenerated r ≡ 1) ⊎ (count_regenerated r ≡ 0)
count_cases (ok (regenerated t)) = inl refl
count_cases (ok (not_regenerated e)) = inr refl
count_cases (err e) = inr refl

-- Of any requests to enable and to disable overdrive that one daemon handles one after the other,
-- whatever its files and commands answer, at most one regenerates the initramfs.
regenerations-le : (ts : List (Bool × Host)) (m : Machine) → regenerations ts m ≤ 1
unfolding regenerations
regenerations-le [] m = omega arith
regenerations-le (t ∷ ts) m = elim (count_cases (toggle t m).0) [
  | inl one ↦ omega (arith, none_later ts (toggle t m).1 (toggle-IsMarked t m one))
  | inr none ↦ omega (arith, regenerations-le ts (toggle t m).1)
]
