-- ===== src/System/Overdrive.antt =====
-- `info`, `enable_overdrive`, `disable_overdrive` and `read_current_mask` of system.rs.
pub mod Kept
pub mod Mask
pub mod Toggles
use Prim.Native.Nat.{bit_and, bit_or}
use lact.Prelude.{ℕ, ◌^◌, Bool, true, Option, none, some, [], ◌++◌, ltb, ◌==◌, if◌then◌else◌}
use lact.Prelude.Exec.{Error, msg, Result, ok, err, or_fail}
use lact.Prelude.Io.{pure, raise, lift, attempt, in_context, ◌>>=◌, ◌>>◌}
use lact.System.Text.{Text, codes, trim, strip_prefix, parse_hex, format_hex}
use lact.System.Host.{Host, Io}
use lact.System.Initramfs.{InitramfsType, regenerate_initramfs}

-- `PP_OVERDRIVE_MASK`, 0x4000.
abbrev pub pp_overdrive_mask : ℕ
pp_overdrive_mask = 2 ^ 14

abbrev pub already_toggled : Error
already_toggled = msg "Overdrive support was already toggled - please reboot to apply the changes"

-- The answer to the client: the initramfs that was regenerated, or why it was not.
pub data Message : Type 0 where
  regenerated : InitramfsType → Message
  not_regenerated : Error → Message

abbrev pub mask_digits : Option Text → Result ℕ
mask_digits none = err (msg "Invalid ppfeaturemask")
mask_digits (some digits) = or_fail "Invalid ppfeaturemask" (parse_hex digits)

unfoldable pub mask_of : Text → Result ℕ
mask_of contents = mask_digits (strip_prefix (codes "0x") (trim contents))

abbrev pub conf_start : Text
conf_start = codes "options amdgpu ppfeaturemask="

abbrev pub conf_of : ℕ → Text
conf_of mask = conf_start ++ (codes "0x" ++ format_hex mask)

module _ (host : Host) where
  unfoldable pub read_current_mask : Result ℕ
  unfolding mask_of
  read_current_mask = elim host.feature_mask [ err e ↦ err e | ok contents ↦ mask_of contents ]

  -- `amdgpu_overdrive_enabled` of `info`.
  unfoldable pub amdgpu_overdrive_enabled : Option Bool
  unfolding read_current_mask
  amdgpu_overdrive_enabled = elim read_current_mask [
    | ok mask ↦ some (ltb 0 (bit_and mask pp_overdrive_mask))
    | err e ↦ none
  ]

  unfoldable pub ensure_not_toggled : Io (Unit {0})
  ensure_not_toggled m = if m.oc_toggled then (err already_toggled, m) else (ok tt, m)

  unfoldable pub create_conf : Io (Unit {0})
  create_conf m = elim host.create [
    | err e ↦ (err e, m)
    | ok _ ↦ (ok tt, record m { module_conf = some [] })
  ]

  unfoldable pub write_conf : Text → Io (Unit {0})
  write_conf conf m =
      ((host.write_all conf).0, record m { module_conf = some ((host.write_all conf).1) })

  unfoldable pub store_toggled : Io (Unit {0})
  store_toggled m = (ok tt, record m { oc_toggled = true })

  unfoldable pub finish_toggle : Result InitramfsType → Io Message
  unfolding store_toggled
  finish_toggle (ok initramfs_type) = do store_toggled; pure (regenerated initramfs_type)
  finish_toggle (err e) = pure (not_regenerated e)

  -- The end of both toggles. A failure to regenerate is reported, and is no error.
  unfoldable pub regenerate : Io Message
  unfolding regenerate_initramfs finish_toggle
  regenerate = do result ← attempt (regenerate_initramfs host); finish_toggle result

  unfoldable pub enable_overdrive : Io Message
  unfolding ensure_not_toggled read_current_mask create_conf write_conf regenerate
  enable_overdrive = do
    ensure_not_toggled
    current_mask ← lift read_current_mask
    let new_mask = bit_or current_mask pp_overdrive_mask
    if new_mask == current_mask then raise (msg "Overdrive mask already enabled") else pure tt
    in_context "Could not open module conf file" create_conf
    in_context "Could not conf file permissions" (lift host.set_permissions)
    in_context "Could not write config" (write_conf (conf_of new_mask))
    regenerate

  unfoldable pub remove_conf : Io (Unit {0})
  remove_conf m = elim host.remove_file [
    | err e ↦ (err e, m)
    | ok _ ↦ (ok tt, record m { module_conf = none })
  ]

  unfoldable pub remove_existing : Option Text → Io Message
  unfolding remove_conf regenerate
  remove_existing none =
      raise (msg "Overclocking was not enabled through LACT (file does not exist)")
  remove_existing (some conf) = do
    in_context "Could not remove module config file" remove_conf
    regenerate

  unfoldable pub disable_overdrive : Io Message
  unfolding ensure_not_toggled remove_existing
  disable_overdrive = do ensure_not_toggled; λ m. remove_existing m.module_conf m
