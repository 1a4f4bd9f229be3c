-- ===== src/Tests/Overdrives.antt =====
-- The examples of system.rs, with the repository's own tests of `detect_initramfs_type`.
use Prim.Native.Nat.{bit_and}
use lact.Prelude.{◌+◌, ◌<◌, ◌≡◌, refl, true, false, none, some, [], ◌∷◌, ◌++◌}
use lact.Prelude.Exec.{ok, is_ok}
use lact.Prelude.Io.{pure, raise, lift, attempt, in_context, ◌>>=◌}
use lact.System.Text.{codes, text_eq, split_whitespace, trim, strip_prefix, parse_hex, format_hex}
use lact.System.Host.{Output, OsRelease, Host, Machine, command}
use lact.System.Initramfs.{
  debian, detect_initramfs_type, check_output, run_command, regenerate_by, regenerate_detected,
  regenerate_initramfs,
}
use lact.System.Overdrive.{
  pp_overdrive_mask, mask_of, conf_of, read_current_mask, ensure_not_toggled, create_conf,
  write_conf, store_toggled, finish_toggle, regenerate, enable_overdrive,
}
use lact.System.Overdrive.Mask.{enable_overdrive_lem}

abbrev succeeds : Output
succeeds = record { success = true; stdout = some ""; stderr = some "" }

abbrev mint : OsRelease
mint = record { id = codes "linuxmint"; id_like = codes "ubuntu debian" }

abbrev host : Host
host = record {
  feature_mask = ok (codes "0xfff7bfff\n");
  os_release = ok mint;
  create = ok tt;
  set_permissions = ok tt;
  write_all = λ text. (ok tt, text);
  remove_file = ok tt;
  output = λ exec args. ok succeeds;
}

abbrev booted : Machine
booted = record { oc_toggled = false; module_conf = none; commands = [] }

detect_initramfs_debian :
    (detect_initramfs_type host (record { id = codes "debian"; id_like = [] }) booted).0
    ≡ ok (some debian)
unfolding detect_initramfs_type split_whitespace text_eq pure
detect_initramfs_debian = refl

detect_initramfs_mint : (detect_initramfs_type host mint booted).0 ≡ ok (some debian)
unfolding detect_initramfs_type split_whitespace text_eq pure
detect_initramfs_mint = refl

reads_mask : read_current_mask host ≡ ok 0xfff7bfff
unfolding read_current_mask mask_of trim strip_prefix parse_hex
reads_mask = refl

enables : is_ok (enable_overdrive host booted).0 ≡ true
unfolding enable_overdrive read_current_mask mask_of trim strip_prefix parse_hex ensure_not_toggled
    create_conf write_conf regenerate regenerate_initramfs detect_initramfs_type split_whitespace
    text_eq regenerate_detected regenerate_by run_command check_output command finish_toggle
    store_toggled pure raise lift attempt in_context ◌>>=◌
enables = refl

enable_overdrive_lem_example :
    (bit_and 0xfff7bfff pp_overdrive_mask ≡ 0)
    × ((enable_overdrive host booted).1.module_conf
        ≡ some (conf_of (0xfff7bfff + pp_overdrive_mask)))
    × (mask_of (codes "0x" ++ (format_hex (0xfff7bfff + pp_overdrive_mask) ++ 10 ∷ []))
        ≡ ok (0xfff7bfff + pp_overdrive_mask))
    × (0 < bit_and (0xfff7bfff + pp_overdrive_mask) pp_overdrive_mask)
enable_overdrive_lem_example =
    enable_overdrive_lem host booted 0xfff7bfff refl reads_mask (λ text p. refl) enables
