-- ===== src/System/Overdrive/Kept.antt =====
-- What running the commands of an initramfs leaves alone.
use lact.Prelude.{◌≡◌, String, List, Bool, Option, none, some}
use lact.Prelude.Io.{Upholds, upholds_rules}
use lact.System.Text.{Text}
use lact.System.Host.{Host, Machine, OsRelease, Output, command}
use lact.System.Initramfs.{
  InitramfsType, debian, mkinitcpio, dracut, is_installed, if_installed, detect_initramfs_type,
  run_command, regenerate_by, regenerate_detected, regenerate_initramfs,
}

module _ (host : Host) (toggled : Bool) (conf : Option Text) where
  abbrev pub Keeps : Machine → Type 0
  Keeps m = (m.oc_toggled ≡ toggled) × (m.module_conf ≡ conf)

  Upholds-command :
      (exec : String) (args : List String) → Upholds {A = Output} Keeps (command host exec args)
  unfolding command
  Upholds-command exec args = record { after = λ m k. k }

  ruleset keeps_rules = (upholds_rules, Upholds-command)

  Upholds-is_installed : (exec : String) → Upholds Keeps (is_installed host exec)
  unfolding is_installed
  Upholds-is_installed exec = search keeps_rules

  Upholds-if_installed :
      (exec : String) (t : InitramfsType) → Upholds Keeps (if_installed host exec t)
  Upholds-if_installed exec t = search (keeps_rules, Upholds-is_installed)

  Upholds-detect : (os : OsRelease) → Upholds Keeps (detect_initramfs_type host os)
  unfolding detect_initramfs_type
  Upholds-detect os = search (keeps_rules, Upholds-if_installed)

  Upholds-run_command :
      (exec : String) (args : List String) → Upholds Keeps (run_command host exec args)
  unfolding run_command
  Upholds-run_command exec args = search keeps_rules

  Upholds-by : (t : InitramfsType) → Upholds Keeps (regenerate_by host t)
  unfolding regenerate_by
  Upholds-by debian = Upholds-run_command _ _
  Upholds-by mkinitcpio = Upholds-run_command _ _
  Upholds-by dracut = Upholds-run_command _ _

  Upholds-detected : (t : Option InitramfsType) → Upholds Keeps (regenerate_detected host t)
  unfolding regenerate_detected
  Upholds-detected none = search keeps_rules
  Upholds-detected (some t) = search (keeps_rules, Upholds-by)

  pub Upholds-regenerate_initramfs : Upholds Keeps (regenerate_initramfs host)
  unfolding regenerate_initramfs
  Upholds-regenerate_initramfs = search (keeps_rules, Upholds-detect, Upholds-detected)
