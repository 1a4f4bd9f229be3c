-- ===== src/System/Initramfs.antt =====
-- `detect_initramfs_type`, `run_command` and `regenerate_initramfs` of system.rs.
use lact.Prelude.{
  String, append, Bool, false, Option, none, some, List, [], ◌∷◌, ◌||◌, if◌then◌else◌,
}
use lact.Prelude.Exec.{Error, msg, Result, ok, err, is_ok, with_context, or_fail}
use lact.Prelude.Io.{pure, raise, lift, attempt, in_context, ◌>>=◌, ◌>>◌}
use lact.System.Text.{Text, codes, text_eq, split_whitespace}
use lact.System.Host.{Output, OsRelease, Host, Io, command}

pub data InitramfsType : Type 0 where
  debian mkinitcpio dracut : InitramfsType

abbrev pub contains : List Text → Text → Bool
contains [] t = false
contains (s ∷ ss) t = text_eq s t || contains ss t

module _ (host : Host) where
  -- `Command::new(exec).arg("--version").output().await.is_ok()`
  unfoldable pub is_installed : String → Io Bool
  unfolding command
  is_installed exec = do
    output ← attempt (command host exec ("--version" ∷ []))
    pure (is_ok output)

  abbrev pub if_installed : String → InitramfsType → Io (Option InitramfsType)
  if_installed exec initramfs_type = do
    found ← is_installed exec
    pure (if found then some initramfs_type else none)

  unfoldable pub detect_initramfs_type : OsRelease → Io (Option InitramfsType)
  unfolding is_installed
  detect_initramfs_type os_release =
      let id_like = split_whitespace os_release.id_like in
      if text_eq os_release.id (codes "debian") || contains id_like (codes "debian")
      then pure (some debian)
      else if text_eq os_release.id (codes "arch") || contains id_like (codes "arch")
      then if_installed "mkinitcpio" mkinitcpio
      else if text_eq os_release.id (codes "fedora")
      then if_installed "dracut" dracut
      else pure none

  abbrev pub exited_with_error : String → String → Error
  exited_with_error stdout stderr =
      msg (append "Command exited with error: " (append stdout (append "\n" stderr)))

  unfoldable pub check_output : Output → Result (Unit {0})
  check_output output =
      if output.success then ok tt else elim (or_fail "stdout is not valid UTF-8" output.stdout) [
        | err e ↦ err e
        | ok stdout ↦ elim (or_fail "stderr is not valid UTF-8" output.stderr) [
          | err e ↦ err e
          | ok stderr ↦ err (exited_with_error stdout stderr)
        ]
      ]

  unfoldable pub run_command : String → List String → Io (Unit {0})
  unfolding check_output command
  run_command exec args = do
    output ← in_context "Could not run command" (command host exec args)
    lift (check_output output)

  unfoldable pub regenerate_by : InitramfsType → Io (Unit {0})
  unfolding run_command
  regenerate_by debian = run_command "update-initramfs" ("-u" ∷ [])
  regenerate_by mkinitcpio = run_command "mkinitcpio" ("-P" ∷ [])
  regenerate_by dracut = run_command "dracut" ("--regenerate-all" ∷ "--force" ∷ [])

  unfoldable pub regenerate_detected : Option InitramfsType → Io InitramfsType
  unfolding regenerate_by
  regenerate_detected (some initramfs_type) = do regenerate_by initramfs_type; pure initramfs_type
  regenerate_detected none =
      raise
        (msg "Could not determine initramfs type, manual initramfs regeneration may be required")

  unfoldable pub regenerate_initramfs : Io InitramfsType
  unfolding detect_initramfs_type regenerate_detected
  regenerate_initramfs = do
    os_release ← lift (with_context "Could not detect distro" host.os_release)
    detected ← detect_initramfs_type os_release
    regenerate_detected detected
