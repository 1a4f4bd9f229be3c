-- ===== src/System/Host.antt =====
-- What system.rs asks of the machine it runs on, and the state that it changes.
use lact.Prelude.{String, Bool, Option, List, ◌∷◌}
use lact.Prelude.Exec.{Exec, Result}
use lact.System.Text.{Text}

-- `std::process::Output`; `none` stands for bytes that are not UTF-8.
pub record Output : Type 0 where
  pub success : Bool
  pub stdout : Option String
  pub stderr : Option String

-- `OsRelease` of the crate `os_release`.
pub record OsRelease : Type 0 where
  pub id : Text
  pub id_like : Text

-- The files by their paths PP_FEATURE_MASK_PATH and MODULE_CONF_PATH. `write_all` also says what a
-- write leaves in the file, where it may fail half way.
pub record Host : Type 0 where
  pub feature_mask : Result Text
  pub os_release : Result OsRelease
  pub create : Result (Unit {0})
  pub set_permissions : Result (Unit {0})
  pub write_all : Text → Result (Unit {0}) × Text
  pub remove_file : Result (Unit {0})
  pub output : String → List String → Result Output

-- `OC_TOGGLED`, the file at MODULE_CONF_PATH, and the commands that were run, the newest first.
pub record Machine : Type 0 where
  pub oc_toggled : Bool
  pub module_conf : Option Text
  pub commands : List (String × List String)

abbrev pub Io : Type 0 → Type 0
Io A = Exec Machine A

unfoldable pub command : Host → String → List String → Io Output
command host exec args m =
    (host.output exec args, record m { commands = (exec, args) ∷ m.commands })
