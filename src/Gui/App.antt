-- ===== src/Gui/App.antt =====
-- lact-gui/src/app.rs: the messages that the window handles, and the dialog that asks to keep the
-- clocks. Dialogs that only show a text, a file or the graphs are left out.
pub mod Messages
pub mod Dialogs
use lact.Prelude.{ℕ, zero, suc, String, Bool, true, false, Option, none, some, List, [], ◌∷◌, ◌++◌}
use lact.Prelude.Exec.{Error, msg, Result, ok, err}
use lact.Platform.{Platform}
use lact.Schema.{FanStats, PowerStates, ProfilesInfo, ProfileBase}
use lact.Client.{Status}
use lact.Gui.Clocks.{ClocksTable}
use lact.Gui.PerformanceFrame.{PowerProfileModesTable}
use lact.Gui.OcPage.{OcPage, OcStats}
use lact.Gui.ThermalsPage.{ThermalsPage}
use lact.Gui.Header.{Header}

-- What the pages read of `DeviceStats` and of `DeviceInfo`.
pub record DeviceStats (P : Platform) : Type 0 where
  pub oc : OcStats P
  pub fan : FanStats P

pub record DeviceInfo (P : Platform) : Type 0 where
  pub pmfw_family : Bool
  pub vram_clock_ratio : Option P.F64

-- The answers of the daemon, read as what each request returns.
pub record Replies (P : Platform) (Payload : Type 0) : Type 0 where
  pub info : Payload → Result (DeviceInfo P)
  pub stats : Payload → Result (DeviceStats P)
  pub clocks : Payload → Result (Option (ClocksTable P))
  pub modes : Payload → Result PowerProfileModesTable
  pub states : Payload → Result PowerStates
  pub profiles : Payload → Result ProfilesInfo

pub data AppMsg (P : Platform) : Type 0 where
  error : Error → AppMsg P
  reload_data : Bool → AppMsg P
  stats : DeviceStats P → AppMsg P
  apply_changes revert_changes reset_clocks reset_pmfw : AppMsg P
  show_graphs_window dump_vbios debug_snapshot : AppMsg P
  enable_overdrive disable_overdrive reset_config reload_profiles : AppMsg P
  select_profile : Option String → AppMsg P
  create_profile : String → ProfileBase → AppMsg P
  delete_profile : String → AppMsg P
  connection_status : Status → AppMsg P
  ask_confirmation : AppMsg P → AppMsg P

-- The dialog of `ask_settings_confirmation`: its time, whether it was answered, and whether its timer
-- runs.
pub record Dialog : Type 0 where
  pub delay : ℕ
  pub confirmed : Bool
  pub shown : Bool
  pub ticking : Bool

abbrev pub opened : ℕ → Dialog
opened delay = record { delay = delay; confirmed = false; shown = true; ticking = true }

-- `AppModel` with the window's dialogs; `sent` are the messages to itself, the oldest first, and
-- `stats_task` is the card of the loop that polls.
pub record App (P : Platform) (World : Type 0) : Type 0 where
  pub oc_page : OcPage P
  pub thermals_page : ThermalsPage P
  pub header : Header
  pub apply_revealer : Bool
  pub stats_task : Option String
  pub reconnecting : Bool
  pub dialog : Option Dialog
  pub asking : List (AppMsg P)
  pub sent : List (AppMsg P)
  pub daemon : World

-- An action of the window; `none` is a panic.
abbrev pub Act : Type 0 → Type 0 → Type 0
Act S A = S → Option (Result A × S)

module _ {S A B : Type 0} where
  abbrev go_on : Option (Result A × S) → (A → Act S B) → Option (Result B × S)
  go_on none f = none
  go_on (some (err e, app)) f = some (err e, app)
  go_on (some (ok a, app)) f = f a app

  infixl 10 ◌>>=◌ ◌>>◌
  abbrev pub ◌>>=◌ : Act S A → (A → Act S B) → Act S B
  ◌>>=◌ act f app = go_on (act app) f

  abbrev pub ◌>>◌ : Act S A → Act S B → Act S B
  ◌>>◌ act rest app = go_on (act app) (λ _. rest)

module _ {S : Type 0} where
  abbrev pub change : (S → S) → Act S (Unit {0})
  change f app = some (ok tt, f app)

  abbrev pub may_panic : (S → Option S) → Act S (Unit {0})
  may_panic f app = elim (f app) [ none ↦ none | some app' ↦ some (ok tt, app') ]

  -- `match … { Ok(value) => Some(value), Err(_) => None }`
  abbrev optional_answer : {A : Type 0} → Option (Result A × S) → Option (Result (Option A) × S)
  optional_answer none = none
  optional_answer (some (ok a, app)) = some (ok (some a), app)
  optional_answer (some (err e, app)) = some (ok none, app)

  abbrev pub optional : {A : Type 0} → Act S A → Act S (Option A)
  optional act app = optional_answer (act app)

abbrev pub send : {P : Platform} {World : Type 0} → AppMsg P → Act (App P World) (Unit {0})
send message app = some (ok tt, record app { sent = app.sent ++ message ∷ [] })
