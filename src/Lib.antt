-- ===== src/Lib.antt =====
-- LACT, a daemon that applies settings to graphics cards, and its clients (paths from the
-- repository's root).
--
-- The daemon (lact-daemon/src) keeps a configuration with a set of settings per card, in profiles.
-- A client's request edits the settings of one card. The handler has the card's controller apply
-- them, and writes them to the configuration only when the client confirms in time; otherwise it
-- applies the old settings again.
--
-- Schema: lact-schema/src/lib.rs and request.rs, the requests and the data in them.
--
-- Config: lact-daemon/src/config.rs. `gpus` and `set_gpus` are `Config::gpus` and `gpus_mut`, whose
-- mutable reference becomes a getter and a setter. Its maps are association lists (`Prelude.Dict`).
--
-- Curve: lact-daemon/src/server/gpu_controller/fan_control.rs, the fan curve. A `BTreeMap` is the
-- list of its entries in order; a panic is `none`.
--
-- Handler: lact-daemon/src/server/handler.rs. Handler.State has the state, Handler.Edit the pending
-- change (`edit_gpu_config`, `wait_config_confirm`, `confirm_pending_config`), Handler.Settings the
-- requests that edit settings, Handler.Profiles the profiles and the clean-up.
--
-- Server: lact-daemon/src/server.rs, `handle_request` and the loop of `handle_stream`, up to the first
-- line that cannot be read or answered, which ends the connection.
--
-- Amd: lact-daemon/src/server/gpu_controller/amd.rs. Amd.Card is the card as the driver shows it: an
-- oracle that answers each call from all calls before it, and a trace of the calls. Amd.PowerCap,
-- Amd.Clocks, Amd.Fan and Amd.Apply are `apply_config` in the order of its text, Amd.States the power
-- states. Amd.Controller puts the card into the interface that the handler uses (`GpuController`,
-- lact-daemon/src/server/gpu_controller/mod.rs), and so does Nvidia.Controller. Amd.Kept and
-- Amd.KeptFan walk through `configure` once for all facts on its calls.
-- Amd.Stats is the fan's part of `get_stats`.
--
-- Discovery: how `Handler::new` and `load_controllers` in handler.rs find the cards, with
-- `new_from_path` and `get_id` of amd.rs and `get_id` of nvidia.rs. A `Machine` is what the system
-- answers during one turn of the loop that waits for the cards, which has five turns.
--
-- FanTask: the task that amd.rs spawns in `start_curve_fan_control_task`, one tick at a time; a
-- reading is what the tick finds (temperature, clock, whether a write would succeed).
--
-- Nvidia: lact-daemon/src/server/gpu_controller/nvidia.rs. Nvidia.Device is the card as NVML shows it,
-- Nvidia.Settings is `apply_config` and what it calls, Nvidia.Report `get_clocks_info`, Nvidia.States
-- `get_power_states`, Nvidia.Task the fan control task.
--
-- Reload: the watcher of the configuration file (`start_watcher` in lact-daemon/src/config.rs) and the
-- effect of a reload (`listen_config_changes` in lact-daemon/src/lib.rs).
--
-- System: lact-daemon/src/server/system.rs, the switch of the overdrive feature. System.Host is the
-- machine: its option file, the mark of the running daemon, and the commands that were run. A text
-- that is taken apart is the list of its characters' codes (System.Text).
--
-- Client: lact-client/src/lib.rs. A request on a connection and a new connection are parameters
-- (`Network`, for lact-client/src/connection.rs). Client.Resend puts the client and the daemon together.
--
-- Server.Prompt: a daemon whose waiting tasks go on before the next request, as the interface meets it
-- where the daemon is not busy.
--
-- Gui: lact-gui/src/app.rs and its pages (lact-gui/src/app/pages). A widget is what the program reads
-- of it: a value with its limits, whether it is shown, which entry is selected. Gui.Clocks,
-- Gui.PerformanceFrame, Gui.PowerStatesFrame and Gui.OcPage are the overclocking page, Gui.FanCurveFrame,
-- Gui.PmfwFrame and Gui.ThermalsPage the thermals page, Gui.Header is app/header.rs. Gui.Apply is
-- `apply_settings` over the daemon's client (`DaemonCalls`), Gui.App.Messages `handle_msg`, Gui.App.Dialogs
-- the dialog that asks to keep the clocks. What the pages take from the toolkit and from amdgpu_sysfs is
-- in Gui.Toolkit. A panic of a widget is `none`.
--
-- Platform: what the program takes from elsewhere: the floating point numbers with the operations
-- used, the enums and tables of the crate amdgpu_sysfs. Platform.Fixed is an instance to run on.
--
-- Prelude: numbers, lists, maps, and actions that may fail. Tests: the repository's test cases, and
-- the theorems at concrete inputs.
--
-- Code with state takes and returns the state; an error is a value with the state it leaves. The
-- async functions run to their end, where nothing else runs while they wait: between two requests other
-- steps may run, not inside one (two switches of the overdrive at once are not covered, for one).
-- Handler.Edit.Steps alone takes the waits apart: a step relation in which a task wakes and ends in two
-- steps and an edit may store its channel after other steps. `finish_task` is the two steps in one. The
-- tasks that wait for an answer are a list in the state, each with its channel; a oneshot channel is
-- its number, and a task's sender is alive while `confirm_config_tx` holds that number. That a lock is
-- taken already, logging, and the text of `{}` arguments inside messages are left out. Hash maps are
-- visited in the order of the list, which stands for any order.
--
-- The wait for the lowest clock level has no bound in the text, but is under a time-out of 3 s and
-- sleeps 250 ms in each round: `clockdown_rounds` is 12, and the loop ends after them. The client tries
-- to connect for as long as that fails: `make_request` runs on fuel, one for each attempt, and enough
-- of it is any number above the failures that the network has left.
-- The order of the floats is given by laws (`IsMonotone`) where a theorem needs them: how IEEE operations
-- behave on the shares between 0 and 1, the `u8` factors and the `i32` divisors that the code has.
--
-- In the interface, the text of labels, layout, the callbacks that show the button to apply, and the
-- contexts of errors that depend on which half of a call failed are left out.
--
-- Not modelled: reading and writing files, sockets, D-Bus, snapshots, the
-- Vulkan queries, the other information getters, the command line (it prints one answer), and the
-- windows and labels that only show data (graphs, information, statistics): calls of the toolkit.
pub mod Prelude
pub mod Platform
pub mod Curve
pub mod Schema
pub mod Config
pub mod Handler
pub mod Server
pub mod Amd
pub mod FanTask
pub mod Nvidia
pub mod Reload
pub mod System
pub mod Discovery
pub mod Client
pub mod Gui
pub mod Tests
