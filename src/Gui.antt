-- ===== src/Gui.antt =====
-- lact-gui/src/app.rs and its pages: what the widgets hold, and the requests they lead to.
pub mod Toolkit
pub mod Adjustment
pub mod Clocks
pub mod FanCurveFrame
pub mod PmfwFrame
pub mod PowerStatesFrame
pub mod PerformanceFrame
pub mod OcPage
pub mod ThermalsPage
pub mod Apply
pub mod Header
pub mod App
