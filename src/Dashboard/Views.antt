-- ===== src/Dashboard/Views.antt =====
-- What frontend/src/App.jsx renders from its state: the texts, the state-dependent classes and the
-- actions of each panel, as records. Layout, icons and the classes that never change are left out.
-- `none` is a TypeError or RangeError while rendering. What a click does is a `Click`.
pub mod Locale
pub mod Alerts
pub mod Drawer
pub mod Paths
pub mod Attackers
pub mod Panels
pub mod Frame
pub mod Cards
pub mod Controls
pub mod Echo
pub mod Parts
pub mod Tabs
pub mod Page
