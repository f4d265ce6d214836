-- ===== src/Tui.antt =====
-- The terminal interface (src/tui): what its components keep and do, without the layout.
pub mod Mouse
pub mod Marking
pub mod Formatter
pub mod Repeater
pub mod TextEditor
pub mod Viewer
pub mod ProxyTab
pub mod HistoryTab
pub mod DecoderTab
pub mod RepeaterTab
