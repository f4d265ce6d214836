-- ===== src/App.antt =====
-- The application (src/main.cpp, src/app, src/tui/TuiApp.cpp, src/proxy/ProxyServer.cpp): the parts put together.
pub mod Args
pub mod TuiApp
pub mod Updates
pub mod Server
pub mod Run
mod Tests
