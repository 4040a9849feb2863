-- ===== src/Config.antt =====
-- src/config.py: the settings that are parsed or checked when the program starts.
pub mod Hosts
pub mod Routing
pub mod Safety
