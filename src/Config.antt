-- ===== src/Config.antt =====
-- modules/plugin_system/config.py: the configuration of a plugin, checked against its schema and
-- filled with defaults, and what the plugin reads of it.
pub mod Schema
pub mod Manager
pub mod Effective
