-- ===== src/Marketplace.antt =====
-- modules/plugin_system/marketplace.py: registries of plugins, their indices, and installation from
-- them. The file system, the network, and the parsing of URLs, JSON and archives are a parameter.
pub mod Versions
pub mod Entries
pub mod Sources
pub mod Reading
pub mod Distinct
pub mod Newest
pub mod Client
pub mod Install
pub mod Trusted
pub mod Rollback
