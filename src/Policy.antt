-- ===== src/Policy.antt =====
-- modules/plugin_system/policy.py: the organization's policy and what it decides about an install,
-- an enable and a start.
mod Types
mod Engine
pub mod Install
pub mod Access
pub use Types.*
pub use Engine.*
unfoldable pub use Types.{validate_scan_report, decision_value}
unfoldable pub use Engine.{
  scan_decisions, base_metadata_decisions, audit_decisions, install_decisions, enable_decisions,
  start_decisions, evaluate_install, evaluate_enable, evaluate_start, enforce, check_source,
}
