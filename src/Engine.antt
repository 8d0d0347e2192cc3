-- ===== src/Engine.antt =====
-- modules/plugin_system/engine.py: the facade that joins the loader, the gateway and the policy, the
-- sandboxes that run, and the limits and the circuit breaker of each plugin.
mod State
mod Lifecycle
mod Actions
mod Calls
pub mod Stopping
pub mod Starting
pub mod Vetted
pub mod Permits
pub mod Limits
pub mod Breaker
pub use State.*
pub use Lifecycle.*
pub use Actions.*
pub use Calls.*
unfoldable pub use State.{note, announce, stop_sandbox}
unfoldable pub use Calls.{
  find_plugin, checked, run_sandbox, validate_production_start_policy, production_checks,
  start_policy, start_found, start_record, start_plugin,
}
