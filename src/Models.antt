-- ===== src/Models.antt =====
-- modules/plugin_system/models.py: the values, the enumerations, the plugin's metadata and its
-- record of installation.
mod Values
mod Statuses
mod Permissions
mod Metadata
pub use Values.*
unfoldable pub use Values.{value_eq, items_eq, within}
unfoldable pub use Statuses.{status_value, status_eq, allowed_transitions, allowed}
pub use Statuses.*
pub use Permissions.*
unfoldable pub use Permissions.{
  permission_value, permission_named, permission_level, risk_label, permission_description,
  permission_risk, permission_risks, names, validate_permission_decls,
}
pub use Metadata.*
unfoldable pub use Metadata.{
  extension_valid, runtime_valid, runtime_policy_valid, effective_run_mode, has_permission,
  permission_rule, has_granted_permission, granted_permission_value, tool_entries,
  middleware_entries, memory_provider_entries, event_listener_entries, is_trusted, is_third_party,
}
