-- ===== src/Loader.antt =====
-- modules/plugin_system/loader.py: the plugins on disk and in memory, the review of permissions, the
-- life cycle of a plugin, and its installation.
mod State
mod Review
mod Lifecycle
mod Install
pub mod Reviewed
pub mod Steps
pub mod Safety
pub mod Transitions
pub mod Integrity
pub mod Intact
pub mod Production
pub use State.*
pub use Review.*
pub use Lifecycle.*
pub use Install.*
unfoldable pub use State.{
  default_status, default_granted_permissions, discover_installed, read_installed,
  installed_or_raise, persist_installed, set_installed,
}
unfoldable pub use Review.{
  new_install_permission_review, permission_map, preserve_granted_permissions,
  permission_review_for_upgrade, mark_permission_reviewed, legacy_permission_review,
  normalize_review_text, permission_decls_for_names,
}
unfoldable pub use Lifecycle.{
  grant_found, granted_to, revoke_found, transition_found, finish_revoke, grant_permissions,
  grant_permission_names, transition_status, set_status, enable_plugin, disable_plugin,
  quarantine_plugin, revoke_plugin, revoke_plugin_version, is_plugin_version_revoked,
}
unfoldable pub use Install.{
  validate_signature_policy, install, place_tree, write_install, install_status, install_granted,
  install_review,
}
unfoldable pub use State.{scan}
