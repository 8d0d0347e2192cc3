-- ===== src/Gateway.antt =====
-- modules/plugin_system/gateway.py: the requests that a plugin sends to the host, the permissions
-- that each needs, and their audit. Files of plugins, the plugin's own configuration, and of the
-- network what the rules on targets do not decide are a parameter.
pub mod Network
pub mod Target
mod Types
mod Requests
pub mod Denial
pub mod Trail
pub mod Whitelist
pub mod Headers
pub use Types.*
pub use Requests.*
unfoldable pub use Requests.{known, require, metadata_for, network_checks, network_request}
unfoldable pub use Requests.{register_plugin, unregister_sandbox}
