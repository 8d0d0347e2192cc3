-- ===== src/Examples/Web.antt =====
-- The theorems on the network requests of modules/plugin_system/gateway.py at one request that is
-- answered.
use humanoid_agi_plugin_syst.Prelude.{String, ◌≤◌, refl, List, [], ◌∷◌, length, All}
use humanoid_agi_plugin_syst.Prelude.Dict
use humanoid_agi_plugin_syst.Prelude.Effects.{◌>>=◌}
use humanoid_agi_plugin_syst.Prelude.Text.{
  strip, strip_end, char_count, has_char, any_code, utf8_size,
}
use humanoid_agi_plugin_syst.Models.{
  str, Fields, end, field, enabled, PluginMetadata, InstalledPlugin, status_eq, has_permission,
  has_granted_permission, permission_rule, granted_permission_value,
}
use humanoid_agi_plugin_syst.Gateway.{
  Gateway, known, network_request, network_checks, require, metadata_for,
}
use humanoid_agi_plugin_syst.Gateway.Target.{outgoing_of, send, safe_response_headers, headers_from}
use humanoid_agi_plugin_syst.Gateway.Headers.{headers_size, IsOneLine, safe_response_headers-bounds}
use humanoid_agi_plugin_syst.Gateway.Whitelist.{Answered, network_request-Answered}
use humanoid_agi_plugin_syst.Examples.Samples.{calc, with_status, gateway_with, outside}

abbrev web : PluginMetadata
web = record calc { permissions = ("network.outbound", str "h.org") ∷ [] }

abbrev web_plugin : InstalledPlugin
web_plugin = record (with_status enabled) {
  metadata = web;
  granted_permissions = ("network.outbound", str "h.org") ∷ [];
}

abbrev web_gateway : Gateway
web_gateway = record (gateway_with enabled) {
  plugins = ("calc", web_plugin) ∷ [];
  active_sandboxes = ("calc", web_plugin) ∷ [];
}

abbrev get_page : Fields
get_page = field "url" (str "https://h.org/") end

network_request-Answered_example : Answered outside web get_page web_gateway
unfolding network_request network_checks require metadata_for send outgoing_of known Dict.get
    status_eq has_permission has_granted_permission ◌>>=◌ strip char_count any_code strip_end
    has_char permission_rule granted_permission_value
network_request-Answered_example = network_request-Answered outside web get_page web_gateway _ refl

abbrev headers : List (String × String)
headers = ("Server", "x") ∷ []

safe_response_headers-bounds_example :
    (length headers ≤ 100) × (headers_size headers ≤ 32768) × All IsOneLine headers
unfolding safe_response_headers headers_from utf8_size has_char
safe_response_headers-bounds_example = safe_response_headers-bounds headers _ refl
