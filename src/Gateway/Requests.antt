-- ===== src/Gateway/Requests.antt =====
-- The operations of `PluginGateway` in modules/plugin_system/gateway.py.
use Prim.Native.String.{◌++◌ as append}
use humanoid_agi_plugin_syst.Prelude.{
  String, Bool, true, not, ◌||◌, Option, none, some, List, [], ◌∷◌, ◌++◌, ltb, ◌==◌, if◌then◌else◌,
}
use humanoid_agi_plugin_syst.Prelude.Dict
use humanoid_agi_plugin_syst.Prelude.Dict.{Dict}
use humanoid_agi_plugin_syst.Prelude.Effects.{
  Exec, Result, return, raise, failure, permission_denied, ◌>>=◌, ◌>>◌, pure, lift, gets, modify,
  raise_if,
}
use humanoid_agi_plugin_syst.Prelude.Text.{char_count, has_char}
use humanoid_agi_plugin_syst.Audit.{Entry}
use humanoid_agi_plugin_syst.EventBus.{publish}
use humanoid_agi_plugin_syst.Models.{
  Value, null, bool, str, arr, obj, Items, nil, cons, Fields, end, field, field?, truthy, enabled,
  status_eq, PermissionName, memory_read, memory_write, config_read, network_outbound, fs_read,
  fs_write, output_send, PluginMetadata, InstalledPlugin, has_permission, has_granted_permission,
}
use humanoid_agi_plugin_syst.Gateway.Target.{trimmed_url, upper_method, outgoing_of, send}
use humanoid_agi_plugin_syst.Gateway.Types.{Message, Gateway, Response, success, failed, Outside}

unfoldable pub register_plugin : InstalledPlugin → Gateway → Gateway
register_plugin p g = record g { plugins = Dict.put g.plugins p.metadata.name p }

unfoldable pub register_sandbox : InstalledPlugin → Gateway → Gateway
unfolding register_plugin
register_sandbox p g =
    register_plugin p
      (record g { active_sandboxes = Dict.put g.active_sandboxes p.metadata.name p })

unfoldable pub unregister_sandbox : String → Gateway → Gateway
unregister_sandbox name g = record g { active_sandboxes = Dict.pop g.active_sandboxes name }

-- The record of a plugin: the registered one, or else that of its sandbox.
unfoldable pub known : Gateway → String → Option InstalledPlugin
known g name = elim (Dict.get g.plugins name) [
  | some p ↦ some p
  | none ↦ Dict.get g.active_sandboxes name
]

abbrev enabled_or_raise : Option InstalledPlugin → Result InstalledPlugin
enabled_or_raise none = failure permission_denied "unknown plugin"
enabled_or_raise (some p) =
    if status_eq p.status enabled
    then return p
    else failure permission_denied "plugin is not enabled"

unfoldable pub metadata_for : String → Exec Gateway InstalledPlugin
metadata_for name g = (enabled_or_raise (known g name), g)

-- `_require`.
unfoldable pub require : PluginMetadata → PermissionName → Exec Gateway (Unit {0})
require m permission = do
  p ← metadata_for m.name
  raise_if (not (has_granted_permission p permission)) permission_denied "permission is not granted"

value_or_null : Option Value → Value
value_or_null none = null
value_or_null (some v) = v

unfoldable pub read_memory : PluginMetadata → String → Exec Gateway Value
unfolding value_or_null
read_memory m key = do
  require m memory_read
  gets (λ g. value_or_null (Dict.get g.memory_store key))

unfoldable pub write_memory : PluginMetadata → String → Value → Exec Gateway (Unit {0})
write_memory m key v = do
  require m memory_write
  modify (λ g. record g { memory_store = Dict.put g.memory_store key v })

abbrev pub log_to : Entry → Gateway → Gateway
log_to e g = record g { log = g.log ++ e ∷ [] }

-- `str(payload.get(key, default))`
abbrev text_field : (Value → String) → Fields → String → String → String
text_field text_of payload key default = elim (field? payload key) [
  | none ↦ default
  | some v ↦ text_of v
]

abbrev field_or_null : Fields → String → Value
field_or_null payload key = elim (field? payload key) [ none ↦ null | some v ↦ v ]

-- `str(payload.get(key) or default)`
abbrev text_or : (Value → String) → Fields → String → String → String
text_or text_of payload key default = elim (field? payload key) [
  | none ↦ default
  | some v ↦ if truthy v then text_of v else default
]

module _ (env : Outside) where
  unfoldable pub read_config : PluginMetadata → String → String → Exec Gateway Value
  unfolding value_or_null
  read_config m key store_key = do
    require m config_read
    elim (env.config_value m.name key) [
      | some v ↦ pure v
      | none ↦ gets (λ g. value_or_null (Dict.get g.config_store store_key))
    ]

  -- The addresses of the target are left out of the entry.
  abbrev network_entry : PluginMetadata → Fields → String → String → Entry
  network_entry m payload decision reason = record {
    event = "plugin.network_decision";
    result = if decision == "allow" then "success" else "error";
    plugin = some m.name;
    action = "network.outbound";
    details =
        ("plugin_id", str m.name)
        ∷ ("url", str (trimmed_url env.network payload))
        ∷ ("method", str (upper_method env.network payload))
        ∷ ("decision", str decision)
        ∷ ("reason", str reason)
        ∷ [];
  }

  unfoldable pub network_checks : PluginMetadata → Fields → Exec Gateway Value
  network_checks m payload = do
    raise_if (not (has_permission m network_outbound)) permission_denied
        "permission is not declared"
    require m network_outbound
    out ← lift (outgoing_of env.network payload)
    p ← metadata_for m.name
    lift (send env.network m p out)

  -- A decision is written to the log whether the request is let through or not.
  unfoldable pub network_request : PluginMetadata → Fields → Exec Gateway Value
  network_request m payload g =
      let (r, g') = network_checks m payload g in
      elim r [
        | return v ↦ (return v, log_to (network_entry m payload "allow" "allowed") g')
        | raise e ↦ (raise e, log_to (network_entry m payload "deny" e.message) g')
      ]

  unfoldable pub read_plugin_file : PluginMetadata → String → Exec Gateway Value
  read_plugin_file m path = do require m fs_read; lift (env.read_file m.name path)

  unfoldable pub write_plugin_file : PluginMetadata → String → String → Exec Gateway (Unit {0})
  write_plugin_file m path content = do
    require m fs_write
    lift (env.write_file m.name path content)

  abbrev bad_channel : String → Bool
  bad_channel c =
      c == ""
      || ltb 64 (char_count c)
      || has_char b'/' c
      || has_char b'\\' c
      || has_char 10 c
      || has_char 13 c

  abbrev bad_content_type : String → Bool
  bad_content_type t = ltb 128 (char_count t) || has_char 10 t || has_char 13 t

  unfoldable pub message_of : PluginMetadata → Fields → Message
  message_of m payload = record {
    plugin = m.name;
    channel = text_or env.network.text_of payload "channel" "default";
    content = field_or_null payload "content";
    content_type = text_or env.network.text_of payload "content_type" "text/plain";
  }

  unfoldable pub send_output : PluginMetadata → Fields → Exec Gateway Message
  send_output m payload = do
    require m output_send
    raise_if (bad_channel (message_of m payload).channel) permission_denied "invalid output channel"
    raise_if (bad_content_type (message_of m payload).content_type) permission_denied
        "invalid output content type"
    modify (λ g. record g { output_store = g.output_store ++ message_of m payload ∷ [] })
    pure (message_of m payload)

  items : List Value → Items
  items [] = nil
  items (v ∷ vs) = cons v (items vs)

  unfoldable pub publish_event : String → String → Value → Exec Gateway Value
  unfolding items
  publish_event source name v = gets (λ g.
      arr (
        items
          (publish env.call g.event_bus (record { name = name; payload = v; source = source }))))

  abbrev message_value : Message → Value
  message_value msg = obj (
      field "plugin" (str msg.plugin) (
        field "channel" (str msg.channel)
          (field "content" msg.content (field "content_type" (str msg.content_type) end))))

  -- What a request of each type runs, for a plugin that is enabled.
  unfoldable pub dispatch : InstalledPlugin → String → Fields → Exec Gateway Response
  dispatch p request_type payload =
      let m = p.metadata in
      let key = text_field env.network.text_of payload "key" "" in
      let path = text_field env.network.text_of payload "path" "" in
      if request_type == "memory.read"
      then (do v ← read_memory m key; pure (success v))
      else if request_type == "memory.write"
      then (do write_memory m key (field_or_null payload "value"); pure (success (bool true)))
      else if request_type == "config.read"
      then (do v ← read_config m key (append m.name (append "." key)); pure (success v))
      else if request_type == "network.outbound"
      then (do v ← network_request m payload; pure (success v))
      else if request_type == "fs.read"
      then (do v ← read_plugin_file m path; pure (success v))
      else if request_type == "fs.write"
      then (do
        write_plugin_file m path (text_field env.network.text_of payload "content" "")
        pure (success (bool true)))
      else if request_type == "event.publish"
      then (do
        v ←
            publish_event m.name (text_field env.network.text_of payload "event" "")
              (field_or_null payload "data")
        pure (success v))
      else if request_type == "output.send"
      then (do msg ← send_output m payload; pure (success (message_value msg)))
      else pure (failed "unknown gateway request")

  abbrev version_details : Option InstalledPlugin → Dict Value
  version_details none = []
  version_details (some p) = ("version", str p.metadata.version) ∷ []

  abbrev error_details : Response → Dict Value
  error_details (success v) = []
  error_details (failed e) = ("error", str e) ∷ []

  abbrev pub response_result : Response → String
  response_result (success v) = "success"
  response_result (failed e) = "error"

  -- The details of the request itself are left out of the entry.
  abbrev pub response_entry : String → String → String → Response → Gateway → Entry
  response_entry event plugin action response g = record {
    event = event;
    result = response_result response;
    plugin = some plugin;
    action = action;
    details = version_details (known g plugin) ++ error_details response;
  }

  unfoldable pub audited_response : String → String → String → Response → Gateway → Gateway
  audited_response event plugin action response g =
      log_to (response_entry event plugin action response g) g

  abbrev pub response_of : Result Response → Response
  response_of (return r) = r
  response_of (raise e) = failed e.message

  -- Every exception turns into a response, so that a request is always answered.
  unfoldable pub handle_sandbox_request : String → String → Fields → Gateway → Response × Gateway
  handle_sandbox_request plugin request_type payload g =
      let (r, g') = (do p ← metadata_for plugin; dispatch p request_type payload) g in
      let response = response_of r in
      (response, audited_response "plugin.gateway_request" plugin request_type response g')
