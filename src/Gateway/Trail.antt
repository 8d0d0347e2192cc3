-- ===== src/Gateway/Trail.antt =====
-- What requests leave in the audit log and the stores of modules/plugin_system/gateway.py.
use mathlib.Core.List.{append-nil, append_assoc}
use humanoid_agi_plugin_syst.Prelude.{
  String, ◌≡◌, ap, sym, ◌∙◌, refl, [], ◌∷◌, ◌++◌, ◌==◌, inl, inr, Bool-cases, Option-cases, some,
}
use humanoid_agi_plugin_syst.Prelude.Dict
use humanoid_agi_plugin_syst.Prelude.Effects.{
  Keeps, Keeps-bind, Result-cases, keeps_rules, modify, ◌>>=◌,
}
use humanoid_agi_plugin_syst.Audit.{Entry, Log}
use humanoid_agi_plugin_syst.Models.{
  Value, Fields, PluginMetadata, InstalledPlugin, PermissionName, memory_write,
}
use humanoid_agi_plugin_syst.Gateway.Types.{Message, Gateway, Response, Outside}
use humanoid_agi_plugin_syst.Gateway.Requests.{
  log_to, metadata_for, require, read_memory, write_memory, read_config, network_checks,
  network_request, read_plugin_file, write_plugin_file, send_output, publish_event, dispatch,
  response_result, response_entry, audited_response, handle_sandbox_request,
}

-- The log still begins with `base`.
abbrev pub Extends : Log → Gateway → Type 0
Extends base g = (notes : Log) × (g.log ≡ base ++ notes)

module _ {P : Gateway → Type 0} where
  pub metadata_for-Keeps : (name : String) → Keeps P (metadata_for name)
  unfolding metadata_for
  metadata_for-Keeps name = record { at = λ s h. h }

  pub require-Keeps : (m : PluginMetadata) (p : PermissionName) → Keeps P (require m p)
  unfolding require
  require-Keeps m p = search (keeps_rules, metadata_for-Keeps)

  pub read_memory-Keeps : (m : PluginMetadata) (key : String) → Keeps P (read_memory m key)
  unfolding read_memory
  read_memory-Keeps m key = search (keeps_rules, require-Keeps)

  pub config_Keeps :
      (env : Outside) (m : PluginMetadata) (key store_key : String)
      → Keeps P (read_config env m key store_key)
  unfolding read_config
  config_Keeps env m key store_key = elim (Option-cases (env.config_value m.name key)) [
    | inl e ↦ rw e (search (keeps_rules, require-Keeps))
    | inr (v, e) ↦ rw e (search (keeps_rules, require-Keeps))
  ]

  pub network_checks-Keeps :
      (env : Outside) (m : PluginMetadata) (payload : Fields)
      → Keeps P (network_checks env m payload)
  unfolding network_checks
  network_checks-Keeps env m payload =
      search (keeps_rules, require-Keeps, metadata_for-Keeps) depth 16

  pub read_plugin_file-Keeps :
      (env : Outside) (m : PluginMetadata) (path : String) → Keeps P (read_plugin_file env m path)
  unfolding read_plugin_file
  read_plugin_file-Keeps env m path = search (keeps_rules, require-Keeps)

  pub write_plugin_file-Keeps :
      (env : Outside) (m : PluginMetadata) (path content : String)
      → Keeps P (write_plugin_file env m path content)
  unfolding write_plugin_file
  write_plugin_file-Keeps env m path content = search (keeps_rules, require-Keeps)

  pub publish_event-Keeps :
      (env : Outside) (source name : String) (v : Value) → Keeps P (publish_event env source name v)
  unfolding publish_event
  publish_event-Keeps env source name v = search keeps_rules

-- What the requests that change something keep, if each change keeps it.
module _ {P : Gateway → Type 0} (env : Outside)
    (on_log : (e : Entry) (g : Gateway) → P g → P (log_to e g))
    (on_memory : (key : String) (v : Value) (g : Gateway)
      → P g
      → P (record g { memory_store = Dict.put g.memory_store key v }))
    (on_output : (msg : Message) (g : Gateway)
      → P g
      → P (record g { output_store = g.output_store ++ msg ∷ [] })) where
  write_memory-Keeps :
      (m : PluginMetadata) (key : String) (v : Value) → Keeps P (write_memory m key v)
  unfolding write_memory modify
  write_memory-Keeps m key v =
      Keeps-bind (require m memory_write) _ (require-Keeps m memory_write)
        (λ _. record { at = λ g h. on_memory key v g h })

  network_request-Keeps :
      (m : PluginMetadata) (payload : Fields) → Keeps P (network_request env m payload)
  unfolding network_request
  network_request-Keeps m payload = record {
    at = λ g h. elim (Result-cases (network_checks env m payload g).0) [
      | inl (v, e) ↦
          rw (e, network_request) (on_log _ _ ((network_checks-Keeps {P = P} env m payload).at g h))
      | inr (x, e) ↦
          rw (e, network_request) (on_log _ _ ((network_checks-Keeps {P = P} env m payload).at g h))
    ];
  }

  append_output-Keeps :
      (msg : Message)
      → Keeps P (modify (λ g. record g { output_store = g.output_store ++ msg ∷ [] }))
  unfolding modify
  append_output-Keeps msg = record { at = λ g h. on_output msg g h }

  send_output-Keeps : (m : PluginMetadata) (payload : Fields) → Keeps P (send_output env m payload)
  unfolding send_output
  send_output-Keeps m payload = search (keeps_rules, require-Keeps, append_output-Keeps) depth 20

  pub dispatch-Keeps :
      (p : InstalledPlugin) (t : String) (payload : Fields) → Keeps P (dispatch env p t payload)
  unfolding dispatch
  dispatch-Keeps p t payload = elim (Bool-cases (t == "memory.read")) [
    | inl a ↦ rw a (search (keeps_rules, read_memory-Keeps))
    | inr a ↦ elim (Bool-cases (t == "memory.write")) [
      | inl b ↦ rw (a, b) (search (keeps_rules, write_memory-Keeps))
      | inr b ↦ elim (Bool-cases (t == "config.read")) [
        | inl c ↦ rw (a, b, c) (search (keeps_rules, config_Keeps))
        | inr c ↦ elim (Bool-cases (t == "network.outbound")) [
          | inl d ↦ rw (a, b, c, d) (search (keeps_rules, network_request-Keeps))
          | inr d ↦ elim (Bool-cases (t == "fs.read")) [
            | inl e ↦ rw (a, b, c, d, e) (search (keeps_rules, read_plugin_file-Keeps))
            | inr e ↦ elim (Bool-cases (t == "fs.write")) [
              | inl f ↦ rw (a, b, c, d, e, f) (search (keeps_rules, write_plugin_file-Keeps))
              | inr f ↦ elim (Bool-cases (t == "event.publish")) [
                | inl i ↦ rw (a, b, c, d, e, f, i) (search (keeps_rules, publish_event-Keeps))
                | inr i ↦ elim (Bool-cases (t == "output.send")) [
                  | inl j ↦ rw (a, b, c, d, e, f, i, j) (search (keeps_rules, send_output-Keeps))
                  | inr j ↦ rw (a, b, c, d, e, f, i, j) (search keeps_rules)
                ]
              ]
            ]
          ]
        ]
      ]
    ]
  ]

-- The last entry of a request is its own, and says how it ended.
abbrev pub IsRequestEntry : Outside → String → String → Response → Entry → Type 0
IsRequestEntry env plugin t response e =
    (e.event ≡ "plugin.gateway_request")
    × (e.plugin ≡ some plugin)
    × (e.action ≡ t)
    × (e.result ≡ response_result env response)

Extends-log_to : (base : Log) (e : Entry) (g : Gateway) → Extends base g → Extends base (log_to e g)
Extends-log_to base e g (notes, h) =
    (notes ++ e ∷ [], ap (λ l. l ++ e ∷ []) h ∙ append_assoc base notes (e ∷ []))

dispatch-Extends :
    (env : Outside) (base : Log) (name t : String) (payload : Fields)
    → Keeps (Extends base) (metadata_for name >>= λ p. dispatch env p t payload)
dispatch-Extends env base name t payload =
    Keeps-bind _ _ (metadata_for-Keeps name)
      (λ p. dispatch-Keeps env (Extends-log_to base) (λ key v g h. h) (λ msg g h. h) p t payload)

response_logged :
    (env : Outside) (plugin t : String) (response : Response) (g : Gateway) (base notes : Log)
    → g.log ≡ base ++ notes
    → ((audited_response env "plugin.gateway_request" plugin t response g).log
        ≡ base ++ notes ++ response_entry env "plugin.gateway_request" plugin t response g ∷ [])
unfolding audited_response
response_logged env plugin t response g base notes h =
    ap (λ l. l ++ response_entry env "plugin.gateway_request" plugin t response g ∷ []) h

-- Each request, answered or refused, keeps the log as it was and adds its own entry at the end,
-- which names the plugin, the type of the request and how it ended.
pub handle_sandbox_request-logged :
    (env : Outside) (plugin t : String) (payload : Fields) (g : Gateway)
    → (notes : Log) × (e : Entry) × ((handle_sandbox_request env plugin t payload g).1.log
        ≡ g.log ++ notes ++ e ∷ [])
      × IsRequestEntry env plugin t (handle_sandbox_request env plugin t payload g).0 e
unfolding handle_sandbox_request
handle_sandbox_request-logged env plugin t payload g =
    let (notes, h) =
      (dispatch-Extends env g.log plugin t payload).at g ([], sym (append-nil g.log)) in
    (notes, _, response_logged env plugin t _ _ g.log notes h, (refl, refl, refl, refl))
