-- ===== src/Gateway/Denial.antt =====
-- Requests that modules/plugin_system/gateway.py refuses.
use humanoid_agi_plugin_syst.Prelude.{
  String, ◌≡◌, ◌≢◌, sym, refl, Bool, false, ◌&&◌, Option, none, some, ◌==◌, inl, inr, Bool-cases,
  Option-cases, if◌then◌else◌,
}
use humanoid_agi_plugin_syst.Prelude.Effects.{failure, permission_denied, ◌>>=◌}
use humanoid_agi_plugin_syst.Models.{
  enabled, status_eq, Fields, PermissionName, memory_read, memory_write, config_read,
  network_outbound, fs_read, fs_write, output_send, PluginMetadata, InstalledPlugin, has_permission,
  has_granted_permission,
}
use humanoid_agi_plugin_syst.Gateway.Types.{Gateway, Response, failed, Outside}
use humanoid_agi_plugin_syst.Gateway.Requests.{
  known, metadata_for, require, read_memory, write_memory, read_config, network_checks,
  network_request, read_plugin_file, write_plugin_file, send_output, dispatch, audited_response,
  handle_sandbox_request,
}

-- The permission that each type of request needs.
abbrev pub needed : String → Option PermissionName
needed t =
    if t == "memory.read"
    then some memory_read
    else if t == "memory.write"
    then some memory_write
    else if t == "config.read"
    then some config_read
    else if t == "network.outbound"
    then some network_outbound
    else if t == "fs.read"
    then some fs_read
    else if t == "fs.write"
    then some fs_write
    else if t == "event.publish"
    then none
    else if t == "output.send"
    then some output_send
    else none

-- A known plugin that is enabled and has been granted the permission.
unfoldable pub entitles : Option InstalledPlugin → PermissionName → Bool
entitles none permission = false
entitles (some p) permission = status_eq p.status enabled && has_granted_permission p permission

abbrev pub may : Gateway → String → PermissionName → Bool
may g name permission = entitles (known g name) permission

pub require-denied :
    (g : Gateway) (m : PluginMetadata) (permission : PermissionName)
    → may g m.name permission ≡ false
    → (msg : String) × (require m permission g ≡ (failure permission_denied msg, g))
unfolding require ◌>>=◌ metadata_for entitles
require-denied g m permission h = elim (Option-cases (known g m.name)) [
  | inl e ↦ rw e (_, refl)
  | inr (p, e) ↦ elim (Bool-cases (status_eq p.status enabled)) [
    | inr off ↦ rw (e, off) (_, refl)
    | inl on ↦
        let denied : has_granted_permission p permission ≡ false = rw (e, entitles, on) at h in
        rw (e, on, denied) (_, refl)
  ]
]

abbrev IsFailed : Response → Type 0
IsFailed r = (msg : String) × (r ≡ failed msg)

-- No store of the gateway is other than before.
pub record SameStores (g g' : Gateway) : Type 0 where
  pub memory : g'.memory_store ≡ g.memory_store
  pub output : g'.output_store ≡ g.output_store
  pub config : g'.config_store ≡ g.config_store
  pub plugins : g'.plugins ≡ g.plugins

-- A request that was refused before it did anything, but for notes in the log.
abbrev Refused : Gateway → Outside → InstalledPlugin → String → Fields → Type 0
Refused g env p t payload =
    (msg : String) × ((dispatch env p t payload g).0 ≡ failure permission_denied msg)
    × SameStores g (dispatch env p t payload g).1

same : (g : Gateway) → SameStores g g
same g = record { memory = refl; output = refl; config = refl; plugins = refl }

network_checks-refused :
    (env : Outside) (m : PluginMetadata) (payload : Fields) (g : Gateway)
    → may g m.name network_outbound ≡ false
    → (msg : String) × (network_checks env m payload g ≡ (failure permission_denied msg, g))
unfolding network_checks ◌>>=◌
network_checks-refused env m payload g h = elim (Bool-cases (has_permission m network_outbound)) [
  | inr e ↦ rw e (_, refl)
  | inl e ↦ let (msg, r) = require-denied g m network_outbound h in rw (e, r) (msg, refl)
]

network_request-refused :
    (env : Outside) (m : PluginMetadata) (payload : Fields) (g : Gateway)
    → may g m.name network_outbound ≡ false
    → (msg : String) × ((network_request env m payload g).0 ≡ failure permission_denied msg)
      × SameStores g (network_request env m payload g).1
unfolding network_request
network_request-refused env m payload g h =
    let (msg, r) = network_checks-refused env m payload g h in
    rw (r, network_request)
      (
        msg,
        refl,
        record { memory = rw r refl; output = rw r refl; config = rw r refl; plugins = rw r refl },
      )

none_apart : {A : Type 0} {a : A} → none ≢ some a
none_apart e = cc

refused_for :
    (g : Gateway) (name : String) {p q : PermissionName}
    → some p ≡ some q
    → may g name q ≡ false
    → may g name p ≡ false
refused_for g name e denied = cc

-- What the type of a request needs, and that a request without it is refused.
dispatch-Refused :
    (env : Outside) (p : InstalledPlugin) (t : String) (payload : Fields) (g : Gateway)
    {permission : PermissionName}
    → needed t ≡ some permission
    → may g p.metadata.name permission ≡ false
    → Refused g env p t payload
unfolding dispatch read_memory write_memory read_config read_plugin_file write_plugin_file
    send_output ◌>>=◌
dispatch-Refused env p t payload g h denied = elim (Bool-cases (t == "memory.read")) [
  | inl a ↦
      let (msg, r) =
        require-denied g p.metadata memory_read (refused_for g _ (rw (a) at h) denied) in
      rw (a, r) (msg, refl, same g)
  | inr a ↦ elim (Bool-cases (t == "memory.write")) [
    | inl b ↦
        let (msg, r) =
          require-denied g p.metadata memory_write (refused_for g _ (rw (a, b) at h) denied) in
        rw (a, b, r) (msg, refl, same g)
    | inr b ↦ elim (Bool-cases (t == "config.read")) [
      | inl c ↦
          let (msg, r) =
            require-denied g p.metadata config_read (refused_for g _ (rw (a, b, c) at h) denied) in
          rw (a, b, c, r) (msg, refl, same g)
      | inr c ↦ elim (Bool-cases (t == "network.outbound")) [
        | inl d ↦
            let (msg, r, kept) =
              network_request-refused env p.metadata payload g
                (refused_for g _ (rw (a, b, c, d) at h) denied) in
            rw (a, b, c, d, r) (msg, refl, kept)
        | inr d ↦ elim (Bool-cases (t == "fs.read")) [
          | inl e ↦
              let (msg, r) =
                require-denied g p.metadata fs_read
                  (refused_for g _ (rw (a, b, c, d, e) at h) denied) in
              rw (a, b, c, d, e, r) (msg, refl, same g)
          | inr e ↦ elim (Bool-cases (t == "fs.write")) [
            | inl f ↦
                let (msg, r) =
                  require-denied g p.metadata fs_write
                    (refused_for g _ (rw (a, b, c, d, e, f) at h) denied) in
                rw (a, b, c, d, e, f, r) (msg, refl, same g)
            | inr f ↦ elim (Bool-cases (t == "event.publish")) [
              | inl i ↦ absurd (none_apart (rw (a, b, c, d, e, f, i) at h))
              | inr i ↦ elim (Bool-cases (t == "output.send")) [
                | inl j ↦
                    let (msg, r) =
                      require-denied g p.metadata output_send
                        (refused_for g _ (rw (a, b, c, d, e, f, i, j) at h) denied) in
                    rw (a, b, c, d, e, f, i, j, r) (msg, refl, same g)
                | inr j ↦ absurd (none_apart (rw (a, b, c, d, e, f, i, j) at h))
              ]
            ]
          ]
        ]
      ]
    ]
  ]
]

-- Every plugin of the gateway stands under its own name.
abbrev pub IsNamed : Gateway → Type 0
IsNamed g = (name : String) (p : InstalledPlugin) → known g name ≡ some p → p.metadata.name ≡ name

-- Where plugins stand under their own names, a request of a plugin that is unknown, not enabled, or
-- without the granted permission that the type of the request needs is answered by a failure and
-- changes no store of the gateway.
pub handle_sandbox_request-denied :
    (env : Outside) (plugin t : String) (payload : Fields) (g : Gateway)
    {permission : PermissionName}
    → IsNamed g
    → needed t ≡ some permission
    → may g plugin permission ≡ false
    → IsFailed (handle_sandbox_request env plugin t payload g).0
      × SameStores g (handle_sandbox_request env plugin t payload g).1
unfolding handle_sandbox_request audited_response metadata_for ◌>>=◌
handle_sandbox_request-denied env plugin t payload g {permission} named h denied =
    elim (Option-cases (known g plugin)) [
      | inl e ↦
          rw (e, handle_sandbox_request)
            ((_, refl), record { memory = refl; output = refl; config = refl; plugins = refl })
      | inr (p, e) ↦ elim (Bool-cases (status_eq p.status enabled)) [
        | inr off ↦
            rw (e, off, handle_sandbox_request)
              ((_, refl), record { memory = refl; output = refl; config = refl; plugins = refl })
        | inl on ↦
            let n : p.metadata.name ≡ plugin = named plugin p e in
            let (msg, r, kept) = dispatch-Refused env p t payload g h (rw (sym n) at denied) in
            rw (e, on, r, handle_sandbox_request)
              (
                (_, refl),
                record {
                  memory = kept.memory;
                  output = kept.output;
                  config = kept.config;
                  plugins = kept.plugins;
                },
              )
      ]
    ]
