-- ===== src/Lib.antt =====
-- Verification of the plugin system in modules/plugin_system.
--
-- A plugin is a signed archive with a manifest plugin.yaml. The loader (loader.py) installs it under
-- the organization's policy (policy.py), keeps its record and its permissions, and moves it through
-- its life cycle. The engine (engine.py) is the facade of the host: it starts the sandboxes of the
-- plugins, runs their tools, memory providers and middlewares within limits, and disables a plugin
-- that fails too often. A plugin reaches the host only by requests to the gateway (gateway.py), which
-- checks what the plugin was granted. Events go through the event bus (event_bus.py). Each of these
-- writes to an audit log whose entries form a chain of hashes (audit.py). The data that they share is
-- in models.py.
--
-- Files:
--   Prelude: tests, lists, dictionaries, text, sets of names, and methods that change an object and
--     may raise (`Exec`), with the rules by which a method keeps a property (`Keeps`).
--   Models: modules/plugin_system/models.py. `allowed_transitions` is ALLOWED_STATUS_TRANSITIONS of
--     loader.py; JSON values are `Value`.
--   Audit: modules/plugin_system/audit.py. A log is the list of its lines; `record_event` is
--     AuditLogger.record and `verify_audit_log` is the function of that name. SHA-256 over canonical
--     JSON and Python's `str` are parameters.
--   Policy: modules/plugin_system/policy.py. An evaluation is a list of decisions and its entries in
--     the log.
--   Loader: modules/plugin_system/loader.py. `Loader` holds the folders on disk with their manifests
--     and the two dictionaries in memory; the operations keep the names of the methods. What an archive
--     holds, and the work on its files, is the parameter `Package`. Integrity is the check of the files
--     of a plugin against its manifest, and Production what is asked of it before it runs in production; the
--     engine calls both. The list of revoked versions is what reading the governance file comes to, which
--     may raise, and a manifest may have a status that is none of the program's, where discovery raises.
--   EventBus: modules/plugin_system/event_bus.py.
--   Gateway: modules/plugin_system/gateway.py. `dispatch` is the body of handle_sandbox_request; files
--     and configuration behind the permission checks are the parameter `Outside`. Network and Target
--     are the rules on outbound requests, over the parameter `Network`: parsing of URLs, patterns, the
--     resolver and the exchange. A look-up of addresses has a number, as two look-ups may differ.
--   Signing: modules/plugin_system/signing.py. Store is the class TrustStore over its file, Packages
--     signs and verifies. Cryptography, base64 and the environment are the parameter `Crypto`; the
--     digest of a file stands for the file.
--   Engine: modules/plugin_system/engine.py. `RuntimeState` objects stand in a store under numbers,
--     since an action that runs holds its object also after the dictionary has another one. What lies
--     in a plugin's folder (its manifest, files, lock and dependencies), its process and its answers are the
--     parameter `World`. What stopping a process comes to is the field `stopping` of the state, since it
--     may raise, and the calls of `stop` are recorded in order.
--   Marketplace: modules/plugin_system/marketplace.py. Versions are the patterns and the order of
--     versions (with the patterns of models.py), Entries the index, Sources the newest entry, references
--     and reading up to a limit, Client what is read of a registry, and Install the installation, which
--     hands the package to the loader. Bytes are lists of numbers; files, responses, JSON, SHA-256 and
--     the metadata of an archive are the parameter `Host`.
--   Config: modules/plugin_system/config.py. Schema checks schemas and values, Manager is the class
--     PluginConfigManager over the three files in a plugin's folder.
--   Examples: samples, and each theorem at one of them.
--
-- Loops are recursion on lists, so there is no fuel, but for the loop that reads a response: it may
-- make as many calls as the limit has bytes and one more, which is enough. Numbers are natural
-- numbers, as Python's do not overflow; times are in seconds or milliseconds.
--
-- Not modelled: identifiers of requests and times of events; texts put together from values in the
-- messages of exceptions and details of entries, of which a fixed part stands for the whole; the risk
-- labels in reviews; the listeners of the life-cycle events that the engine publishes, which are
-- recorded in order instead; the callbacks that hand events to plugins; the paths of files; the
-- times of the trust store's entries; making keys; regular expressions of entry points; the reading
-- and comparing of package locks, and the rules on dependencies. The records
-- that the gateway and the sandboxes share with the loader are copies, which the engine's operations
-- replace. What a plugin reads of its configuration is a parameter of the gateway. The dependencies,
-- the sandboxes' processes, the scanner, the release gate, the command line and the scripts are not
-- modelled.
pub mod Prelude
pub mod Models
pub mod Audit
pub mod Policy
pub mod Loader
pub mod EventBus
pub mod Gateway
pub mod Signing
pub mod Marketplace
pub mod Config
pub mod Engine
pub mod Examples
