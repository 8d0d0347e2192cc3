-- ===== src/Examples/Samples.antt =====
-- A third-party plugin with one tool and the permission memory.read, and a host that has it.
use humanoid_agi_plugin_syst.Prelude.{true, false, none, some, [], ◌∷◌}
use humanoid_agi_plugin_syst.Prelude.Effects.{return}
use humanoid_agi_plugin_syst.Models.{
  null, num, end, field, obj, str, Fields, tool, auto, third_party, PluginMetadata, InstalledPlugin,
  Review, Status,
}
use humanoid_agi_plugin_syst.EventBus.{empty_bus}
use humanoid_agi_plugin_syst.Gateway.{Gateway, Outside, success}
use humanoid_agi_plugin_syst.Gateway.Network.{Url, Address, Network, responded}
use humanoid_agi_plugin_syst.Loader.{Loader, PluginDir, Manifest}
use humanoid_agi_plugin_syst.Loader.Integrity.{StoredFile, file_value}
use humanoid_agi_plugin_syst.Engine.{Engine, World, RuntimeState}

abbrev pub calc : PluginMetadata
calc = record {
  name = "calc";
  version = "1.0.0";
  extensions = record { type = tool; entry = some "main:add"; events = []; name = some "add" } ∷ [];
  permissions = ("memory.read", obj end) ∷ [];
  packages = [];
  runtime = record {
    mode = auto;
    trust = third_party;
    memory_mb = 128;
    timeout_ms = 5000;
    cpu_seconds = 5;
    max_concurrency = 1;
    failure_threshold = 1;
    disable_on_failure_threshold = true;
  };
}

abbrev pub settled : Review
settled = record {
  required = false;
  reason = "";
  added = [];
  removed = [];
  changed = [];
  reviewed = true;
  reviewer = some "ann";
  review_reason = some "ok";
  granted = "memory.read" ∷ [];
  denied = [];
  history = [];
}

abbrev pub with_status : Status → InstalledPlugin
with_status s = record {
  metadata = calc;
  path = "calc";
  package_hash = some "h";
  status = s;
  granted_permissions = ("memory.read", obj end) ∷ [];
  permission_review = settled;
}

abbrev pub manifest_of : Status → Manifest
manifest_of s = record {
  package_hash = some "h";
  status = some s;
  unknown_status = false;
  granted_permissions = ("memory.read", obj end) ∷ [];
  permission_review = some settled;
  signature = none;
}

abbrev pub folder : Status → PluginDir
folder s = record { metadata = some calc; manifest = manifest_of s }

abbrev pub loader_with : Status → Loader
loader_with s = record {
  production_mode = false;
  require_signatures = false;
  disk = ("calc", folder s) ∷ [];
  revoked_versions = return [];
  loaded_plugins = ("calc", calc) ∷ [];
  installed_plugins = ("calc", with_status s) ∷ [];
}

abbrev pub gateway_with : Status → Gateway
gateway_with s = record {
  plugins = ("calc", with_status s) ∷ [];
  active_sandboxes = ("calc", with_status s) ∷ [];
  memory_store = ("key", str "secret") ∷ [];
  config_store = [];
  output_store = [];
  event_bus = empty_bus;
  log = [];
}

-- Every URL is the same page of one host with one open address, and every pattern lets it through.
abbrev pub page : Url
page = record {
  scheme = "https";
  netloc = "h.org";
  has_credentials = false;
  fragment = "";
  hostname = "h.org";
  port = return none;
  path = "/";
  query = "";
}

abbrev pub address : Address
address = record {
  text = "1.2.3.4";
  is_loopback = false;
  is_private = false;
  is_link_local = false;
  is_multicast = false;
  is_reserved = false;
  is_unspecified = false;
}

abbrev pub network : Network
network = record {
  text_of = λ v. elim v [ str s ↦ s | _ ↦ "" ];
  lower = λ s. s;
  upper = λ s. s;
  urlparse = λ s. return page;
  urljoin = λ base s. s;
  fnmatchcase = λ s pattern. true;
  ip_address = λ s. none;
  resolve = λ round host. return (address ∷ []);
  milliseconds = λ v. some 1000;
  body_size = λ v. 0;
  exchange = λ out addresses. responded 200 [] 2 "ok";
}

abbrev pub outside : Outside
outside = record {
  network = network;
  call = λ c event. return null;
  config_value = λ name key. none;
  read_file = λ name path. return null;
  write_file = λ name path content. return tt;
}

abbrev source_file : StoredFile
source_file = record { path = "main.py"; parts = "main.py" ∷ []; sha256 = "h"; size = 7 }

abbrev signed : Fields
signed =
    field "algorithm" (str "Ed25519-SHA256")
      (field "hash" (str "h") (field "signature" (str "s") end))

abbrev recorded : Fields
recorded =
    field "file_integrity"
      (obj (
        field "version" (num 1) (
          field "algorithm" (str "sha256")
            (field "files" (obj (field "main.py" (file_value source_file) end)) end))))
      (field "signature" (obj signed) end)

abbrev pub world : World
world = record {
  outside = outside;
  manifest_in = λ p. recorded;
  files_in = λ p. source_file ∷ [];
  package_lock = λ p. some (return tt);
  dependency_policy = λ p. return tt;
  start_sandbox = λ p. return true;
  backend_enforces = λ m. true;
  execute_with_timeout = λ p action payload g. (return (success null), g);
}

abbrev pub one_permit : RuntimeState
one_permit = record { max_concurrency = 1; permits = 1; consecutive_failures = 0 }

abbrev pub engine_with : Status → Engine
engine_with s = record {
  production_mode = false;
  policy_engine = none;
  loader = loader_with s;
  gateway = gateway_with s;
  sandboxes = ("calc", with_status s) ∷ [];
  listener_callbacks = [];
  next_callback = 0;
  objects = λ i. one_permit;
  next_object = 1;
  runtime_states = ("calc", 0) ∷ [];
  published = [];
  stopping = λ p. return tt;
  stop_calls = [];
}
