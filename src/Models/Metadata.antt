-- ===== src/Models/Metadata.antt =====
-- `ExtensionDecl`, `RuntimeDecl`, `PluginMetadata` and `InstalledPlugin` of
-- modules/plugin_system/models.py. The patterns of names, versions and entry points are not
-- modelled: a name that fails its pattern makes no metadata.
use Prim.Native.Char.{code}
use humanoid_agi_plugin_syst.Prelude.{
  ℕ, String, nat_eq, or_default, Bool, true, false, not, ◌&&◌, ◌||◌, Option, none, some, List, [],
  ◌∷◌, ◌++◌, ltb, leb, ◌==◌, is_empty, contains, any, if◌then◌else◌,
}
use humanoid_agi_plugin_syst.Prelude.Dict
use humanoid_agi_plugin_syst.Prelude.Dict.{Dict}
use humanoid_agi_plugin_syst.Prelude.Text.{char_count, any_code}
use humanoid_agi_plugin_syst.Models.Values.{Value}
use humanoid_agi_plugin_syst.Models.Statuses.{Status}
use humanoid_agi_plugin_syst.Models.Permissions.{PermissionName, permission_value, Decls, names}

pub data ExtensionType : Type 0 where
  tool middleware event_listener memory_provider : ExtensionType

pub data RunMode : Type 0 where
  in_process sub_process auto : RunMode

pub data TrustLevel : Type 0 where
  official trusted third_party : TrustLevel

pub record ExtensionDecl : Type 0 where
  pub type : ExtensionType
  pub entry : Option String
  pub events : List String
  pub name : Option String

-- Times are in milliseconds.
pub record RuntimeDecl : Type 0 where
  pub mode : RunMode
  pub trust : TrustLevel
  pub memory_mb : ℕ
  pub timeout_ms : ℕ
  pub cpu_seconds : ℕ
  pub max_concurrency : ℕ
  pub failure_threshold : ℕ
  pub disable_on_failure_threshold : Bool

pub record PluginMetadata : Type 0 where
  pub name : String
  pub version : String
  pub extensions : List ExtensionDecl
  pub permissions : Decls
  pub packages : List String
  pub runtime : RuntimeDecl

abbrev pub has_text : Option String → Bool
has_text none = false
has_text (some s) = not (s == "")

abbrev between : ℕ → ℕ → ℕ → Bool
between lo hi n = leb lo n && leb n hi

-- A code of the class [a-zA-Z0-9_.:-].
abbrev is_event_code : ℕ → Bool
is_event_code c =
    between b'a' b'z' c
    || between b'A' b'Z' c
    || between b'0' b'9' c
    || nat_eq c b'_'
    || nat_eq c b'.'
    || nat_eq c b':'
    || nat_eq c b'-'

-- The pattern of `validate_events`, of a text without a line break at its end.
unfoldable pub is_event_name : String → Bool
unfolding char_count any_code
is_event_name s = between 1 128 (char_count s) && not (any_code (λ c. not (is_event_code c)) s)

-- `validate_shape`, less the pattern of the entry point, and `validate_events`.
unfoldable pub extension_valid : ExtensionDecl → Bool
unfolding is_event_name
extension_valid e = not (any (λ s. not (is_event_name s)) e.events) && elim e.type [
  | event_listener ↦ not (is_empty e.events) && has_text e.entry
  | tool ↦ has_text e.entry
  | middleware ↦ has_text e.entry
  | memory_provider ↦ has_text e.entry
]

-- The bounds of the fields.
unfoldable pub runtime_valid : RuntimeDecl → Bool
runtime_valid r =
    between 16 2048 r.memory_mb
    && (ltb 0 r.timeout_ms && leb r.timeout_ms 120000)
    && between 1 120 r.cpu_seconds
    && between 1 64 r.max_concurrency
    && between 1 100 r.failure_threshold

-- `validate_runtime_policy`.
unfoldable pub runtime_policy_valid : RuntimeDecl → Bool
runtime_policy_valid r = valid r.trust r.mode
  where
    valid : TrustLevel → RunMode → Bool
    valid third_party in_process = false
    valid _ _ = true

abbrev pub trusted_level : TrustLevel → Bool
trusted_level official = true
trusted_level trusted = true
trusted_level third_party = false

-- `trust in {OFFICIAL, TRUSTED}`.
unfoldable pub is_trusted : PluginMetadata → Bool
is_trusted m = trusted_level m.runtime.trust

unfoldable pub is_third_party : PluginMetadata → Bool
is_third_party m = not (trusted_level m.runtime.trust)

abbrev resolve_mode : RunMode → Bool → RunMode
resolve_mode auto host = if host then in_process else sub_process
resolve_mode in_process host = in_process
resolve_mode sub_process host = sub_process

unfoldable pub effective_run_mode : PluginMetadata → RunMode
effective_run_mode m = resolve_mode m.runtime.mode (trusted_level m.runtime.trust)

abbrev pub is_sub_process : RunMode → Bool
is_sub_process sub_process = true
is_sub_process _ = false

abbrev pub is_in_process : RunMode → Bool
is_in_process in_process = true
is_in_process _ = false

abbrev pub requested_permissions : PluginMetadata → List String
requested_permissions m = names m.permissions

unfoldable pub has_permission : PluginMetadata → PermissionName → Bool
unfolding permission_value names
has_permission m p = contains (permission_value p) (requested_permissions m)

-- `permission_value(permission, default)`: the first declaration of the key.
unfoldable pub permission_rule : PluginMetadata → PermissionName → Value → Value
unfolding permission_value Dict.get
permission_rule m p default = elim (Dict.get m.permissions (permission_value p)) [
  | none ↦ default
  | some v ↦ v
]

unfoldable has_colon : String → Bool
has_colon String.[] = false
has_colon (String.◌∷◌ c s) = nat_eq (code c) b':' || has_colon s

-- `text.rsplit(":", 1)[-1]`.
last_part : String → String
unfolding has_colon
last_part String.[] = String.[]
last_part (String.◌∷◌ c s) =
    let rest = last_part s in
    if has_colon s then rest else if nat_eq (code c) b':' then s else String.◌∷◌ c s

-- `extension.name or extension.entry.rsplit(":", 1)[-1]`.
abbrev entry_name : Option String → String → String
unfolding last_part
entry_name none entry = last_part entry
entry_name (some name) entry = if name == "" then last_part entry else name

abbrev same_type : ExtensionType → ExtensionType → Bool
same_type tool tool = true
same_type middleware middleware = true
same_type event_listener event_listener = true
same_type memory_provider memory_provider = true
same_type _ _ = false

abbrev add_entry : ExtensionType → ExtensionDecl → Dict String → Dict String
unfolding last_part Dict.put
add_entry t e d = elim e.entry [
  | none ↦ d
  | some entry ↦
      if same_type e.type t && not (entry == "")
      then Dict.put d (entry_name e.name entry) entry
      else d
]

-- The loop over the extensions of one type; a later entry of a name replaces an earlier one.
entries_from : ExtensionType → List ExtensionDecl → Dict String → Dict String
unfolding last_part Dict.put
entries_from t [] d = d
entries_from t (e ∷ es) d = entries_from t es (add_entry t e d)

unfoldable pub tool_entries : PluginMetadata → Dict String
unfolding entries_from
tool_entries m = entries_from tool m.extensions []

unfoldable pub middleware_entries : PluginMetadata → Dict String
unfolding entries_from
middleware_entries m = entries_from middleware m.extensions []

unfoldable pub memory_provider_entries : PluginMetadata → Dict String
unfolding entries_from
memory_provider_entries m = entries_from memory_provider m.extensions []

-- `entries.setdefault(event, []).append(entry)` for each event of a listener.
add_events : String → List String → Dict (List String) → Dict (List String)
unfolding Dict.get Dict.put
add_events entry [] d = d
add_events entry (event ∷ events) d =
    add_events entry events (Dict.put d event (or_default (Dict.get d event) [] ++ entry ∷ []))

abbrev add_listener : ExtensionDecl → Dict (List String) → Dict (List String)
unfolding add_events
add_listener e d = elim e.entry [
  | none ↦ d
  | some entry ↦
      if same_type e.type event_listener && not (entry == "")
      then add_events entry e.events d
      else d
]

listeners_from : List ExtensionDecl → Dict (List String) → Dict (List String)
unfolding add_events
listeners_from [] d = d
listeners_from (e ∷ es) d = listeners_from es (add_listener e d)

unfoldable pub event_listener_entries : PluginMetadata → Dict (List String)
unfolding listeners_from
event_listener_entries m = listeners_from m.extensions []

-- One entry of a review's history, less its time.
pub record ReviewEvent : Type 0 where
  pub reviewer : String
  pub reason : String
  pub granted : List String
  pub denied : List String

-- `permission_review`, less the times and the risk labels, which are only shown.
pub record Review : Type 0 where
  pub required : Bool
  pub reason : String
  pub added : List String
  pub removed : List String
  pub changed : List String
  pub reviewed : Bool
  pub reviewer : Option String
  pub review_reason : Option String
  pub granted : List String
  pub denied : List String
  pub history : List ReviewEvent

pub record InstalledPlugin : Type 0 where
  pub metadata : PluginMetadata
  pub path : String
  pub package_hash : Option String
  pub status : Status
  pub granted_permissions : Decls
  pub permission_review : Review

abbrev pub granted_permission_names : InstalledPlugin → List String
granted_permission_names p = names p.granted_permissions

unfoldable pub has_granted_permission : InstalledPlugin → PermissionName → Bool
unfolding permission_value names
has_granted_permission p name = contains (permission_value name) (granted_permission_names p)

unfoldable pub granted_permission_value : InstalledPlugin → PermissionName → Value → Value
unfolding permission_value Dict.get
granted_permission_value p name default =
    elim (Dict.get p.granted_permissions (permission_value name)) [ none ↦ default | some v ↦ v ]
