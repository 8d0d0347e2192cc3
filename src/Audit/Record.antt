-- ===== src/Audit/Record.antt =====
-- `AuditRecord` with what its `__post_init__` fills in, and the logger as the other modules see it.
use humanoid_agi_plugin_syst.Prelude.{
  String, ◌||◌, Option, none, some, List, [], ◌∷◌, ◌++◌, ◌==◌, or_default, if◌then◌else◌,
}
use humanoid_agi_plugin_syst.Prelude.Dict
use humanoid_agi_plugin_syst.Prelude.Dict.{Dict}
use humanoid_agi_plugin_syst.Prelude.Effects.{Exec, Result, and_then, return, failure, type_error}
use humanoid_agi_plugin_syst.Prelude.Text.{has_char}
use humanoid_agi_plugin_syst.Models.{Value, null, str, arr, obj, truthy}

pub record AuditRecord : Type 0 where
  pub event : String
  pub result : String
  pub request_id : String
  pub plugin : Option String
  pub action : Option String
  pub details : Dict Value
  pub created_at : String
  pub timestamp : Option String
  pub plugin_id : Option String
  pub plugin_version : Option String
  pub resource : Option String
  pub permission : Option String
  pub decision : Option String
  pub reason : Option String
  pub actor : Option String
  pub previous_hash : Option String
  pub current_hash : Option String

-- `details.get(key)`, where a stored null counts as missing.
abbrev pub present : Dict Value → String → Option Value
unfolding Dict.get
present d k = elim (Dict.get d k) [ none ↦ none | some null ↦ none | some v ↦ some v ]

-- A field that is not given takes what is inferred.
abbrev pub otherwise : Option String → Option String → Option String
otherwise none inferred = inferred
otherwise (some s) inferred = some s

-- `str(value)` is Python's, and is a parameter.
module _ (text_of : Value → String) where
  first_of_keys : Dict Value → List String → Option String
  unfolding Dict.get
  first_of_keys d [] = none
  first_of_keys d (k ∷ ks) =
      let rest = first_of_keys d ks in
      elim (present d k) [ none ↦ rest | some v ↦ some (text_of v) ]

  unfoldable pub infer_resource : Dict Value → Option String
  unfolding first_of_keys
  infer_resource d =
      first_of_keys d ("resource" ∷ "url" ∷ "path" ∷ "key" ∷ "channel" ∷ "event" ∷ [])

  unfoldable pub infer_permission : Option String → Dict Value → Option String
  unfolding has_char Dict.get
  infer_permission action d = elim (present d "permission") [
    | some v ↦ some (text_of v)
    | none ↦ elim action [ none ↦ none | some a ↦ if has_char b'.' a then some a else none ]
  ]

  -- A list or an object under `decision` has no hash, so the test of membership raises.
  unfoldable pub infer_decision : String → Dict Value → Result String
  unfolding Dict.get
  infer_decision result d =
      let inferred : String =
        if result == "success" || result == "skipped" then "allow" else "deny" in
      elim (Dict.get d "decision") [
        | some (str t) ↦ return (if t == "allow" || t == "deny" then t else inferred)
        | some (arr vs) ↦ failure type_error "unhashable type: 'list'"
        | some (obj fs) ↦ failure type_error "unhashable type: 'dict'"
        | _ ↦ return inferred
      ]

  unfoldable pub infer_reason : Dict Value → Option String
  unfolding first_of_keys
  infer_reason d = first_of_keys d ("reason" ∷ "error" ∷ "error_type" ∷ [])

  abbrev truthy_text : Option Value → Option String
  truthy_text none = none
  truthy_text (some v) = if truthy v then some (text_of v) else none

  -- `str(details.get("actor") or details.get("reviewer") or "system")`
  abbrev pub infer_actor : Dict Value → String
  unfolding Dict.get
  infer_actor d =
      or_default (truthy_text (Dict.get d "actor"))
        (or_default (truthy_text (Dict.get d "reviewer")) "system")

  unfoldable pub version_text : Option Value → Option String
  version_text none = none
  version_text (some v) = some (text_of v)

  -- The decision that is given, or else the one that is inferred.
  unfoldable pub decision_for : AuditRecord → Result String
  unfolding infer_decision
  decision_for r = elim r.decision [ some d ↦ return d | none ↦ infer_decision r.result r.details ]

  -- The record with this decision and what is inferred of the other fields.
  unfoldable pub filled_in : String → AuditRecord → AuditRecord
  unfolding infer_resource infer_permission infer_reason version_text Dict.get
  filled_in d r = record r {
    timestamp = otherwise r.timestamp (some r.created_at);
    plugin_id = otherwise r.plugin_id r.plugin;
    plugin_version = otherwise r.plugin_version (version_text (present r.details "version"));
    resource = otherwise r.resource (infer_resource r.details);
    permission = otherwise r.permission (infer_permission r.action r.details);
    decision = some d;
    reason = otherwise r.reason (infer_reason r.details);
    actor = otherwise r.actor (some (infer_actor r.details));
  }

  unfoldable pub post_init : AuditRecord → Result AuditRecord
  unfolding decision_for filled_in
  post_init r = and_then (decision_for r) (λ d. return (filled_in d r))

-- What a caller writes to the log, less the request id, which is random.
pub record Entry : Type 0 where
  pub event : String
  pub result : String
  pub plugin : Option String
  pub action : String
  pub details : Dict Value

abbrev pub Log : Type 0
Log = List Entry

-- `audit_logger.record(...)` as the callers see it: one more entry at the end.
unfoldable pub log_entry : Entry → Exec Log (Unit {0})
log_entry e log = (return tt, log ++ e ∷ [])
