-- ===== src/Audit/Chain.antt =====
-- The hash chain of modules/plugin_system/audit.py: `_hash_record`, `AuditLogger.record` and the
-- loop of `verify_audit_log`. A log is the list of its lines.
use humanoid_agi_plugin_syst.Prelude.{
  ℕ, ◌+◌, String, Bool, false, not, Option, none, some, List, [], ◌∷◌, ◌++◌, nat_eq, ◌==◌,
  if◌then◌else◌,
}
use humanoid_agi_plugin_syst.Prelude.Effects.{
  Result, and_then, return, raise, failure, integrity_error, attribute_error,
}
use humanoid_agi_plugin_syst.Prelude.Text.{char_count}
use humanoid_agi_plugin_syst.Audit.Record.{AuditRecord, post_init}
use humanoid_agi_plugin_syst.Models.{Value}

-- A line of the file: white space, text that is no JSON, JSON that is no object, or an object with
-- the keys of a record.
pub data Line : Type 0 where
  blank invalid not_object : Line
  entry : AuditRecord → Line

abbrev hash_text : Option String → String
hash_text none = ""
hash_text (some h) = h

abbrev same_text : Option String → String → Bool
same_text none s = false
same_text (some t) s = t == s

-- `_last_current_hash`, over the lines from the last to the first. JSON that is no object has no
-- method `get`.
unfoldable pub from_last : List Line → Result String
from_last [] = return ""
from_last (blank ∷ ls) = from_last ls
from_last (invalid ∷ ls) = return ""
from_last (not_object ∷ ls) = failure attribute_error "object has no attribute 'get'"
from_last (entry r ∷ ls) = return (hash_text r.current_hash)

abbrev pub reversed : List Line → List Line → List Line
reversed [] out = out
reversed (l ∷ ls) out = reversed ls (l ∷ out)

unfoldable pub last_current_hash : List Line → Result String
unfolding from_last
last_current_hash ls = from_last (reversed ls [])

-- The state of the loop of `verify_audit_log`.
pub record Progress : Type 0 where
  pub previous_hash : String
  pub records : ℕ
  pub hashes : List String

abbrev pub start : Progress
start = record { previous_hash = ""; records = 0; hashes = [] }

-- `digest` is SHA-256 of the canonical JSON of a record, and `text_of` is Python's `str`.
module _ (text_of : Value → String) (digest : AuditRecord → String) where
  unfoldable pub hash_record : AuditRecord → String
  hash_record r = digest (record r { current_hash = none })

  -- The record that `AuditLogger.record` writes: filled in, hashed, and built once more with its
  -- hash by `replace`.
  unfoldable pub sealed : String → AuditRecord → Result AuditRecord
  unfolding post_init hash_record
  sealed previous r =
      and_then (post_init text_of (record r { previous_hash = some previous; current_hash = none }))
        (λ filled. post_init text_of (record filled { current_hash = some (hash_record filled) }))

  -- `AuditLogger.record`: the new lines of the file and the record.
  unfoldable pub record_event : List Line → AuditRecord → Result (List Line × AuditRecord)
  unfolding sealed last_current_hash
  record_event log r = elim (last_current_hash log) [
    | raise e ↦ raise e
    | return previous ↦ and_then (sealed previous r) (λ s. return (log ++ entry s ∷ [], s))
  ]

  abbrev check_record : AuditRecord → String → Progress → Result Progress
  check_record r h p = and_then (post_init text_of r) (λ built.
      if not (h == hash_record built)
      then failure integrity_error "audit log hash mismatch"
      else return
          (record { previous_hash = h; records = p.records + 1; hashes = p.hashes ++ h ∷ [] }))

  unfoldable pub verify_line : Line → Progress → Result Progress
  verify_line blank p = return p
  verify_line invalid p = failure integrity_error "audit log line is not valid JSON"
  verify_line not_object p = failure integrity_error "audit log line must be a JSON object"
  verify_line (entry r) p =
      if not (same_text r.previous_hash p.previous_hash)
      then failure integrity_error "audit log hash chain break"
      else elim r.current_hash [
        | none ↦ failure integrity_error "audit log line is missing current_hash"
        | some h ↦
            if not (nat_eq (char_count h) 64)
            then failure integrity_error "audit log line is missing current_hash"
            else check_record r h p
      ]

  unfoldable pub verify_lines : List Line → Progress → Result Progress
  unfolding verify_line
  verify_lines [] p = return p
  verify_lines (l ∷ ls) p = and_then (verify_line l p) (verify_lines ls)

  unfoldable pub verify_audit_log : List Line → Result Progress
  unfolding verify_lines
  verify_audit_log ls = verify_lines ls start
