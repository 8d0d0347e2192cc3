-- ===== src/Audit/Checkpoint.antt =====
-- Checkpoints of modules/plugin_system/audit.py: `create_audit_checkpoint`, `_audit_log_state` and
-- `_verify_against_checkpoint`. The anchor's own signature check is a parameter.
use humanoid_agi_plugin_syst.Prelude.{
  ℕ, zero, suc, String, Bool, false, not, Option, none, some, List, ltb, ◌==◌, get_elem?,
  if◌then◌else◌,
}
use humanoid_agi_plugin_syst.Prelude.Effects.{Result, return, raise, failure, integrity_error}
use humanoid_agi_plugin_syst.Audit.Record.{AuditRecord}
use humanoid_agi_plugin_syst.Audit.Chain.{Line, Progress, verify_audit_log}
use humanoid_agi_plugin_syst.Models.{Value}

pub record AuditCheckpoint : Type 0 where
  pub latest_sequence : ℕ
  pub latest_hash : String
  pub audit_log_path : String

-- An anchor: what `read_latest_checkpoint` gives, and whether `verify_checkpoint` raises.
pub record Anchor : Type 0 where
  pub checkpoint : Option AuditCheckpoint
  pub signature_check : Result (Unit {0})

-- The hash after `n` records; the checkpoint of an empty log holds the empty text.
abbrev pub hash_at : List String → ℕ → Option String
hash_at hashes zero = some ""
hash_at hashes (suc n) = get_elem? hashes n

abbrev agrees : Option String → String → Bool
agrees none h = false
agrees (some g) h = g == h

unfoldable pub against : String → Progress → AuditCheckpoint → Result Progress
against path p c =
    if not (c.audit_log_path == path)
    then failure integrity_error "audit checkpoint references a different audit log"
    else if ltb p.records c.latest_sequence
    then failure integrity_error
        "audit log rollback detected: checkpoint sequence is ahead of audit log"
    else if not (agrees (hash_at p.hashes c.latest_sequence) c.latest_hash)
    then failure integrity_error
        "audit log rollback detected: checkpoint hash does not match log sequence"
    else return p

abbrev checked : String → Progress → Result (Unit {0}) → Option AuditCheckpoint → Result Progress
checked path p (raise e) c = raise e
checked path p (return u) none = return p
checked path p (return u) (some c) = against path p c

unfoldable pub verify_against_checkpoint : String → Progress → Option Anchor → Result Progress
verify_against_checkpoint path p none = return p
verify_against_checkpoint path p (some a) = checked path p a.signature_check a.checkpoint

module _ (text_of : Value → String) (digest : AuditRecord → String) where
  -- `verify_audit_log` with its anchor.
  unfoldable pub verify_log : String → List Line → Option Anchor → Result Progress
  verify_log path ls anchor = elim (verify_audit_log text_of digest ls) [
    | raise e ↦ raise e
    | return p ↦ verify_against_checkpoint path p anchor
  ]

  unfoldable pub create_audit_checkpoint : String → List Line → Result AuditCheckpoint
  create_audit_checkpoint path ls = elim (verify_audit_log text_of digest ls) [
    | raise e ↦ raise e
    | return p ↦ return (record {
      latest_sequence = p.records;
      latest_hash = p.previous_hash;
      audit_log_path = path;
    })
  ]
