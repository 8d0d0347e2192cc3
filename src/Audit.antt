-- ===== src/Audit.antt =====
-- modules/plugin_system/audit.py: the records, the logger's hash chain, and checkpoints.
mod Record
mod Chain
mod Checkpoint
pub mod Laws
pub mod Evidence
pub mod Rollback
pub use Record.*
pub use Chain.*
pub use Checkpoint.*
unfoldable pub use Record.{
  infer_resource, infer_permission, infer_decision, infer_reason, decision_for, filled_in,
  post_init, Log, log_entry,
}
unfoldable pub use Chain.{
  last_current_hash, hash_record, record_event, verify_lines, verify_audit_log,
}
unfoldable pub use Checkpoint.{verify_against_checkpoint, create_audit_checkpoint, verify_log}
