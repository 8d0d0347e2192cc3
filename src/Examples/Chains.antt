-- ===== src/Examples/Chains.antt =====
-- The theorems on modules/plugin_system/audit.py at small logs.
use humanoid_agi_plugin_syst.Prelude.{◌≡◌, refl, String, none, some, List, [], ◌∷◌}
use humanoid_agi_plugin_syst.Prelude.Effects.{return}
use humanoid_agi_plugin_syst.Prelude.Text.{char_count}
use humanoid_agi_plugin_syst.Models.{Value}
use humanoid_agi_plugin_syst.Audit.{
  AuditRecord, post_init, decision_for, Line, blank, entry, Progress, AuditCheckpoint, hash_record,
  verify_audit_log, create_audit_checkpoint, verify_log,
}
use humanoid_agi_plugin_syst.Audit.Laws.{IsDecided}
use humanoid_agi_plugin_syst.Audit.Evidence.{
  write_all, write_all-verify, contents, verify-tamper_evident,
}
use humanoid_agi_plugin_syst.Audit.Rollback.{anchored, verify_log-extended}

abbrev text_of : Value → String
text_of v = "text"

-- A text of 64 characters.
abbrev zeros : String
zeros = "0000000000000000000000000000000000000000000000000000000000000000"

abbrev digest : AuditRecord → String
digest r = zeros

abbrev draft : AuditRecord
draft = record {
  event = "plugin.enabled";
  result = "success";
  request_id = "r1";
  plugin = some "calc";
  action = some "enable";
  details = [];
  created_at = "2026-01-01T00:00:00";
  timestamp = none;
  plugin_id = none;
  plugin_version = none;
  resource = none;
  permission = none;
  decision = none;
  reason = none;
  actor = none;
  previous_hash = none;
  current_hash = none;
}

size : (r : AuditRecord) → char_count (digest r) ≡ 64
unfolding char_count
size r = refl

decided : IsDecided text_of draft
unfolding decision_for
decided = ("allow", refl)

write_all-verify_example :
    (log : List Line) × (q : Progress) × (write_all text_of digest [] (draft ∷ draft ∷ [])
      ≡ return log)
    × (verify_audit_log text_of digest log ≡ return q)
    × (q.records ≡ 2)
write_all-verify_example =
    write_all-verify text_of digest (draft ∷ draft ∷ []) size (decided, (decided, tt))

abbrev first : AuditRecord
first = record draft { previous_hash = some ""; current_hash = some zeros }

abbrev second : AuditRecord
second = record draft { previous_hash = some zeros; current_hash = some zeros }

abbrev one : Progress
one = record { previous_hash = zeros; records = 1; hashes = zeros ∷ [] }

abbrev two : Progress
two = record { previous_hash = zeros; records = 2; hashes = zeros ∷ zeros ∷ [] }

verifies_one : verify_audit_log text_of digest (entry first ∷ []) ≡ return one
unfolding verify_audit_log char_count hash_record post_init
verifies_one = refl

verifies_two : verify_audit_log text_of digest (entry first ∷ entry second ∷ []) ≡ return two
unfolding verify_audit_log char_count hash_record post_init
verifies_two = refl

verifies_spaced : verify_audit_log text_of digest (entry first ∷ blank ∷ []) ≡ return one
unfolding verify_audit_log char_count hash_record post_init
verifies_spaced = refl

verify-tamper_evident_example :
    contents text_of digest (entry first ∷ []) []
    ≡ contents text_of digest (entry first ∷ blank ∷ []) []
verify-tamper_evident_example =
    verify-tamper_evident text_of digest (entry first ∷ []) (entry first ∷ blank ∷ []) one one
      verifies_one verifies_spaced refl refl (λ same. refl, tt)

abbrev at_one : AuditCheckpoint
at_one = record { latest_sequence = 1; latest_hash = zeros; audit_log_path = "audit.log" }

makes : create_audit_checkpoint text_of digest "audit.log" (entry first ∷ []) ≡ return at_one
unfolding create_audit_checkpoint verify_audit_log char_count hash_record post_init
makes = refl

verify_log-extended_example :
    verify_log text_of digest "audit.log" (entry first ∷ entry second ∷ []) (some (anchored at_one))
    ≡ return two
verify_log-extended_example =
    verify_log-extended text_of digest "audit.log" (entry first ∷ []) (entry second ∷ []) at_one two
      makes verifies_two
