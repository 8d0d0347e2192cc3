-- ===== src/Audit/Laws.antt =====
-- What the hash chain of modules/plugin_system/audit.py gives: a log that the logger wrote verifies.
use mathlib.Core.Path.{fun_ext}
use humanoid_agi_plugin_syst.Prelude.{
  ◌+◌, String, ◌≡◌, refl, ap, ◌∙◌, Option, none, some, List, [], ◌∷◌, ◌++◌, arith, eq_refl,
}
use humanoid_agi_plugin_syst.Prelude.Effects.{and_then, and_then-eq-return, Result, return, raise}
use humanoid_agi_plugin_syst.Prelude.Text.{char_count}
use humanoid_agi_plugin_syst.Audit.Record.{
  AuditRecord, post_init, filled_in, decision_for, otherwise, infer_resource, infer_permission,
  infer_reason, infer_actor, version_text, present,
}
use humanoid_agi_plugin_syst.Audit.Chain.{
  Line, blank, invalid, not_object, entry, Progress, start, hash_record, sealed, record_event,
  from_last, reversed, last_current_hash, verify_line, verify_lines, verify_audit_log,
}
use humanoid_agi_plugin_syst.Models.{Value}

otherwise_twice : (a b : Option String) → otherwise (otherwise a b) b ≡ otherwise a b
otherwise_twice none none = refl
otherwise_twice none (some b) = refl
otherwise_twice (some a) b = refl

-- Filling in a record that is filled in changes nothing.
filled_in_idem :
    (text_of : Value → String) (d : String) (r : AuditRecord)
    → filled_in text_of d (filled_in text_of d r) ≡ filled_in text_of d r
unfolding filled_in
filled_in_idem text_of d r = λ i. record r {
  timestamp = otherwise_twice r.timestamp (some r.created_at) i;
  plugin_id = otherwise_twice r.plugin_id r.plugin i;
  plugin_version =
      otherwise_twice r.plugin_version (version_text text_of (present r.details "version")) i;
  resource = otherwise_twice r.resource (infer_resource text_of r.details) i;
  permission = otherwise_twice r.permission (infer_permission text_of r.action r.details) i;
  decision = some d;
  reason = otherwise_twice r.reason (infer_reason text_of r.details) i;
  actor = otherwise_twice r.actor (some (infer_actor text_of r.details)) i;
}

-- A record whose decision is given, or can be inferred.
abbrev pub IsDecided : (Value → String) → AuditRecord → Type 0
IsDecided text_of r = (d : String) × (decision_for text_of r ≡ return d)

pub post_init-decided :
    (text_of : Value → String) (d : String) (r : AuditRecord)
    → decision_for text_of r ≡ return d
    → post_init text_of r ≡ return (filled_in text_of d r)
unfolding post_init
post_init-decided text_of d r h = rw h refl

decision_for-filled_in :
    (text_of : Value → String) (d : String) (r : AuditRecord)
    → decision_for text_of (filled_in text_of d r) ≡ return d
unfolding decision_for filled_in
decision_for-filled_in text_of d r = refl

and_then_assoc :
    (v : Result Progress) (f g : Progress → Result Progress)
    → and_then v (λ p. and_then (f p) g) ≡ and_then (and_then v f) g
and_then_assoc (return p) f g = refl
and_then_assoc (raise e) f g = refl

module _ (text_of : Value → String) (digest : AuditRecord → String) where
  pub verify_lines-append :
      (xs ys : List Line) (p : Progress)
      → verify_lines text_of digest (xs ++ ys) p
        ≡ and_then (verify_lines text_of digest xs p) (verify_lines text_of digest ys)
  unfolding verify_lines
  verify_lines-append [] ys p = refl
  verify_lines-append (x ∷ xs) ys p =
      ap (and_then (verify_line text_of digest x p)) (fun_ext (verify_lines-append xs ys))
      ∙ and_then_assoc (verify_line text_of digest x p) _ _

  -- The hash that the next record is chained to, after a line that verifies.
  from_last_step :
      (l : Line) (out : List Line) (p q : Progress)
      → verify_line text_of digest l p ≡ return q
      → from_last out ≡ return p.previous_hash
      → from_last (l ∷ out) ≡ return q.previous_hash
  unfolding verify_line from_last
  from_last_step blank out p q h e = cc
  from_last_step invalid out p q h e = cc
  from_last_step not_object out p q h e = cc
  from_last_step (entry r) out p q h e = ground arith

  from_last-reversed :
      (ls out : List Line) (p q : Progress)
      → verify_lines text_of digest ls p ≡ return q
      → from_last out ≡ return p.previous_hash
      → from_last (reversed ls out) ≡ return q.previous_hash
  unfolding verify_lines
  from_last-reversed [] out p q h e = cc
  from_last-reversed (l ∷ ls) out p q h e =
      let (p', first, rest) =
        and_then-eq-return (verify_line text_of digest l p) (verify_lines text_of digest ls) h in
      from_last-reversed ls (l ∷ out) p' q rest (from_last_step l out p p' first e)

  pub last_current_hash-verify :
      (log : List Line) (p : Progress)
      → verify_audit_log text_of digest log ≡ return p
      → last_current_hash log ≡ return p.previous_hash
  unfolding last_current_hash verify_audit_log from_last
  last_current_hash-verify log p h = from_last-reversed log [] start p h refl

  -- The progress after one more record with the hash `h`.
  abbrev pub advanced : Progress → String → Progress
  advanced p h = record { previous_hash = h; records = p.records + 1; hashes = p.hashes ++ h ∷ [] }

  abbrev pub payload : String → String → AuditRecord → AuditRecord
  payload d previous r =
      filled_in text_of d (record r { previous_hash = some previous; current_hash = none })

  abbrev hashed : String → String → AuditRecord → AuditRecord
  hashed d previous r = record (payload d previous r) {
    current_hash = some (hash_record text_of digest (payload d previous r));
  }

  -- The line that the logger writes of a record with the decision `d`.
  abbrev pub sealed_as : String → String → AuditRecord → AuditRecord
  sealed_as d previous r = filled_in text_of d (hashed d previous r)

  sealed-decided :
      (d previous : String) (r : AuditRecord)
      → decision_for text_of r ≡ return d
      → sealed text_of digest previous r ≡ return (sealed_as d previous r)
  unfolding sealed decision_for
  sealed-decided d previous r h =
      rw
        (post_init-decided text_of d
          (record r { previous_hash = some previous; current_hash = none }) h)
        (post_init-decided text_of d (hashed d previous r) (unfold filled_in in refl))

  -- What `verify` hashes is what the logger hashed.
  hash_record-sealed :
      (d previous : String) (r : AuditRecord)
      → hash_record text_of digest (filled_in text_of d (sealed_as d previous r))
        ≡ hash_record text_of digest (payload d previous r)
  unfolding hash_record filled_in
  hash_record-sealed d previous r =
      let filled = payload d previous r in
      let stored = record filled { current_hash = some (hash_record text_of digest filled) } in
      ap (hash_record text_of digest) (filled_in_idem text_of d stored)
      ∙ ap digest (
          filled_in_idem text_of d
            (record r { previous_hash = some previous; current_hash = none }))

  verify_line-sealed :
      (d : String) (p : Progress) (r : AuditRecord)
      → char_count (hash_record text_of digest (payload d p.previous_hash r)) ≡ 64
      → verify_line text_of digest (entry (sealed_as d p.previous_hash r)) p
        ≡ return (advanced p (hash_record text_of digest (payload d p.previous_hash r)))
  unfolding verify_line filled_in
  verify_line-sealed d p r size =
      let built =
        post_init-decided text_of d (sealed_as d p.previous_hash r)
          (decision_for-filled_in text_of d (hashed d p.previous_hash r)) in
      simp (eq_refl, built, hash_record-sealed, size)

  -- What `AuditLogger.record` appends to a log that verifies.
  pub record_event-verify :
      (log : List Line) (p : Progress) (d : String) (r : AuditRecord)
      → verify_audit_log text_of digest log ≡ return p
      → decision_for text_of r ≡ return d
      → record_event text_of digest log r
        ≡ return (log ++ entry (sealed_as d p.previous_hash r) ∷ [], sealed_as d p.previous_hash r)
  unfolding record_event
  record_event-verify log p d r h decided =
      rw
        (last_current_hash-verify log p h, record_event, sealed-decided d p.previous_hash r decided)
        refl

  pub verify-snoc :
      (log : List Line) (p : Progress) (d : String) (r : AuditRecord)
      → ((s : AuditRecord) → char_count (digest s) ≡ 64)
      → verify_audit_log text_of digest log ≡ return p
      → verify_audit_log text_of digest (log ++ entry (sealed_as d p.previous_hash r) ∷ [])
        ≡ return (advanced p (hash_record text_of digest (payload d p.previous_hash r)))
  unfolding verify_audit_log verify_lines
  verify-snoc log p d r size h =
      rw (verify_lines-append log (entry (sealed_as d p.previous_hash r) ∷ []) start, h)
        (rw (verify_line-sealed d p r (unfold hash_record in size _)))
