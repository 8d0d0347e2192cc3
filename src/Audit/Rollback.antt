-- ===== src/Audit/Rollback.antt =====
-- Checkpoints of modules/plugin_system/audit.py at a log that grew.
use mathlib.Core.Path.{subst}
use mathlib.Core.List.{append-nil, append_assoc}
use native.Mathlib.Numerals.{add-one}
use humanoid_agi_plugin_syst.Prelude.{
  ℕ, zero, suc, ◌<◌, ◌≤◌, String, ◌≡◌, refl, sym, ap, ◌∙◌, some, List, [], ◌∷◌, ◌++◌, arith, length,
  eq_refl, length-append, get_elem?, inl, inr, Option-cases,
}
use humanoid_agi_plugin_syst.Prelude.Effects.{and_then-eq-return, Result-cases, return}
use humanoid_agi_plugin_syst.Audit.Record.{AuditRecord}
use humanoid_agi_plugin_syst.Audit.Chain.{
  Line, blank, invalid, not_object, entry, Progress, start, verify_line, verify_lines,
  verify_audit_log,
}
use humanoid_agi_plugin_syst.Audit.Checkpoint.{
  AuditCheckpoint, Anchor, hash_at, against, verify_against_checkpoint, create_audit_checkpoint,
  verify_log,
}
use humanoid_agi_plugin_syst.Audit.Laws.{advanced, verify_lines-append}
use humanoid_agi_plugin_syst.Models.{Value}

-- The hashes of the progress are those of its records, and the last of them is its last hash.
record IsIndexed (p : Progress) : Type 0 where
  count : length p.hashes ≡ p.records
  last : hash_at p.hashes p.records ≡ some p.previous_hash

get_elem?-append :
    (xs ys : List String) (n : ℕ) → n < length xs → get_elem? (xs ++ ys) n ≡ get_elem? xs n
get_elem?-append [] ys n h = elim h [ ]
get_elem?-append (x ∷ xs) ys zero h = refl
get_elem?-append (x ∷ xs) ys (suc n) h = get_elem?-append xs ys n (omega arith)

get_elem?-snoc : (xs : List String) (x : String) → get_elem? (xs ++ x ∷ []) (length xs) ≡ some x
get_elem?-snoc [] x = refl
get_elem?-snoc (y ∷ xs) x = get_elem?-snoc xs x

hash_at-append :
    (xs ys : List String) (n : ℕ) {h : String}
    → n < suc (length xs)
    → hash_at xs n ≡ some h
    → hash_at (xs ++ ys) n ≡ some h
hash_at-append xs ys zero below e = e
hash_at-append xs ys (suc n) below e = get_elem?-append xs ys n (omega arith) ∙ e

-- The anchor that holds a checkpoint, with a signature that is in order.
abbrev pub anchored : AuditCheckpoint → Anchor
anchored c = record { checkpoint = some c; signature_check = return tt }

module _ (text_of : Value → String) (digest : AuditRecord → String) where
  verify_line-advanced :
      (r : AuditRecord) (p q : Progress)
      → verify_line text_of digest (entry r) p ≡ return q
      → (h : String) × (q ≡ advanced text_of digest p h)
  unfolding verify_line
  verify_line-advanced r p q e = elim (Option-cases r.current_hash) [
    | inl unhashed ↦ ground arith
    | inr (c, hashed) ↦ (c, ground arith)
  ]

  advanced-IsIndexed :
      (p : Progress) (h : String) → IsIndexed p → IsIndexed (advanced text_of digest p h)
  advanced-IsIndexed p h i = record {
    count = omega (arith, length-append p.hashes (h ∷ []), i.count);
    last = rw (add-one, ← i.count) (get_elem?-snoc p.hashes h);
  }

  -- A stretch of a log keeps the index of hashes and only adds to it.
  verify_lines-extends :
      (ls : List Line) (p q : Progress)
      → verify_lines text_of digest ls p ≡ return q
      → IsIndexed p
      → IsIndexed q × (more : List String) × (q.hashes ≡ p.hashes ++ more)
  unfolding verify_lines
  verify_lines-extends [] p q e i =
      let same : p ≡ q = cc in
      (subst IsIndexed same i, [], ap Progress.hashes (sym same) ∙ sym (append-nil p.hashes))
  verify_lines-extends (blank ∷ ls) p q e i =
      verify_lines-extends ls p q (unfold verify_line in e) i
  verify_lines-extends (invalid ∷ ls) p q e i = unfold verify_line in cc
  verify_lines-extends (not_object ∷ ls) p q e i = unfold verify_line in cc
  verify_lines-extends (entry r ∷ ls) p q e i =
      let (p', first, rest) =
        and_then-eq-return (verify_line text_of digest (entry r) p) (verify_lines text_of digest ls)
          e in
      let (h, same) = verify_line-advanced r p p' first in
      let (iq, more, extended) =
        verify_lines-extends ls (advanced text_of digest p h) q
          (subst (λ x. verify_lines text_of digest ls x ≡ return q) same rest)
          (advanced-IsIndexed p h i) in
      (iq, h ∷ more, extended ∙ append_assoc p.hashes (h ∷ []) more)

  create_audit_checkpoint-verify :
      (path : String) (log : List Line) (c : AuditCheckpoint)
      → create_audit_checkpoint text_of digest path log ≡ return c
      → (p : Progress) × (verify_audit_log text_of digest log ≡ return p)
        × (c ≡ record {
          latest_sequence = p.records;
          latest_hash = p.previous_hash;
          audit_log_path = path;
        })
  unfolding create_audit_checkpoint
  create_audit_checkpoint-verify path log c made =
      elim (Result-cases (verify_audit_log text_of digest log)) [
        | inl (p, verified) ↦ (p, verified, ground arith)
        | inr (e, failed) ↦ ground arith
      ]

  -- A checkpoint passes if its path is the log's and the log has its hash at its place.
  verify_log-pass :
      (path : String) (log : List Line) (n : ℕ) (h : String) (q : Progress)
      → verify_audit_log text_of digest log ≡ return q
      → n ≤ q.records
      → hash_at q.hashes n ≡ some h
      → verify_log text_of digest path log
          (some (anchored (record { latest_sequence = n; latest_hash = h; audit_log_path = path })))
        ≡ return q
  unfolding verify_log verify_against_checkpoint against
  verify_log-pass path log n h q verified enough found = ground (arith, eq_refl path, eq_refl h)

  -- A checkpoint of a log accepts every log that continues it and verifies.
  pub verify_log-extended :
      (path : String) (log more : List Line) (c : AuditCheckpoint) (q : Progress)
      → create_audit_checkpoint text_of digest path log ≡ return c
      → verify_audit_log text_of digest (log ++ more) ≡ return q
      → verify_log text_of digest path (log ++ more) (some (anchored c)) ≡ return q
  unfolding verify_audit_log
  verify_log-extended path log more c q made verified =
      let (p, first, same) = create_audit_checkpoint-verify path log c made in
      let (ip, _, _) =
        verify_lines-extends log start p first (record { count = refl; last = refl }) in
      let rest : verify_lines text_of digest more p ≡ return q =
        cc (verify_lines-append text_of digest log more start) in
      let (iq, added, extended) = verify_lines-extends more p q rest ip in
      rw same (
        verify_log-pass path (log ++ more) p.records p.previous_hash q verified
          (omega (arith, length-append p.hashes added, ap length extended, ip.count, iq.count))
          (rw extended (hash_at-append p.hashes added p.records (omega (arith, ip.count)) ip.last)))
