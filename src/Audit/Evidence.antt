-- ===== src/Audit/Evidence.antt =====
-- What the audit log of modules/plugin_system/audit.py proves: completeness of `verify`, and evidence
-- of tampering.
use mathlib.Core.Path.{subst, subst₂, sym}
use humanoid_agi_plugin_syst.Prelude.{
  ℕ, suc, ◌+◌, String, ◌≡◌, refl, ap, ◌∙◌, none, some, List, [], ◌∷◌, ◌++◌, arith, length, eq_iff,
  inl, inr, Option-cases, All,
}
use humanoid_agi_plugin_syst.Prelude.Effects.{
  and_then, and_then-eq-return, return_inj, Result, Result-cases, return, raise,
}
use humanoid_agi_plugin_syst.Prelude.Text.{char_count}
use humanoid_agi_plugin_syst.Audit.Record.{AuditRecord, post_init, decision_for, filled_in}
use humanoid_agi_plugin_syst.Audit.Chain.{
  Line, blank, invalid, not_object, entry, Progress, start, hash_record, record_event, verify_line,
  verify_lines, verify_audit_log,
}
use humanoid_agi_plugin_syst.Audit.Laws.{
  IsDecided, record_event-verify, verify-snoc, advanced, payload, sealed_as,
}
use humanoid_agi_plugin_syst.Models.{Value}

module _ (text_of : Value → String) (digest : AuditRecord → String) where
  -- `AuditLogger.record` for each of some records.
  unfoldable pub write_all : List Line → List AuditRecord → Result (List Line)
  unfolding record_event
  write_all log [] = return log
  write_all log (r ∷ rs) =
      and_then (record_event text_of digest log r) (λ written. write_all written.0 rs)

  write_all_from :
      (rs : List AuditRecord) (log : List Line) (p : Progress)
      → ((s : AuditRecord) → char_count (digest s) ≡ 64)
      → All (IsDecided text_of) rs
      → verify_audit_log text_of digest log ≡ return p
      → (log' : List Line) × (q : Progress) × (write_all log rs ≡ return log')
        × (verify_audit_log text_of digest log' ≡ return q)
        × (q.records ≡ p.records + length rs)
  unfolding write_all
  write_all_from [] log p size decided h = (log, p, refl, h, omega arith)
  write_all_from (r ∷ rs) log p size ((d, has_decision), decided) h =
      let h' = hash_record text_of digest (payload text_of digest d p.previous_hash r) in
      let log' = log ++ entry (sealed_as text_of digest d p.previous_hash r) ∷ [] in
      let (end_log, q, written, verified, count) =
        write_all_from rs log' (advanced text_of digest p h') size decided
          (verify-snoc text_of digest log p d r size h) in
      (
        end_log,
        q,
        ap (λ w. and_then w (λ x. write_all x.0 rs))
              (record_event-verify text_of digest log p d r h has_decision)
            ∙ written,
        verified,
        omega arith,
      )

  -- With a digest of 64 characters, records whose decision is given or can be inferred, written one
  -- after another to an empty log, are all accepted, and the log that results verifies with exactly
  -- that many records.
  pub write_all-verify :
      (rs : List AuditRecord)
      → ((s : AuditRecord) → char_count (digest s) ≡ 64)
      → All (IsDecided text_of) rs
      → (log : List Line) × (q : Progress) × (write_all [] rs ≡ return log)
        × (verify_audit_log text_of digest log ≡ return q)
        × (q.records ≡ length rs)
  write_all-verify rs size decided =
      let (log, q, written, verified, count) =
        write_all_from rs [] start size decided (unfold verify_audit_log verify_lines in refl) in
      (log, q, written, verified, omega arith)

  -- The records of a log, as they are hashed, the newest first.
  abbrev pub content : AuditRecord → AuditRecord
  content r = elim (post_init text_of r) [
    | return built ↦ record built { current_hash = none }
    | raise e ↦ record r { current_hash = none }
  ]

  abbrev pub contents : List Line → List AuditRecord → List AuditRecord
  contents [] acc = acc
  contents (entry r ∷ ls) acc = contents ls (content r ∷ acc)
  contents (blank ∷ ls) acc = contents ls acc
  contents (invalid ∷ ls) acc = contents ls acc
  contents (not_object ∷ ls) acc = contents ls acc

  -- No two records at one place of the two lists are different and have one digest.
  abbrev pub NoCollision : List AuditRecord → List AuditRecord → Type 0
  NoCollision (r ∷ rs) (s ∷ ss) = (digest r ≡ digest s → r ≡ s) × NoCollision rs ss
  NoCollision _ _ = Unit

  -- The chain from the newest record back: how many records, and the last hash.
  abbrev Chained : List AuditRecord → ℕ → String → Type 0
  Chained [] n h = (n ≡ 0) × (h ≡ "")
  Chained (r ∷ rs) n h =
      (before : String) × (m : ℕ) × (h ≡ digest r)
      × (r.previous_hash ≡ some before)
      × (n ≡ suc m)
      × Chained rs m before

  post_init-previous_hash :
      (r built : AuditRecord)
      → post_init text_of r ≡ return built
      → built.previous_hash ≡ r.previous_hash
  unfolding post_init filled_in
  post_init-previous_hash r built h =
      let (d, decided, same) =
        and_then-eq-return (decision_for text_of r) (λ d. return (filled_in text_of d r)) h in
      let e : filled_in text_of d r ≡ built = return_inj same in
      ap AuditRecord.previous_hash (sym e)

  chain_tests :
      (r : AuditRecord) (p q : Progress) (g c : String) (built : AuditRecord)
      → r.previous_hash ≡ some g
      → r.current_hash ≡ some c
      → post_init text_of r ≡ return built
      → verify_line text_of digest (entry r) p ≡ return q
      → (g ≡ p.previous_hash)
        × (q.previous_hash ≡ hash_record text_of digest built)
        × (q.records ≡ suc p.records)
  unfolding verify_line
  chain_tests r p q g c built given hashed made h =
      ground (arith, eq_iff g p.previous_hash, eq_iff c (hash_record text_of digest built))

  -- The tests that an accepted line passes.
  verify_line-Chained :
      (r : AuditRecord) (p q : Progress)
      → verify_line text_of digest (entry r) p ≡ return q
      → (q.previous_hash ≡ digest (content r))
        × ((content r).previous_hash ≡ some p.previous_hash)
        × (q.records ≡ suc p.records)
  unfolding verify_line hash_record
  verify_line-Chained r p q h = elim (Option-cases r.previous_hash) [
    | inl missing ↦ ground arith
    | inr (g, given) ↦ elim (Option-cases r.current_hash) [
      | inl unhashed ↦ ground arith
      | inr (c, hashed) ↦ elim (Result-cases (post_init text_of r)) [
        | inr (e, failed) ↦ ground arith
        | inl (built, made) ↦
            let kept = post_init-previous_hash r built made in
            let hash = hash_record text_of digest built in
            let tests = chain_tests r p q g c built given hashed made h in
            rw (made, content) (tests.1, kept ∙ given ∙ ap some tests.0, tests.2)
      ]
    ]
  ]

  verify_lines-Chained :
      (ls : List Line) (acc : List AuditRecord) (p q : Progress)
      → verify_lines text_of digest ls p ≡ return q
      → Chained acc p.records p.previous_hash
      → Chained (contents ls acc) q.records q.previous_hash
  unfolding verify_lines
  verify_lines-Chained [] acc p q h c =
      let e : p ≡ q = cc in subst (λ (x : Progress). Chained acc x.records x.previous_hash) e c
  verify_lines-Chained (blank ∷ ls) acc p q h c =
      verify_lines-Chained ls acc p q (unfold verify_line in h) c
  verify_lines-Chained (invalid ∷ ls) acc p q h c = unfold verify_line in cc
  verify_lines-Chained (not_object ∷ ls) acc p q h c = unfold verify_line in cc
  verify_lines-Chained (entry r ∷ ls) acc p q h c =
      let (p', first, rest) =
        and_then-eq-return (verify_line text_of digest (entry r) p) (verify_lines text_of digest ls)
          h in
      let (hashed, chained, count) = verify_line-Chained r p p' first in
      verify_lines-Chained ls (content r ∷ acc) p' q rest
        (p.previous_hash, p.records, hashed, chained, count, c)

  Chained-eq :
      (rs ss : List AuditRecord) (n : ℕ) (h : String)
      → NoCollision rs ss
      → Chained rs n h
      → Chained ss n h
      → rs ≡ ss
  Chained-eq [] [] n h free a b = refl
  Chained-eq [] (s ∷ ss) n h free a b = absurd (omega arith)
  Chained-eq (r ∷ rs) [] n h free a b = absurd (omega arith)
  Chained-eq (r ∷ rs) (s ∷ ss) n h free (g, m, hr, pr, nr, cr) (g', m', hs, ps, ns, cs) =
      let e : r ≡ s = free.0 (cc) in
      let eg : g ≡ g' = cc in
      let em : m ≡ m' = omega arith in
      cc (e, Chained-eq rs ss m g free.1 cr (subst₂ (λ x y. Chained ss y x) (sym eg) (sym em) cs))

  -- Two logs that verify with the same number of records and the same last hash hold the same
  -- records in the same order, unless two different records at one place have one digest.
  pub verify-tamper_evident :
      (log log' : List Line) (p q : Progress)
      → verify_audit_log text_of digest log ≡ return p
      → verify_audit_log text_of digest log' ≡ return q
      → p.records ≡ q.records
      → p.previous_hash ≡ q.previous_hash
      → NoCollision (contents log []) (contents log' [])
      → contents log [] ≡ contents log' []
  unfolding verify_audit_log
  verify-tamper_evident log log' p q h h' same_count same_hash free =
      Chained-eq (contents log []) (contents log' []) p.records p.previous_hash free
        (verify_lines-Chained log [] start p h (refl, refl))
        (subst₂ (λ x y. Chained (contents log' []) x y) (sym same_count) (sym same_hash)
          (verify_lines-Chained log' [] start q h' (refl, refl)))
