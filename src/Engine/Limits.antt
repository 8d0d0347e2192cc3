-- ===== src/Engine/Limits.antt =====
-- The limits of modules/plugin_system/engine.py on the actions of plugins: who may act, and the
-- permits of the semaphores.
use humanoid_agi_plugin_syst.Prelude.{
  ℕ, ◌-◌, ◌≤◌, ◌<◌, String, ◌≡◌, refl, sym, true, false, if◌then◌else◌, arith, nat_eq, leb, inl,
  inr, Bool-cases,
}
use humanoid_agi_plugin_syst.Prelude.Dict
use humanoid_agi_plugin_syst.Prelude.Dict.{Dict}
use humanoid_agi_plugin_syst.Prelude.Effects.{
  Exec, return, Keeps, Keeps-bind, Result-cases, modify, ◌>>=◌,
}
use humanoid_agi_plugin_syst.Audit.{Entry}
use humanoid_agi_plugin_syst.Gateway.{Response, failed, log_to}
use humanoid_agi_plugin_syst.Engine.State.{Engine, with_gateway, on_gateway, note, set_object}
use humanoid_agi_plugin_syst.Engine.Permits.{
  nat_eq→eq, Held, runtime_state_for-Held, record_outcome-Held,
}
use humanoid_agi_plugin_syst.Engine.Actions.{
  runtime_state_for, is_enabled, set_permits, release, releasing, with_permit,
  execute_plugin_action,
}

-- An action of a plugin that is missing or not enabled never runs: it fails, whatever its runner
-- is, and only an entry in the log comes of it.
execute_plugin_action-denied :
    (name action_type action : String) (runner : Exec Engine Response) (e : Engine)
    → is_enabled (Dict.get e.loader.installed_plugins name) ≡ false
    → (entry : Entry) × (execute_plugin_action name action_type action runner e
        ≡ (return (failed "plugin is not enabled"), with_gateway (log_to entry) e))
unfolding execute_plugin_action note on_gateway modify ◌>>=◌
execute_plugin_action-denied name action_type action runner e h = rw h (_, refl)

-- An action that finds no permit left never runs either.
with_permit-rejected :
    (name action_type action : String) (runner : Exec Engine Response) (i : ℕ) (e : Engine)
    → (e.objects i).permits ≡ 0
    → (entry : Entry) × (with_permit name action_type action runner i e
        ≡ (return (failed "plugin concurrency limit exceeded"), with_gateway (log_to entry) e))
unfolding with_permit note on_gateway modify ◌>>=◌
with_permit-rejected name action_type action runner i e h = rw h (_, refl)

-- The permits while one of those of `i` is out.
abbrev lowered : ℕ → (ℕ → ℕ) → ℕ → ℕ
lowered i permits j = if nat_eq j i then permits j - 1 else permits j

acquire-Held :
    (n i : ℕ) (permits limit : ℕ → ℕ) (e : Engine)
    → Held n permits limit e
    → Held n (lowered i permits) limit (set_permits i ((e.objects i).permits - 1) e)
unfolding set_permits set_object
acquire-Held n i permits limit e h = record {
  known = h.known;
  left = λ j l. elim (Bool-cases (nat_eq j i)) [
    | inl q ↦ let same = nat_eq→eq j i q in rw (q, sym same, h.left j l) refl
    | inr q ↦ rw q (h.left j l)
  ];
  limits = λ j l. elim (Bool-cases (nat_eq j i)) [
    | inl q ↦ let same = nat_eq→eq j i q in rw (q, sym same) (h.limits j l)
    | inr q ↦ rw q (h.limits j l)
  ];
}

release-Held :
    (n i : ℕ) (permits limit : ℕ → ℕ) (e : Engine)
    → ((j : ℕ) → j < n → permits j ≤ limit j)
    → (i < n → 0 < permits i)
    → Held n (lowered i permits) limit e
    → Held n permits limit (release i e).1
unfolding release set_permits set_object
release-Held n i permits limit e within had h =
    elim (Bool-cases (leb (e.objects i).max_concurrency (e.objects i).permits)) [
      | inl full ↦
          rw (full, release)
            (record {
              known = h.known;
              left = λ j l. elim (Bool-cases (nat_eq j i)) [
                | inl q ↦
                    let same = nat_eq→eq j i q in
                    let has_permit : 0 < permits j = rw (sym same) at (had (rw same at l)) in
                    let out : (e.objects j).permits ≡ permits j - 1 = rw q at (h.left j l) in
                    let no_room : leb (e.objects j).max_concurrency (e.objects j).permits ≡ true =
                      rw (sym same) at full in
                    ground (arith, has_permit, out, no_room, h.limits j l, within j l)
                | inr q ↦ rw q at (h.left j l)
              ];
              limits = h.limits;
            })
      | inr free ↦
          rw (free, release)
            (record {
              known = h.known;
              left = λ j l. elim (Bool-cases (nat_eq j i)) [
                | inl q ↦
                    let same = nat_eq→eq j i q in
                    let has_permit : 0 < permits j = rw (sym same) at (had (rw same at l)) in
                    let out : (e.objects j).permits ≡ permits j - 1 = rw q at (h.left j l) in
                    rw (q, sym same, out) (omega (arith, has_permit))
                | inr q ↦ rw q (rw q at (h.left j l))
              ];
              limits = λ j l. elim (Bool-cases (nat_eq j i)) [
                | inl q ↦ let same = nat_eq→eq j i q in rw (q, sym same) (h.limits j l)
                | inr q ↦ rw q (h.limits j l)
              ];
            })
    ]

-- A runner that leaves the permits alone, whatever they are.
abbrev pub LeavesPermits : Exec Engine Response → Type 0
LeavesPermits runner = (n : ℕ) (permits limit : ℕ → ℕ) → Keeps (Held n permits limit) runner

releasing-Held :
    (n i : ℕ) (permits limit : ℕ → ℕ) (body : Exec Engine Response) (e : Engine)
    → ((j : ℕ) → j < n → permits j ≤ limit j)
    → (i < n → 0 < permits i)
    → Keeps (Held n (lowered i permits) limit) body
    → Held n (lowered i permits) limit e
    → Held n permits limit (releasing i body e).1
unfolding releasing
releasing-Held n i permits limit body e within had keeps h =
    let after = release-Held n i permits limit (body e).1 within had (keeps.at e h) in
    elim (Result-cases (release i (body e).1).0) [
      | inl (u, q) ↦ rw (q, releasing) after
      | inr (x, q) ↦ rw (q, releasing) after
    ]

with_permit-Held :
    (name action_type action : String) (runner : Exec Engine Response) (n i : ℕ)
    (permits limit : ℕ → ℕ)
    → LeavesPermits runner
    → ((j : ℕ) → j < n → permits j ≤ limit j)
    → Keeps (Held n permits limit) (with_permit name action_type action runner i)
unfolding with_permit
with_permit-Held name action_type action runner n i permits limit leaves within = record {
  at = λ e h. elim (Bool-cases (nat_eq (e.objects i).permits 0)) [
    | inl none_left ↦
        let (entry, r) =
          with_permit-rejected name action_type action runner i e (nat_eq→eq _ 0 none_left) in
        rw r (record { known = h.known; left = h.left; limits = h.limits })
    | inr some_left ↦
        rw (some_left, with_permit)
          (releasing-Held n i permits limit _ _ within (λ l. ground (arith, some_left, h.left i l))
            (Keeps-bind _ _ (leaves n (lowered i permits) limit)
              (record_outcome-Held name action_type action))
            (acquire-Held n i permits limit e h))
  ];
}

-- However an action of a plugin ends, refused, rejected, answered, failed or raising, and also when
-- it trips the circuit breaker, every semaphore that there was has as many permits left as before, if
-- no semaphore had more than its limit and the runner leaves the permits alone.
pub execute_plugin_action-Held :
    (name action_type action : String) (runner : Exec Engine Response) (n : ℕ)
    (permits limit : ℕ → ℕ) (e : Engine)
    → LeavesPermits runner
    → ((j : ℕ) → j < n → permits j ≤ limit j)
    → Held n permits limit e
    → Held n permits limit (execute_plugin_action name action_type action runner e).1
unfolding execute_plugin_action ◌>>=◌
execute_plugin_action-Held name action_type action runner n permits limit e leaves within h =
    elim (Bool-cases (is_enabled (Dict.get e.loader.installed_plugins name))) [
      | inr off ↦
          let (entry, r) = execute_plugin_action-denied name action_type action runner e off in
          rw r (record { known = h.known; left = h.left; limits = h.limits })
      | inl on ↦ rw on (
          (Keeps-bind (runtime_state_for name) _ (runtime_state_for-Held name) (λ i.
              with_permit-Held name action_type action runner n i permits limit leaves within)).at
            e h)
    ]
