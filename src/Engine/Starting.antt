-- ===== src/Engine/Starting.antt =====
-- Which plugins modules/plugin_system/engine.py starts.
use humanoid_agi_plugin_syst.Prelude.{
  String, ◌≡◌, refl, true, false, Bool, none, some, inl, inr, Bool-cases, Option-cases, ◌⊎◌, sym,
}
use mathlib.Core.Path.{subst}
use humanoid_agi_plugin_syst.Prelude.Dict
use humanoid_agi_plugin_syst.Prelude.Effects.{
  Result, return, raise, Returns, Returns-bind, Returns-bind_first, Returns-pure, Returns-throw,
  Returns-rethrow, continue-eq-return, ◌>>=◌,
}
use humanoid_agi_plugin_syst.Models.{field?, enabled, status_eq, status_eq→eq, InstalledPlugin}
use humanoid_agi_plugin_syst.Loader.Integrity.{
  IntegrityStatus, skipped, success, build_file_integrity, verify_integrity,
}
use humanoid_agi_plugin_syst.Loader.Intact.{
  Agree, recorded_files, IsUnrecorded, verify_integrity-Agree, verify_integrity-IsUnrecorded,
}
use humanoid_agi_plugin_syst.Engine.State.{Engine, World}
use humanoid_agi_plugin_syst.Engine.Calls.{
  find_plugin, checked, start_result, run_sandbox, start_found, start_record, start_plugin,
}

-- The manifest has no record of the files, or each path agrees with it.
abbrev pub IsIntact : World → InstalledPlugin → Type 0
IsIntact world p =
    IsUnrecorded (world.manifest_in p)
    ⊎ ((path : String)
        → Agree (field? (recorded_files (world.manifest_in p)) path)
            (Dict.get (build_file_integrity (world.files_in p)) path))

-- What a plugin has that runs under a name: the loader holds it under that name, it is enabled, its
-- files are intact, and its process came up.
pub record MayRun (world : World) (name : String) (e : Engine) (p : InstalledPlugin) : Type 0 where
  pub held : Dict.get (find_plugin name e).1.loader.installed_plugins name ≡ some p
  pub is_on : p.status ≡ enabled
  pub intact : IsIntact world p
  pub started : world.start_sandbox p ≡ return true

verify_integrity-IsIntact :
    (world : World) (p : InstalledPlugin) (report : IntegrityStatus)
    → verify_integrity (world.manifest_in p) (world.files_in p) ≡ return report
    → IsIntact world p
verify_integrity-IsIntact world p skipped h =
    inl (verify_integrity-IsUnrecorded (world.manifest_in p) (world.files_in p) h)
verify_integrity-IsIntact world p success h =
    inr (λ path. verify_integrity-Agree (world.manifest_in p) (world.files_in p) path h)

run_sandbox-Returns :
    (name : String) (p : InstalledPlugin) (r : Result (Unit {0}))
    → Returns (λ q. (q ≡ p) × (r ≡ return tt)) (run_sandbox name p r)
unfolding run_sandbox
run_sandbox-Returns name p (raise x) = Returns-bind _ _ (λ _. Returns-rethrow x)
run_sandbox-Returns name p (return u) = Returns-bind _ _ (λ _. Returns-bind _ _ (λ _.
    Returns-bind _ _
      (λ _. Returns-bind _ _ (λ _. Returns-bind _ _ (λ _. Returns-pure p (refl, refl))))))

pub checked-Returns :
    (event action name : String) (r : Result IntegrityStatus)
    → Returns (λ _. (report : IntegrityStatus) × (r ≡ return report)) (checked event action name r)
unfolding checked
checked-Returns event action name (raise x) = Returns-bind _ _ (λ _. Returns-rethrow x)
checked-Returns event action name (return report) = record { holds = λ s a e. (report, refl) }

start_result-true : (r : Result Bool) → start_result r ≡ return tt → r ≡ return true
start_result-true (raise x) h = cc
start_result-true (return true) h = refl
start_result-true (return false) h = cc

-- The plugin that comes back is the one that was to start, is intact, and came up.
abbrev Ready : World → InstalledPlugin → InstalledPlugin → Type 0
Ready world p q = (q ≡ p) × IsIntact world p × (world.start_sandbox p ≡ return true)

start_found-Returns :
    (world : World) (name : String) (p : InstalledPlugin)
    → Returns (Ready world p) (start_found world name p)
unfolding start_found
start_found-Returns world name p = Returns-bind _ _ (λ _. Returns-bind _ _ (λ _.
    Returns-bind _ _ (λ _.
      Returns-bind_first _ _
        (checked-Returns _ _ name (verify_integrity (world.manifest_in p) (world.files_in p)))
        (λ _ (report, accepted). record {
          holds = λ s q e.
              let ran =
                (run_sandbox-Returns name p (start_result (world.start_sandbox p))).holds s q e in
              (
                ran.0,
                verify_integrity-IsIntact world p report accepted,
                start_result-true (world.start_sandbox p) ran.1,
              );
        }))))

start_record-Returns :
    (world : World) (name : String) (p : InstalledPlugin)
    → Returns (λ q. (p.status ≡ enabled) × Ready world p q) (start_record world name (some p))
unfolding start_record
start_record-Returns world name p = elim (Bool-cases (status_eq p.status enabled)) [
  | inl on ↦ rw on (record {
    holds =
        λ s q e. (status_eq→eq p.status enabled on, (start_found-Returns world name p).holds s q e);
  })
  | inr off ↦ rw off (Returns-bind _ _ (λ _. Returns-throw _ _))
]

-- Where a plugin is started, it is the one that the loader holds under the name, after a fresh
-- discovery if it was not known, it is enabled, its manifest has no record of its files or each path
-- agrees with that record, and its process came up.
pub start_plugin-MayRun :
    (world : World) (name : String) (e : Engine) (p : InstalledPlugin)
    → (start_plugin world name e).0 ≡ return p
    → MayRun world name e p
unfolding start_plugin ◌>>=◌
start_plugin-MayRun world name e p h =
    let (_, _, rest) = continue-eq-return (find_plugin name e).0 _ (find_plugin name e).1 h in
    let (held, is_on, intact, up) = started (find_plugin name e).1 rest (Option-cases _) in
    record { held = held; is_on = is_on; intact = intact; started = up }
  where
    started :
        (s : Engine)
        → (start_record world name (Dict.get s.loader.installed_plugins name) s).0 ≡ return p
        → (Dict.get s.loader.installed_plugins name ≡ none)
          ⊎ ((q : InstalledPlugin) × (Dict.get s.loader.installed_plugins name ≡ some q))
        → (Dict.get s.loader.installed_plugins name ≡ some p)
          × (p.status ≡ enabled)
          × IsIntact world p
          × (world.start_sandbox p ≡ return true)
    started s r (inl missing) =
        let none_there : (start_record world name none s).0 ≡ return p = rw missing at r in
        unfold start_record in cc
    started s r (inr (q, found)) =
        let ready = (start_record-Returns world name q).holds s p (rw found at r) in
        subst
          (λ x.
            (Dict.get s.loader.installed_plugins name ≡ some x)
            × (x.status ≡ enabled)
            × IsIntact world x
            × (world.start_sandbox x ≡ return true))
          (sym ready.1.0) (found, ready.0, ready.1.1, ready.1.2)
