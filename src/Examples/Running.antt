-- ===== src/Examples/Running.antt =====
-- The theorems on modules/plugin_system/engine.py at the sample host.
use humanoid_agi_plugin_syst.Prelude.{◌≡◌, refl, true, arith, none}
use humanoid_agi_plugin_syst.Prelude.Dict
use humanoid_agi_plugin_syst.Prelude.Text.{ends_with}
use humanoid_agi_plugin_syst.Prelude.Effects.{return, pure, ◌>>=◌}
use humanoid_agi_plugin_syst.Models.{
  enabled, disabled, allowed, status_eq, null, value_eq, is_third_party, is_trusted,
  effective_run_mode,
}
use humanoid_agi_plugin_syst.Gateway.{success}
use humanoid_agi_plugin_syst.Loader.Integrity.{
  build_file_integrity, integrity_path_excluded, add_files, has_missing, has_extra, has_changed,
  compare_files, check_files, check_manifest, verify_integrity,
}
use humanoid_agi_plugin_syst.Loader.Production.{verify_production_install_policy}
use humanoid_agi_plugin_syst.Loader.Transitions.{Holds, Moved}
use humanoid_agi_plugin_syst.Engine.{
  Engine, validate_production_start_policy, disable, quarantine, revoke, find_plugin, start_record,
  start_found, production_checks, start_policy, checked, note, run_sandbox, announce, start_plugin,
  record_plugin_failure, execute_plugin_action,
}
use humanoid_agi_plugin_syst.Engine.Permits.{Held}
use humanoid_agi_plugin_syst.Engine.Limits.{LeavesPermits, execute_plugin_action-Held}
use humanoid_agi_plugin_syst.Engine.Stopping.{IsStopped, close-IsStopped}
use humanoid_agi_plugin_syst.Engine.Vetted.{IsVetted, start_plugin-IsVetted}
use humanoid_agi_plugin_syst.Engine.Starting.{MayRun, start_plugin-MayRun}
use humanoid_agi_plugin_syst.Engine.Breaker.{
  AtHand, Stops, disable-Moved, record_plugin_failure-breaker,
}
use humanoid_agi_plugin_syst.Examples.Samples.{
  calc, with_status, folder, loader_with, engine_with, world,
}

holds : Holds (loader_with enabled) "calc" (with_status enabled)
unfolding Dict.get
holds = record { named = refl; in_memory = refl; on_disk = (folder enabled, refl) }

may_disable : allowed enabled disabled ≡ true
unfolding allowed
may_disable = refl

at_hand : AtHand (engine_with enabled) "calc" calc 0
unfolding Dict.get
at_hand = record { metadata = refl; found = refl; limit = refl }

stops : Stops "calc" (engine_with enabled)
stops q found = refl

leaves : LeavesPermits (pure (success null))
unfolding pure
leaves n permits limit = record { at = λ e h. h }

held : Held 1 (λ j. 1) (λ j. 1) (engine_with enabled)
held = record { known = omega arith; left = λ j l. refl; limits = λ j l. refl }

execute_plugin_action-Held_example :
    Held 1
      (λ j. 1)
      (λ j. 1)
      (execute_plugin_action "calc" "tool" "add" (pure (success null)) (engine_with enabled)).1
execute_plugin_action-Held_example =
    execute_plugin_action-Held "calc" "tool" "add" (pure (success null)) 1 (λ j. 1) (λ j. 1)
      (engine_with enabled) leaves (λ j l. omega arith) held

record_plugin_failure-breaker_example :
    ((record_plugin_failure "calc" "tool" "add" "boom" (engine_with enabled)).0 ≡ return tt)
    × Moved
        (record_plugin_failure "calc" "tool" "add" "boom" (engine_with enabled)).1.loader
        "calc"
        (with_status enabled)
        disabled
record_plugin_failure-breaker_example =
    record_plugin_failure-breaker "calc" "tool" "add" "boom" (engine_with enabled) calc 0
      (with_status enabled) at_hand holds may_disable stops

disable-Moved_example :
    ((disable "calc" none none (engine_with enabled)).0 ≡ return (with_status disabled))
    × Moved
        (disable "calc" none none (engine_with enabled)).1.loader
        "calc"
        (with_status enabled)
        disabled
disable-Moved_example =
    disable-Moved "calc" none none (engine_with enabled) (with_status enabled) holds may_disable
      stops

close-IsStopped_example :
    IsStopped "calc" (engine_with enabled) (disable "calc" none none (engine_with enabled)).1
    × IsStopped "calc" (engine_with enabled) (quarantine "calc" none none (engine_with enabled)).1
    × IsStopped "calc" (engine_with enabled) (revoke "calc" none none (engine_with enabled)).1
close-IsStopped_example = close-IsStopped "calc" (engine_with enabled) none none

starts : (start_plugin world "calc" (engine_with enabled)).0 ≡ return (with_status enabled)
unfolding start_plugin Dict.get status_eq ◌>>=◌ find_plugin start_record start_found
    production_checks start_policy checked note run_sandbox announce verify_integrity check_manifest
    check_files compare_files build_file_integrity add_files integrity_path_excluded has_missing
    has_extra has_changed value_eq Dict.put ends_with
starts = refl

start_plugin-MayRun_example : MayRun world "calc" (engine_with enabled) (with_status enabled)
start_plugin-MayRun_example =
    start_plugin-MayRun world "calc" (engine_with enabled) (with_status enabled) starts

abbrev in_production : Engine
in_production = record (engine_with enabled) { production_mode = true }

starts_in_production : (start_plugin world "calc" in_production).0 ≡ return (with_status enabled)
unfolding start_plugin Dict.get status_eq ◌>>=◌ find_plugin start_record start_found
    production_checks start_policy checked note run_sandbox announce verify_integrity check_manifest
    check_files compare_files build_file_integrity add_files integrity_path_excluded has_missing
    has_extra has_changed value_eq Dict.put ends_with verify_production_install_policy
    is_third_party is_trusted effective_run_mode validate_production_start_policy
starts_in_production = refl

third : is_third_party calc ≡ true
unfolding is_third_party
third = refl

start_plugin-IsVetted_example : IsVetted world (with_status enabled)
start_plugin-IsVetted_example =
    start_plugin-IsVetted world "calc" in_production (with_status enabled) refl third
      starts_in_production
