-- ===== src/Examples/Plugins.antt =====
-- The theorems on modules/plugin_system/loader.py at the sample host.
use humanoid_agi_plugin_syst.Prelude.{◌≡◌, refl, false, true, none, some, List, [], ◌∷◌}
use humanoid_agi_plugin_syst.Prelude.Dict
use humanoid_agi_plugin_syst.Prelude.Effects.{return, ◌>>=◌}
use humanoid_agi_plugin_syst.Prelude.Names.{minus}
use humanoid_agi_plugin_syst.Models.{
  names, validate_permission_decls, status_eq, obj, end, InstalledPlugin, Status, enabled, disabled,
  quarantined, revoked, allowed,
}
use humanoid_agi_plugin_syst.Loader.{
  grant_permissions, revoke_plugin, transition_status, granted_to, read_installed,
  installed_or_raise, grant_found, set_installed, persist_installed,
}
use humanoid_agi_plugin_syst.Loader.Reviewed.{AllReviewed}
use humanoid_agi_plugin_syst.Loader.Safety.{
  Op, discover, enable, disable, transition, set, perform_all, perform_all-AllReviewed,
}
use humanoid_agi_plugin_syst.Loader.Transitions.{
  Holds, Moved, IsWithin, IsRevoked, may_revoke, transition_status-Moved,
  grant_permissions-IsWithin, revoke_plugin-IsRevoked,
}
use humanoid_agi_plugin_syst.Examples.Samples.{with_status, folder, loader_with}

reviewed : AllReviewed (loader_with disabled)
unfolding read_installed
reviewed = record { memory = (λ e. refl, tt); stored = ((λ path m e. refl), tt) }

abbrev some_ops : List Op
some_ops =
    enable "calc"
    ∷ discover
    ∷ disable "calc"
    ∷ transition "calc" quarantined
    ∷ set "calc" revoked
    ∷ []

perform_all-AllReviewed_example : AllReviewed (perform_all some_ops (loader_with disabled))
perform_all-AllReviewed_example =
    perform_all-AllReviewed some_ops (loader_with disabled)
      (tt, (tt, (tt, ((λ e. cc), ((λ e. cc), tt))))) reviewed

holds : (s : Status) → Holds (loader_with s) "calc" (with_status s)
unfolding Dict.get
holds s = record { named = refl; in_memory = refl; on_disk = (folder s, refl) }

may_quarantine : allowed enabled quarantined ≡ true
unfolding allowed
may_quarantine = refl

transition_status-Moved_example :
    ((transition_status "calc" quarantined (loader_with enabled)).0
      ≡ return (with_status quarantined))
    × Moved
        (transition_status "calc" quarantined (loader_with enabled)).1
        "calc"
        (with_status enabled)
        quarantined
transition_status-Moved_example =
    transition_status-Moved "calc" (with_status enabled) (loader_with enabled) (holds enabled)
      quarantined may_quarantine

-- What a grant of all that the plugin asks for makes of it.
abbrev calc_granted : InstalledPlugin
calc_granted =
    granted_to (with_status disabled) (("memory.read", obj end) ∷ []) (some "ann") (some "ok")

grants :
    (grant_permissions "calc" none (some "ann") (some "ok") (loader_with disabled)).0
    ≡ return calc_granted
unfolding grant_permissions Dict.get ◌>>=◌ installed_or_raise grant_found validate_permission_decls
    minus names set_installed persist_installed granted_to
grants = refl

grant_permissions-IsWithin_example :
    (calc_granted.status ≡ enabled)
    × (calc_granted.permission_review.required ≡ false)
    × IsWithin calc_granted
grant_permissions-IsWithin_example =
    grant_permissions-IsWithin "calc" none (some "ann") (some "ok") (loader_with disabled)
      calc_granted grants

abbrev calc_revoked : InstalledPlugin
calc_revoked = record (with_status revoked) { granted_permissions = [] }

may_be_revoked : may_revoke (with_status enabled) ≡ true
unfolding status_eq allowed
may_be_revoked = refl

revoke_plugin-IsRevoked_example :
    ((revoke_plugin "calc" (loader_with enabled)).0 ≡ return calc_revoked)
    × IsRevoked (revoke_plugin "calc" (loader_with enabled)).1 "calc" (with_status enabled)
revoke_plugin-IsRevoked_example =
    revoke_plugin-IsRevoked "calc" (with_status enabled) (loader_with enabled) (holds enabled)
      may_be_revoked
