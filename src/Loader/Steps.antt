-- ===== src/Loader/Steps.antt =====
-- Each operation of modules/plugin_system/loader.py keeps the invariant on reviews.
use humanoid_agi_plugin_syst.Prelude.{
  String, ◌≡◌, refl, Bool, false, Option, none, some, List, [], arith, is_empty, ◌≢◌, ◌==◌, inl,
  inr, Bool-cases,
}
use humanoid_agi_plugin_syst.Prelude.Dict
use humanoid_agi_plugin_syst.Prelude.Dict.{Dict, AllValues, AllValues-get, AllValues-put}
use humanoid_agi_plugin_syst.Prelude.Effects.{
  Result, Keeps, Keeps-bind, Keeps-bind-Returns, Returns, Returns-bind, Returns-pure, Result-cases,
  modify, keeps_rules, ◌>>=◌,
}
use humanoid_agi_plugin_syst.Models.{
  Value, Status, enabled, revoked, status_eq, status_eq→eq, Decls, PluginMetadata, InstalledPlugin,
  is_trusted, is_third_party,
}
use humanoid_agi_plugin_syst.Policy.{ScanReport}
use humanoid_agi_plugin_syst.Loader.State.{Signature, Loader, default_status, read_installed}
use humanoid_agi_plugin_syst.Loader.Review.{
  new_install_permission_review, mark_permission_reviewed, permission_review_for_upgrade,
}
use humanoid_agi_plugin_syst.Loader.Lifecycle.{
  granted_to, is_closed, grant_found, transition_found, enable_found, revoke_found,
  grant_permissions, grant_permission_names, transition_status, enable_plugin, finish_revoke,
  add_version, revoke_current, revoke_plugin, revoke_plugin_version,
}
use humanoid_agi_plugin_syst.Loader.Install.{
  Package, Policies, load_from_directory, install, install_status, install_review, write_install,
  place_tree,
}
use humanoid_agi_plugin_syst.Loader.Reviewed.{
  IsReviewed, ReadsReviewed, DirReviewed, AllReviewed, found_IsReviewed,
  installed_or_raise-AllReviewed, transition_status-found, Keeps-lookup, set_installed-AllReviewed,
  persist_installed-AllReviewed,
}

ruleset reviewed_rules = (keeps_rules, set_installed-AllReviewed, persist_installed-AllReviewed)

granted_to-IsReviewed :
    (p : InstalledPlugin) (granted : Decls) (who why : Option String)
    → IsReviewed (granted_to p granted who why)
unfolding granted_to mark_permission_reviewed
granted_to-IsReviewed p granted who why h = refl

pub grant_found-AllReviewed :
    (name : String) (permissions : Option (List Value)) (who why : Option String)
    (p : InstalledPlugin)
    → Keeps AllReviewed (grant_found name permissions who why p)
unfolding grant_found
grant_found-AllReviewed name permissions who why p =
    search (reviewed_rules, granted_to-IsReviewed) depth 12

pub grant_permissions-AllReviewed :
    (name : String) (permissions : Option (List Value)) (who why : Option String)
    → Keeps AllReviewed (grant_permissions name permissions who why)
unfolding grant_permissions
grant_permissions-AllReviewed name permissions who why =
    Keeps-lookup name (grant_found name permissions who why)
      (λ p s h e. (grant_found-AllReviewed name permissions who why p).at s h)

pub grant_permission_names-AllReviewed :
    (name : String) (permissions : List String) (who why : Option String)
    → Keeps AllReviewed (grant_permission_names name permissions who why)
unfolding grant_permission_names
grant_permission_names-AllReviewed name permissions who why =
    search (keeps_rules, installed_or_raise-AllReviewed, grant_permissions-AllReviewed)

pub transition_status-status :
    (name : String) (target : Status)
    → Returns (λ q. q.status ≡ target) (transition_status name target)
unfolding transition_status transition_found
transition_status-status name target = Returns-bind _ _ (λ p.
    Returns-bind _ _ (λ _. Returns-bind _ _ (λ _. Returns-bind _ _ (λ _. Returns-pure _ refl))))

-- A status other than `enabled` asks for no review.
pub transition_found-AllReviewed :
    (name : String) (target : Status) (p : InstalledPlugin)
    → IsReviewed (record p { status = target })
    → Keeps AllReviewed (transition_found name target p)
unfolding transition_found
transition_found-AllReviewed name target p hp = search reviewed_rules depth 12

pub transition_status-AllReviewed :
    (name : String) (target : Status)
    → target ≢ enabled
    → Keeps AllReviewed (transition_status name target)
unfolding transition_status
transition_status-AllReviewed name target other =
    Keeps-lookup name (transition_found name target)
      (λ p s h e. (transition_found-AllReviewed name target p (λ q. absurd (other q))).at s h)

pub enable_found-AllReviewed :
    (name : String) (p : InstalledPlugin) (s : Loader)
    → AllReviewed s
    → Dict.get s.installed_plugins name ≡ some p
    → AllReviewed (enable_found name p s).1
unfolding enable_found ◌>>=◌
enable_found-AllReviewed name p s h e = elim (Bool-cases (is_empty p.granted_permissions)) [
  | inl a ↦ rw a h
  | inr a ↦ elim (Bool-cases p.permission_review.required) [
    | inl b ↦ rw (a, b) h
    | inr b ↦ elim (Bool-cases (is_closed p.status)) [
      | inl c ↦ rw (a, b, c) h
      | inr c ↦
          rw (a, b, c, transition_status-found name enabled p s e)
            ((transition_found-AllReviewed name enabled p (λ q. b)).at s h)
    ]
  ]
]

pub enable_plugin-AllReviewed : (name : String) → Keeps AllReviewed (enable_plugin name)
unfolding enable_plugin
enable_plugin-AllReviewed name =
    Keeps-lookup name (enable_found name) (enable_found-AllReviewed name)

pub finish_revoke-AllReviewed :
    (name : String) (p : InstalledPlugin) → IsReviewed p → Keeps AllReviewed (finish_revoke name p)
unfolding finish_revoke
finish_revoke-AllReviewed name p hp = search reviewed_rules depth 12

pub revoke_found-AllReviewed :
    (name : String) (p : InstalledPlugin) → IsReviewed p → Keeps AllReviewed (revoke_found name p)
unfolding revoke_found
revoke_found-AllReviewed name p hp = elim (Bool-cases (status_eq p.status revoked)) [
  | inl e ↦ rw e (search reviewed_rules depth 12)
  | inr e ↦ rw e (
      Keeps-bind _ _ (set_installed-AllReviewed name (record p { granted_permissions = [] }) hp)
        (λ _.
          Keeps-bind-Returns (transition_status name revoked) (finish_revoke name)
            (transition_status-AllReviewed name revoked (λ q. cc))
            (transition_status-status name revoked)
            (λ q is_revoked. finish_revoke-AllReviewed name q (λ x. cc))))
]

pub revoke_plugin-AllReviewed : (name : String) → Keeps AllReviewed (revoke_plugin name)
unfolding revoke_plugin
revoke_plugin-AllReviewed name =
    Keeps-lookup name (revoke_found name)
      (λ p s h e. (revoke_found-AllReviewed name p (found_IsReviewed name s h e)).at s h)

write_governance-AllReviewed :
    (f : Loader → Result (List Value))
    → Keeps AllReviewed (modify (λ s. record s { revoked_versions = f s }))
unfolding modify
write_governance-AllReviewed f = record {
  at = λ s h. record { memory = h.memory; stored = h.stored };
}

pub add_version-AllReviewed :
    (name version : String) (actor reason : Option String)
    → Keeps AllReviewed (add_version name version actor reason)
unfolding add_version
add_version-AllReviewed name version actor reason =
    search (keeps_rules, write_governance-AllReviewed) depth 12

pub revoke_current-AllReviewed :
    (name version : String) (p : Option InstalledPlugin)
    → Keeps AllReviewed (revoke_current name version p)
unfolding revoke_current
revoke_current-AllReviewed name version none = search keeps_rules
revoke_current-AllReviewed name version (some p) =
    elim (Bool-cases (p.metadata.version == version)) [
      | inl e ↦ rw e (search (keeps_rules, revoke_plugin-AllReviewed))
      | inr e ↦ rw e (search keeps_rules)
    ]

pub revoke_plugin_version-AllReviewed :
    (name version : String) (actor reason : Option String)
    → Keeps AllReviewed (revoke_plugin_version name version actor reason)
unfolding revoke_plugin_version
revoke_plugin_version-AllReviewed name version actor reason =
    search (keeps_rules, add_version-AllReviewed, revoke_current-AllReviewed)

install_review-IsReviewed :
    (m : PluginMetadata) (previous : Option InstalledPlugin)
    → install_status m previous ≡ enabled
    → (install_review m previous).required ≡ false
unfolding install_status install_review default_status new_install_permission_review is_trusted
    is_third_party
install_review-IsReviewed m none h = ground arith
install_review-IsReviewed m (some previous) h =
    elim (Bool-cases (permission_review_for_upgrade previous m).required) [
      | inr e ↦ e
      | inl e ↦ ground (arith, status_eq→eq previous.status revoked)
    ]

pub write_install-AllReviewed :
    (pkg : Package) (sig : Option Signature) (m : PluginMetadata)
    (previous : Option InstalledPlugin)
    → Keeps AllReviewed (write_install pkg sig m previous)
unfolding write_install read_installed
write_install-AllReviewed pkg sig m previous = record {
  at = λ s h. record {
    memory =
        AllValues-put IsReviewed s.installed_plugins m.name _ h.memory
          (install_review-IsReviewed m previous);
    stored =
        AllValues-put DirReviewed s.disk m.name _ h.stored
          (λ path m'. install_review-IsReviewed m previous);
  };
}

pub place_tree-AllReviewed :
    (pkg : Package) (m : PluginMetadata)
    → ReadsReviewed pkg.shipped_manifest
    → Keeps AllReviewed (place_tree pkg m)
unfolding place_tree
place_tree-AllReviewed pkg m hp = record {
  at = λ s h. elim (Result-cases pkg.replace_tree) [
    | inr (x, e) ↦ rw (e, place_tree) h
    | inl (u, e) ↦
        rw (e, place_tree)
          (record {
            memory = h.memory;
            stored = AllValues-put DirReviewed s.disk m.name _ h.stored hp;
          })
  ];
}

-- If the archive carries no manifest that reads as enabled with a review outstanding.
pub install-AllReviewed :
    (policies : Policies) (pkg : Package) (replace : Bool) (sig : Option Signature)
    (report : Option ScanReport)
    → ReadsReviewed pkg.shipped_manifest
    → Keeps AllReviewed (install policies pkg replace sig report)
unfolding install
install-AllReviewed policies pkg replace sig report hp =
    search (keeps_rules, place_tree-AllReviewed, write_install-AllReviewed) depth 40

load_memory-AllReviewed :
    (path : String) (m : PluginMetadata) (p : InstalledPlugin)
    → IsReviewed p
    → Keeps AllReviewed (
        modify (λ s. record s {
          loaded_plugins = Dict.put s.loaded_plugins m.name m;
          installed_plugins = Dict.put s.installed_plugins m.name p;
        }))
unfolding modify
load_memory-AllReviewed path m p hp = record {
  at = λ s h. record {
    memory = AllValues-put IsReviewed s.installed_plugins m.name p h.memory hp;
    stored = h.stored;
  };
}

pub load_from_directory-AllReviewed :
    (path : String) (read : Result PluginMetadata) (layout : Result (Unit {0}))
    → Keeps AllReviewed (load_from_directory path read layout)
unfolding load_from_directory install_status install_review
load_from_directory-AllReviewed path read layout = Keeps-bind _ _ (search keeps_rules) (λ m.
    Keeps-bind _ _ (search keeps_rules) (λ production. Keeps-bind _ _ (search keeps_rules) (λ _.
      Keeps-bind _ _ (search keeps_rules) (λ _.
        Keeps-bind _ _ (load_memory-AllReviewed path m _ (install_review-IsReviewed m none))
          (λ _. search keeps_rules)))))
