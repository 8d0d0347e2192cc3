-- ===== src/Loader/Reviewed.antt =====
-- The invariant of the loader that an enabled plugin has no review outstanding, for the reading and
-- writing of its records in modules/plugin_system/loader.py.
use humanoid_agi_plugin_syst.Prelude.{
  String, ◌≡◌, false, some, [], ◌∷◌, inl, inr, Option-cases, Bool-cases,
}
use humanoid_agi_plugin_syst.Prelude.Dict
use humanoid_agi_plugin_syst.Prelude.Dict.{Dict, AllValues, AllValues-get, AllValues-put}
use humanoid_agi_plugin_syst.Prelude.Effects.{Exec, return, Keeps, Result-cases, pure, throw, ◌>>=◌}
use humanoid_agi_plugin_syst.Models.{Status, enabled, PluginMetadata, InstalledPlugin}
use humanoid_agi_plugin_syst.Loader.State.{
  Manifest, PluginDir, Loader, read_installed, Found, visit, has_bad_status, scan,
  discover_installed, installed_or_raise, set_installed, persist_installed, updated_manifest,
}
use humanoid_agi_plugin_syst.Loader.Lifecycle.{transition_found, transition_status}

-- An enabled plugin has no review outstanding.
abbrev pub IsReviewed : InstalledPlugin → Type 0
IsReviewed p = p.status ≡ enabled → p.permission_review.required ≡ false

-- So a manifest reads back, whatever stands in its plugin.yaml.
abbrev pub ReadsReviewed : Manifest → Type 0
ReadsReviewed manifest =
    (path : String) (m : PluginMetadata) → IsReviewed (read_installed path m manifest)

abbrev pub DirReviewed : PluginDir → Type 0
DirReviewed dir = ReadsReviewed dir.manifest

pub record AllReviewed (s : Loader) : Type 0 where
  pub memory : AllValues IsReviewed s.installed_plugins
  pub stored : AllValues DirReviewed s.disk

pub updated_manifest-ReadsReviewed :
    (manifest : Manifest) (p : InstalledPlugin)
    → IsReviewed p
    → ReadsReviewed (updated_manifest manifest p)
unfolding read_installed
updated_manifest-ReadsReviewed manifest p h path m = h

pub scan-IsReviewed :
    (dirs : Dict PluginDir) (found : Found)
    → AllValues DirReviewed dirs
    → AllValues IsReviewed found.1
    → AllValues IsReviewed (scan dirs found).1.1
unfolding scan
scan-IsReviewed [] found h k = k
scan-IsReviewed ((path, dir) ∷ dirs) found h k = elim (Bool-cases (has_bad_status dir)) [
  | inl bad ↦ rw bad k
  | inr good ↦ rw good (elim (Option-cases dir.metadata) [
    | inl e ↦ scan-IsReviewed dirs (visit path dir found) h.1 (rw e k)
    | inr (m, e) ↦ scan-IsReviewed dirs (visit path dir found) h.1 (
        rw e (
          AllValues-put IsReviewed found.1 m.name (read_installed path m dir.manifest) k
            (h.0 path m)))
  ])
]

pub discover_installed-AllReviewed : Keeps AllReviewed discover_installed
unfolding discover_installed
discover_installed-AllReviewed = record {
  at = λ s h. record { memory = scan-IsReviewed s.disk ([], []) h.stored tt; stored = h.stored };
}

pub found_IsReviewed :
    (name : String) {p : InstalledPlugin} (s : Loader)
    → AllReviewed s
    → Dict.get s.installed_plugins name ≡ some p
    → IsReviewed p
found_IsReviewed name s h e = AllValues-get IsReviewed s.installed_plugins name h.memory e

pub installed_or_raise-found :
    (name : String) (p : InstalledPlugin) (s : Loader)
    → Dict.get s.installed_plugins name ≡ some p
    → installed_or_raise name s ≡ (return p, s)
unfolding installed_or_raise
installed_or_raise-found name p s e = rw (e, installed_or_raise)

pub transition_status-found :
    (name : String) (target : Status) (p : InstalledPlugin) (s : Loader)
    → Dict.get s.installed_plugins name ≡ some p
    → transition_status name target s ≡ transition_found name target p s
unfolding transition_status ◌>>=◌
transition_status-found name target p s e = rw (installed_or_raise-found name p s e)

-- To prove a method, suppose that it found its plugin in the dictionary.
pub Keeps-lookup :
    {B : Type 0} (name : String) (f : InstalledPlugin → Exec Loader B)
    → ((p : InstalledPlugin) (s : Loader)
        → AllReviewed s
        → Dict.get s.installed_plugins name ≡ some p
        → AllReviewed (f p s).1)
    → Keeps AllReviewed (installed_or_raise name >>= f)
unfolding installed_or_raise ◌>>=◌
Keeps-lookup name f hf = record {
  at = λ s h. elim (Option-cases (Dict.get s.installed_plugins name)) [
    | inr (p, e) ↦ rw (e, installed_or_raise) (hf p s h e)
    | inl e ↦
        let s' = (discover_installed s).1 in
        let h' = discover_installed-AllReviewed.at s h in
        elim (Result-cases (discover_installed s).0) [
          | inr (x, r) ↦ rw (e, r, installed_or_raise) h'
          | inl (u, r) ↦ elim (Option-cases (Dict.get s'.installed_plugins name)) [
            | inr (p, e') ↦ rw (e, r, e', installed_or_raise) (hf p s' h' e')
            | inl e' ↦ rw (e, r, e', installed_or_raise) h'
          ]
        ]
  ];
}

pub installed_or_raise-AllReviewed : (name : String) → Keeps AllReviewed (installed_or_raise name)
unfolding installed_or_raise pure throw ◌>>=◌
installed_or_raise-AllReviewed name = record {
  at = λ s h. elim (Option-cases (Dict.get s.installed_plugins name)) [
    | inr (p, e) ↦ rw (e, installed_or_raise) h
    | inl e ↦
        let s' = (discover_installed s).1 in
        let h' = discover_installed-AllReviewed.at s h in
        elim (Result-cases (discover_installed s).0) [
          | inr (x, r) ↦ rw (e, r, installed_or_raise) h'
          | inl (u, r) ↦ elim (Option-cases (Dict.get s'.installed_plugins name)) [
            | inr (p, e') ↦ rw (e, r, e', installed_or_raise) h'
            | inl e' ↦ rw (e, r, e', installed_or_raise) h'
          ]
        ]
  ];
}

pub set_installed-AllReviewed :
    (name : String) (p : InstalledPlugin) → IsReviewed p → Keeps AllReviewed (set_installed name p)
unfolding set_installed
set_installed-AllReviewed name p hp = record {
  at = λ s h. record {
    memory = AllValues-put IsReviewed s.installed_plugins name p h.memory hp;
    stored = h.stored;
  };
}

pub persist_installed-AllReviewed :
    (p : InstalledPlugin) → IsReviewed p → Keeps AllReviewed (persist_installed p)
unfolding persist_installed
persist_installed-AllReviewed p hp = record {
  at = λ s h. elim (Option-cases (Dict.get s.disk p.path)) [
    | inl e ↦ rw (e, persist_installed) h
    | inr (dir, e) ↦
        rw (e, persist_installed)
          (record {
            memory = AllValues-put IsReviewed s.installed_plugins p.metadata.name p h.memory hp;
            stored =
                AllValues-put DirReviewed s.disk p.path
                  (record dir { manifest = updated_manifest dir.manifest p }) h.stored
                  (updated_manifest-ReadsReviewed dir.manifest p hp);
          })
  ];
}
