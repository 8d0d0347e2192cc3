-- ===== src/Loader/Transitions.antt =====
-- What the operations of modules/plugin_system/loader.py on the life cycle of a plugin return and
-- leave behind: transitions, grants, and revocations.
use mathlib.Core.Path.{subst}
use humanoid_agi_plugin_syst.Prelude.{
  not-false, String, ◌≡◌, refl, Bool, true, false, Option, some, List, [], ◌∷◌, arith, contains,
  is_empty, keep, not, ◌&&◌, sym, ◌∙◌, ◌||◌, ap, inl, inr, Bool-cases, eq_iff,
}
use humanoid_agi_plugin_syst.Prelude.Dict
use humanoid_agi_plugin_syst.Prelude.Dict.{get-put_self}
use humanoid_agi_plugin_syst.Prelude.Effects.{
  ErrorType, return, Returns, Returns-bind, Returns-bind_first, Returns-pure, raise_if, ◌>>=◌,
}
use humanoid_agi_plugin_syst.Prelude.Names.{minus, contains-sorted_set}
use humanoid_agi_plugin_syst.Models.{
  names, Value, Status, enabled, revoked, status_eq, status_eq→eq, allowed, InstalledPlugin,
  granted_permission_names, requested_permissions,
}
use humanoid_agi_plugin_syst.Loader.State.{
  PluginDir, Loader, updated_manifest, set_installed, persist_installed,
}
use humanoid_agi_plugin_syst.Loader.Review.{mark_permission_reviewed}
use humanoid_agi_plugin_syst.Loader.Lifecycle.{
  granted_to, grant_found, grant_permissions, transition_found, transition_status, finish_revoke,
  revoke_found, revoke_plugin,
}
use humanoid_agi_plugin_syst.Loader.Reviewed.{transition_status-found, installed_or_raise-found}

-- A plugin that the loader holds under its name, with its folder.
pub record Holds (s : Loader) (name : String) (p : InstalledPlugin) : Type 0 where
  pub named : p.metadata.name ≡ name
  pub in_memory : Dict.get s.installed_plugins name ≡ some p
  pub on_disk : (dir : PluginDir) × (Dict.get s.disk p.path ≡ some dir)

-- The manifest of the plugin, as it stands in its folder, has the status.
pub record Moved (s : Loader) (name : String) (p : InstalledPlugin) (target : Status) : Type 0 where
  pub in_memory : Dict.get s.installed_plugins name ≡ some (record p { status = target })
  pub on_disk :
      (dir : PluginDir) × (Dict.get s.disk p.path ≡ some dir) × (dir.manifest.status ≡ some target)

persist_installed-found :
    (p : InstalledPlugin) (s : Loader) (dir : PluginDir)
    → Dict.get s.disk p.path ≡ some dir
    → persist_installed p s ≡ (
      return tt,
      record s {
        disk = Dict.put s.disk p.path (record dir { manifest = updated_manifest dir.manifest p });
        installed_plugins = Dict.put s.installed_plugins p.metadata.name p;
        loaded_plugins = Dict.put s.loaded_plugins p.metadata.name p.metadata;
      },
    )
unfolding persist_installed
persist_installed-found p s dir e = rw (e, persist_installed) refl

module _ (name : String) (p : InstalledPlugin) (s : Loader) (h : Holds s name p) where
  -- For a plugin that the loader holds under its name and with its folder, a transition that the
  -- table allows is made in memory and on disk, and the new record comes back.
  pub transition_status-Moved :
      (target : Status)
      → allowed p.status target ≡ true
      → ((transition_status name target s).0 ≡ return (record p { status = target }))
        × Moved (transition_status name target s).1 name p target
  unfolding transition_found set_installed ◌>>=◌
  transition_status-Moved target ok =
      let (dir, e) = h.on_disk in
      let s' = record s {
        installed_plugins = Dict.put s.installed_plugins name (record p { status = target });
      } in
      rw
        (
          transition_status-found name target p s h.in_memory,
          ok,
          persist_installed-found (record p { status = target }) s' dir e,
          h.named,
        )
        (
          refl,
          record {
            in_memory = get-put_self _ name _;
            on_disk = (_, get-put_self s.disk p.path _, refl);
          },
        )

raise_if-Returns :
    {S : Type 0} (b : Bool) (t : ErrorType) (m : String)
    → Returns {S = S} (λ _. b ≡ false) (raise_if b t m)
unfolding raise_if
raise_if-Returns true t m = record { holds = λ s a e. cc }
raise_if-Returns false t m = record { holds = λ s a e. refl }

-- Every permission that a plugin has been granted is one that it asks for.
abbrev pub IsWithin : InstalledPlugin → Type 0
IsWithin p =
    (n : String)
    → contains n (granted_permission_names p) ≡ true
    → contains n (requested_permissions p.metadata) ≡ true

contains-empty : (n : String) (xs : List String) → is_empty xs ≡ true → contains n xs ≡ false
contains-empty n [] h = refl
contains-empty n (x ∷ xs) h = cc

contains-keep_missing :
    (n : String) (xs ys : List String)
    → contains n (keep (λ x. not (contains x ys)) xs) ≡ (contains n xs && not (contains n ys))
contains-keep_missing n [] ys = refl
contains-keep_missing n (x ∷ xs) ys = ground (arith, eq_iff x n, contains-keep_missing n xs ys)

contains-minus :
    (n : String) (xs ys : List String)
    → contains n (minus xs ys) ≡ (contains n xs && not (contains n ys))
unfolding minus
contains-minus n xs ys =
    contains-sorted_set n (keep (λ x. not (contains x ys)) xs) ∙ contains-keep_missing n xs ys

minus-empty :
    (xs ys : List String) (n : String)
    → is_empty (minus xs ys) ≡ true
    → contains n xs ≡ true
    → contains n ys ≡ true
minus-empty xs ys n h c =
    let gone : (contains n xs && not (contains n ys)) ≡ false =
      sym (contains-minus n xs ys) ∙ contains-empty n (minus xs ys) h in
    ground (arith, gone, c)

-- Whatever a grant returns is enabled, has its review done, and has been granted only permissions
-- that the plugin asks for.
pub grant_permissions-IsWithin :
    (name : String) (permissions : Option (List Value)) (who why : Option String) (s : Loader)
    (p : InstalledPlugin)
    → (grant_permissions name permissions who why s).0 ≡ return p
    → (p.status ≡ enabled) × (p.permission_review.required ≡ false) × IsWithin p
unfolding grant_permissions grant_found granted_to mark_permission_reviewed
grant_permissions-IsWithin name permissions who why s p h =
    (Returns-bind
        {Q = λ q. (q.status ≡ enabled) × (q.permission_review.required ≡ false) × IsWithin q} _ _
        (λ q. Returns-bind _ _ (λ granted.
          Returns-bind_first _ _ (raise_if-Returns _ _ _) (λ _ within. Returns-bind _ _ (λ _.
            Returns-bind _ _ (λ _. Returns-bind _ _ (λ _. Returns-pure _ (
              refl,
              refl,
              λ n c. minus-empty (names granted) _ n (not-false _ within) c,
            )))))))).holds
      s p h

-- The record of the plugin once it is revoked and has no permission.
abbrev pub cleared : InstalledPlugin → InstalledPlugin
cleared p = record p { granted_permissions = []; status = revoked }

-- The plugin is revoked and has no permission, in memory and in the manifest in its folder.
pub record IsRevoked (s : Loader) (name : String) (p : InstalledPlugin) : Type 0 where
  pub in_memory : Dict.get s.installed_plugins name ≡ some (cleared p)
  pub on_disk :
      (dir : PluginDir) × (Dict.get s.disk p.path ≡ some dir)
      × (dir.manifest.status ≡ some revoked)
      × (dir.manifest.granted_permissions ≡ [])

finish_revoke-IsRevoked :
    (name : String) (p : InstalledPlugin) (s : Loader)
    → p.metadata.name ≡ name
    → (dir : PluginDir) × (Dict.get s.disk p.path ≡ some dir)
    → p.status ≡ revoked
    → ((finish_revoke name p s).0 ≡ return (cleared p))
      × IsRevoked (finish_revoke name p s).1 name p
unfolding finish_revoke set_installed ◌>>=◌
finish_revoke-IsRevoked name p s named (dir, e) is_revoked =
    let p' = record p { granted_permissions = [] } in
    let same : p' ≡ cleared p =
      ap (λ t. record p { granted_permissions = []; status = t }) is_revoked in
    let s' = record s { installed_plugins = Dict.put s.installed_plugins name p' } in
    rw (persist_installed-found p' s' dir e) (
      ap return same,
      record {
        in_memory =
            subst (λ k. Dict.get (Dict.put s'.installed_plugins k p') name ≡ some p') (sym named)
              (get-put_self s'.installed_plugins name p')
            ∙ ap some same;
        on_disk = (_, get-put_self s.disk p.path _, ap some is_revoked, refl);
      },
    )

-- The status is `revoked` already, or may become that.
abbrev pub may_revoke : InstalledPlugin → Bool
may_revoke p = status_eq p.status revoked || allowed p.status revoked

-- A plugin that the loader holds under its name and with its folder, and that is revoked or may be,
-- comes back from a revocation revoked and without permissions, and so it stands in the dictionary
-- and in the manifest in its folder.
pub revoke_plugin-IsRevoked :
    (name : String) (p : InstalledPlugin) (s : Loader)
    → Holds s name p
    → may_revoke p ≡ true
    → ((revoke_plugin name s).0 ≡ return (cleared p)) × IsRevoked (revoke_plugin name s).1 name p
unfolding revoke_plugin revoke_found set_installed ◌>>=◌
revoke_plugin-IsRevoked name p s h ok = elim (Bool-cases (status_eq p.status revoked)) [
  | inl e ↦
      rw (installed_or_raise-found name p s h.in_memory, e)
        (unfold finish_revoke in
          finish_revoke-IsRevoked name p s h.named h.on_disk (status_eq→eq p.status revoked e))
  | inr e ↦
      let p' = record p { granted_permissions = [] } in
      let s' = record s { installed_plugins = Dict.put s.installed_plugins name p' } in
      let held : Holds s' name p' = record {
        named = h.named;
        in_memory = get-put_self _ name _;
        on_disk = h.on_disk;
      } in
      let (returned, moved) = transition_status-Moved name p' s' held revoked (rw e at ok) in
      let (dir, found, _) = moved.on_disk in
      let (done, stands) =
        finish_revoke-IsRevoked name (record p' { status = revoked })
          (transition_status name revoked s').1 h.named (dir, found) refl in
      rw (installed_or_raise-found name p s h.in_memory, e, returned)
        (done, record { in_memory = stands.in_memory; on_disk = stands.on_disk })
]
