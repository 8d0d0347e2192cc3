-- ===== src/Marketplace/Rollback.antt =====
-- That modules/plugin_system/marketplace.py installs no older version over a newer one.
use humanoid_agi_plugin_syst.Prelude.{
  ℕ, String, ◌≡◌, Bool, false, not, ◌&&◌, Option, none, some, arith,
}
use humanoid_agi_plugin_syst.Prelude.Dict
use humanoid_agi_plugin_syst.Prelude.Effects.{
  return, and_then-eq-return, guard-eq-return, continue-eq-return, ◌>>=◌,
}
use humanoid_agi_plugin_syst.Models.{PluginMetadata, InstalledPlugin}
use humanoid_agi_plugin_syst.Policy.{Platform}
use humanoid_agi_plugin_syst.Marketplace.Versions.{SemverKey, key_lt, semver_sort_key}
use humanoid_agi_plugin_syst.Marketplace.Entries.{RegistryEntry}
use humanoid_agi_plugin_syst.Marketplace.Client.{Host, Client}
use humanoid_agi_plugin_syst.Marketplace.Install.{
  Request, Checked, Plugins, key_eq, same_hash, assert_not_rollback, new_loader, check_registry,
  install_checked, install_from_registry,
}

-- A version may take the place of what is installed: nothing, an older version, or the same version
-- with the same package.
pub data MayReplace (digit : ℕ → Option ℕ) (entry : RegistryEntry) (hash : String)
    : Option InstalledPlugin → Type 0 where
  fresh : MayReplace digit entry hash none
  replaces :
      {installed : InstalledPlugin} (current requested : SemverKey)
      → semver_sort_key digit installed.metadata.version ≡ return current
      → semver_sort_key digit entry.version ≡ return requested
      → key_lt requested current ≡ false
      → (key_eq requested current && not (same_hash installed.package_hash hash)) ≡ false
      → MayReplace digit entry hash (some installed)

when_not : (a allowed : Bool) → allowed ≡ false → (a && not allowed) ≡ false → a ≡ false
when_not a allowed h k = ground (arith, h, k)

when_not2 :
    (a b allowed : Bool) → allowed ≡ false → (a && b && not allowed) ≡ false → (a && b) ≡ false
when_not2 a b allowed h k = ground (arith, h, k)

module _ (host : Host) (client : Client) (r : Request) where
  assert_not_rollback-MayReplace :
      (entry : RegistryEntry) (hash : String) (installed : Option InstalledPlugin)
      → r.allow_downgrade ≡ false
      → r.allow_same_version_reinstall ≡ false
      → assert_not_rollback host r entry hash installed ≡ return tt
      → MayReplace host.python.digit entry hash installed
  unfolding assert_not_rollback
  assert_not_rollback-MayReplace entry hash none no_downgrade no_reinstall h = fresh
  assert_not_rollback-MayReplace entry hash (some installed) no_downgrade no_reinstall h =
      let (current, c1, h1) =
        and_then-eq-return (semver_sort_key host.python.digit installed.metadata.version) _ h in
      let (requested, r1, h2) =
        and_then-eq-return (semver_sort_key host.python.digit entry.version) _ h1 in
      let (not_older, h3) =
        guard-eq-return (key_lt requested current && not r.allow_downgrade) _ _ h2 in
      let (same, h4) =
        guard-eq-return
          (key_eq requested current
            && not (same_hash installed.package_hash hash)
            && not r.allow_same_version_reinstall)
          _ _ h3 in
      replaces current requested c1 r1
        (when_not (key_lt requested current) r.allow_downgrade no_downgrade not_older)
        (when_not2 (key_eq requested current) (not (same_hash installed.package_hash hash))
          r.allow_same_version_reinstall no_reinstall same)

  -- An installation that allows no downgrade and no reinstallation, and that returns, found nothing
  -- installed under the name of its entry, or a version that is not newer, and with the same package
  -- if it is the same version.
  pub install_from_registry-MayReplace :
      (platform : Platform) (now : ℕ) (s : Plugins) (m : PluginMetadata)
      → r.allow_downgrade ≡ false
      → r.allow_same_version_reinstall ≡ false
      → (install_from_registry host client r platform now s).0 ≡ return m
      → (c : Checked) × (check_registry host client r ≡ return c)
        × MayReplace host.python.digit c.entry
            (host.sha256 c.bytes)
            (Dict.get (new_loader host r s.loader).1.installed_plugins c.entry.name)
  unfolding install_from_registry install_checked ◌>>=◌
  install_from_registry-MayReplace platform now s m no_downgrade no_reinstall h =
      let (c, checked, h1) = continue-eq-return (check_registry host client r) _ s h in
      let (_, _, h1') = continue-eq-return (new_loader host r s.loader).0 _ _ h1 in
      let (u, passed, h2) =
        continue-eq-return
          (assert_not_rollback host r c.entry (host.sha256 c.bytes)
            (Dict.get (new_loader host r s.loader).1.installed_plugins c.entry.name))
          _ _ h1' in
      (
        c,
        checked,
        assert_not_rollback-MayReplace c.entry (host.sha256 c.bytes) _ no_downgrade no_reinstall
            passed,
      )
