-- ===== src/Models/Statuses.antt =====
-- `PluginStatus` of modules/plugin_system/models.py, and the table of its transitions from
-- modules/plugin_system/loader.py.
use humanoid_agi_plugin_syst.Prelude.{
  ℕ, String, ◌≡◌, Bool, false, true, ◌||◌, List, [], ◌∷◌, arith, nat_eq,
}

pub data Status : Type 0 where
  discovered verified installed configured pending_approval permission_pending : Status
  enabled running suspended disabled quarantined revoked uninstalled : Status

unfoldable pub status_value : Status → String
status_value discovered = "discovered"
status_value verified = "verified"
status_value installed = "installed"
status_value configured = "configured"
status_value pending_approval = "pending_approval"
status_value permission_pending = "permission_pending"
status_value enabled = "enabled"
status_value running = "running"
status_value suspended = "suspended"
status_value disabled = "disabled"
status_value quarantined = "quarantined"
status_value revoked = "revoked"
status_value uninstalled = "uninstalled"

abbrev index : Status → ℕ
index discovered = 0
index verified = 1
index installed = 2
index configured = 3
index pending_approval = 4
index permission_pending = 5
index enabled = 6
index running = 7
index suspended = 8
index disabled = 9
index quarantined = 10
index revoked = 11
index uninstalled = 12

-- Members of an enumeration are told apart by their place in it.
unfoldable pub status_eq : Status → Status → Bool
status_eq a b = nat_eq (index a) (index b)

abbrev pub mem_status : Status → List Status → Bool
mem_status s [] = false
mem_status s (t ∷ ts) = nat_eq (index s) (index t) || mem_status s ts

-- What every status from `installed` on may turn into.
abbrev stopping : List Status
stopping = disabled ∷ quarantined ∷ revoked ∷ uninstalled ∷ []

unfoldable pub allowed_transitions : Status → List Status
allowed_transitions discovered = verified ∷ uninstalled ∷ []
allowed_transitions verified = installed ∷ revoked ∷ uninstalled ∷ []
allowed_transitions installed =
    configured ∷ pending_approval ∷ permission_pending ∷ enabled ∷ stopping
allowed_transitions configured = pending_approval ∷ permission_pending ∷ enabled ∷ stopping
allowed_transitions pending_approval = permission_pending ∷ enabled ∷ stopping
allowed_transitions permission_pending = pending_approval ∷ enabled ∷ stopping
allowed_transitions enabled = running ∷ suspended ∷ stopping
allowed_transitions running = enabled ∷ suspended ∷ stopping
allowed_transitions suspended = enabled ∷ stopping
allowed_transitions disabled = enabled ∷ quarantined ∷ revoked ∷ uninstalled ∷ []
allowed_transitions quarantined = revoked ∷ uninstalled ∷ []
allowed_transitions revoked = uninstalled ∷ []
allowed_transitions uninstalled = []

-- The negation of the guard of `transition_status`: the status stays, or the table has the step.
unfoldable pub allowed : Status → Status → Bool
unfolding allowed_transitions status_eq
allowed s t = status_eq t s || mem_status t (allowed_transitions s)

pub status_eq_refl : (s : Status) → status_eq s s ≡ true
unfolding status_eq
status_eq_refl s = ground arith

pub status_eq→eq : (s t : Status) → status_eq s t ≡ true → s ≡ t
unfolding status_eq
status_eq→eq s t h = ground arith
