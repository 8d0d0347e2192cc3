-- ===== src/Loader/Review.antt =====
-- The review of permissions in modules/plugin_system/loader.py. Of a review the times and the risk
-- labels, which are only shown, are left out.
use humanoid_agi_plugin_syst.Prelude.{
  ℕ, ◌-◌, String, Bool, true, false, not, ◌&&◌, ◌||◌, Option, none, some, List, [], ◌∷◌, ◌++◌, ◌==◌,
  contains, keep, is_empty, length, if◌then◌else◌,
}
use humanoid_agi_plugin_syst.Prelude.Dict
use humanoid_agi_plugin_syst.Prelude.Dict.{Dict}
use humanoid_agi_plugin_syst.Prelude.Effects.{Result, return, failure, package_error}
use humanoid_agi_plugin_syst.Prelude.Names.{sorted_set, minus, inter}
use humanoid_agi_plugin_syst.Prelude.Text.{strip, collapse, take_chars}
use humanoid_agi_plugin_syst.Models.{
  Value, value_eq, Status, enabled, status_eq, Decls, names, PluginMetadata, InstalledPlugin,
  Review, ReviewEvent, requested_permissions, granted_permission_names, is_third_party,
}

abbrev no_review : Review
no_review = record {
  required = false;
  reason = "";
  added = [];
  removed = [];
  changed = [];
  reviewed = false;
  reviewer = none;
  review_reason = none;
  granted = [];
  denied = [];
  history = [];
}

unfoldable pub new_install_permission_review : PluginMetadata → Review
unfolding is_third_party sorted_set
new_install_permission_review m = record no_review {
  required = is_third_party m;
  reason = if is_third_party m then "initial_third_party_install" else "trusted_install";
  added = sorted_set (requested_permissions m);
}

-- A dict comprehension: of two declarations of a name the later counts.
map_from : Decls → Dict Value → Dict Value
unfolding Dict.put
map_from [] d = d
map_from ((k, v) ∷ ds) d = map_from ds (Dict.put d k v)

unfoldable pub permission_map : Decls → Dict Value
unfolding map_from
permission_map ds = map_from ds []

unfoldable pub preserve_granted_permissions : InstalledPlugin → PluginMetadata → Decls
unfolding names
preserve_granted_permissions previous m =
    keep (λ d. contains d.0 (requested_permissions m)) previous.granted_permissions

abbrev differs : Dict Value → Dict Value → String → Bool
unfolding Dict.get value_eq
differs old new k = elim (Dict.get old k) [
  | none ↦ true
  | some v ↦ elim (Dict.get new k) [ none ↦ true | some w ↦ not (value_eq v w) ]
]

unfoldable pub added_permissions : Decls → Decls → List String
unfolding permission_map minus Dict.keys
added_permissions old new = minus (Dict.keys (permission_map new)) (Dict.keys (permission_map old))

unfoldable pub changed_permissions : Decls → Decls → List String
unfolding permission_map inter sorted_set Dict.keys Dict.get value_eq
changed_permissions old new =
    let old_by_name = permission_map old in
    let new_by_name = permission_map new in
    sorted_set (
      keep (differs old_by_name new_by_name)
        (inter (Dict.keys old_by_name) (Dict.keys new_by_name)))

unfoldable pub permission_review_for_upgrade : InstalledPlugin → PluginMetadata → Review
unfolding added_permissions changed_permissions
permission_review_for_upgrade previous m =
    let old = previous.metadata.permissions in
    let added = added_permissions old m.permissions in
    let changed = changed_permissions old m.permissions in
    let requires_review = is_third_party m && (not (is_empty added) || not (is_empty changed)) in
    record no_review {
      required = requires_review;
      reason = if requires_review then "permission_expansion" else "no_permission_expansion";
      added = added;
      removed = added_permissions m.permissions old;
      changed = changed;
    }

-- The distinct names, without white space at the ends, in the order of their first place.
distinct : List String → List String → List String
unfolding strip
distinct [] seen = seen
distinct (x ∷ xs) seen =
    let name = strip x in
    distinct xs (if name == "" || contains name seen then seen else seen ++ name ∷ [])

abbrev select : Dict Value → List String → Decls
unfolding Dict.get
select d [] = []
select d (k ∷ ks) =
    let rest = select d ks in elim (Dict.get d k) [ none ↦ rest | some v ↦ (k, v) ∷ rest ]

unfoldable pub permission_decls_for_names : Decls → List String → Result Decls
unfolding permission_map distinct minus select
permission_decls_for_names permissions permission_names =
    let requested = permission_map permissions in
    let selected = distinct permission_names [] in
    if is_empty selected
    then failure package_error "at least one permission must be selected"
    else if not (is_empty (minus selected (Dict.keys requested)))
    then failure package_error "cannot grant permissions not requested by plugin"
    else return (select requested selected)

unfoldable pub normalize_review_text : Option String → String → String
unfolding collapse take_chars
normalize_review_text none default = default
normalize_review_text (some value) default =
    let cleaned = collapse value in if cleaned == "" then default else take_chars 256 cleaned

drop : ℕ → List ReviewEvent → List ReviewEvent
drop ℕ.zero xs = xs
drop (ℕ.suc n) [] = []
drop (ℕ.suc n) (x ∷ xs) = drop n xs

-- history[-50:]
abbrev last_fifty : List ReviewEvent → List ReviewEvent
unfolding drop
last_fifty xs = drop (length xs - 50) xs

unfoldable pub mark_permission_reviewed : InstalledPlugin → Option String → Option String → Review
unfolding normalize_review_text sorted_set minus drop
mark_permission_reviewed p reviewer review_reason =
    let granted = sorted_set (granted_permission_names p) in
    let denied = minus (requested_permissions p.metadata) (granted_permission_names p) in
    let who = normalize_review_text reviewer "system" in
    let why = normalize_review_text review_reason "not_provided" in
    let event : ReviewEvent = record {
      reviewer = who;
      reason = why;
      granted = granted;
      denied = denied;
    } in
    record (p.permission_review) {
      required = false;
      reviewed = true;
      reviewer = some who;
      review_reason = some why;
      granted = granted;
      denied = denied;
      history = last_fifty (p.permission_review.history ++ event ∷ []);
    }

unfoldable pub legacy_permission_review : PluginMetadata → Status → Decls → Review
unfolding new_install_permission_review status_eq
legacy_permission_review m status granted =
    let review = new_install_permission_review m in
    if status_eq status enabled || not (is_empty granted)
    then record review {
      required = false;
      reviewed = true;
      reason = "legacy_install_assumed_reviewed";
      granted = sorted_set (names granted);
    }
    else record review {
      reason = "legacy_install_pending_review";
      granted = sorted_set (names granted);
    }
