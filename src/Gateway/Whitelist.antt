-- ===== src/Gateway/Whitelist.antt =====
-- What a request to the network that modules/plugin_system/gateway.py lets through has passed.
use humanoid_agi_plugin_syst.Prelude.{
  not-false, ℕ, String, ◌≡◌, ◌⊎◌, inl, inr, refl, ap, ◌∙◌, sym, true, false, not, ◌&&◌, ◌||◌, some,
  List, arith, any, is_empty, is_some, ◌==◌, eq_iff, Bool-cases, Option-cases,
}
use humanoid_agi_plugin_syst.Prelude.Effects.{
  Result, guard-eq-return, need-eq-return, and-eq-return, unless-eq-return, and_then-eq-return,
  Result-cases, continue-eq-return, ◌>>=◌, return, raise,
}
use humanoid_agi_plugin_syst.Models.{
  Value, bool, Fields, enabled, status_eq, network_outbound, PermissionName, PluginMetadata,
  InstalledPlugin, permission_rule, granted_permission_value, has_permission,
  has_granted_permission,
}
use humanoid_agi_plugin_syst.Gateway.Types.{Gateway, Outside}
use humanoid_agi_plugin_syst.Gateway.Requests.{
  known, metadata_for, require, network_checks, network_request,
}
use humanoid_agi_plugin_syst.Gateway.Denial.{entitles, may, require-denied}
use humanoid_agi_plugin_syst.Gateway.Network.{
  Address, Answer, responded, http_error, unreachable, Outgoing, Network, is_web,
  normalize_hostname, network_rule_allows, url_allowed,
}
use humanoid_agi_plugin_syst.Gateway.Target.{
  upper_method, trimmed_url, is_blocked_address, same_addresses, network_url, network_method,
  network_timeout, reject_custom_network_headers, network_body_bytes, outgoing_of, check_addresses,
  resolve_host_addresses, raise_network_redirect_denied, validate_network_target,
  reject_dns_rebinding, receive, send,
}

-- The addresses that a host name resolves to, where its check passes.
pub record Resolved (net : Network) (round : ℕ) (url : String) (addresses : List Address)
    : Type 0 where
  pub found : validate_network_target net round url ≡ return addresses
  pub open_to_plugins : any is_blocked_address addresses ≡ false

-- The whitelists let the request through, and its target resolved twice to the same addresses,
-- none of which is blocked.
pub record LetThrough (net : Network) (m : PluginMetadata) (p : InstalledPlugin) (out : Outgoing)
    : Type 0 where
  pub declared :
      network_rule_allows net (permission_rule m network_outbound (bool false)) out.url out.method
      ≡ return true
  pub granted :
      network_rule_allows net
        (granted_permission_value p network_outbound (bool false))
        out.url
        out.method
      ≡ return true
  pub first : List Address
  pub second : List Address
  pub first_found : Resolved net 0 out.url first
  pub second_found : Resolved net 1 out.url second
  pub unchanged : same_addresses second first ≡ true
  pub answered :
      (status : ℕ) × (headers : List (String × String)) × (size : ℕ) × (body : String)
      × (net.exchange out first ≡ responded status headers size body)

module _ (net : Network) where
  check_addresses_open :
      (r : Result (List Address)) (addresses : List Address)
      → check_addresses net r ≡ return addresses
      → any is_blocked_address addresses ≡ false
  check_addresses_open (raise e) addresses h = cc
  check_addresses_open (return found) addresses h =
      let (some_found, h') = guard-eq-return (is_empty found) _ _ h in
      let (none_blocked, e) = guard-eq-return (any is_blocked_address found) _ _ h' in cc

  validate_network_target-Resolved :
      (round : ℕ) (url : String) (addresses : List Address)
      → validate_network_target net round url ≡ return addresses
      → Resolved net round url addresses
  unfolding validate_network_target
  validate_network_target-Resolved round url addresses h =
      let (u, parsed, h1) = and_then-eq-return (net.urlparse url) _ h in
      let (named, h2) = guard-eq-return (u.hostname == "") _ _ h1 in
      let (host, normal, h3) = and_then-eq-return (normalize_hostname net u.hostname false) _ h2 in
      let (not_literal, h4) = guard-eq-return (is_some (net.ip_address host)) _ _ h3 in
      record {
        found = h;
        open_to_plugins = check_addresses_open (resolve_host_addresses net round host) addresses h4;
      }

  module _ (m : PluginMetadata) (p : InstalledPlugin) (out : Outgoing) where
    url_allowed-rules :
        (url method : String)
        → url_allowed net m p url method ≡ return true
        → (network_rule_allows net (permission_rule m network_outbound (bool false)) url method
            ≡ return true)
          × (network_rule_allows net
                (granted_permission_value p network_outbound (bool false))
                url
                method
              ≡ return true)
    unfolding url_allowed
    url_allowed-rules url method h =
        let (u, parsed, h1) = and_then-eq-return (net.urlparse url) _ h in
        let (web, h2) = unless-eq-return (not (is_web u)) _ h1 in
        let (declared, ruled, h3) =
          and_then-eq-return
            (network_rule_allows net (permission_rule m network_outbound (bool false)) url method) _
            h2 in
        let (is_on, h4) = and-eq-return declared _ h3 in (ruled ∙ ap return is_on, h4)

    receive_LetThrough :
        (first : List Address) (answer : Answer) (v : Value)
        → receive net m p out first answer ≡ return v
        → (second : List Address) × Resolved net 1 out.url second
          × (same_addresses second first ≡ true)
          × ((status : ℕ) × (headers : List (String × String)) × (size : ℕ) × (body : String)
              × (answer ≡ responded status headers size body))
    unfolding receive reject_dns_rebinding
    receive_LetThrough first (http_error code location) v h =
        let (u, passed, h1) =
          and_then-eq-return (raise_network_redirect_denied net m p out code location) _ h in
        cc
    receive_LetThrough first unreachable v h = cc
    receive_LetThrough first (responded status headers size body) v h =
        let (u, checked, h1) = and_then-eq-return (reject_dns_rebinding net out.url first) _ h in
        let (second, found, h2) =
          and_then-eq-return (validate_network_target net 1 out.url) _ checked in
        (
          second,
          validate_network_target-Resolved 1 out.url second found,
          (need-eq-return (same_addresses second first) _ _ h2).0,
          (status, headers, size, body, refl),
        )

    send-LetThrough : (v : Value) → send net m p out ≡ return v → LetThrough net m p out
    unfolding send
    send-LetThrough v h =
        let (allowed, decided, h1) =
          and_then-eq-return (url_allowed net m p out.url out.method) _ h in
        let (not_barred, h2) = guard-eq-return (not allowed) _ _ h1 in
        let (first, found, h3) = and_then-eq-return (validate_network_target net 0 out.url) _ h2 in
        let (second, resolved, unchanged, answered) =
          receive_LetThrough first (net.exchange out first) v h3 in
        let (declared, granted) =
          url_allowed-rules out.url out.method
            (decided ∙ ap return (not-false allowed not_barred)) in
        record {
          declared = declared;
          granted = granted;
          first = first;
          second = second;
          first_found = validate_network_target-Resolved 0 out.url first found;
          second_found = resolved;
          unchanged = unchanged;
          answered = answered;
        }

network_method-allowed :
    (net : Network) (payload : Fields) (method : String)
    → network_method net payload ≡ return method
    → (method ≡ "GET") ⊎ (method ≡ "POST")
unfolding network_method
network_method-allowed net payload method h =
    let (listed, same) =
      need-eq-return (upper_method net payload == "GET" || upper_method net payload == "POST") _ _
        h in
    ground (
      arith,
      eq_iff (upper_method net payload) "GET",
      eq_iff (upper_method net payload) "POST",
      listed,
      same,
    )

outgoing_of-method :
    (net : Network) (payload : Fields) (out : Outgoing)
    → outgoing_of net payload ≡ return out
    → (out.method ≡ "GET") ⊎ (out.method ≡ "POST")
unfolding outgoing_of
outgoing_of-method net payload out h =
    let (url, h1, h2) = and_then-eq-return (network_url net (trimmed_url net payload)) _ h in
    let (method, m1, m2) = and_then-eq-return (network_method net payload) _ h2 in
    let (t, t1, t2) = and_then-eq-return (network_timeout net payload) _ m2 in
    let (u, u1, u2) = and_then-eq-return (reject_custom_network_headers net payload) _ t2 in
    let (body, b1, b2) = and_then-eq-return (network_body_bytes net method payload) _ u2 in
    let same : method ≡ out.method = cc in
    rw (sym same) (network_method-allowed net payload method m1)

-- A plugin that is known and enabled and was granted the permission.
pub record Entitled (g : Gateway) (name : String) (permission : PermissionName)
    (p : InstalledPlugin) : Type 0 where
  pub is_known : known g name ≡ some p
  pub is_on : status_eq p.status enabled ≡ true
  pub has_grant : has_granted_permission p permission ≡ true

may-Entitled :
    (g : Gateway) (name : String) (permission : PermissionName)
    → may g name permission ≡ true
    → (p : InstalledPlugin) × Entitled g name permission p
unfolding entitles
may-Entitled g name permission h = elim (Option-cases (known g name)) [
  | inl e ↦ let q = rw (e, entitles) at h in cc
  | inr (p, e) ↦
      let both : (status_eq p.status enabled && has_granted_permission p permission) ≡ true =
        rw (e, entitles) at h in
      (p, record { is_known = e; is_on = ground (arith, both); has_grant = ground (arith, both) })
]

-- A request that returned was asked for by a plugin that declares the permission, is enabled and was
-- granted it, and it is a GET or a POST that the whitelists let through.
pub record Answered (env : Outside) (m : PluginMetadata) (payload : Fields) (g : Gateway)
    : Type 0 where
  pub declares : has_permission m network_outbound ≡ true
  pub plugin : InstalledPlugin
  pub entitled : Entitled g m.name network_outbound plugin
  pub out : Outgoing
  pub outgoing : outgoing_of env.network payload ≡ return out
  pub method : (out.method ≡ "GET") ⊎ (out.method ≡ "POST")
  pub let_through : LetThrough env.network m plugin out

require-Entitled :
    (g : Gateway) (m : PluginMetadata) (permission : PermissionName) (p : InstalledPlugin)
    → Entitled g m.name permission p
    → require m permission g ≡ (return tt, g)
unfolding require metadata_for ◌>>=◌
require-Entitled g m permission p h = rw (h.is_known, h.is_on, h.has_grant) refl

network_checks-Answered :
    (env : Outside) (m : PluginMetadata) (payload : Fields) (g : Gateway) (v : Value)
    → (network_checks env m payload g).0 ≡ return v
    → Answered env m payload g
unfolding network_checks metadata_for ◌>>=◌
network_checks-Answered env m payload g v h =
    elim (Bool-cases (has_permission m network_outbound)) [
      | inr e ↦ let q = rw e at h in cc
      | inl e ↦ elim (Bool-cases (may g m.name network_outbound)) [
        | inr denied_it ↦
            let (msg, r) = require-denied g m network_outbound denied_it in
            let q = rw (e, r) at h in cc
        | inl ok ↦
            let (p, entitled) = may-Entitled g m.name network_outbound ok in
            let h1 = rw (e, require-Entitled g m network_outbound p entitled) at h in
            let (out, outgoing, h2) = continue-eq-return (outgoing_of env.network payload) _ g h1 in
            let h3 = rw (entitled.is_known, entitled.is_on) at h2 in
            record {
              declares = e;
              plugin = p;
              entitled = entitled;
              out = out;
              outgoing = outgoing;
              method = outgoing_of-method env.network payload out outgoing;
              let_through = send-LetThrough env.network m p out v h3;
            }
      ]
    ]

-- A request to the network that returns was made for a plugin that declares the permission, is known
-- and enabled and was granted it; it is a GET or a POST that both the declared and the granted rules
-- allow; its target resolved to addresses none of which is blocked, the same before and after the
-- connection was opened to them; and the answer was no HTTP error, so that no redirection is followed.
pub network_request-Answered :
    (env : Outside) (m : PluginMetadata) (payload : Fields) (g : Gateway) (v : Value)
    → (network_request env m payload g).0 ≡ return v
    → Answered env m payload g
unfolding network_request
network_request-Answered env m payload g v h =
    elim (Result-cases (network_checks env m payload g).0) [
      | inl (w, e) ↦ network_checks-Answered env m payload g w e
      | inr (x, e) ↦ let q = rw (e, network_request) at h in cc
    ]
