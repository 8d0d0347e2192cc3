-- ===== src/Gateway/Target.antt =====
-- What modules/plugin_system/gateway.py checks of an outbound request around the whitelists: its
-- parts, the addresses of its target, redirections, and the response.
use humanoid_agi_plugin_syst.Prelude.{
  ℕ, ◌+◌, ◌*◌, String, Bool, true, false, not, ◌&&◌, ◌||◌, Option, none, some, is_some, List, [],
  ◌∷◌, map, ltb, leb, any, all, contains, is_empty, ◌==◌, if◌then◌else◌,
}
use humanoid_agi_plugin_syst.Prelude.Dict
use humanoid_agi_plugin_syst.Prelude.Dict.{Dict}
use humanoid_agi_plugin_syst.Prelude.Effects.{Result, and_then, return, raise, permission_denied}
use humanoid_agi_plugin_syst.Prelude.Text.{strip, char_count, has_char, any_code, utf8_size}
use humanoid_agi_plugin_syst.Models.{
  Value, null, num, str, obj, Fields, end, field, field?, PluginMetadata, InstalledPlugin,
}
use humanoid_agi_plugin_syst.Gateway.Network.{
  Url, Address, Answer, responded, http_error, unreachable, Outgoing, Network, denied, is_unsafe,
  is_web, normalize_hostname, url_allowed,
}

abbrev max_network_url_length : ℕ
max_network_url_length = 2048

abbrev max_network_request_body_bytes : ℕ
max_network_request_body_bytes = 64 * 1024

abbrev pub max_network_response_bytes : ℕ
max_network_response_bytes = 1024 * 1024

abbrev pub max_network_response_header_bytes : ℕ
max_network_response_header_bytes = 32 * 1024

abbrev pub max_network_response_headers : ℕ
max_network_response_headers = 100

abbrev pub has_break : String → Bool
has_break s = has_char 13 s || has_char 10 s

-- The loop of `_safe_response_headers`, with the number of headers seen and their size so far.
unfoldable pub headers_from : ℕ → ℕ → List (String × String) → Dict String → Result (Dict String)
headers_from index total [] sanitized = return sanitized
headers_from index total ((name, value) ∷ headers) sanitized =
    let size = total + (utf8_size name + utf8_size value) in
    let rest = headers_from (index + 1) size headers (Dict.put sanitized name value) in
    if leb max_network_response_headers index
    then denied "network response has too many headers"
    else if has_break name || has_break value
    then denied "network response contains unsafe headers"
    else if ltb max_network_response_header_bytes size
    then denied "network response headers exceed size limit"
    else rest

unfoldable pub safe_response_headers : List (String × String) → Result (Dict String)
unfolding headers_from
safe_response_headers headers = headers_from 0 0 headers []

-- `_is_blocked_address`.
unfoldable pub is_blocked_address : Address → Bool
is_blocked_address a =
    a.text == "169.254.169.254"
    || a.text == "fd00:ec2::254"
    || a.is_loopback
    || a.is_private
    || a.is_link_local
    || a.is_multicast
    || a.is_reserved
    || a.is_unspecified

abbrev texts : List Address → List String
texts = map (λ a. a.text)

-- Whether two sets of addresses are equal.
unfoldable pub same_addresses : List Address → List Address → Bool
same_addresses xs ys =
    all (λ a. contains a.text (texts ys)) xs && all (λ b. contains b.text (texts xs)) ys

fields_of : Dict String → Fields
fields_of [] = end
fields_of ((k, v) ∷ d) = field k (str v) (fields_of d)

module _ (net : Network) where
  abbrev pub trimmed_url : Fields → String
  trimmed_url payload = strip (elim (field? payload "url") [ none ↦ "" | some v ↦ net.text_of v ])

  abbrev pub upper_method : Fields → String
  upper_method payload =
      net.upper (elim (field? payload "method") [ none ↦ "GET" | some v ↦ net.text_of v ])

  abbrev check_port : String → Result (Option ℕ) → Result String
  check_port url (return port) = return url
  check_port url (raise e) = denied "network target has an invalid port"

  abbrev check_url : String → Url → Result String
  check_url url u =
      if not (is_web u)
      then denied "network target is invalid"
      else if u.has_credentials
      then denied "network URL credentials are not allowed"
      else if not (u.fragment == "")
      then denied "network URL fragments are not allowed"
      else if u.hostname == ""
      then denied "network target is invalid"
      else and_then (normalize_hostname net u.hostname false) (λ host. check_port url u.port)

  -- `_network_url`, of the text of the URL.
  unfoldable pub network_url : String → Result String
  unfolding normalize_hostname
  network_url url =
      if url == ""
      then denied "network URL is required"
      else if ltb max_network_url_length (char_count url)
      then denied "network URL exceeds length limit"
      else if any_code is_unsafe url
      then denied "network URL contains unsafe characters"
      else and_then (net.urlparse url) (check_url url)

  unfoldable pub network_method : Fields → Result String
  network_method payload =
      let method = upper_method payload in
      if method == "GET" || method == "POST"
      then return method
      else denied "only GET and POST are allowed through the gateway"

  abbrev check_timeout : Option ℕ → Result ℕ
  check_timeout none = denied "network timeout must be a number"
  check_timeout (some t) =
      if leb 100 t && leb t 10000 then return t else denied "network timeout is out of range"

  unfoldable pub network_timeout : Fields → Result ℕ
  network_timeout payload =
      check_timeout
        (elim (field? payload "timeout") [ none ↦ some 5000 | some v ↦ net.milliseconds v ])

  abbrev no_headers : Value → Bool
  no_headers null = true
  no_headers (obj end) = true
  no_headers v = false

  unfoldable pub reject_custom_network_headers : Fields → Result (Unit {0})
  reject_custom_network_headers payload =
      if elim (field? payload "headers") [ none ↦ true | some v ↦ no_headers v ]
      then return tt
      else denied "custom network headers are not allowed through the gateway"

  abbrev check_body : String → Value → Result (Option Value)
  check_body method null = return none
  check_body method v =
      if not (method == "POST")
      then denied "network request bodies are only allowed for POST"
      else if ltb max_network_request_body_bytes (net.body_size v)
      then denied "network request body exceeds size limit"
      else return (some v)

  unfoldable pub network_body_bytes : String → Fields → Result (Option Value)
  network_body_bytes method payload = elim (field? payload "body") [
    | none ↦ return none
    | some v ↦ check_body method v
  ]

  -- What is checked of a request before the whitelists.
  unfoldable pub outgoing_of : Fields → Result Outgoing
  unfolding network_url network_method network_timeout reject_custom_network_headers
      network_body_bytes
  outgoing_of payload = and_then (network_url (trimmed_url payload)) (λ url.
      and_then (network_method payload) (λ method. and_then (network_timeout payload) (λ timeout.
        and_then (reject_custom_network_headers payload) (λ _.
          and_then (network_body_bytes method payload) (λ body.
            return (record { url = url; method = method; body = body; timeout = timeout }))))))

  abbrev pub check_addresses : Result (List Address) → Result (List Address)
  check_addresses (raise e) = denied "network target cannot be resolved"
  check_addresses (return addresses) =
      if is_empty addresses
      then denied "network target cannot be resolved"
      else if any is_blocked_address addresses
      then denied "network target resolves to a blocked address"
      else return addresses

  -- `_resolve_host_addresses`, in the look-up of this number.
  unfoldable pub resolve_host_addresses : ℕ → String → Result (List Address)
  unfolding normalize_hostname
  resolve_host_addresses round host =
      and_then (normalize_hostname net host false)
        (λ h. elim (net.ip_address h) [ some a ↦ return (a ∷ []) | none ↦ net.resolve round h ])

  abbrev pub check_host : ℕ → String → Result (List Address)
  check_host round host =
      if is_some (net.ip_address host)
      then denied "IP literal network targets are not allowed"
      else check_addresses (resolve_host_addresses round host)

  -- `_validate_network_target`.
  unfoldable pub validate_network_target : ℕ → String → Result (List Address)
  unfolding is_blocked_address resolve_host_addresses normalize_hostname
  validate_network_target round url = and_then (net.urlparse url) (λ u.
      if u.hostname == ""
      then denied "network target is invalid"
      else and_then (normalize_hostname net u.hostname false) (check_host round))

  unfoldable pub reject_dns_rebinding : String → List Address → Result (Unit {0})
  unfolding validate_network_target same_addresses
  reject_dns_rebinding url first =
      and_then (validate_network_target 1 url) (λ second.
        if same_addresses second first then return tt else denied "DNS rebinding detected")

  -- The checks of the target of a redirection.
  abbrev redirect_checks :
      PluginMetadata → InstalledPlugin → String → String → Result (List Address)
  redirect_checks m p method target = and_then (network_url target) (λ url.
      and_then (url_allowed net m p url method) (λ allowed.
        if not allowed
        then denied "network redirect target is not whitelisted"
        else validate_network_target 2 url))

  -- Whatever the checks say, a redirection is refused; an exception of another class goes on.
  abbrev pub redirect_outcome : Result (List Address) → Result (Unit {0})
  redirect_outcome (return addresses) = denied "network redirect denied"
  redirect_outcome (raise e) = elim e.type [
    | permission_denied ↦ denied "network redirect denied"
    | _ ↦ raise e
  ]

  abbrev redirect_to :
      PluginMetadata → InstalledPlugin → Outgoing → Option String → Result (Unit {0})
  redirect_to m p out none = denied "network redirect denied: missing Location header"
  redirect_to m p out (some location) =
      if location == ""
      then denied "network redirect denied: missing Location header"
      else redirect_outcome (redirect_checks m p out.method (strip (net.urljoin out.url location)))

  unfoldable pub raise_network_redirect_denied :
      PluginMetadata → InstalledPlugin → Outgoing → ℕ → Option String → Result (Unit {0})
  unfolding network_url url_allowed validate_network_target
  raise_network_redirect_denied m p out code location =
      if not (leb 300 code && ltb code 400) then return tt else redirect_to m p out location

  unfoldable pub receive :
      PluginMetadata → InstalledPlugin → Outgoing → List Address → Answer → Result Value
  unfolding reject_dns_rebinding safe_response_headers raise_network_redirect_denied fields_of
  receive m p out first (responded status headers size body) =
      and_then (reject_dns_rebinding out.url first) (λ _.
        if ltb max_network_response_bytes size
        then denied "network response exceeds size limit"
        else and_then (safe_response_headers headers) (λ safe. return (
            obj (
              field "status_code" (num status)
                (field "headers" (obj (fields_of safe)) (field "body" (str body) end))))))
  receive m p out first (http_error code location) =
      and_then (raise_network_redirect_denied m p out code location)
        (λ _. denied "network request failed")
  receive m p out first unreachable = denied "network request failed"

  -- The rest of `network_request`, for a plugin with the permission.
  unfoldable pub send : PluginMetadata → InstalledPlugin → Outgoing → Result Value
  unfolding url_allowed validate_network_target receive
  send m p out = and_then (url_allowed net m p out.url out.method) (λ allowed.
      if not allowed
      then denied "network target is not whitelisted"
      else and_then (validate_network_target 0 out.url)
          (λ first. receive m p out first (net.exchange out first)))
