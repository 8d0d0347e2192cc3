-- ===== src/Gateway/Network.antt =====
-- The rules of modules/plugin_system/gateway.py on outbound requests: the URL, the method, the
-- whitelists of a plugin, and the addresses of a target. Parsing of URLs, patterns of file names,
-- the resolver and the exchange itself are a parameter.
use Prim.Native.String.{◌++◌ as append}
use humanoid_agi_plugin_syst.Prelude.{
  ℕ, String, Bool, true, false, not, ◌&&◌, ◌||◌, Option, none, some, List, [], ◌∷◌, map, ltb, leb,
  nat_eq, contains, or_default, ◌==◌, if◌then◌else◌,
}
use humanoid_agi_plugin_syst.Prelude.Effects.{Result, and_then, return, failure, permission_denied}
use humanoid_agi_plugin_syst.Prelude.Text.{
  strip, strip_end, char_count, has_char, has_part, any_code, chars,
}
use humanoid_agi_plugin_syst.Models.{
  Value, null, bool, num, str, arr, obj, Items, nil, cons, Fields, end, field, field?, truthy,
  network_outbound, PluginMetadata, InstalledPlugin, permission_rule, granted_permission_value,
}

-- The result of `urlparse`. Reading the port may raise.
pub record Url : Type 0 where
  pub scheme : String
  pub netloc : String
  pub has_credentials : Bool
  pub fragment : String
  pub hostname : String
  pub port : Result (Option ℕ)
  pub path : String
  pub query : String

-- An address, with what the module `ipaddress` says of it.
pub record Address : Type 0 where
  pub text : String
  pub is_loopback : Bool
  pub is_private : Bool
  pub is_link_local : Bool
  pub is_multicast : Bool
  pub is_reserved : Bool
  pub is_unspecified : Bool

-- What opening a request comes to: a response with its status, headers, size and text, an HTTP
-- error with its code and its header Location, or no connection.
pub data Answer : Type 0 where
  responded : ℕ → List (String × String) → ℕ → String → Answer
  http_error : ℕ → Option String → Answer
  unreachable : Answer

-- A request that was checked, less its plugin. The timeout is in thousandths of a second.
pub record Outgoing : Type 0 where
  pub url : String
  pub method : String
  pub body : Option Value
  pub timeout : ℕ

-- `resolve` takes the number of the look-up, as two of one name may differ. Times are in
-- thousandths of a second; a number below zero counts as zero. A missing host name is the empty text.
pub record Network : Type 0 where
  pub text_of : Value → String
  pub lower : String → String
  pub upper : String → String
  pub urlparse : String → Result Url
  pub urljoin : String → String → String
  pub fnmatchcase : String → String → Bool
  pub ip_address : String → Option Address
  pub resolve : ℕ → String → Result (List Address)
  pub milliseconds : Value → Option ℕ
  pub body_size : Value → ℕ
  pub exchange : Outgoing → List Address → Answer

abbrev pub denied : {A : Type 0} → String → Result A
denied message = failure permission_denied message

abbrev pub is_unsafe : ℕ → Bool
is_unsafe c = leb c 32 || nat_eq c 127

abbrev pub is_web : Url → Bool
is_web u = (u.scheme == "http" || u.scheme == "https") && not (u.netloc == "")

abbrev is_between : ℕ → ℕ → ℕ → Bool
is_between a b c = leb a c && leb c b

-- A character of the class [a-z0-9.*:-].
abbrev is_host_code : ℕ → Bool
is_host_code c =
    is_between b'a' b'z' c
    || is_between b'0' b'9' c
    || nat_eq c b'.'
    || nat_eq c b'*'
    || nat_eq c b':'
    || nat_eq c b'-'

keys_of : Fields → List String
keys_of end = []
keys_of (field k v fs) = k ∷ keys_of fs

-- The ports of a request and of a pattern, where neither raises.
abbrev port_allowed_by_pattern : Result (Option ℕ) → Result (Option ℕ) → Bool
port_allowed_by_pattern (return none) (return none) = true
port_allowed_by_pattern (return (some n)) (return (some k)) = nat_eq n k
port_allowed_by_pattern _ _ = false

module _ (net : Network) where
  unfoldable pub normalize_hostname : String → Bool → Result String
  normalize_hostname host allow_wildcard =
      let h = strip_end b'.' (net.lower (strip host)) in
      if h == ""
      then denied "network target hostname is required"
      else if ltb 253 (char_count h)
      then denied "network target hostname exceeds length limit"
      else if any_code is_unsafe h || has_char b'/' h || has_char b'\\' h || has_char b'@' h
      then denied "network target hostname contains unsafe characters"
      else if has_char b'*' h && not allow_wildcard
      then denied "network target hostname wildcards are not allowed"
      else if any_code (λ c. not (is_host_code c)) h
      then denied "network target hostname contains unsupported characters"
      else return h

  abbrev with_port : String → Option ℕ → String
  with_port host none = host
  with_port host (some n) = append host (append ":" (net.text_of (num n)))

  unfoldable pub canonical_netloc : Url → Result String
  unfolding normalize_hostname
  canonical_netloc u =
      and_then (normalize_hostname u.hostname true)
        (λ host. and_then u.port (λ port. return (with_port host port)))

  abbrev or_slash : String → String
  or_slash path = if path == "" then "/" else path

  abbrev with_query : String → String
  with_query query = if query == "" then "" else append "?" query

  unfoldable pub canonical_url_for_match : String → Result String
  unfolding canonical_netloc
  canonical_url_for_match url = and_then (net.urlparse url) (λ u.
      and_then (canonical_netloc u) (λ netloc. return (
        append (net.lower u.scheme)
          (append "://" (append netloc (append (or_slash u.path) (with_query u.query)))))))

  -- The items of a value that a loop can run over.
  item_texts : Items → List String
  item_texts nil = []
  item_texts (cons v vs) = net.text_of v ∷ item_texts vs

  abbrev pub iterated : Value → Option (List String)
  unfolding item_texts keys_of
  iterated (arr vs) = some (item_texts vs)
  iterated (obj fs) = some (keys_of fs)
  iterated (str s) = some (chars s)
  iterated _ = none

  -- Whether a pattern that names methods names this one.
  abbrev pub method_named : Option Value → String → Bool
  method_named none method = true
  method_named (some v) method = elim (iterated v) [
    | none ↦ false
    | some names ↦ contains (net.upper method) (map net.upper names)
  ]

  abbrev get_or : Fields → String → Value → Value
  get_or fs key other = elim (field? fs key) [
    | none ↦ other
    | some v ↦ if truthy v then v else other
  ]

  -- What a pattern is, and whether its methods let the request through.
  abbrev pattern_value : Value → Value
  pattern_value (obj fs) =
      get_or fs "url"
        (get_or fs "target" (get_or fs "pattern" (or_default (field? fs "host") null)))
  pattern_value v = v

  abbrev pattern_method : Value → String → Bool
  pattern_method (obj fs) method = method_named (field? fs "methods") method
  pattern_method v method = true

  abbrev with_scheme : String → String
  with_scheme pattern = if has_part "://" pattern then pattern else append "https://" pattern

  abbrev has_path : Url → Bool
  has_path u = not (u.path == "" || u.path == "/") || not (u.query == "")

  -- The comparison of a request with one pattern.
  unfoldable pub pattern_allows : Url → String → String → Url → Result Bool
  unfolding canonical_url_for_match canonical_netloc
  pattern_allows u url pattern p =
      if not (is_web p) || p.has_credentials || not (port_allowed_by_pattern u.port p.port)
      then return false
      else if has_path p
      then and_then (canonical_url_for_match url)
          (λ a. and_then (canonical_url_for_match pattern) (λ b. return (net.fnmatchcase a b)))
      else if p.scheme == u.scheme
      then and_then (canonical_netloc u)
          (λ a. and_then (canonical_netloc p) (λ b. return (net.fnmatchcase a b)))
      else return false

  unfoldable pub value_allows : Url → String → String → Value → Result Bool
  unfolding pattern_allows
  value_allows u url method v =
      let text = strip (net.text_of (pattern_value v)) in
      if not (pattern_method v method) || text == ""
      then return false
      else and_then (net.urlparse (with_scheme text)) (pattern_allows u url (with_scheme text))

  unfoldable pub any_allows : Url → String → String → Items → Result Bool
  unfolding value_allows
  any_allows u url method nil = return false
  any_allows u url method (cons v vs) =
      let rest = any_allows u url method vs in
      and_then (value_allows u url method v) (λ b. if b then return true else rest)

  abbrev patterns_of : Value → Items
  patterns_of (arr vs) = vs
  patterns_of v = cons v nil

  abbrev is_true : Value → Bool
  is_true (bool b) = b
  is_true v = false

  unfoldable pub network_rule_allows : Value → String → String → Result Bool
  unfolding any_allows
  network_rule_allows rule url method =
      and_then (net.urlparse url)
        (λ u. if is_true rule then return false else any_allows u url method (patterns_of rule))

  -- Both what the plugin declares and what it was granted must let the request through.
  unfoldable pub url_allowed : PluginMetadata → InstalledPlugin → String → String → Result Bool
  unfolding network_rule_allows
  url_allowed m p url method = and_then (net.urlparse url) (λ u.
      if not (is_web u)
      then return false
      else and_then
          (network_rule_allows (permission_rule m network_outbound (bool false)) url method)
          (λ declared.
            if declared
            then network_rule_allows (granted_permission_value p network_outbound (bool false)) url
                method
            else return false))
