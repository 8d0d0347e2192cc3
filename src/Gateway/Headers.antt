-- ===== src/Gateway/Headers.antt =====
-- The bounds that modules/plugin_system/gateway.py sets on the headers of a response.
use humanoid_agi_plugin_syst.Prelude.{
  ℕ, ◌+◌, ◌≤◌, String, ◌≡◌, false, ◌||◌, List, [], ◌∷◌, arith, length, ltb, leb, All,
}
use humanoid_agi_plugin_syst.Prelude.Dict
use humanoid_agi_plugin_syst.Prelude.Dict.{Dict}
use humanoid_agi_plugin_syst.Prelude.Effects.{return, guard-eq-return}
use humanoid_agi_plugin_syst.Prelude.Text.{utf8_size}
use humanoid_agi_plugin_syst.Gateway.Target.{
  has_break, max_network_response_headers, max_network_response_header_bytes, headers_from,
  safe_response_headers,
}

-- The bytes of the names and values of all headers.
abbrev pub headers_size : List (String × String) → ℕ
headers_size [] = 0
headers_size ((name, value) ∷ headers) = utf8_size name + utf8_size value + headers_size headers

abbrev pub IsOneLine : String × String → Type 0
IsOneLine h = (has_break h.0 || has_break h.1) ≡ false

headers_from-bounds :
    (headers : List (String × String)) (index total : ℕ) (d safe : Dict String)
    → headers_from index total headers d ≡ return safe
    → index ≤ max_network_response_headers
    → total ≤ max_network_response_header_bytes
    → (index + length headers ≤ max_network_response_headers)
      × (total + headers_size headers ≤ max_network_response_header_bytes)
      × All IsOneLine headers
unfolding headers_from
headers_from-bounds [] index total d safe h few small =
    (omega (arith, few), omega (arith, small), tt)
headers_from-bounds ((name, value) ∷ headers) index total d safe h few small =
    let (room, h1) = guard-eq-return (leb max_network_response_headers index) _ _ h in
    let (one_line, h2) = guard-eq-return (has_break name || has_break value) _ _ h1 in
    let size = total + (utf8_size name + utf8_size value) in
    let (fits, h3) = guard-eq-return (ltb max_network_response_header_bytes size) _ _ h2 in
    let (count, bytes, lines) =
      headers_from-bounds headers (index + 1) size (Dict.put d name value) safe h3
        (ground (arith, room)) (ground (arith, fits)) in
    (omega (arith, count), omega (arith, bytes), (one_line, lines))

-- The headers of a response are handed to a plugin only if they are at most 100, their names and
-- values are at most 32 KiB in UTF-8, and none has a line break.
pub safe_response_headers-bounds :
    (headers : List (String × String)) (safe : Dict String)
    → safe_response_headers headers ≡ return safe
    → (length headers ≤ 100) × (headers_size headers ≤ 32768) × All IsOneLine headers
unfolding safe_response_headers
safe_response_headers-bounds headers safe h =
    let (count, bytes, lines) =
      headers_from-bounds headers 0 0 [] safe h (omega arith) (omega arith) in
    (omega (arith, count), omega (arith, bytes), lines)
