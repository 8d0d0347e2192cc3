-- ===== src/Marketplace/Reading.antt =====
-- That the loop of `_read_limited` in modules/plugin_system/marketplace.py ends, and with what.
use humanoid_agi_plugin_syst.Prelude.{
  ℕ, zero, suc, ◌+◌, ◌-◌, ◌≤◌, ◌<◌, ◌≡◌, refl, true, false, ◌⊎◌, inl, inr, Bool-cases, some, List,
  [], ◌∷◌, ◌++◌, arith, ltb, ltb-le, ltb-lt, length, length-append, is_empty,
}
use humanoid_agi_plugin_syst.Prelude.Effects.{Result, Exception, return, raise}
use humanoid_agi_plugin_syst.Marketplace.Entries.{refuse}
use humanoid_agi_plugin_syst.Marketplace.Sources.{mebibyte, min, read_loop, read_limited}

-- Calls of `read` one after another from this call on, which add to the data until a call gives
-- nothing, with this many bytes left to ask for.
pub data ReadsAll (read : ℕ → ℕ → List ℕ) : ℕ → ℕ → List ℕ → List ℕ → Type 0 where
  at_end :
      {call remaining : ℕ} {data_read : List ℕ}
      → is_empty (read call (min mebibyte (suc remaining))) ≡ true
      → ReadsAll read call (suc remaining) data_read data_read
  more :
      {call remaining : ℕ} {data_read whole : List ℕ}
      → is_empty (read call (min mebibyte (suc remaining))) ≡ false
      → ReadsAll read
          (call + 1)
          (suc remaining - length (read call (min mebibyte (suc remaining))))
          (data_read ++ read call (min mebibyte (suc remaining)))
          whole
      → ReadsAll read call (suc remaining) data_read whole

-- Calls of `read` one after another from this call on, each of which gave something, which brought
-- the data to this, whether or not there is more.
pub data ReadsSome (read : ℕ → ℕ → List ℕ) : ℕ → ℕ → List ℕ → List ℕ → Type 0 where
  so_far :
      {call remaining : ℕ} {data_read : List ℕ} → ReadsSome read call remaining data_read data_read
  and_more :
      {call remaining : ℕ} {data_read part : List ℕ}
      → is_empty (read call (min mebibyte (suc remaining))) ≡ false
      → ReadsSome read
          (call + 1)
          (suc remaining - length (read call (min mebibyte (suc remaining))))
          (data_read ++ read call (min mebibyte (suc remaining)))
          part
      → ReadsSome read call (suc remaining) data_read part

-- What the limit makes of a response: all of it, or an exception if what it has given is longer.
pub data Limited (read : ℕ → ℕ → List ℕ) (max_bytes : ℕ) : Result (List ℕ) → Type 0 where
  whole :
      {data_read : List ℕ}
      → ReadsAll read 0 (max_bytes + 1) [] data_read
      → length data_read ≤ max_bytes
      → Limited read max_bytes (return data_read)
  too_long :
      {e : Exception} (data_read : List ℕ)
      → ReadsSome read 0 (max_bytes + 1) [] data_read
      → max_bytes < length data_read
      → Limited read max_bytes (raise e)

module _ (read : ℕ → ℕ → List ℕ) where
  Ended : ℕ → ℕ → List ℕ → List ℕ → Type 0
  Ended call remaining data_read out =
      ReadsAll read call remaining data_read out
      ⊎ (ReadsSome read call remaining data_read out × (length data_read + remaining ≤ length out))

  ReadsAll-ReadsSome :
      {call remaining : ℕ} {data_read out : List ℕ}
      → ReadsAll read call remaining data_read out
      → ReadsSome read call remaining data_read out
  ReadsAll-ReadsSome (at_end e) = so_far
  ReadsAll-ReadsSome (more e rest) = and_more e (ReadsAll-ReadsSome rest)

  Ended-ReadsSome :
      (call remaining : ℕ) (data_read out : List ℕ)
      → Ended call remaining data_read out
      → ReadsSome read call remaining data_read out
  unfolding Ended
  Ended-ReadsSome call remaining data_read out (inl all) = ReadsAll-ReadsSome all
  Ended-ReadsSome call remaining data_read out (inr (part, long)) = part

  size-nonempty : (xs : List ℕ) → is_empty xs ≡ false → 1 ≤ length xs
  size-nonempty [] h = cc
  size-nonempty (x ∷ xs) h = omega arith

  Ended-step :
      (call remaining : ℕ) (data_read out : List ℕ)
      → is_empty (read call (min mebibyte (suc remaining))) ≡ false
      → Ended
          (call + 1)
          (suc remaining - length (read call (min mebibyte (suc remaining))))
          (data_read ++ read call (min mebibyte (suc remaining)))
          out
      → Ended call (suc remaining) data_read out
  unfolding Ended
  Ended-step call remaining data_read out nonempty (inl all) = inl (more nonempty all)
  Ended-step call remaining data_read out nonempty (inr (part, long)) =
      let chunk = read call (min mebibyte (suc remaining)) in
      inr (and_more nonempty part, omega (arith, length-append data_read chunk, long))

  both_bounds : (max_bytes n : ℕ) → n ≤ max_bytes → ¬ (0 + (max_bytes + 1) ≤ n)
  both_bounds max_bytes n few many = omega (arith, few, many)

  no_fuel : (n : ℕ) → ¬ (suc n ≤ 0)
  no_fuel n = omega arith

  read_loop-Ended :
      (fuel call remaining : ℕ) (data_read : List ℕ)
      → remaining ≤ fuel
      → (out : List ℕ) × (read_loop read fuel call remaining data_read ≡ some out)
        × Ended call remaining data_read out
  unfolding read_loop Ended
  read_loop-Ended fuel call zero data_read enough = (data_read, refl, inr (so_far, omega arith))
  read_loop-Ended zero call (suc remaining) data_read enough = elim (no_fuel remaining enough) [ ]
  read_loop-Ended (suc fuel) call (suc remaining) data_read enough =
      let chunk = read call (min mebibyte (suc remaining)) in
      elim (Bool-cases (is_empty chunk)) [
        | inl e ↦ (data_read, rw e refl, inl (at_end e))
        | inr e ↦
            let (out, same, ended) =
              read_loop-Ended fuel (call + 1) (suc remaining - length chunk) (data_read ++ chunk)
                (omega (arith, enough, size-nonempty chunk e)) in
            (out, rw (e, same) refl, Ended-step call remaining data_read out e ended)
      ]

  -- With one step of fuel for each byte of the limit and one more, reading a response ends: with all
  -- the bytes up to the end of the response, which are at most the limit, or with an exception after
  -- non-empty reads that gave more bytes than the limit.
  pub read_limited-Limited :
      (max_bytes : ℕ)
      → (r : Result (List ℕ)) × (read_limited read (max_bytes + 1) max_bytes ≡ some r)
        × Limited read max_bytes r
  unfolding read_limited Ended
  read_limited-Limited max_bytes =
      let (out, same, ended) = read_loop-Ended (max_bytes + 1) 0 (max_bytes + 1) [] (omega arith) in
      elim (Bool-cases (ltb max_bytes (length out))) [
        | inl e ↦ (
          refuse "registry response exceeds size limit",
          rw (same, e) refl,
          too_long out (Ended-ReadsSome 0 (max_bytes + 1) [] out ended)
              (ltb-lt max_bytes (length out) e),
        )
        | inr e ↦ (
          return out,
          rw (same, e) refl,
          elim ended [
            | inl all ↦ whole all (ltb-le max_bytes (length out) e)
            | inr (part, long) ↦
                elim (both_bounds max_bytes (length out) (ltb-le max_bytes (length out) e) long) [ ]
          ],
        )
      ]
