-- ===== src/EventBus/Delivery.antt =====
-- Who is called for an event: the subscribers of modules/plugin_system/event_bus.py.
use mathlib.Core.Path.{subst}
use humanoid_agi_plugin_syst.Prelude.{
  ℕ, String, ◌≡◌, ◌⊎◌, ap, refl, false, not, ◌&&◌, ◌||◌, none, some, List, [], ◌∷◌, ◌++◌, arith,
  nat_eq, ◌==◌, eq_iff, or_default, Bool-cases, Option-cases, inl, inr,
}
use humanoid_agi_plugin_syst.Prelude.Dict
use humanoid_agi_plugin_syst.EventBus.{
  EventBus, listed, add, remove, subscribe, unsubscribe, callbacks,
}

-- Every list of the bus holds a callback at most once.
abbrev Once : List ℕ → Type 0
Once [] = Unit
Once (x ∷ xs) = (listed x xs ≡ false) × Once xs

pub record IsDistinct (b : EventBus) : Type 0 where
  pub named : (event : String) (xs : List ℕ) → Dict.get b.listeners event ≡ some xs → Once xs
  pub wild : Once b.wildcard_listeners

listed-append : (c : ℕ) (xs ys : List ℕ) → listed c (xs ++ ys) ≡ (listed c xs || listed c ys)
listed-append c [] ys = refl
listed-append c (x ∷ xs) ys = ground (arith, listed-append c xs ys)

Once-snoc : (c : ℕ) (xs : List ℕ) → Once xs → listed c xs ≡ false → Once (xs ++ c ∷ [])
Once-snoc c [] h e = (refl, tt)
Once-snoc c (x ∷ xs) h e =
    (ground (arith, listed-append x xs (c ∷ [])), Once-snoc c xs h.1 (ground arith))

add-Once : (c : ℕ) (xs : List ℕ) → Once xs → Once (add c xs)
unfolding add
add-Once c xs h = elim (Bool-cases (listed c xs)) [
  | inl e ↦ rw e h
  | inr e ↦ rw e (Once-snoc c xs h e)
]

listed-add : (c d : ℕ) (xs : List ℕ) → listed d (add c xs) ≡ (nat_eq c d || listed d xs)
unfolding add
listed-add c d xs = ground (arith, listed-append d xs (c ∷ []))

listed-remove :
    (c d : ℕ) (xs : List ℕ) → Once xs → listed d (remove c xs) ≡ (not (nat_eq c d) && listed d xs)
unfolding remove
listed-remove c d [] h = ground arith
listed-remove c d (x ∷ xs) h = ground (arith, listed-remove c d xs h.1)

remove-Once : (c : ℕ) (xs : List ℕ) → Once xs → Once (remove c xs)
unfolding remove
remove-Once c [] h = tt
remove-Once c (x ∷ xs) h = elim (Bool-cases (nat_eq x c)) [
  | inl e ↦ rw e h.1
  | inr e ↦ rw e (ground (arith, listed-remove c x xs h.1), remove-Once c xs h.1)
]

abbrev named_list : EventBus → String → List ℕ
named_list b event = or_default (Dict.get b.listeners event) []

named_list-Once : (b : EventBus) (event : String) → IsDistinct b → Once (named_list b event)
named_list-Once b event h = elim (Option-cases (Dict.get b.listeners event)) [
  | inl e ↦ rw e tt
  | inr (xs, e) ↦ rw e (h.named event xs e)
]

-- Writing one list of callbacks that holds each at most once.
put-IsDistinct :
    (b : EventBus) (event : String) (xs : List ℕ)
    → IsDistinct b
    → Once xs
    → IsDistinct (record b { listeners = Dict.put b.listeners event xs })
put-IsDistinct b event xs h o = record {
  named = λ k ys e. elim (Bool-cases (event == k)) [
    | inl same ↦
        let q : xs ≡ ys = ground (arith, Dict.get-put b.listeners event k xs) in subst Once q o
    | inr other ↦ h.named k ys (ground (arith, Dict.get-put b.listeners event k xs))
  ];
  wild = h.wild;
}

-- However often callbacks are subscribed and unsubscribed, no list holds one twice, so that one
-- event calls a subscriber at most once for its name and once as a wildcard.
pub subscribe-IsDistinct :
    (event : String) (c : ℕ) (b : EventBus)
    → IsDistinct b
    → IsDistinct (subscribe event c b) × IsDistinct (unsubscribe event c b)
unfolding subscribe unsubscribe
subscribe-IsDistinct event c b h = elim (Bool-cases (event == "*")) [
  | inl e ↦ rw e (
    record { named = h.named; wild = add-Once c b.wildcard_listeners h.wild },
    record { named = h.named; wild = remove-Once c b.wildcard_listeners h.wild },
  )
  | inr e ↦ rw e (
    put-IsDistinct b event _ h (add-Once c (named_list b event) (named_list-Once b event h)),
    removed (Option-cases (Dict.get b.listeners event)),
  )
]
  where
    removed :
        (Dict.get b.listeners event ≡ none)
          ⊎ ((xs : List ℕ) × (Dict.get b.listeners event ≡ some xs))
        → IsDistinct (elim (Dict.get b.listeners event) [
          | none ↦ b
          | some xs ↦ record b { listeners = Dict.put b.listeners event (remove c xs) }
        ])
    removed (inl q) = rw q h
    removed (inr (xs, q)) =
        rw q (put-IsDistinct b event (remove c xs) h (remove-Once c xs (h.named event xs q)))

-- A callback is called for an event exactly if it was before or it is the one just subscribed, to
-- that event or to all of them.
pub callbacks-subscribe :
    (event name : String) (c d : ℕ) (b : EventBus)
    → listed d (callbacks (subscribe event c b) name)
      ≡ (((event == "*" || event == name) && nat_eq c d) || listed d (callbacks b name))
unfolding subscribe callbacks
callbacks-subscribe event name c d b = elim (Bool-cases (event == "*")) [
  | inl e ↦ rw e (
      ground (
        arith,
        listed-append d (named_list b name) b.wildcard_listeners,
        listed-append d (named_list b name) (add c b.wildcard_listeners),
        listed-add c d b.wildcard_listeners,
      ))
  | inr e ↦
      rw (e, Dict.get-put)
        (elim (Bool-cases (event == name)) [
          | inl same ↦
              let q : event ≡ name = (eq_iff event name).0 same in
              rw same (
                ground (
                  arith,
                  ap (λ k. named_list b k) q,
                  listed-append d (named_list b name) b.wildcard_listeners,
                  listed-append d (add c (named_list b event)) b.wildcard_listeners,
                  listed-add c d (named_list b event),
                ))
          | inr other ↦ rw other
        ])
]
