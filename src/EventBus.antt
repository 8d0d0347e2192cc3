-- ===== src/EventBus.antt =====
-- modules/plugin_system/event_bus.py: the listeners of events and their calls. A callback is the
-- number of its function object, and two are equal if they are one object.
pub mod Delivery
use humanoid_agi_plugin_syst.Prelude.{
  ℕ, ◌+◌, String, Bool, true, false, ◌||◌, Option, none, some, List, [], ◌∷◌, ◌++◌, nat_eq, ◌==◌,
  length, or_default, if◌then◌else◌,
}
use humanoid_agi_plugin_syst.Prelude.Dict
use humanoid_agi_plugin_syst.Prelude.Dict.{Dict}
use humanoid_agi_plugin_syst.Prelude.Effects.{Result, return, raise}
use humanoid_agi_plugin_syst.Models.{Value, str, obj, end, field}

pub record Event : Type 0 where
  pub name : String
  pub payload : Value
  pub source : String

pub record EventBus : Type 0 where
  pub listeners : Dict (List ℕ)
  pub wildcard_listeners : List ℕ

abbrev pub empty_bus : EventBus
empty_bus = record { listeners = []; wildcard_listeners = [] }

abbrev pub listed : ℕ → List ℕ → Bool
listed c [] = false
listed c (x ∷ xs) = nat_eq x c || listed c xs

-- `if callback not in xs: xs.append(callback)`.
unfoldable pub add : ℕ → List ℕ → List ℕ
add c xs = if listed c xs then xs else xs ++ c ∷ []

-- `if callback in xs: xs.remove(callback)`: the first of them goes.
unfoldable pub remove : ℕ → List ℕ → List ℕ
remove c [] = []
remove c (x ∷ xs) = let rest = remove c xs in if nat_eq x c then xs else x ∷ rest

abbrev pub listeners_of : EventBus → String → List ℕ
unfolding Dict.get
listeners_of b event = or_default (Dict.get b.listeners event) []

unfoldable pub subscribe : String → ℕ → EventBus → EventBus
unfolding add
subscribe event c b =
    if event == "*"
    then record b { wildcard_listeners = add c b.wildcard_listeners }
    else record b {
      listeners = Dict.put b.listeners event (add c (or_default (Dict.get b.listeners event) []));
    }

unfoldable pub unsubscribe : String → ℕ → EventBus → EventBus
unfolding remove
unsubscribe event c b =
    if event == "*"
    then record b { wildcard_listeners = remove c b.wildcard_listeners }
    else elim (Dict.get b.listeners event) [
      | none ↦ b
      | some xs ↦ record b { listeners = Dict.put b.listeners event (remove c xs) }
    ]

-- The callbacks of an event, in the order of their calls.
unfoldable pub callbacks : EventBus → String → List ℕ
callbacks b name = or_default (Dict.get b.listeners name) [] ++ b.wildcard_listeners

module _ (call : ℕ → Event → Result Value) where
  result_of : Event → Result Value → Value
  result_of e (return v) = v
  result_of e (raise x) = obj (field "error" (str x.message) (field "event" (str e.name) end))

  -- A callback that raises yields an error in its place, and the others are called all the same.
  unfoldable pub call_all : List ℕ → Event → List Value
  unfolding result_of
  call_all [] e = []
  call_all (c ∷ cs) e = result_of e (call c e) ∷ call_all cs e

  unfoldable pub publish : EventBus → Event → List Value
  unfolding callbacks call_all
  publish b e = call_all (callbacks b e.name) e

total : Dict (List ℕ) → ℕ
total [] = 0
total ((k, xs) ∷ d) = length xs + total d

unfoldable pub listener_count : EventBus → Option String → ℕ
unfolding total
listener_count b none = total b.listeners + length b.wildcard_listeners
listener_count b (some event) =
    if event == "*"
    then length b.wildcard_listeners
    else length (or_default (Dict.get b.listeners event) [])
