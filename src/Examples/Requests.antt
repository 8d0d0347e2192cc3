-- ===== src/Examples/Requests.antt =====
-- The theorems on modules/plugin_system/gateway.py and modules/plugin_system/event_bus.py at the
-- sample host.
use humanoid_agi_plugin_syst.Prelude.{
  ◌≡◌, refl, sym, String, true, false, none, some, [], ◌∷◌, ◌++◌, ◌==◌, ◌&&◌, ◌||◌, inl, inr,
  Bool-cases, eq_iff,
}
use humanoid_agi_plugin_syst.Prelude.Dict
use humanoid_agi_plugin_syst.Audit.{Entry, Log}
use humanoid_agi_plugin_syst.Models.{
  null, end, enabled, status_eq, has_granted_permission, memory_write,
}
use humanoid_agi_plugin_syst.EventBus.{
  Event, EventBus, empty_bus, listed, callbacks, subscribe, unsubscribe,
}
use humanoid_agi_plugin_syst.EventBus.Delivery.{
  IsDistinct, subscribe-IsDistinct, callbacks-subscribe,
}
use humanoid_agi_plugin_syst.Gateway.{failed, known, handle_sandbox_request}
use humanoid_agi_plugin_syst.Gateway.Denial.{
  IsNamed, entitles, may, SameStores, handle_sandbox_request-denied,
}
use humanoid_agi_plugin_syst.Gateway.Trail.{IsRequestEntry, handle_sandbox_request-logged}
use humanoid_agi_plugin_syst.Examples.Samples.{with_status, gateway_with, outside}

named : IsNamed (gateway_with enabled)
unfolding known Dict.get
named name p h = elim (Bool-cases ("calc" == name)) [
  | inl e ↦
      let here : name ≡ "calc" = sym ((eq_iff "calc" name).0 e) in
      let q : some (with_status enabled) ≡ some p = rw (e, known) at h in
      let same : with_status enabled ≡ p = cc in rw (sym same, here) refl
  | inr e ↦ let q : none ≡ some p = rw (e, known, e) at h in cc
]

may_not_write : may (gateway_with enabled) "calc" memory_write ≡ false
unfolding entitles known Dict.get status_eq has_granted_permission
may_not_write = refl

handle_sandbox_request-denied_example :
    ((msg : String) × ((handle_sandbox_request outside "calc" "memory.write" end
          (gateway_with enabled)).0
        ≡ failed msg))
    × SameStores
        (gateway_with enabled)
        (handle_sandbox_request outside "calc" "memory.write" end (gateway_with enabled)).1
handle_sandbox_request-denied_example =
    handle_sandbox_request-denied outside "calc" "memory.write" end (gateway_with enabled) named
      refl may_not_write

handle_sandbox_request-logged_example :
    (notes : Log) × (e : Entry) × ((handle_sandbox_request outside "calc" "memory.read" end
        (gateway_with enabled)).1.log
      ≡ [] ++ notes ++ e ∷ [])
    × IsRequestEntry outside "calc" "memory.read"
        (handle_sandbox_request outside "calc" "memory.read" end (gateway_with enabled)).0
        e
handle_sandbox_request-logged_example =
    handle_sandbox_request-logged outside "calc" "memory.read" end (gateway_with enabled)

empty_IsDistinct : IsDistinct empty_bus
unfolding Dict.get
empty_IsDistinct = record { named = λ event xs e. cc; wild = tt }

subscribe-IsDistinct_example :
    IsDistinct (subscribe "started" 1 empty_bus) × IsDistinct (unsubscribe "started" 1 empty_bus)
subscribe-IsDistinct_example = subscribe-IsDistinct "started" 1 empty_bus empty_IsDistinct

callbacks-subscribe_example : listed 1 (callbacks (subscribe "started" 1 empty_bus) "started") ≡ (
    (("started" == "*" || "started" == "started") && true)
    || listed 1 (callbacks empty_bus "started"))
callbacks-subscribe_example = callbacks-subscribe "started" "started" 1 1 empty_bus

abbrev two_listeners : EventBus
two_listeners = record { listeners = ("started", 1 ∷ []) ∷ []; wildcard_listeners = 2 ∷ [] }

abbrev started : Event
started = record { name = "started"; payload = null; source = "system" }
