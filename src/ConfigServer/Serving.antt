-- ===== src/ConfigServer/Serving.antt =====
-- What a round of the pump saves is served: pumpLoop and GetConfigurationViaPlainRequest of
-- configure/configserver/server.core.go.
use nekoq_component.Base.{Option, [], ap, false, none, refl, some, true, ℕ, ◌∙◌, ◌∷◌, ◌≡◌}
use nekoq_component.Base.Str.{Str}
use nekoq_component.Base.Map.{insert, lookup, lookup_same, nat_eq, str_key}
use nekoq_component.Base.Result.{ok}
use nekoq_component.ConfigApi.{Configuration, Event, cache_value}
use nekoq_component.ConfigServer.{
  Channels, SelectorsStore, cfg_key, get_configuration, save_configuration_with_notification,
}
use nekoq_component.ConfigServer.Server.{
  Server, get_configuration_via_plain_request, get_or_create_selectors_general,
  get_selectors_general, set_store, store_at,
}
use nekoq_component.ConfigServer.Pump.{
  apply_event, apply_events, cache_event, cache_selectors, close_all, pump_round, save_event,
}
use nekoq_component.ConfigServer.Selecting.{exact_made, get-exact}
use nekoq_component.ConfigServer.Delivery.{store_at_put}
use nekoq_component.ConfigServer.Rounds.{dedup_keeps}

abbrev pub created_event : Configuration → Event
created_event c = record {
  configuration = some c;
  created = true;
  modified = false;
  deleted = false;
}

-- The store of a configuration's selectors, made if there is none.
abbrev pub store_for : Configuration → Server → Server × ℕ
store_for c s =
    get_or_create_selectors_general (cache_value c.selectors) (cache_value c.optional_selectors) s

-- No request waits for the configuration.
abbrev pub HasNoListener : Configuration → Server → Type 0
HasNoListener c s =
    let p = store_for c s in lookup (cfg_key c.group c.key) (store_at p.1 p.0).listeners ≡ none

-- The server after a save that nobody waits for.
abbrev saved_in : Configuration → Server × ℕ → Server
saved_in c p =
    set_store p.1
      (record (store_at p.1 p.0) {
        configurations = insert (cfg_key c.group c.key) c (store_at p.1 p.0).configurations;
      })
      p.0

save_unheard :
    (c : Configuration) (st : SelectorsStore) (chans : Channels)
    → lookup (cfg_key c.group c.key) st.listeners ≡ none
    → save_configuration_with_notification c st [] chans
      ≡ ok (
        record st { configurations = insert (cfg_key c.group c.key) c st.configurations },
        [],
        chans,
      )
unfolding save_configuration_with_notification
save_unheard c st chans n = rw (save_configuration_with_notification, n) refl

save_event_unheard :
    (c : Configuration) (s : Server)
    → HasNoListener c s
    → save_event c s [] ≡ ok (saved_in (cache_selectors c) (store_for c s), [])
unfolding save_event cache_selectors set_store
save_event_unheard c s n =
    let p = store_for c s in
    rw (save_event, save_unheard (cache_selectors c) (store_at p.1 p.0) p.0.channels n) refl

round_of_one :
    (c : Configuration) (s : Server)
    → HasNoListener (cache_selectors c) s
    → pump_round (created_event c ∷ []) s
      ≡ ok (saved_in (cache_selectors (cache_selectors c)) (store_for (cache_selectors c) s))
unfolding pump_round cache_event apply_events apply_event close_all
round_of_one c s n =
    rw
      (
        dedup_keeps (created_event (cache_selectors c) ∷ []) ((cache_selectors c, refl), tt),
        save_event_unheard (cache_selectors c) s n,
      )
      refl

same_selectors :
    (sel opt : Str) (c : Configuration) (p : Server × ℕ)
    → get_selectors_general sel opt p.0 ≡ some p.1
    → get_selectors_general sel opt (saved_in c p) ≡ some p.1
unfolding get_selectors_general set_store
same_selectors sel opt c p e = e

abbrev with_configuration : Configuration → SelectorsStore → SelectorsStore
with_configuration c st = record st {
  configurations = insert (cfg_key c.group c.key) c st.configurations;
}

same_store :
    (c : Configuration) (p : Server × ℕ)
    → store_at p.1 (saved_in c p) ≡ with_configuration c (store_at p.1 p.0)
unfolding set_store
same_store c p =
    store_at_put p.1 (with_configuration c (store_at p.1 p.0)) (saved_in c p)
      (lookup_same p.1 (with_configuration c (store_at p.1 p.0)) p.0.stores)

configuration_found :
    (c : Configuration) (st : SelectorsStore)
    → get_configuration c.group c.key (with_configuration c st) ≡ some c
unfolding get_configuration
configuration_found c st = lookup_same (cfg_key c.group c.key) c st.configurations

plain_found :
    (group key sel opt : Str) (i : ℕ) (s : Server) (o : Option Configuration)
    → get_selectors_general sel opt s ≡ some i
    → get_configuration group key (store_at i s) ≡ o
    → get_configuration_via_plain_request group key sel opt s ≡ o
unfolding get_configuration_via_plain_request
plain_found group key sel opt i s o e g = rw (get_configuration_via_plain_request, e) g

made_found :
    (sel opt : Str) (s : Server)
    → let p = get_or_create_selectors_general sel opt s in
      get_selectors_general sel opt p.0 ≡ some p.1
made_found sel opt s =
    rw (get-exact sel opt (get_or_create_selectors_general sel opt s).0, exact_made sel opt s) refl

-- A round on one created event runs, when nothing listens to its configuration, and the request by
-- the names of its selectors then finds it.
pub round_is_served :
    (c : Configuration) (s : Server)
    → let named = cache_selectors c in
      HasNoListener named s
      → (t : Server) × (pump_round (created_event c ∷ []) s ≡ ok t)
        × (get_configuration_via_plain_request c.group c.key
              (cache_value named.selectors)
              (cache_value named.optional_selectors)
              t
            ≡ some (cache_selectors named))
unfolding cache_selectors
round_is_served c s n =
    let named = cache_selectors c in
    let d = cache_selectors named in
    let p = store_for named s in
    (
      saved_in d p,
      round_of_one c s n,
      plain_found c.group c.key (cache_value named.selectors) (cache_value named.optional_selectors)
          p.1 (saved_in d p) (some d)
          (same_selectors (cache_value named.selectors) (cache_value named.optional_selectors) d p
            (made_found (cache_value named.selectors) (cache_value named.optional_selectors) s))
          (ap (get_configuration c.group c.key) (same_store d p)
            ∙ configuration_found d (store_at p.1 p.0)),
    )
