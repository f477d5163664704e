-- ===== src/ConfigServer/Tests.antt =====
-- Runs of the server's definitions.
use nekoq_component.Base.{
  Bool-cases, [], arith, false, inl, inr, refl, some, true, ℕ, ◌==◌, ◌∷◌, ◌≡◌,
}
use nekoq_component.Base.Str.{Str, bytes}
use nekoq_component.Base.Map.{Map, lookup, nat_eq, str_key}
use nekoq_component.Base.Result.{err, ok, ◌>>=◌}
use nekoq_component.ConfigApi.{
  AcquireConfigurationReq, Configuration, Event, cache, cache_in, cache_value,
}
use nekoq_component.ConfigServer.{
  Channels, NotifyChannel, SelectorsStore, cfg_key, get_configuration, has_update, listeners_of,
  save_configuration_with_notification, send_on_closed_channel,
}
use nekoq_component.ConfigServer.Server.{
  Server, entry_store, get_or_create_selectors_general, get_selectors_general, new_server,
  retrieve_or_register, start_waiting, store_at, updates, updates_at, wait_list, waiting,
}
use nekoq_component.ConfigServer.Pump.{apply_events, close_all}
use nekoq_component.Base.Weight.{weight}
use nekoq_component.ConfigServer.Notify.{HasRoom, count, is_channel, pending}
use nekoq_component.ConfigServer.Room.{Ready, server_pending}
use nekoq_component.ConfigServer.Rounds.{apply_events-Ready}
use nekoq_component.ConfigServer.Delivery.{is_requested, waiting_is_notified}
use nekoq_component.ConfigServer.Reply.{Answers, retrieve_or_register-Answers}
use nekoq_component.ConfigServer.Panic.{second_round_panics}
use nekoq_component.ConfigServer.Selecting.{
  WellFormed, exact, get_or_create-WellFormed, new_server-WellFormed,
}

abbrev configuration_of : Str → Str → Configuration
configuration_of key version = record {
  group = bytes "g";
  key = key;
  version = version;
  value_bytes = [];
  signature = [];
  selectors = record { data_map = []; cached = [] };
  optional_selectors = record { data_map = []; cached = [] };
  timestamp = 0;
}

abbrev stored : Configuration
stored = configuration_of (bytes "k") (bytes "2")

abbrev newer : Configuration
newer = configuration_of (bytes "k") (bytes "3")

abbrev other : Configuration
other = configuration_of (bytes "j") (bytes "3")

abbrev one_store : SelectorsStore
one_store = record { configurations = (bytes "g||k", stored) ∷ []; listeners = [] }

abbrev one_server : Server
one_server = record {
  cached_id = 1;
  selectors_map = ([], record { selectors_store = 0; opt_selectors_store = [] }) ∷ [];
  stores = (0, one_store) ∷ [];
  next_store = 1;
  channels = [];
  next_channel = 0;
}

abbrev request : AcquireConfigurationReq
request = record {
  requested = record { req_group = bytes "g"; req_key = bytes "k"; req_version = bytes "2" } ∷ [];
  req_selectors = record { data_map = []; cached = [] };
  req_optional_selectors = record { data_map = []; cached = [] };
}

abbrev modified_event : Configuration → Event
modified_event c = record {
  configuration = some c;
  created = false;
  modified = true;
  deleted = false;
}

nothing_pending : (ch : ℕ) → server_pending ch one_server ≡ 0
unfolding server_pending weight pending
nothing_pending ch = omega arith

one_server-Ready : Ready one_server
one_server-Ready =
    (λ ch p. absurd (omega (arith, p, nothing_pending ch)), λ ch p. nothing_pending ch)

request_waits :
    (retrieve_or_register 1 request one_server).1 ≡ waiting 0 0 ((bytes "g", bytes "k") ∷ [])
unfolding retrieve_or_register updates_at get_selectors_general lookup cache_value cache cache_in
    updates get_configuration store_at entry_store cfg_key has_update start_waiting wait_list
request_waits = refl

stored_requested : is_requested (cfg_key newer.group newer.key) request.requested ≡ true
unfolding cfg_key
stored_requested = refl

waiting_is_notified_example :
    (r : SelectorsStore × Map ℕ ℕ × Channels) × (save_configuration_with_notification newer
        (store_at 0 (retrieve_or_register 1 request one_server).0)
        []
        (retrieve_or_register 1 request one_server).0.channels
      ≡ ok r)
    × (lookup 0 r.2 ≡ some (record { capacity = 1; sent = newer ∷ []; closed = false }))
waiting_is_notified_example =
    waiting_is_notified 1 request one_server 0 0 ((bytes "g", bytes "k") ∷ []) newer []
      one_server-Ready request_waits stored_requested

apply_events-Ready_example :
    (r : Server × Map ℕ ℕ) × (apply_events (modified_event newer ∷ []) one_server [] ≡ ok r)
    × Ready r.0
apply_events-Ready_example =
    apply_events-Ready (modified_event newer ∷ []) one_server [] ((newer, refl), tt)
      one_server-Ready

get_or_create-WellFormed_example :
    WellFormed (get_or_create_selectors_general (bytes "a=b") (bytes "c=d") new_server).0
get_or_create-WellFormed_example =
    get_or_create-WellFormed (bytes "a=b") (bytes "c=d") new_server new_server-WellFormed

base_exact : exact [] [] one_server ≡ some 0
unfolding exact lookup
base_exact = refl

abbrev two_listeners : SelectorsStore
two_listeners = record {
  configurations = [];
  listeners = (bytes "g||k", (1, 0) ∷ []) ∷ (bytes "g||j", (1, 0) ∷ []) ∷ [];
}

abbrev open_channel : NotifyChannel
open_channel = record { capacity = 2; sent = []; closed = false }

second_round_panics_example :
    (save_configuration_with_notification newer two_listeners [] ((0, open_channel) ∷ []) >>= (λ r.
      close_all r.1 r.2
      >>= (λ closed_chans. save_configuration_with_notification other r.0 [] closed_chans)))
    ≡ err send_on_closed_channel
unfolding cfg_key lookup
second_round_panics_example =
    second_round_panics newer other two_listeners ((0, open_channel) ∷ []) 1 0 [] open_channel refl
      refl refl refl refl (omega arith)

listeners_room :
    HasRoom
      (λ ch. count ch (listeners_of (cfg_key newer.group newer.key) two_listeners))
      ((0, open_channel) ∷ [])
unfolding cfg_key lookup listeners_of weight is_channel
listeners_room ch p = elim (Bool-cases (0 == ch)) [
  | inl q ↦ (open_channel, rw (q) refl, refl, ground (arith, q))
  | inr q ↦ absurd (ground (arith, p, q))
]

retrieve_or_register-Answers_example :
    Answers request one_server
      (retrieve_or_register 1 request one_server).0
      (retrieve_or_register 1 request one_server).1
retrieve_or_register-Answers_example = retrieve_or_register-Answers 1 request one_server
