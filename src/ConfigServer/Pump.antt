-- ===== src/ConfigServer/Pump.antt =====
-- The events of the pump: dumpFromPump and the body of pumpLoop
-- (configure/configserver/server.core.go).
use nekoq_component.Base.{List, [], drop, if◌then◌else◌, map, none, some, take, ℕ, ◌++◌, ◌||◌, ◌∷◌}
use nekoq_component.Base.Str.{Str}
use nekoq_component.Base.Map.{Map, insert, nat_eq, str_key}
use nekoq_component.Base.Result.{Result, err, ok, ◌>>=◌}
use nekoq_component.ConfigApi.{Configuration, Event, cache, cache_value}
use nekoq_component.ConfigServer.{
  Channels, Stop, close, delete_configuration, nil_configuration,
  save_configuration_with_notification,
}
use nekoq_component.ConfigServer.Server.{
  Server, get_or_create_selectors_general, set_store, store_at,
}

-- The configuration with the caches that SelectorsHelperCacheValue fills in.
unfoldable pub cache_selectors : Configuration → Configuration
cache_selectors c = record c {
  selectors = cache c.selectors;
  optional_selectors = cache c.optional_selectors;
}

unfoldable pub cache_event : Event → Event
cache_event ev = record ev {
  configuration = elim ev.configuration [ none ↦ none | some c ↦ some (cache_selectors c) ];
}

unfoldable pub max_cnt : ℕ
max_cnt = 50

-- The events that one round reads, and those left in the channel.
unfoldable pub collect_events : List Event → List Event × List Event
collect_events queue = (take max_cnt queue, drop max_cnt queue)

-- The loop that fills dedupMap: it reads every configuration.
unfoldable pub dedup_map : List Event → Map Str Event → Result Stop (Map Str Event)
dedup_map [] m = ok m
dedup_map (ev ∷ evs) m = elim ev.configuration [
  | none ↦ err nil_configuration
  | some c ↦ dedup_map evs (insert (c.group ++ 124 ∷ 124 ∷ c.key) ev m)
]

-- The second loop, over the events.
unfoldable pub copy_events : List Event → List Event → List Event
copy_events [] new_events = new_events
copy_events (v ∷ vs) new_events = copy_events vs (new_events ++ v ∷ [])

unfoldable pub dedup : List Event → Result Stop (List Event)
dedup events = dedup_map events [] >>= (λ m. ok (copy_events events []))

unfoldable pub save_event : Configuration → Server → Map ℕ ℕ → Result Stop (Server × Map ℕ ℕ)
save_event c s ch_map =
    let p =
      get_or_create_selectors_general (cache_value c.selectors) (cache_value c.optional_selectors)
        s in
    save_configuration_with_notification (cache_selectors c) (store_at p.1 p.0) ch_map p.0.channels
    >>= (λ r. ok (record (set_store p.1 r.0 p.0) { channels = r.2 }, r.1))

unfoldable pub delete_event : Configuration → Server → Server
delete_event c s =
    let p =
      get_or_create_selectors_general (cache_value c.selectors) (cache_value c.optional_selectors)
        s in
    set_store p.1 (delete_configuration c (store_at p.1 p.0)) p.0

unfoldable pub apply_event : Event → Server → Map ℕ ℕ → Result Stop (Server × Map ℕ ℕ)
apply_event ev s ch_map =
    if ev.created || ev.modified
    then elim ev.configuration [ none ↦ err nil_configuration | some c ↦ save_event c s ch_map ]
    else (if ev.deleted
        then elim ev.configuration [
          | none ↦ err nil_configuration
          | some c ↦ ok (delete_event c s, ch_map)
        ]
        else ok (s, ch_map))

unfoldable pub apply_events : List Event → Server → Map ℕ ℕ → Result Stop (Server × Map ℕ ℕ)
apply_events [] s ch_map = ok (s, ch_map)
apply_events (ev ∷ evs) s ch_map = apply_event ev s ch_map >>= (λ r. apply_events evs r.0 r.1)

unfoldable pub close_all : Map ℕ ℕ → Channels → Result Stop Channels
close_all [] chans = ok chans
close_all ((reqid, ch) ∷ rest) chans = close ch chans >>= (λ c. close_all rest c)

-- One round of pumpLoop on the events read.
unfoldable pub pump_round : List Event → Server → Result Stop Server
pump_round events s =
    dedup (map cache_event events)
    >>= (λ evs. apply_events evs s [])
    >>= (λ r. close_all r.1 r.0.channels >>= (λ c. ok (record (r.0) { channels = c })))

unfoldable pub dump_events : List Event → Server → Map ℕ ℕ → Result Stop Server
dump_events [] s ch_map = ok s
dump_events (ev ∷ evs) s ch_map = elim ev.configuration [
  | none ↦ err nil_configuration
  | some c ↦ save_event c s ch_map >>= (λ r. dump_events evs r.0 r.1)
]

unfoldable pub dump_from_pump : List Event → Server → Result Stop Server
dump_from_pump events s = dump_events events s []
