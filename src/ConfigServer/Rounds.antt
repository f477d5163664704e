-- ===== src/ConfigServer/Rounds.antt =====
-- A round of the pump's events always runs to the end: dumpFromPump and pumpLoop of
-- configure/configserver/server.core.go.
use nekoq_component.Base.{
  All, Bool-cases, List, [], append-nil, append_assoc, arith, inl, inr, refl, some, ℕ, ◌++◌, ◌||◌,
  ◌∷◌, ◌≡◌,
}
use nekoq_component.Base.Str.{Str}
use nekoq_component.Base.Map.{Map, insert, nat_eq, str_key}
use nekoq_component.Base.Result.{ok}
use nekoq_component.ConfigApi.{Configuration, Event, cache_value}
use nekoq_component.ConfigServer.Server.{Server, get_or_create_selectors_general, set_store}
use nekoq_component.ConfigServer.Pump.{
  apply_event, apply_events, cache_selectors, copy_events, dedup, dedup_map, delete_event,
  dump_events, save_event,
}
use nekoq_component.ConfigServer.Room.{Ready, delete_event-Ready, get_or_create-Ready, save-Ready}

abbrev pub HasConfiguration : Event → Type 0
HasConfiguration ev = (c : Configuration) × (ev.configuration ≡ some c)

save_event-Ready :
    (c : Configuration) (s : Server) (ch_map : Map ℕ ℕ)
    → Ready s
    → (r : Server × Map ℕ ℕ) × (save_event c s ch_map ≡ ok r) × Ready r.0
unfolding save_event
save_event-Ready c s ch_map h =
    let p =
      get_or_create_selectors_general (cache_value c.selectors) (cache_value c.optional_selectors)
        s in
    let (r, done, sent, saved, room) =
      save-Ready (cache_selectors c) p.1 p.0 ch_map
        (get_or_create-Ready (cache_value c.selectors) (cache_value c.optional_selectors) s h) in
    ((record (set_store p.1 r.0 p.0) { channels = r.2 }, r.1), rw (done) refl, room)

apply_event-Ready :
    (ev : Event) (s : Server) (ch_map : Map ℕ ℕ)
    → HasConfiguration ev
    → Ready s
    → (r : Server × Map ℕ ℕ) × (apply_event ev s ch_map ≡ ok r) × Ready r.0
unfolding apply_event
apply_event-Ready ev s ch_map (c, e) h = elim (Bool-cases (ev.created || ev.modified)) [
  | inl q ↦
      let (r, done, room) = save_event-Ready c s ch_map h in (r, rw (apply_event, q, e) done, room)
  | inr q ↦ elim (Bool-cases ev.deleted) [
    | inl d ↦ ((delete_event c s, ch_map), rw (apply_event, q, d, e) refl, delete_event-Ready c s h)
    | inr d ↦ ((s, ch_map), rw (apply_event, q, d) refl, h)
  ]
]

-- On a server where every channel that is owed sends is open and has room for all of them,
-- applying any list of events that carry configurations neither blocks nor panics, and leaves a
-- server of the same kind.
pub apply_events-Ready :
    (events : List Event) (s : Server) (ch_map : Map ℕ ℕ)
    → All HasConfiguration events
    → Ready s
    → (r : Server × Map ℕ ℕ) × (apply_events events s ch_map ≡ ok r) × Ready r.0
unfolding apply_events
apply_events-Ready [] s ch_map a h = ((s, ch_map), refl, h)
apply_events-Ready (ev ∷ evs) s ch_map a h =
    let (r, done, room) = apply_event-Ready ev s ch_map a.0 h in
    let (q, rest, last) = apply_events-Ready evs r.0 r.1 a.1 room in (q, rw (done) rest, last)

dump_events-Ready :
    (events : List Event) (s : Server) (ch_map : Map ℕ ℕ)
    → All HasConfiguration events
    → Ready s
    → (r : Server) × (dump_events events s ch_map ≡ ok r) × Ready r
unfolding dump_events
dump_events-Ready [] s ch_map a h = (s, refl, h)
dump_events-Ready (ev ∷ evs) s ch_map a h =
    let (r, done, room) = save_event-Ready a.0.0 s ch_map h in
    let (q, rest, last) = dump_events-Ready evs r.0 r.1 a.1 room in
    (q, rw (dump_events, a.0.1, done) rest, last)

copy_events_all : (events acc : List Event) → copy_events events acc ≡ acc ++ events
unfolding copy_events
copy_events_all [] acc = rw append-nil refl
copy_events_all (v ∷ vs) acc = rw (copy_events_all vs (acc ++ v ∷ []), append_assoc) refl

dedup_map_step :
    (ev : Event) (evs : List Event) (m : Map Str Event) (c : Configuration) (r : Map Str Event)
    → ev.configuration ≡ some c
    → dedup_map evs (insert (c.group ++ 124 ∷ 124 ∷ c.key) ev m) ≡ ok r
    → dedup_map (ev ∷ evs) m ≡ ok r
unfolding dedup_map
dedup_map_step ev evs m c r e g = grind arith

dedup_map_total :
    (events : List Event) (m : Map Str Event)
    → All HasConfiguration events
    → (r : Map Str Event) × (dedup_map events m ≡ ok r)
unfolding dedup_map
dedup_map_total [] m a = (m, refl)
dedup_map_total (ev ∷ evs) m a =
    let (r, e) = dedup_map_total evs (insert (a.0.0.group ++ 124 ∷ 124 ∷ a.0.0.key) ev m) a.1 in
    (r, dedup_map_step ev evs m a.0.0 r a.0.1 e)

-- The step that is to drop and merge repeated events returns every list of events with
-- configurations as it is.
pub dedup_keeps : (events : List Event) → All HasConfiguration events → dedup events ≡ ok events
unfolding dedup
dedup_keeps events a =
    let (r, e) = dedup_map_total events [] a in rw (e, copy_events_all events []) refl
