-- ===== src/ConfigServer/Delivery.antt =====
-- What a waiting request is sent: RetrieveOrWait and SaveConfigurationWithNotification of
-- configure/configserver/server.core.go.
use nekoq_component.Base.{
  Bool, Bool-cases, List, [], arith, false, if◌then◌else◌, inl, inr, length, some, true, ℕ, ◌||◌,
  ◌∷◌, ◌≡◌,
}
use nekoq_component.Base.Str.{Str, str_eq}
use nekoq_component.Base.Map.{Map, insert, lookup, lookup-insert, lookup_same, nat_eq, str_key}
use nekoq_component.Base.Result.{ok}
use nekoq_component.Base.Weight.{weight-insert, weight_of, weight_of_le}
use nekoq_component.ConfigApi.{AcquireConfigurationReq, Configuration, RequestedConfigurationKey}
use nekoq_component.ConfigServer.{
  Channels, SelectorsStore, cfg_key, listeners_of, make_channel, register_listener,
  save_configuration_with_notification,
}
use nekoq_component.ConfigServer.Server.{
  Server, register_all, respond, retrieve_or_register, start_waiting, store_at, waiting,
}
use nekoq_component.ConfigServer.Notify.{count, is_channel, pending}
use nekoq_component.ConfigServer.Room.{Ready, count_le, pending_le, save-Ready}
use nekoq_component.ConfigServer.Waiting.{start_waiting-Ready}

-- The channel is registered under no other request.
abbrev Only : ℕ → ℕ → SelectorsStore → Type 0
Only ch reqid st =
    (k : Str)
    → count ch (listeners_of k st) ≡ weight_of (is_channel ch) (lookup reqid (listeners_of k st))

listeners_of-register :
    (reqid : ℕ) (group key : Str) (ch : ℕ) (st : SelectorsStore) (k : Str)
    → listeners_of k (register_listener reqid group key ch st) ≡ (
        if str_eq (cfg_key group key) k
        then insert reqid ch (listeners_of (cfg_key group key) st)
        else listeners_of k st)
unfolding listeners_of register_listener
listeners_of-register reqid group key ch st k = grind (
  arith,
  lookup-insert (cfg_key group key) k (insert reqid ch (listeners_of (cfg_key group key) st))
      st.listeners,
)

lookup-inserted : (reqid ch : ℕ) (m : Map ℕ ℕ) → lookup reqid (insert reqid ch m) ≡ some ch
lookup-inserted reqid ch m = ground (arith, lookup-insert reqid reqid ch m)

register_listener-Only :
    (reqid : ℕ) (group key : Str) (ch : ℕ) (st : SelectorsStore)
    → Only ch reqid st
    → Only ch reqid (register_listener reqid group key ch st)
unfolding weight_of
register_listener-Only reqid group key ch st h k =
    elim (Bool-cases (str_eq (cfg_key group key) k)) [
      | inl q ↦
          rw
            (
              listeners_of-register reqid group key ch st k,
              q,
              lookup-inserted reqid ch (listeners_of (cfg_key group key) st),
            )
            (omega (
              arith,
              weight-insert (is_channel ch) reqid ch (listeners_of (cfg_key group key) st),
              h (cfg_key group key),
            ))
      | inr q ↦ rw (listeners_of-register reqid group key ch st k, q) (h k)
    ]

register_all-Only :
    (reqid : ℕ) (vs : List RequestedConfigurationKey) (ch : ℕ) (st : SelectorsStore)
    → Only ch reqid st
    → Only ch reqid (register_all reqid vs ch st)
unfolding register_all
register_all-Only reqid [] ch st h = h
register_all-Only reqid (v ∷ vs) ch st h =
    register_all-Only reqid vs ch (register_listener reqid v.req_group v.req_key ch st)
      (register_listener-Only reqid v.req_group v.req_key ch st h)

abbrev pub is_requested : Str → List RequestedConfigurationKey → Bool
is_requested k [] = false
is_requested k (v ∷ vs) = str_eq (cfg_key v.req_group v.req_key) k || is_requested k vs

registered_kept :
    (reqid : ℕ) (group key : Str) (ch : ℕ) (st : SelectorsStore) (k : Str)
    → lookup reqid (listeners_of k st) ≡ some ch
    → lookup reqid (listeners_of k (register_listener reqid group key ch st)) ≡ some ch
registered_kept reqid group key ch st k h = elim (Bool-cases (str_eq (cfg_key group key) k)) [
  | inl q ↦
      rw (listeners_of-register reqid group key ch st k, q)
        (lookup-inserted reqid ch (listeners_of (cfg_key group key) st))
  | inr q ↦ rw (listeners_of-register reqid group key ch st k, q) h
]

registered_stays :
    (reqid : ℕ) (vs : List RequestedConfigurationKey) (ch : ℕ) (st : SelectorsStore) (k : Str)
    → lookup reqid (listeners_of k st) ≡ some ch
    → lookup reqid (listeners_of k (register_all reqid vs ch st)) ≡ some ch
unfolding register_all
registered_stays reqid [] ch st k h = h
registered_stays reqid (v ∷ vs) ch st k h =
    registered_stays reqid vs ch (register_listener reqid v.req_group v.req_key ch st) k
      (registered_kept reqid v.req_group v.req_key ch st k h)

register_all-requested :
    (reqid : ℕ) (vs : List RequestedConfigurationKey) (ch : ℕ) (st : SelectorsStore) (k : Str)
    → is_requested k vs ≡ true
    → lookup reqid (listeners_of k (register_all reqid vs ch st)) ≡ some ch
unfolding register_all
register_all-requested reqid [] ch st k h = cc
register_all-requested reqid (v ∷ vs) ch st k h =
    elim (Bool-cases (str_eq (cfg_key v.req_group v.req_key) k)) [
      | inl q ↦
          registered_stays reqid vs ch (register_listener reqid v.req_group v.req_key ch st) k (
            rw (listeners_of-register reqid v.req_group v.req_key ch st k, q)
              (lookup-inserted reqid ch (listeners_of (cfg_key v.req_group v.req_key) st)))
      | inr q ↦
          register_all-requested reqid vs ch (register_listener reqid v.req_group v.req_key ch st) k
            (rw (q) at h)
    ]

fresh-Only : (ch reqid : ℕ) (st : SelectorsStore) → pending ch st ≡ 0 → Only ch reqid st
fresh-Only ch reqid st h k =
    omega (arith, count_le ch k st, weight_of_le (is_channel ch) reqid (listeners_of k st))

registered_once :
    (reqid : ℕ) (vs : List RequestedConfigurationKey) (ch : ℕ) (st : SelectorsStore) (k : Str)
    → pending ch st ≡ 0
    → is_requested k vs ≡ true
    → count ch (listeners_of k (register_all reqid vs ch st)) ≡ 1
unfolding weight_of is_channel
registered_once reqid vs ch st k h q =
    rw
      (
        register_all-Only reqid vs ch st (fresh-Only ch reqid st h) k,
        register_all-requested reqid vs ch st k q,
      )
      ground arith

-- A waiting reply is the one that registers.
waiting_started :
    (reqid : ℕ) (req : AcquireConfigurationReq) (s : Server) (ch i : ℕ) (list : List (Str × Str))
    → (retrieve_or_register reqid req s).1 ≡ waiting ch i list
    → (retrieve_or_register reqid req s ≡ start_waiting reqid req i s) × (ch ≡ s.next_channel)
unfolding retrieve_or_register respond start_waiting
waiting_started reqid req s ch i list h = grind arith

pub store_at_put :
    (i : ℕ) (st : SelectorsStore) (s : Server) → lookup i s.stores ≡ some st → store_at i s ≡ st
unfolding store_at
store_at_put i st s h = grind arith

start_waiting-store :
    (reqid : ℕ) (req : AcquireConfigurationReq) (i : ℕ) (s : Server)
    → (store_at i (start_waiting reqid req i s).0
        ≡ register_all reqid req.requested s.next_channel (store_at i s))
      × (lookup s.next_channel (start_waiting reqid req i s).0.channels
          ≡ some (make_channel (length req.requested)))
unfolding start_waiting
start_waiting-store reqid req i s = (
  store_at_put i (register_all reqid req.requested s.next_channel (store_at i s))
      (start_waiting reqid req i s).0
      (lookup_same i (register_all reqid req.requested s.next_channel (store_at i s)) s.stores),
  lookup_same s.next_channel (make_channel (length req.requested)) s.channels,
)

owed_once :
    (reqid : ℕ) (req : AcquireConfigurationReq) (i : ℕ) (s : Server) (k : Str)
    → Ready s
    → is_requested k req.requested ≡ true
    → count s.next_channel (listeners_of k (store_at i (start_waiting reqid req i s).0)) ≡ 1
owed_once reqid req i s k h q = rw ((start_waiting-store reqid req i s).0) (
    registered_once reqid req.requested s.next_channel (store_at i s) k
      (omega (arith, h.1 s.next_channel, pending_le s.next_channel i s)) q)

started_is_notified :
    (reqid : ℕ) (req : AcquireConfigurationReq) (i : ℕ) (s : Server) (c : Configuration)
    (ch_map : Map ℕ ℕ)
    → Ready s
    → is_requested (cfg_key c.group c.key) req.requested ≡ true
    → let t = (start_waiting reqid req i s).0 in
      (r : SelectorsStore × Map ℕ ℕ × Channels) × (save_configuration_with_notification c
          (store_at i t)
          ch_map
          t.channels
        ≡ ok r)
      × (lookup s.next_channel r.2
          ≡ some (record { capacity = length req.requested; sent = c ∷ []; closed = false }))
unfolding make_channel
started_is_notified reqid req i s c ch_map h q =
    let (r, done, sent, saved, room) =
      save-Ready c i (start_waiting reqid req i s).0 ch_map (start_waiting-Ready reqid req i s h) in
    (
      r,
      done,
      rw (owed_once reqid req i s (cfg_key c.group c.key) h q) at (
          sent s.next_channel (make_channel (length req.requested))
            (start_waiting-store reqid req i s).1),
    )

-- On a server with room for the sends it owes, a request that is answered with a channel to wait
-- on gets the next configuration saved under any of its keys in its store: the save returns, and
-- the channel then holds that configuration once and nothing else, and is still open.
pub waiting_is_notified :
    (reqid : ℕ) (req : AcquireConfigurationReq) (s : Server) (ch i : ℕ) (list : List (Str × Str))
    (c : Configuration) (ch_map : Map ℕ ℕ)
    → Ready s
    → (retrieve_or_register reqid req s).1 ≡ waiting ch i list
    → is_requested (cfg_key c.group c.key) req.requested ≡ true
    → let t = (retrieve_or_register reqid req s).0 in
      (r : SelectorsStore × Map ℕ ℕ × Channels) × (save_configuration_with_notification c
          (store_at i t)
          ch_map
          t.channels
        ≡ ok r)
      × (lookup ch r.2
          ≡ some (record { capacity = length req.requested; sent = c ∷ []; closed = false }))
waiting_is_notified reqid req s ch i list c ch_map h w q =
    let (e, n) = waiting_started reqid req s ch i list w in
    rw (e, n) (started_is_notified reqid req i s c ch_map h q)
