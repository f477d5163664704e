-- ===== src/ConfigServer/Server.antt =====
-- The server: its map of selectors, requests that wait, and the loop over the pump's events
-- (configure/configserver/server.core.go). A section under the lock is one step.
use nekoq_component.Base.{
  List, Option, [], if◌then◌else◌, length, none, some, suc, true, ℕ, ◌%◌, ◌+◌, ◌^◌, ◌∷◌,
}
use nekoq_component.Base.Str.{Str, str_eq}
use nekoq_component.Base.Map.{Map, insert, lookup, nat_eq, str_key}
use nekoq_component.ConfigApi.{
  AcquireConfigurationReq, Configuration, RequestedConfigurationKey, cache_value,
}
use nekoq_component.ConfigServer.{
  Channels, SelectorsStore, cancel_wait, get_configuration, has_update, make_channel,
  new_selectors_store, register_listener,
}

pub record SelectorsEntry : Type 0 where
  pub selectors_store : ℕ
  pub opt_selectors_store : Map Str ℕ

pub record Server : Type 0 where
  pub cached_id : ℕ
  pub selectors_map : Map Str SelectorsEntry
  -- the heap of stores and of channels, with the next free address of each
  pub stores : Map ℕ SelectorsStore
  pub next_store : ℕ
  pub channels : Channels
  pub next_channel : ℕ

unfoldable pub new_server : Server
new_server = record {
  cached_id = 0;
  selectors_map = [];
  stores = [];
  next_store = 0;
  channels = [];
  next_channel = 0;
}

-- atomic.Int64.Add, which wraps; kept as its 64 bits
unfoldable pub next_id : Server → Server × ℕ
next_id s = let id = (s.cached_id + 1) % 2 ^ 64 in (record s { cached_id = id }, id)

unfoldable pub store_at : ℕ → Server → SelectorsStore
store_at i s = elim (lookup i s.stores) [ none ↦ new_selectors_store | some st ↦ st ]

unfoldable pub set_store : ℕ → SelectorsStore → Server → Server
set_store i st s = record s { stores = insert i st s.stores }

unfoldable pub new_store : Server → Server × ℕ
new_store s = (
  record s {
    stores = insert s.next_store new_selectors_store s.stores;
    next_store = suc s.next_store;
  },
  s.next_store,
)

unfoldable pub entry_store : Str → SelectorsEntry → ℕ
entry_store opt v =
    if str_eq opt []
    then v.selectors_store
    else elim (lookup opt v.opt_selectors_store) [ none ↦ v.selectors_store | some vv ↦ vv ]

unfoldable pub get_selectors_general : Str → Str → Server → Option ℕ
get_selectors_general sel opt s = elim (lookup sel s.selectors_map) [
  | none ↦ none
  | some v ↦ some (entry_store opt v)
]

-- s[sel].OptSelectorsStore[opt] = newSelectorsStore()
unfoldable pub add_opt_store : Str → Str → SelectorsEntry → Server → Server × ℕ
add_opt_store sel opt v s =
    let created = new_store s in
    (
      record (created.0) {
        selectors_map =
            insert sel
              (record v { opt_selectors_store = insert opt created.1 v.opt_selectors_store })
              s.selectors_map;
      },
      created.1,
    )

unfoldable pub get_or_create_selectors_general : Str → Str → Server → Server × ℕ
get_or_create_selectors_general sel opt s = elim (lookup sel s.selectors_map) [
  | some v ↦
      if str_eq opt [] then (s, v.selectors_store) else elim (lookup opt v.opt_selectors_store) [
        | some vv ↦ (s, vv)
        | none ↦ add_opt_store sel opt v s
      ]
  | none ↦
      let created = new_store s in
      let v : SelectorsEntry = record { selectors_store = created.1; opt_selectors_store = [] } in
      let added = record (created.0) { selectors_map = insert sel v s.selectors_map } in
      if str_eq opt [] then (added, created.1) else add_opt_store sel opt v added
]

-- The requested configurations that are newer than asked, or none if one is missing.
unfoldable pub updates :
    List RequestedConfigurationKey → SelectorsStore → Option (List Configuration)
updates [] st = some []
updates (v ∷ vs) st = elim (get_configuration v.req_group v.req_key st) [
  | none ↦ none
  | some cfg ↦ elim (updates vs st) [
    | none ↦ none
    | some r ↦ some (if has_update v.req_version cfg.version then cfg ∷ r else r)
  ]
]

unfoldable pub updates_at : AcquireConfigurationReq → Server → Option (ℕ × List Configuration)
updates_at req s =
    elim (get_selectors_general (cache_value req.req_selectors)
      (cache_value req.req_optional_selectors) s) [
        | none ↦ none
        | some i ↦ elim (updates req.requested (store_at i s)) [
          | none ↦ none
          | some r ↦ some (i, r)
        ]
      ]

pub data Reply : Type 0 where
  has_unknown_configuration : Reply
  -- a closed channel that holds the updates
  updated : ℕ → Reply
  -- a channel to wait on, with what its cancel function holds
  waiting : ℕ → ℕ → List (Str × Str) → Reply

-- A channel that holds its results and is closed.
unfoldable pub respond : List Configuration → Server → Server × Reply
respond r s = (
  record s {
    channels =
        insert s.next_channel (record { capacity = length r; sent = r; closed = true }) s.channels;
    next_channel = suc s.next_channel;
  },
  updated s.next_channel,
)

unfoldable pub register_all :
    ℕ → List RequestedConfigurationKey → ℕ → SelectorsStore → SelectorsStore
register_all reqid [] ch st = st
register_all reqid (v ∷ vs) ch st =
    register_all reqid vs ch (register_listener reqid v.req_group v.req_key ch st)

unfoldable pub wait_list : List RequestedConfigurationKey → List (Str × Str)
wait_list [] = []
wait_list (v ∷ vs) = (v.req_group, v.req_key) ∷ wait_list vs

unfoldable pub start_waiting : ℕ → AcquireConfigurationReq → ℕ → Server → Server × Reply
start_waiting reqid req i s = (
  record s {
    stores = insert i (register_all reqid req.requested s.next_channel (store_at i s)) s.stores;
    channels = insert s.next_channel (make_channel (length req.requested)) s.channels;
    next_channel = suc s.next_channel;
  },
  waiting s.next_channel i (wait_list req.requested),
)

-- Step 1 of `RetrieveOrWait`, under the read lock: a reply, or none to go on to step 2.
unfoldable pub retrieve : AcquireConfigurationReq → Server → Server × Option Reply
retrieve req s = elim (updates_at req s) [
  | none ↦ (s, some has_unknown_configuration)
  | some (i, []) ↦ (s, none)
  | some (i, c ∷ r) ↦ let p = respond (c ∷ r) s in (p.0, some p.1)
]

-- Step 2 of `RetrieveOrWait`, under the write lock.
unfoldable pub retrieve_or_register : ℕ → AcquireConfigurationReq → Server → Server × Reply
retrieve_or_register reqid req s = elim (updates_at req s) [
  | none ↦ (s, has_unknown_configuration)
  | some (i, []) ↦ start_waiting reqid req i s
  | some (i, c ∷ r) ↦ respond (c ∷ r) s
]

-- `RetrieveOrWait`, with what other goroutines do between its two steps.
unfoldable pub retrieve_or_wait :
    AcquireConfigurationReq → (Server → Server) → Server → Server × Reply
retrieve_or_wait req others s =
    let p = next_id s in
    let q = retrieve req p.0 in
    elim q.1 [ some reply ↦ (q.0, reply) | none ↦ retrieve_or_register p.1 req (others q.0) ]

-- The cancel function of a waiting reply.
unfoldable pub cancel : ℕ → ℕ → List (Str × Str) → Server → Server
cancel reqid i list s = set_store i (cancel_wait reqid list (store_at i s)) s

unfoldable pub get_configuration_via_plain_request :
    Str → Str → Str → Str → Server → Option Configuration
get_configuration_via_plain_request group key selectors opt_selector s =
    elim (get_selectors_general selectors opt_selector s) [
      | none ↦ none
      | some i ↦ get_configuration group key (store_at i s)
    ]
