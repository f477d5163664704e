-- ===== src/ConfigServer/Waiting.antt =====
-- Requests that wait: RetrieveOrWait of configure/configserver/server.core.go.
use nekoq_component.Base.{
  ==_iff, Bool-cases, List, Option-cases, [], arith, false, inl, inr, length, refl, true, ℕ, ◌*◌,
  ◌+◌, ◌==◌, ◌∷◌, ◌≡◌, ◌≤◌,
}
use nekoq_component.Base.Str.{Str}
use nekoq_component.Base.Map.{insert, lookup-insert, nat_eq, str_key}
use nekoq_component.Base.Weight.{weight, weight-insert, weight_of}
use nekoq_component.ConfigApi.{AcquireConfigurationReq, Configuration, RequestedConfigurationKey}
use nekoq_component.ConfigServer.{
  Channels, NotifyChannel, SelectorsStore, cfg_key, listeners_of, make_channel, register_listener,
}
use nekoq_component.ConfigServer.Server.{
  Server, next_id, register_all, respond, retrieve, retrieve_or_register, retrieve_or_wait,
  set_store, start_waiting, store_at, updates_at,
}
use nekoq_component.ConfigServer.Notify.{HasRoom, count, is_channel, pending}
use nekoq_component.ConfigServer.Room.{Ready, pending-set_store, server_pending}

pending-register_listener :
    (d reqid : ℕ) (group key : Str) (ch : ℕ) (st : SelectorsStore)
    → pending d (register_listener reqid group key ch st) ≤ pending d st + is_channel d ch
unfolding pending register_listener listeners_of weight_of weight
pending-register_listener d reqid group key ch st = ground (
  arith,
  weight-insert (count d) (cfg_key group key)
      (insert reqid ch (listeners_of (cfg_key group key) st)) st.listeners,
  weight-insert (is_channel d) reqid ch (listeners_of (cfg_key group key) st),
)

pending-register_all :
    (d reqid : ℕ) (vs : List RequestedConfigurationKey) (ch : ℕ) (st : SelectorsStore)
    → pending d (register_all reqid vs ch st) ≤ pending d st + is_channel d ch * length vs
unfolding register_all is_channel
pending-register_all d reqid [] ch st = omega arith
pending-register_all d reqid (v ∷ vs) ch st = ground (
  arith,
  pending-register_listener d reqid v.req_group v.req_key ch st,
  pending-register_all d reqid vs ch (register_listener reqid v.req_group v.req_key ch st),
)

start_owes :
    (d reqid : ℕ) (req : AcquireConfigurationReq) (i : ℕ) (s : Server)
    → server_pending d (start_waiting reqid req i s).0
      ≤ server_pending d s + is_channel d s.next_channel * length req.requested
unfolding start_waiting server_pending set_store
start_owes d reqid req i s = omega (
  arith,
  pending-set_store d i (register_all reqid req.requested s.next_channel (store_at i s)) s,
  pending-register_all d reqid req.requested s.next_channel (store_at i s),
)

start_owes_new :
    (reqid : ℕ) (req : AcquireConfigurationReq) (i : ℕ) (s : Server)
    → Ready s
    → server_pending s.next_channel (start_waiting reqid req i s).0 ≤ length req.requested
unfolding is_channel
start_owes_new reqid req i s h =
    ground (arith, start_owes s.next_channel reqid req i s, h.1 s.next_channel)

start_owes_other :
    (d reqid : ℕ) (req : AcquireConfigurationReq) (i : ℕ) (s : Server)
    → (d == s.next_channel) ≡ false
    → server_pending d (start_waiting reqid req i s).0 ≤ server_pending d s
unfolding is_channel
start_owes_other d reqid req i s q = ground (arith, start_owes d reqid req i s)

-- A new channel with room for what is owed to it keeps the room.
new_channel-HasRoom :
    (owed after : ℕ → ℕ) (ch : ℕ) (c : NotifyChannel) (chans : Channels)
    → HasRoom owed chans
    → ((d : ℕ) → (d == ch) ≡ false → after d ≤ owed d)
    → c.closed ≡ false
    → length c.sent + after ch ≤ c.capacity
    → HasRoom after (insert ch c chans)
new_channel-HasRoom owed after ch c chans h le o room d p = elim (Bool-cases (ch == d)) [
  | inl q ↦ (c, rw (lookup-insert ch d c chans, q) refl, o, rw ((==_iff ch d).0 q) at room)
  | inr q ↦
      let l : after d ≤ owed d = le d (ground (arith, q)) in
      let (c1, e1, o1, r1) = h d (omega (arith, l, p)) in
      (c1, rw (lookup-insert ch d c chans, q) e1, o1, omega (arith, l, r1))
]

start_room :
    (reqid : ℕ) (req : AcquireConfigurationReq) (i : ℕ) (s : Server)
    → Ready s
    → HasRoom
        (λ d. server_pending d (start_waiting reqid req i s).0)
        (start_waiting reqid req i s).0.channels
unfolding start_waiting make_channel
start_room reqid req i s h =
    new_channel-HasRoom (λ d. server_pending d s)
      (λ d. server_pending d (start_waiting reqid req i s).0) s.next_channel
      (make_channel (length req.requested)) s.channels h.0
      (λ d q. start_owes_other d reqid req i s q) refl
      (omega (arith, start_owes_new reqid req i s h))

start_fresh :
    (d reqid : ℕ) (req : AcquireConfigurationReq) (i : ℕ) (s : Server)
    → Ready s
    → (start_waiting reqid req i s).0.next_channel ≤ d
    → server_pending d (start_waiting reqid req i s).0 ≡ 0
unfolding start_waiting
start_fresh d reqid req i s h p =
    omega (arith, h.1 d (omega arith), start_owes_other d reqid req i s (ground arith))

pub start_waiting-Ready :
    (reqid : ℕ) (req : AcquireConfigurationReq) (i : ℕ) (s : Server)
    → Ready s
    → Ready (start_waiting reqid req i s).0
start_waiting-Ready reqid req i s h =
    (start_room reqid req i s h, λ d p. start_fresh d reqid req i s h p)

respond-Ready : (r : List Configuration) (s : Server) → Ready s → Ready (respond r s).0
unfolding respond server_pending
respond-Ready r s h = (
  λ d p.
      let (c1, e1, o1, r1) = h.0 d p in
      let q : (s.next_channel == d) ≡ false = ground (arith, h.1 d) in
      (
        c1,
        rw
            (
              lookup-insert s.next_channel d
                  (record { capacity = length r; sent = r; closed = true }) s.channels,
              q,
            )
            e1,
        o1,
        r1,
      ),
  λ d p. h.1 d (omega arith),
)

pub retrieve-Ready :
    (req : AcquireConfigurationReq) (s : Server) → Ready s → Ready (retrieve req s).0
unfolding retrieve
retrieve-Ready req s h = elim (Option-cases (updates_at req s)) [
  | inl e ↦ rw (retrieve, e) h
  | inr ((i, []), e) ↦ rw (retrieve, e) h
  | inr ((i, c ∷ r), e) ↦ rw (retrieve, e) (respond-Ready (c ∷ r) s h)
]

pub retrieve_or_register-Ready :
    (reqid : ℕ) (req : AcquireConfigurationReq) (s : Server)
    → Ready s
    → Ready (retrieve_or_register reqid req s).0
unfolding retrieve_or_register
retrieve_or_register-Ready reqid req s h = elim (Option-cases (updates_at req s)) [
  | inl e ↦ rw (retrieve_or_register, e) h
  | inr ((i, []), e) ↦ rw (retrieve_or_register, e) (start_waiting-Ready reqid req i s h)
  | inr ((i, c ∷ r), e) ↦ rw (retrieve_or_register, e) (respond-Ready (c ∷ r) s h)
]

next_id-Ready : (s : Server) → Ready s → Ready (next_id s).0
unfolding next_id server_pending
next_id-Ready s h = h

-- RetrieveOrWait keeps the server's room for the sends it owes, whatever other goroutines do
-- between its two steps that keeps it as well.
pub retrieve_or_wait-Ready :
    (req : AcquireConfigurationReq) (others : Server → Server) (s : Server)
    → ((t : Server) → Ready t → Ready (others t))
    → Ready s
    → Ready (retrieve_or_wait req others s).0
unfolding retrieve_or_wait
retrieve_or_wait-Ready req others s keeps h =
    let p = retrieve-Ready req (next_id s).0 (next_id-Ready s h) in
    elim (Option-cases (retrieve req (next_id s).0).1) [
      | inl e ↦
          rw (retrieve_or_wait, e)
            (retrieve_or_register-Ready (next_id s).1 req (others (retrieve req (next_id s).0).0)
              (keeps (retrieve req (next_id s).0).0 p))
      | inr (reply, e) ↦ rw (retrieve_or_wait, e) p
    ]
