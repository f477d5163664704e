-- ===== src/ConfigServer/Room.antt =====
-- Room for every send that the server still owes: configure/configserver/server.core.go.
use nekoq_component.Base.{
  List, Option-cases, [], arith, inl, inr, length-append, length-replicate, refl, replicate, suc, ℕ,
  ◌++◌, ◌+◌, ◌∷◌, ◌≡◌, ◌≤◌,
}
use nekoq_component.Base.Str.{Str}
use nekoq_component.Base.Map.{Map, delete, insert, lookup, nat_eq, str_key}
use nekoq_component.Base.Result.{ok}
use nekoq_component.Base.Weight.{weight, weight-insert, weight-delete_le, weight_of, weight_of_le}
use nekoq_component.ConfigApi.{Configuration, cache_value}
use nekoq_component.ConfigServer.{
  Channels, SelectorsStore, cancel_key, cancel_wait, cfg_key, delete_configuration, listeners_of,
  new_selectors_store, save_configuration_with_notification,
}
use nekoq_component.ConfigServer.Server.{
  Server, add_opt_store, cancel, get_or_create_selectors_general, new_store, set_store, store_at,
}
use nekoq_component.ConfigServer.Pump.{delete_event}
use nekoq_component.ConfigServer.Notify.{
  HasRoom, Saved, Sent, count, is_channel, pending, save_notifies,
}

-- The sends owed to a channel by all stores.
unfoldable pub server_pending : ℕ → Server → ℕ
server_pending ch s = weight (pending ch) s.stores

-- Every channel that is owed sends is open and has room for all of them, and none is owed to an
-- address that is not yet taken.
abbrev pub Ready : Server → Type 0
Ready s =
    HasRoom (λ ch. server_pending ch s) s.channels
    × ((ch : ℕ) → s.next_channel ≤ ch → server_pending ch s ≡ 0)

pub HasRoom-le :
    (less owed : ℕ → ℕ) (chans : Channels)
    → ((ch : ℕ) → less ch ≤ owed ch)
    → HasRoom owed chans
    → HasRoom less chans
HasRoom-le less owed chans le h ch p =
    let (c, e, o, r) = h ch (omega (arith, le ch, p)) in (c, e, o, omega (arith, le ch, r))

pending_new : (ch : ℕ) → pending ch new_selectors_store ≡ 0
unfolding pending new_selectors_store weight
pending_new ch = refl

pub pending-store_at :
    (ch i : ℕ) (s : Server) → weight_of (pending ch) (lookup i s.stores) ≡ pending ch (store_at i s)
unfolding weight_of store_at
pending-store_at ch i s = ground (arith, pending_new ch)

pub pending_le : (ch i : ℕ) (s : Server) → pending ch (store_at i s) ≤ server_pending ch s
unfolding server_pending
pending_le ch i s = rw (← pending-store_at ch i s) (weight_of_le (pending ch) i s.stores)

pub pending-set_store :
    (ch i : ℕ) (st : SelectorsStore) (s : Server)
    → server_pending ch (set_store i st s) + pending ch (store_at i s)
      ≡ server_pending ch s + pending ch st
unfolding server_pending set_store
pending-set_store ch i st s =
    rw (← pending-store_at ch i s) (weight-insert (pending ch) i st s.stores)

pending-new_store : (ch : ℕ) (s : Server) → server_pending ch (new_store s).0 ≤ server_pending ch s
unfolding server_pending new_store
pending-new_store ch s =
    omega
      (arith, weight-insert (pending ch) s.next_store new_selectors_store s.stores, pending_new ch)

pub pending-get_or_create :
    (ch : ℕ) (sel opt : Str) (s : Server)
    → server_pending ch (get_or_create_selectors_general sel opt s).0 ≤ server_pending ch s
unfolding get_or_create_selectors_general add_opt_store server_pending new_store
pending-get_or_create ch sel opt s = ground (
  arith,
  pending_new ch,
  weight-insert (pending ch) s.next_store new_selectors_store s.stores,
  weight-insert (pending ch) (suc s.next_store) new_selectors_store
      (insert s.next_store new_selectors_store s.stores),
)

pub channels-get_or_create :
    (sel opt : Str) (s : Server)
    → ((get_or_create_selectors_general sel opt s).0.channels ≡ s.channels)
      × ((get_or_create_selectors_general sel opt s).0.next_channel ≡ s.next_channel)
unfolding get_or_create_selectors_general add_opt_store new_store
channels-get_or_create sel opt s = ground arith

-- A step that owes no more and leaves the channels alone keeps the room.
Ready-le :
    (s after : Server)
    → ((ch : ℕ) → server_pending ch after ≤ server_pending ch s)
    → after.channels ≡ s.channels
    → after.next_channel ≡ s.next_channel
    → Ready s
    → Ready after
unfolding server_pending
Ready-le s after le c n h = (
  rw (c) (HasRoom-le (λ ch. server_pending ch after) (λ ch. server_pending ch s) s.channels le h.0),
  λ ch p. omega (arith, le ch, h.1 ch (rw (n) at p)),
)

pub get_or_create-Ready :
    (sel opt : Str) (s : Server) → Ready s → Ready (get_or_create_selectors_general sel opt s).0
get_or_create-Ready sel opt s h =
    let g = channels-get_or_create sel opt s in
    Ready-le s (get_or_create_selectors_general sel opt s).0
      (λ ch. pending-get_or_create ch sel opt s) g.0 g.1 h

pending-delete_configuration :
    (ch : ℕ) (cfg : Configuration) (st : SelectorsStore)
    → pending ch (delete_configuration cfg st) ≤ pending ch st
unfolding pending delete_configuration
pending-delete_configuration ch cfg st =
    omega (arith, weight-delete_le (count ch) (cfg_key cfg.group cfg.key) st.listeners)

channels-set_store :
    (i : ℕ) (st : SelectorsStore) (s : Server)
    → ((set_store i st s).channels ≡ s.channels)
      × ((set_store i st s).next_channel ≡ s.next_channel)
unfolding set_store
channels-set_store i st s = (refl, refl)

set_store-Ready :
    (i : ℕ) (st : SelectorsStore) (s : Server)
    → ((ch : ℕ) → pending ch st ≤ pending ch (store_at i s))
    → Ready s
    → Ready (set_store i st s)
set_store-Ready i st s le h =
    Ready-le s (set_store i st s) (λ ch. omega (arith, pending-set_store ch i st s, le ch))
      (channels-set_store i st s).0 (channels-set_store i st s).1 h

pub delete_event-Ready : (c : Configuration) (s : Server) → Ready s → Ready (delete_event c s)
unfolding delete_event
delete_event-Ready c s h =
    let p =
      get_or_create_selectors_general (cache_value c.selectors) (cache_value c.optional_selectors)
        s in
    set_store-Ready p.1 (delete_configuration c (store_at p.1 p.0)) p.0
      (λ ch. pending-delete_configuration ch c (store_at p.1 p.0))
      (get_or_create-Ready (cache_value c.selectors) (cache_value c.optional_selectors) s h)

pending-cancel_key :
    (ch reqid : ℕ) (k : Str) (st : SelectorsStore)
    → pending ch (cancel_key reqid k st) ≤ pending ch st
unfolding pending cancel_key weight_of
pending-cancel_key ch reqid k st = elim (Option-cases (lookup k st.listeners)) [
  | inl e ↦ rw (cancel_key, e) (omega arith)
  | inr (m, e) ↦
      rw (cancel_key, e)
        (omega (
          arith,
          rw (e) at (weight-insert (count ch) k (delete reqid m) st.listeners),
          weight-delete_le (is_channel ch) reqid m,
        ))
]

pending-cancel_wait :
    (ch reqid : ℕ) (list : List (Str × Str)) (st : SelectorsStore)
    → pending ch (cancel_wait reqid list st) ≤ pending ch st
unfolding cancel_wait
pending-cancel_wait ch reqid [] st = omega arith
pending-cancel_wait ch reqid ((group, key) ∷ list) st = omega (
  arith,
  pending-cancel_key ch reqid (cfg_key group key) st,
  pending-cancel_wait ch reqid list (cancel_key reqid (cfg_key group key) st),
)

pub cancel-Ready :
    (reqid i : ℕ) (list : List (Str × Str)) (s : Server) → Ready s → Ready (cancel reqid i list s)
unfolding cancel
cancel-Ready reqid i list s h =
    set_store-Ready i (cancel_wait reqid list (store_at i s)) s
      (λ ch. pending-cancel_wait ch reqid list (store_at i s)) h

Sent-HasRoom :
    (owed rest total : ℕ → ℕ) (cfg : Configuration) (before after : Channels)
    → ((ch : ℕ) → rest ch + owed ch ≤ total ch)
    → HasRoom total before
    → Sent owed cfg before after
    → HasRoom rest after
Sent-HasRoom owed rest total cfg before after le h sent ch p =
    let (c, e, o, r) = h ch (omega (arith, le ch, p)) in
    (
      record c { sent = c.sent ++ replicate (owed ch) cfg },
      sent ch c e,
      o,
      omega (
        arith,
        length-append c.sent (replicate (owed ch) cfg),
        length-replicate (owed ch) cfg,
        le ch,
        r,
      ),
    )

pub count_le :
    (ch : ℕ) (k : Str) (st : SelectorsStore) → count ch (listeners_of k st) ≤ pending ch st
unfolding listeners_of pending weight_of weight
count_le ch k st = ground (arith, weight_of_le (count ch) k st.listeners)

Saved-owes :
    (c : Configuration) (i : ℕ) (st : SelectorsStore) (chans : Channels) (s : Server)
    → Saved c (store_at i s) st
    → (ch : ℕ)
    → server_pending ch (record (set_store i st s) { channels = chans })
        + count ch (listeners_of (cfg_key c.group c.key) (store_at i s))
      ≤ server_pending ch s
unfolding server_pending set_store
Saved-owes c i st chans s h ch = omega (arith, pending-set_store ch i st s, h.2 ch)

-- A save into one store: each channel gets what that store owed to it, and the rest is still owed.
pub save-Ready :
    (c : Configuration) (i : ℕ) (s : Server) (ch_map : Map ℕ ℕ)
    → Ready s
    → (r : SelectorsStore × Map ℕ ℕ × Channels) × (save_configuration_with_notification c
          (store_at i s)
          ch_map
          s.channels
        ≡ ok r)
      × Sent (λ ch. count ch (listeners_of (cfg_key c.group c.key) (store_at i s))) c s.channels r.2
      × Saved c (store_at i s) r.0
      × Ready (record (set_store i r.0 s) { channels = r.2 })
unfolding set_store
save-Ready c i s ch_map h =
    let k = cfg_key c.group c.key in
    let (r, done, sent, saved) = save_notifies c (store_at i s) ch_map s.channels (
      HasRoom-le (λ ch. count ch (listeners_of k (store_at i s))) (λ ch. server_pending ch s)
        s.channels (λ ch. omega (arith, count_le ch k (store_at i s), pending_le ch i s)) h.0) in
    let owes = Saved-owes c i r.0 r.2 s saved in
    (
      r,
      done,
      sent,
      saved,
      (
        Sent-HasRoom (λ ch. count ch (listeners_of k (store_at i s)))
            (λ ch. server_pending ch (record (set_store i r.0 s) { channels = r.2 }))
            (λ ch. server_pending ch s) c s.channels r.2 owes h.0 sent,
        λ ch p. omega (arith, owes ch, h.1 ch p),
      ),
    )
