-- ===== src/ConfigServer/Notify.antt =====
-- What a save sends, and to whom: configure/configserver/server.core.go,
-- SaveConfigurationWithNotification.
use nekoq_component.Base.{
  ==_iff, Bool-cases, Option-cases, [], append-nil, append_assoc, arith, false, if◌then◌else◌, inl,
  inr, length, length-append, lt→ltb, none, refl, replicate, some, suc, true, ℕ, ◌++◌, ◌+◌, ◌<◌,
  ◌==◌, ◌∷◌, ◌≡◌, ◌≤◌,
}
use nekoq_component.Base.Str.{Str, str_eq, str_eq_iff}
use nekoq_component.Base.Map.{
  Map, delete, insert, lookup, lookup-delete, lookup-insert, nat_eq, str_key,
}
use nekoq_component.Base.Result.{ok}
use nekoq_component.Base.Weight.{weight, weight-delete_le, weight_of}
use nekoq_component.ConfigApi.{Configuration}
use nekoq_component.ConfigServer.{
  Channels, NotifyChannel, SelectorsStore, cfg_key, get_configuration, listeners_of, notify,
  save_configuration_with_notification, send,
}

-- How often a channel stands in a map of listeners.
unfoldable pub is_channel : ℕ → ℕ → ℕ
is_channel ch c = if c == ch then 1 else 0

abbrev pub count : ℕ → Map ℕ ℕ → ℕ
count ch = weight (is_channel ch)

-- Each channel that is owed `owed ch` sends is open and has room for them.
abbrev pub HasRoom : (ℕ → ℕ) → Channels → Type 0
HasRoom owed chans =
    (ch : ℕ)
    → 1 ≤ owed ch
    → (c : NotifyChannel) × (lookup ch chans ≡ some c)
      × (c.closed ≡ false)
      × (length c.sent + owed ch ≤ c.capacity)

-- Every channel afterwards holds what it held and `cfg` as often as it was owed.
abbrev pub Sent : (ℕ → ℕ) → Configuration → Channels → Channels → Type 0
Sent owed cfg before after =
    (ch : ℕ) (c : NotifyChannel)
    → lookup ch before ≡ some c
    → lookup ch after ≡ some (record c { sent = c.sent ++ replicate (owed ch) cfg })

send_ok :
    (ch : ℕ) (cfg : Configuration) (chans : Channels) (c : NotifyChannel)
    → lookup ch chans ≡ some c
    → c.closed ≡ false
    → length c.sent < c.capacity
    → send ch cfg chans ≡ ok (insert ch (record c { sent = c.sent ++ cfg ∷ [] }) chans)
unfolding send
send_ok ch cfg chans c h o r = rw (send, h, o, lt→ltb (length c.sent) c.capacity r) refl

head_room :
    (reqid ch : ℕ) (ls : Map ℕ ℕ) (chans : Channels)
    → HasRoom (λ d. count d ((reqid, ch) ∷ ls)) chans
    → (c : NotifyChannel) × (lookup ch chans ≡ some c)
      × (c.closed ≡ false)
      × (length c.sent < c.capacity)
unfolding weight is_channel
head_room reqid ch ls chans h =
    let (c, e, o, r) = h ch (ground arith) in (c, e, o, ground (arith, r))

same_channel :
    (ch d : ℕ) (chans : Channels) (c c1 : NotifyChannel)
    → lookup ch chans ≡ some c
    → lookup d chans ≡ some c1
    → (ch == d) ≡ true
    → c1 ≡ c
same_channel ch d chans c c1 e g q = grind (arith, ==_iff ch d)

-- One send to a channel with room for one more than is owed leaves the room that is owed.
send-HasRoom :
    (ch : ℕ) (owed : ℕ → ℕ) (cfg : Configuration) (chans : Channels) (c : NotifyChannel)
    → lookup ch chans ≡ some c
    → HasRoom (λ d. is_channel d ch + owed d) chans
    → HasRoom owed (insert ch (record c { sent = c.sent ++ cfg ∷ [] }) chans)
unfolding is_channel
send-HasRoom ch owed cfg chans c e h d p = elim (Bool-cases (ch == d)) [
  | inl q ↦
      let (c1, e1, o1, r1) = h d (ground arith) in
      let same : c1 ≡ c = same_channel ch d chans c c1 e e1 q in
      (
        record c { sent = c.sent ++ cfg ∷ [] },
        rw (lookup-insert ch d (record c { sent = c.sent ++ cfg ∷ [] }) chans, q) refl,
        cc,
        ground (arith, length-append c.sent (cfg ∷ []), rw same at r1),
      )
  | inr q ↦
      let (c1, e1, o1, r1) = h d (ground arith) in
      (
        c1,
        rw (lookup-insert ch d (record c { sent = c.sent ++ cfg ∷ [] }) chans, q) e1,
        o1,
        ground (arith, r1),
      )
]

send-Sent :
    (ch : ℕ) (owed : ℕ → ℕ) (cfg : Configuration) (chans after : Channels) (c : NotifyChannel)
    → lookup ch chans ≡ some c
    → Sent owed cfg (insert ch (record c { sent = c.sent ++ cfg ∷ [] }) chans) after
    → Sent (λ d. is_channel d ch + owed d) cfg chans after
unfolding is_channel
send-Sent ch owed cfg chans after c e h d c' g = elim (Bool-cases (ch == d)) [
  | inl q ↦
      let same : c' ≡ c = same_channel ch d chans c c' e g q in
      let plus : (if ch == d then 1 else 0) + owed d ≡ suc (owed d) = ground arith in
      rw (same, plus)
        (rw append_assoc at (
          h d (record c { sent = c.sent ++ cfg ∷ [] })
            (rw (lookup-insert ch d (record c { sent = c.sent ++ cfg ∷ [] }) chans, q) refl)))
  | inr q ↦
      let plus : (if ch == d then 1 else 0) + owed d ≡ owed d = ground arith in
      rw (plus)
        (h d c' (rw (lookup-insert ch d (record c { sent = c.sent ++ cfg ∷ [] }) chans, q) g))
]

pub notify-HasRoom :
    (cfg : Configuration) (ls ch_map : Map ℕ ℕ) (chans : Channels)
    → HasRoom (λ ch. count ch ls) chans
    → (r : Map ℕ ℕ × Channels) × (notify cfg ls ch_map chans ≡ ok r)
      × Sent (λ ch. count ch ls) cfg chans r.1
unfolding notify weight
notify-HasRoom cfg [] ch_map chans h = ((ch_map, chans), refl, λ ch c e. rw (append-nil) e)
notify-HasRoom cfg ((reqid, ch) ∷ ls) ch_map chans h =
    let (c, e, o, r) = head_room reqid ch ls chans h in
    let ih =
      notify-HasRoom cfg ls (insert reqid ch ch_map)
        (insert ch (record c { sent = c.sent ++ cfg ∷ [] }) chans)
        (send-HasRoom ch (λ d. count d ls) cfg chans c e h) in
    (
      ih.0,
      rw (send_ok ch cfg chans c e o r) ih.1,
      send-Sent ch (λ d. count d ls) cfg chans ih.0.1 c e ih.2,
    )

-- The sends that a store still owes to a channel, one for each key it waits for.
unfoldable pub pending : ℕ → SelectorsStore → ℕ
pending ch st = weight (count ch) st.listeners

-- What a save of `cfg` leaves of the store.
abbrev pub Saved : Configuration → SelectorsStore → SelectorsStore → Type 0
Saved cfg before after =
    ((group key : Str)
      → get_configuration group key after ≡ (
          if str_eq (cfg_key cfg.group cfg.key) (cfg_key group key)
          then some cfg
          else get_configuration group key before))
    × ((k : Str)
        → listeners_of k after
          ≡ (if str_eq (cfg_key cfg.group cfg.key) k then [] else listeners_of k before))
    × ((ch : ℕ)
        → pending ch after + count ch (listeners_of (cfg_key cfg.group cfg.key) before)
          ≤ pending ch before)

listeners_of-none :
    (k : Str) (st : SelectorsStore) → lookup k st.listeners ≡ none → listeners_of k st ≡ []
unfolding listeners_of
listeners_of-none k st e = grind arith

listeners_of-some :
    (k : Str) (st : SelectorsStore) (m : Map ℕ ℕ)
    → lookup k st.listeners ≡ some m
    → listeners_of k st ≡ m
unfolding listeners_of
listeners_of-some k st m e = grind arith

Saved-absent :
    (cfg : Configuration) (st : SelectorsStore)
    → lookup (cfg_key cfg.group cfg.key) st.listeners ≡ none
    → Saved cfg st
        (record st { configurations = insert (cfg_key cfg.group cfg.key) cfg st.configurations })
unfolding get_configuration listeners_of pending weight
Saved-absent cfg st e = (
  λ group key. lookup-insert (cfg_key cfg.group cfg.key) (cfg_key group key) cfg st.configurations,
  λ k. grind (arith, str_eq_iff (cfg_key cfg.group cfg.key) k),
  λ ch. rw (listeners_of-none (cfg_key cfg.group cfg.key) st e) omega arith,
)

Saved-present :
    (cfg : Configuration) (st : SelectorsStore)
    → Saved cfg st (record {
      configurations = insert (cfg_key cfg.group cfg.key) cfg st.configurations;
      listeners = delete (cfg_key cfg.group cfg.key) st.listeners;
    })
unfolding get_configuration listeners_of pending weight weight_of
Saved-present cfg st = (
  λ group key. lookup-insert (cfg_key cfg.group cfg.key) (cfg_key group key) cfg st.configurations,
  λ k. grind (arith, lookup-delete (cfg_key cfg.group cfg.key) k st.listeners),
  λ ch. ground (arith, weight-delete_le (count ch) (cfg_key cfg.group cfg.key) st.listeners),
)

-- If every channel that listens to a configuration's key is open and has room,
-- SaveConfigurationWithNotification returns: each channel holds the configuration once more for
-- each of its listeners of that key, the key then has that configuration and no listener, the
-- other keys keep their configurations and listeners, and no channel is owed more than before less
-- what it was sent.
pub save_notifies :
    (cfg : Configuration) (st : SelectorsStore) (ch_map : Map ℕ ℕ) (chans : Channels)
    → HasRoom (λ ch. count ch (listeners_of (cfg_key cfg.group cfg.key) st)) chans
    → (r : SelectorsStore × Map ℕ ℕ × Channels) × (save_configuration_with_notification cfg st
          ch_map chans
        ≡ ok r)
      × Sent (λ ch. count ch (listeners_of (cfg_key cfg.group cfg.key) st)) cfg chans r.2
      × Saved cfg st r.0
unfolding save_configuration_with_notification weight
save_notifies cfg st ch_map chans h =
    elim (Option-cases (lookup (cfg_key cfg.group cfg.key) st.listeners)) [
      | inl e ↦ (
        (
          record st { configurations = insert (cfg_key cfg.group cfg.key) cfg st.configurations },
          ch_map,
          chans,
        ),
        rw (save_configuration_with_notification, e) refl,
        λ ch c g. rw (listeners_of-none (cfg_key cfg.group cfg.key) st e, append-nil) g,
        Saved-absent cfg st e,
      )
      | inr (m, e) ↦
          let n =
            notify-HasRoom cfg m ch_map chans
              (rw (listeners_of-some (cfg_key cfg.group cfg.key) st m e) at h) in
          (
            (
              record {
                configurations = insert (cfg_key cfg.group cfg.key) cfg st.configurations;
                listeners = delete (cfg_key cfg.group cfg.key) st.listeners;
              },
              n.0.0,
              n.0.1,
            ),
            rw (save_configuration_with_notification, e, n.1) refl,
            rw (listeners_of-some (cfg_key cfg.group cfg.key) st m e) n.2,
            Saved-present cfg st,
          )
    ]
