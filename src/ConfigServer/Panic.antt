-- ===== src/ConfigServer/Panic.antt =====
-- Two rounds of the pump for one client: configure/configserver/server.core.go.
use nekoq_component.Base.{[], arith, false, length, some, true, ℕ, ◌++◌, ◌<◌, ◌∷◌, ◌≡◌}
use nekoq_component.Base.Str.{str_eq}
use nekoq_component.Base.Map.{Map, insert, lookup, lookup-delete, lookup_same, nat_eq, str_key}
use nekoq_component.Base.Result.{err, ◌>>=◌}
use nekoq_component.ConfigApi.{Configuration}
use nekoq_component.ConfigServer.{
  Channels, NotifyChannel, SelectorsStore, cfg_key, close, notify,
  save_configuration_with_notification, send, send_on_closed_channel,
}
use nekoq_component.ConfigServer.Pump.{close_all}

-- When a client is the only listener of one key and the first that a second key notifies, where
-- the two have different store keys, on one open channel with room for a configuration, and has
-- not cancelled when a round has saved the first key and closed its channel, the save of the
-- second key panics on the closed channel.
pub second_round_panics :
    (c1 c2 : Configuration) (st : SelectorsStore) (chans : Channels) (reqid ch : ℕ)
    (others : Map ℕ ℕ) (c : NotifyChannel)
    → str_eq (cfg_key c1.group c1.key) (cfg_key c2.group c2.key) ≡ false
    → lookup (cfg_key c1.group c1.key) st.listeners ≡ some ((reqid, ch) ∷ [])
    → lookup (cfg_key c2.group c2.key) st.listeners ≡ some ((reqid, ch) ∷ others)
    → lookup ch chans ≡ some c
    → c.closed ≡ false
    → length c.sent < c.capacity
    → (save_configuration_with_notification c1 st [] chans >>= (λ r.
        close_all r.1 r.2
        >>= (λ closed_chans. save_configuration_with_notification c2 r.0 [] closed_chans)))
      ≡ err send_on_closed_channel
unfolding save_configuration_with_notification notify close_all close send insert
second_round_panics c1 c2 st chans reqid ch others c k l1 l2 e o r = grind (
  arith,
  lookup-delete (cfg_key c1.group c1.key) (cfg_key c2.group c2.key) st.listeners,
  lookup_same ch (record c { sent = c.sent ++ c1 ∷ [] }) chans,
  lookup_same ch (record c { sent = c.sent ++ c1 ∷ []; closed = true })
      (insert ch (record c { sent = c.sent ++ c1 ∷ [] }) chans),
)
