-- ===== src/ConfigServer.antt =====
-- The configuration server's state and the operations on one store of selectors:
-- configure/configserver/server.core.go and version.go. A pointer to a store or to a channel is an
-- address into a heap; a blocked or panicking goroutine is an error of `Stop`.
pub mod Server
pub mod Selecting
pub mod Notify
pub mod Room
pub mod Rounds
pub mod Waiting
pub mod Delivery
pub mod Reply
pub mod Panic
pub mod Pump
pub mod CfgKey
pub mod Serving
mod Tests
use nekoq_component.Base.{
  Bool, List, Option, [], arith, false, if◌then◌else◌, length, ltb, none, some, true, ℕ, ◌++◌, ◌==◌,
  ◌∷◌,
}
use nekoq_component.Base.Str.{Str, str_lt}
use nekoq_component.Base.Map.{Map, delete, insert, lookup, nat_eq, str_key}
use nekoq_component.Base.Result.{Result, err, ok, ◌>>=◌}
use nekoq_component.ConfigApi.{Configuration}

-- DefaultVersionComparator.HasUpdate
unfoldable pub has_update : Str → Str → Bool
has_update request_version data_version = str_lt request_version data_version

pub data Stop : Type 0 where
  send_on_closed_channel : Stop
  close_of_closed_channel : Stop
  nil_configuration : Stop
  -- a send that waits for room in the channel
  blocked : Stop

-- A `chan NotifyEvent`; `sent` is what its buffer holds, the oldest first.
pub record NotifyChannel : Type 0 where
  pub capacity : ℕ
  pub sent : List Configuration
  pub closed : Bool

unfoldable pub make_channel : ℕ → NotifyChannel
make_channel n = record { capacity = n; sent = []; closed = false }

abbrev pub Channels : Type 0
Channels = Map ℕ NotifyChannel

-- ch <- cfg
unfoldable pub send : ℕ → Configuration → Channels → Result Stop Channels
send ch cfg chans = elim (lookup ch chans) [
  | none ↦ err blocked
  | some c ↦
      if c.closed
      then err send_on_closed_channel
      else (if ltb (length c.sent) c.capacity
          then ok (insert ch (record c { sent = c.sent ++ cfg ∷ [] }) chans)
          else err blocked)
]

-- close(ch)
unfoldable pub close : ℕ → Channels → Result Stop Channels
close ch chans = elim (lookup ch chans) [
  | none ↦ err close_of_closed_channel
  | some c ↦
      if c.closed
      then err close_of_closed_channel
      else ok (insert ch (record c { closed = true }) chans)
]

pub record SelectorsStore : Type 0 where
  pub configurations : Map Str Configuration
  -- the channel that waits for a key, by the id of its request
  pub listeners : Map Str (Map ℕ ℕ)

unfoldable pub new_selectors_store : SelectorsStore
new_selectors_store = record { configurations = []; listeners = [] }

unfoldable pub cfg_key : Str → Str → Str
cfg_key group key = group ++ 124 ∷ 124 ∷ key

unfoldable pub get_configuration : Str → Str → SelectorsStore → Option Configuration
get_configuration group key s = lookup (cfg_key group key) s.configurations

-- The map of a key, which is nil for a missing one.
unfoldable pub listeners_of : Str → SelectorsStore → Map ℕ ℕ
listeners_of k s = elim (lookup k s.listeners) [ none ↦ [] | some m ↦ m ]

unfoldable pub register_listener : ℕ → Str → Str → ℕ → SelectorsStore → SelectorsStore
register_listener reqid group key ch s = record s {
  listeners =
      insert (cfg_key group key) (insert reqid ch (listeners_of (cfg_key group key) s)) s.listeners;
}

-- delete on a nil map does nothing
unfoldable pub cancel_key : ℕ → Str → SelectorsStore → SelectorsStore
cancel_key reqid k s = elim (lookup k s.listeners) [
  | none ↦ s
  | some m ↦ record s { listeners = insert k (delete reqid m) s.listeners }
]

unfoldable pub cancel_wait : ℕ → List (Str × Str) → SelectorsStore → SelectorsStore
cancel_wait reqid [] s = s
cancel_wait reqid ((group, key) ∷ list) s =
    cancel_wait reqid list (cancel_key reqid (cfg_key group key) s)

-- The loop over the listeners of one key: a send to each, and its channel in `ch_map`.
unfoldable pub notify :
    Configuration → Map ℕ ℕ → Map ℕ ℕ → Channels → Result Stop (Map ℕ ℕ × Channels)
notify cfg [] ch_map chans = ok (ch_map, chans)
notify cfg ((reqid, ch) ∷ rest) ch_map chans =
    send ch cfg chans >>= (λ sent_chans. notify cfg rest (insert reqid ch ch_map) sent_chans)

unfoldable pub save_configuration_with_notification :
    Configuration
    → SelectorsStore
    → Map ℕ ℕ
    → Channels
    → Result Stop (SelectorsStore × Map ℕ ℕ × Channels)
save_configuration_with_notification cfg s ch_map chans =
    let k = cfg_key cfg.group cfg.key in
    let saved = insert k cfg s.configurations in
    elim (lookup k s.listeners) [
      | none ↦ ok (record s { configurations = saved }, ch_map, chans)
      | some m ↦ notify cfg m ch_map chans >>= (λ done.
          ok (record { configurations = saved; listeners = delete k s.listeners }, done.0, done.1))
    ]

unfoldable pub delete_configuration : Configuration → SelectorsStore → SelectorsStore
delete_configuration cfg s =
    let k = cfg_key cfg.group cfg.key in
    record { configurations = delete k s.configurations; listeners = delete k s.listeners }
