-- ===== src/ConfigHttp/Retrieving.antt =====
-- Waiting for a configuration: handleRetrieveAndListen and GetMaxWaitTimeForUpdate of
-- configure/configserver/server.go.
use nekoq_component.Base.{
  ==_iff, List, [], ap, append-nil, append_assoc, arith, length, refl, some, true, ℕ, ◌*◌, ◌++◌,
  ◌<◌, ◌^◌, ◌∷◌, ◌≡◌, ◌≤◌, ◌⊎◌,
}
use nekoq_component.Base.Map.{lookup, lookup_same, nat_eq, str_key}
use nekoq_component.Base.Result.{ok}
use nekoq_component.ConfigApi.{AcquireConfigurationReq, Configuration}
use nekoq_component.ConfigServer.Server.{
  Server, get_selectors_general, next_id, respond, retrieve, retrieve_or_wait, store_at, updated,
  updates_at,
}
use nekoq_component.ConfigHttp.{
  Codec, Request, accumulate, answer_reply, channel_ready, get_max_wait_time_for_update,
  handle_retrieve_and_listen, read_retrieve_request, receive, second, select, write_accumulated,
  write_object,
}

-- The wait for updates is 60 seconds for a setting that is zero or, as a signed 64-bit number,
-- negative; for a setting from 1 to 9223372036 it is that many seconds, at least one second, and
-- fits a signed 64-bit number of nanoseconds; for 9223372037 it is negative as such a number.
pub max_wait_time_bounds :
    (n : ℕ)
    → n < 2 ^ 64
    → let wait = get_max_wait_time_for_update n in
      (((n ≡ 0) ⊎ (2 ^ 63 ≤ n)) → wait ≡ 60 * second)
      × (1 ≤ n → n ≤ 9223372036 → (wait ≡ n * second) × (second ≤ wait) × (wait < 2 ^ 63))
      × (n ≡ 9223372037 → 2 ^ 63 ≤ wait)
unfolding get_max_wait_time_for_update
max_wait_time_bounds n h = ground (arith, ==_iff n 0)

accumulate-append : (xs acc : List Configuration) → accumulate xs acc ≡ acc ++ xs
unfolding accumulate
accumulate-append [] acc = rw (append-nil acc) refl
accumulate-append (x ∷ xs) acc =
    rw (accumulate-append xs (acc ++ x ∷ []), append_assoc acc (x ∷ []) xs) refl

receive_closed :
    (codec : Codec) (ch capacity : ℕ) (c : Configuration) (cs : List Configuration) (s : Server)
    → lookup ch s.channels ≡ some (record { capacity = capacity; sent = c ∷ cs; closed = true })
    → receive codec ch s ≡ ok (write_object (codec.marshal_res (c ∷ cs)))
unfolding receive write_accumulated
receive_closed codec ch capacity c cs s e = rw (receive, e, accumulate-append (c ∷ cs) []) refl

-- What a reply of updates leaves in the server.
abbrev pub after_respond : List Configuration → Server → Server
after_respond r s = (respond r (next_id s).0).0

updates_at-next_id :
    (req : AcquireConfigurationReq) (s : Server) → updates_at req (next_id s).0 ≡ updates_at req s
unfolding updates_at next_id store_at get_selectors_general
updates_at-next_id req s = refl

updates_at-after_respond :
    (req : AcquireConfigurationReq) (r : List Configuration) (s : Server)
    → updates_at req (after_respond r s) ≡ updates_at req s
unfolding updates_at next_id store_at get_selectors_general respond
updates_at-after_respond req r s = refl

retrieve-respond :
    (req : AcquireConfigurationReq) (s : Server) (i : ℕ) (c : Configuration)
    (cs : List Configuration)
    → updates_at req s ≡ some (i, c ∷ cs)
    → retrieve req s ≡ ((respond (c ∷ cs) s).0, some (respond (c ∷ cs) s).1)
unfolding retrieve
retrieve-respond req s i c cs e = rw (retrieve, e) refl

retrieve_or_wait-respond :
    (req : AcquireConfigurationReq) (between : Server → Server) (s : Server) (i : ℕ)
    (c : Configuration) (cs : List Configuration)
    → updates_at req s ≡ some (i, c ∷ cs)
    → retrieve_or_wait req between s ≡ (after_respond (c ∷ cs) s, updated s.next_channel)
unfolding retrieve_or_wait respond next_id
retrieve_or_wait-respond req between s i c cs e =
    let q = retrieve-respond req (next_id s).0 i c cs (rw (updates_at-next_id req s) e) in
    rw (retrieve_or_wait, q) (rw (ap (λ p. p.0) q) refl)

-- A retrieving request that passes the guards and has updates on the server is answered at once
-- with the encoding of exactly those updates, if nothing else happens while it is handled and the
-- channel is read before the timer fires; what the server holds for the request is then as before.
pub retrieving_answers_at_once :
    (codec : Codec) (r : Request) (req : AcquireConfigurationReq) (between : Server → Server)
    (s : Server) (i : ℕ) (c : Configuration) (cs : List Configuration)
    → read_retrieve_request codec r ≡ ok req
    → updates_at req s ≡ some (i, c ∷ cs)
    → (handle_retrieve_and_listen codec r between (λ t. t) channel_ready s
        ≡ ok (after_respond (c ∷ cs) s, write_object (codec.marshal_res (c ∷ cs))))
      × (updates_at req (after_respond (c ∷ cs) s) ≡ updates_at req s)
unfolding handle_retrieve_and_listen select answer_reply respond next_id
retrieving_answers_at_once codec r req between s i c cs q e = (
  rw
      (
        handle_retrieve_and_listen,
        q,
        retrieve_or_wait-respond req between s i c cs e,
        receive_closed codec s.next_channel (length (c ∷ cs)) c cs (after_respond (c ∷ cs) s)
            (lookup_same s.next_channel _ s.channels),
      )
      refl,
  updates_at-after_respond req (c ∷ cs) s,
)
