-- ===== src/ConfigClient/Rounds.antt =====
-- A client's round against the server's handler: processLoop of configure/configclient/client.go
-- with handleRetrieveAndListen of configure/configserver/server.go.
use nekoq_component.Base.{
  All, Bool-cases, List, [], arith, false, get_elem?, inl, inr, length, none, refl, some, subst,
  sym, true, ℕ, ◌++◌, ◌==◌, ◌∷◌, ◌≡◌,
}
use nekoq_component.Base.Str.{Str, bytes}
use nekoq_component.Base.Map.{nat_eq, str_key}
use nekoq_component.Base.Result.{err, ok}
use nekoq_component.ConfigApi.{
  AcquireConfigurationReq, Configuration, RequestedConfigurationKey, cache_value,
}
use nekoq_component.ConfigServer.{SelectorsStore}
use nekoq_component.ConfigServer.Reply.{store_of, updates_at-some}
use nekoq_component.ConfigServer.Server.{
  Server, get_selectors_general, store_at, updates, updates_at,
}
use nekoq_component.ConfigHttp.{
  Codec, Request, Response, application_cbor, channel_ready, handle_retrieve_and_listen,
  read_retrieve_request, write_object,
}
use nekoq_component.ConfigHttp.Retrieving.{retrieving_answers_at_once}
use nekoq_component.ConfigClient.{
  Client, ClientCodec, Exchange, HttpReply, finish_round, mark_startup_configure_loaded,
  process_round, read_reply, send_retrieve_request, trigger_updates,
}
use nekoq_component.ConfigClient.Versions.{IsLabelled, update_all, updates-update_all}

trigger_updates-requested :
    (cs : List Configuration) (c : Client)
    → (trigger_updates cs c).0.requests.requested ≡ update_all cs c.requests.requested
unfolding trigger_updates update_all
trigger_updates-requested [] c = refl
trigger_updates-requested (d ∷ cs) c = trigger_updates-requested cs _

trigger_updates-selectors :
    (cs : List Configuration) (c : Client)
    → ((trigger_updates cs c).0.requests.req_selectors ≡ c.requests.req_selectors)
      × ((trigger_updates cs c).0.requests.req_optional_selectors
          ≡ c.requests.req_optional_selectors)
unfolding trigger_updates
trigger_updates-selectors [] c = (refl, refl)
trigger_updates-selectors (d ∷ cs) c = trigger_updates-selectors cs _

mark-requests : (c : Client) → (mark_startup_configure_loaded c).requests ≡ c.requests
unfolding mark_startup_configure_loaded
mark-requests c = ground arith

mark_loaded : (c : Client) → (mark_startup_configure_loaded c).startup_load_ch_closed ≡ true
unfolding mark_startup_configure_loaded
mark_loaded c = ground arith

process_round-updates :
    (codec : ClientCodec) (picked : ℕ) (exchange : Exchange) (c : Client)
    (cfgs : List Configuration)
    → c.lock_requests ≡ true
    → (length c.requests.requested == 0) ≡ false
    → send_retrieve_request codec picked exchange c ≡ ok (ok (some cfgs))
    → process_round codec picked exchange c ≡ ok (finish_round (ok (some cfgs)) c)
unfolding process_round
process_round-updates codec picked exchange c cfgs k n e = elim (Bool-cases c.lock_requests) [
  | inl q ↦ grind arith
  | inr q ↦ absurd (grind arith)
]

-- The request that a client sends, as the server's handler reads it.
abbrev pub request_of : Str → Request
request_of sent_body = record {
  accept = application_cbor;
  content_type = [];
  configuration_sel = [];
  configuration_opt_sel = [];
  body = some sent_body;
  url_group = [];
  url_key = [];
}

abbrev pub reply_of : Response → HttpReply
reply_of r = record {
  reply_status = r.status;
  reply_type = r.response_type;
  reply_body = some r.response_body;
}

-- The exchange with a server that answers while nothing else happens.
abbrev pub exchange_with : Codec → Server → Exchange
exchange_with codec s url sent_body =
    elim (handle_retrieve_and_listen codec (request_of sent_body) (λ t. t) (λ t. t) channel_ready
      s) [ err e ↦ none | ok done ↦ some (reply_of done.1) ]

-- The two sides read what the other wrote, for a given request and list of updates.
abbrev pub Understands : Codec → ClientCodec → AcquireConfigurationReq → List Configuration → Type 0
Understands codec client_codec req r =
    ((sent_body : Str) × (client_codec.marshal_req req ≡ some sent_body)
      × (codec.unmarshal_req sent_body ≡ some req))
    × ((answer_body : Str) × (codec.marshal_res r ≡ some answer_body)
        × (client_codec.unmarshal_res answer_body ≡ some r))

asked_some :
    (vs : List RequestedConfigurationKey) (st : SelectorsStore) (c : Configuration)
    (cs : List Configuration)
    → updates vs st ≡ some (c ∷ cs)
    → (length vs == 0) ≡ false
unfolding updates
asked_some [] st c cs e = absurd (cc)
asked_some (v ∷ vs) st c cs e = ground arith

updates_at-found :
    (req : AcquireConfigurationReq) (s : Server) (i : ℕ) (r : List Configuration)
    → store_of req s ≡ some i
    → updates req.requested (store_at i s) ≡ some r
    → updates_at req s ≡ some (i, r)
unfolding updates_at
updates_at-found req s i r e g = grind arith

updates-asked :
    (req : AcquireConfigurationReq) (s : Server) (i : ℕ) (c : Configuration)
    (cs : List Configuration)
    → updates_at req s ≡ some (i, c ∷ cs)
    → (length req.requested == 0) ≡ false
updates-asked req s i c cs e =
    asked_some req.requested (store_at i s) c cs (updates_at-some req s i (c ∷ cs) e).1

read_retrieve_request-request_of :
    (codec : Codec) (req : AcquireConfigurationReq) (sent_body : Str)
    → codec.unmarshal_req sent_body ≡ some req
    → (length req.requested == 0) ≡ false
    → read_retrieve_request codec (request_of sent_body) ≡ ok req
unfolding read_retrieve_request
read_retrieve_request-request_of codec req sent_body u n = rw (u, n) refl

module _ (codec : Codec) (client_codec : ClientCodec) (s : Server) (i : ℕ) (v : Configuration)
    (vs : List Configuration) where
  exchanged :
      (req : AcquireConfigurationReq) (url sent_body answer_body : Str)
      → updates_at req s ≡ some (i, v ∷ vs)
      → codec.unmarshal_req sent_body ≡ some req
      → codec.marshal_res (v ∷ vs) ≡ some answer_body
      → exchange_with codec s url sent_body
        ≡ some (record {
          reply_status = 200;
          reply_type = application_cbor;
          reply_body = some answer_body;
        })
  unfolding write_object handle_retrieve_and_listen read_retrieve_request
  exchanged req url sent_body answer_body e u m =
      let (done, same) =
        retrieving_answers_at_once codec (request_of sent_body) req (λ t. t) s i v vs
          (read_retrieve_request-request_of codec req sent_body u (updates-asked req s i v vs e))
          e in
      rw (done, m) refl

  send_retrieve_request-updates :
      (c : Client) (picked : ℕ) (url : Str)
      → get_elem? c.server_lists picked ≡ some url
      → updates_at c.requests s ≡ some (i, v ∷ vs)
      → Understands codec client_codec c.requests (v ∷ vs)
      → send_retrieve_request client_codec picked (exchange_with codec s) c
        ≡ ok (ok (some (v ∷ vs)))
  unfolding send_retrieve_request read_reply
  send_retrieve_request-updates c picked url g e ((sent_body, m, u), (answer_body, m', u')) =
      rw
        (
          send_retrieve_request,
          m,
          g,
          exchanged c.requests (url ++ bytes "/retrieving") sent_body answer_body e u m',
          u',
        )
        refl

  updates_at-caught_up :
      (req next : AcquireConfigurationReq)
      → updates_at req s ≡ some (i, v ∷ vs)
      → All (IsLabelled (store_at i s)) req.requested
      → next.requested ≡ update_all (v ∷ vs) req.requested
      → next.req_selectors ≡ req.req_selectors
      → next.req_optional_selectors ≡ req.req_optional_selectors
      → updates_at next s ≡ some (i, [])
  updates_at-caught_up req next e l a b d =
      let (g, u) = updates_at-some req s i (v ∷ vs) e in
      updates_at-found next s i []
        (subst
          (λ x.
            get_selectors_general (cache_value x) (cache_value next.req_optional_selectors) s
            ≡ some i)
          (sym b)
          (subst
            (λ x. get_selectors_general (cache_value req.req_selectors) (cache_value x) s ≡ some i)
            (sym d) g))
        (rw a (updates-update_all req.requested (store_at i s) (v ∷ vs) l u))

  -- When a running client's request has updates on the server that it exchanges with, the two
  -- sides read what the other wrote, and each requested configuration is stored with the group and
  -- the key that it is requested by, one round of the client's loop succeeds: the server answers
  -- at once, the client marks its startup configurations as loaded, and with the versions that the
  -- client then asks for, the server has no update left.
  pub round_catches_up :
      (c : Client) (picked : ℕ) (url : Str)
      → c.lock_requests ≡ true
      → get_elem? c.server_lists picked ≡ some url
      → updates_at c.requests s ≡ some (i, v ∷ vs)
      → All (IsLabelled (store_at i s)) c.requests.requested
      → Understands codec client_codec c.requests (v ∷ vs)
      → (next : Client) × (calls : List (ℕ × Configuration)) × (process_round client_codec picked
            (exchange_with codec s)
            c
          ≡ ok (next, calls, true))
        × (updates_at next.requests s ≡ some (i, []))
        × (next.startup_load_ch_closed ≡ true)
  unfolding finish_round
  round_catches_up c picked url k g e l m =
      let p = trigger_updates (v ∷ vs) c in
      let (sel, opt) = trigger_updates-selectors (v ∷ vs) c in
      (
        mark_startup_configure_loaded p.0,
        p.1,
        process_round-updates client_codec picked (exchange_with codec s) c (v ∷ vs) k
            (updates-asked c.requests s i v vs e)
            (send_retrieve_request-updates c picked url g e m),
        rw (mark-requests p.0) (
            updates_at-caught_up c.requests p.0.requests e l (trigger_updates-requested (v ∷ vs) c)
              sel opt),
        mark_loaded p.0,
      )
