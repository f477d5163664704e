-- ===== src/ConfigClient.antt =====
-- The configuration client: configure/configclient/client.go. The CBOR codec and the exchange with a
-- server are parameters. A callback is a number, a nil one is none, and the calls of callbacks are
-- the round's output.
pub mod Versions
pub mod Rounds
pub mod Env
pub mod Requirements
mod Tests
use nekoq_component.Base.{
  Bool, List, Option, [], arith, false, get_elem?, if◌then◌else◌, length, none, not, some, true, ℕ,
  ◌&&◌, ◌++◌, ◌==◌, ◌||◌, ◌∷◌,
}
use nekoq_component.Base.Str.{Str, bytes, str_eq}
use nekoq_component.Base.Map.{Map, insert, lookup, nat_eq, str_key}
use nekoq_component.Base.Result.{Result, err, ok, ◌>>=◌}
use nekoq_component.ConfigApi.{
  AcquireConfigurationReq, Configuration, RequestedConfigurationKey, Selectors, new_selectors,
  trim_space,
}

-- The options that the client's code reads.
pub record ClientOptions : Type 0 where
  pub selector_environment : Str
  pub selector_datacenter : Str
  pub selector_namespace : Str
  pub selector_app : Str
  pub selector_cluster : Str
  pub selector_host_name : Str
  pub selector_beta : Str
  pub override_selectors : Option Selectors
  pub override_optional_selectors : Option Selectors

-- s.Data[name] = TrimSpace(option), unless the option is blank
unfoldable pub add_selector : Str → Str → Map Str Str → Map Str Str
add_selector name option m =
    if str_eq (trim_space option) [] then m else insert name (trim_space option) m

unfoldable pub to_selectors : ClientOptions → Selectors
to_selectors o = elim o.override_selectors [
  | some s ↦ s
  | none ↦ new_selectors (
      add_selector (bytes "cluster") o.selector_cluster (
        add_selector (bytes "app") o.selector_app (
          add_selector (bytes "ns") o.selector_namespace (
            add_selector (bytes "dc") o.selector_datacenter
              (add_selector (bytes "env") o.selector_environment [])))))
]

unfoldable pub to_opt_selectors : ClientOptions → Selectors
to_opt_selectors o = elim o.override_optional_selectors [
  | some s ↦ s
  | none ↦ new_selectors (
      add_selector (bytes "beta") o.selector_beta
        (add_selector (bytes "host") o.selector_host_name []))
]

pub record Client : Type 0 where
  pub server_lists : List Str
  pub lock_requests : Bool
  pub requests : AcquireConfigurationReq
  pub req_callbacks : Map Str (Option ℕ)
  -- closeCh and startupLoadCh, of which only the closing matters
  pub close_ch_closed : Bool
  pub startup_load_ch_closed : Bool

unfoldable pub new_client : List Str → ClientOptions → Client
new_client servers opt = record {
  server_lists = servers;
  lock_requests = false;
  requests = record {
    requested = [];
    req_selectors = to_selectors opt;
    req_optional_selectors = to_opt_selectors opt;
  };
  req_callbacks = [];
  close_ch_closed = false;
  startup_load_ch_closed = false;
}

unfoldable pub get_configuration_key : RequestedConfigurationKey → Str
get_configuration_key r = r.req_group ++ 124 ∷ 124 ∷ r.req_key

unfoldable pub get_configuration_key_from_cfg : Configuration → Str
get_configuration_key_from_cfg c = c.group ++ 124 ∷ 124 ∷ c.key

pub data ClientPanic : Type 0 where
  adding_after_lock : ClientPanic
  duplicate_requirement : ClientPanic
  no_server : ClientPanic
  close_of_closed : ClientPanic

pub record RequiredConfig : Type 0 where
  pub required : RequestedConfigurationKey
  pub callback : Option ℕ

unfoldable pub add_configuration_requirement : RequiredConfig → Client → Result ClientPanic Client
add_configuration_requirement req c =
    let ckey = get_configuration_key req.required in
    if c.lock_requests then err adding_after_lock else elim (lookup ckey c.req_callbacks) [
      | some f ↦ err duplicate_requirement
      | none ↦ ok (record c {
        requests = record (c.requests) { requested = c.requests.requested ++ req.required ∷ [] };
        req_callbacks = insert ckey req.callback c.req_callbacks;
      })
    ]

unfoldable pub start_client : Client → Client
start_client c = record c { lock_requests = true }

unfoldable pub stop_client : Client → Result ClientPanic Client
stop_client c =
    if c.close_ch_closed
    then err close_of_closed
    else ok (record c { lock_requests = false; close_ch_closed = true })

unfoldable pub suspend : Client → Client
suspend c = record c { lock_requests = false }

unfoldable pub resume : Client → Client
resume c = record c { lock_requests = true }

-- What Do returns, with the body it is read to; the body is none if reading it fails.
pub record HttpReply : Type 0 where
  pub reply_status : ℕ
  pub reply_type : Str
  pub reply_body : Option Str

pub record ClientCodec : Type 0 where
  pub marshal_req : AcquireConfigurationReq → Option Str
  pub unmarshal_res : Str → Option (List Configuration)

-- A request's url and body, and the reply unless the exchange fails.
abbrev pub Exchange : Type 0
Exchange = Str → Str → Option HttpReply

pub data RequestError : Type 0 where
  marshal_failed : RequestError
  exchange_failed : RequestError
  unexpected_status : ℕ → RequestError
  invalid_content_type : RequestError
  invalid_body : RequestError

-- The response's status, its type and its body; none is a response without updates.
unfoldable pub read_reply :
    ClientCodec → HttpReply → Result RequestError (Option (List Configuration))
read_reply codec res =
    if res.reply_status == 304
    then ok none
    else (if not (res.reply_status == 200)
        then err (unexpected_status res.reply_status)
        else (if not (str_eq res.reply_type (bytes "application/cbor"))
            then err invalid_content_type
            else elim res.reply_body [
              | none ↦ err invalid_body
              | some sent_body ↦ elim (codec.unmarshal_res sent_body) [
                | none ↦ err invalid_body
                | some cfgs ↦ ok (some cfgs)
              ]
            ]))

-- `picked` is the random index into the list of servers, which is out of range for an empty one.
unfoldable pub send_retrieve_request :
    ClientCodec
    → ℕ
    → Exchange
    → Client
    → Result ClientPanic (Result RequestError (Option (List Configuration)))
send_retrieve_request codec picked exchange c = elim (codec.marshal_req c.requests) [
  | none ↦ ok (err marshal_failed)
  | some sent_body ↦ elim (get_elem? c.server_lists picked) [
    | none ↦ err no_server
    | some server ↦ elim (exchange (server ++ bytes "/retrieving") sent_body) [
      | none ↦ ok (err exchange_failed)
      | some res ↦ ok (read_reply codec res)
    ]
  ]
]

-- The version of one requested configuration after one that was received.
unfoldable pub set_version : Configuration → RequestedConfigurationKey → RequestedConfigurationKey
set_version v vv =
    if str_eq vv.req_group v.group && str_eq vv.req_key v.key
    then record vv { req_version = v.version }
    else vv

unfoldable pub update_versions :
    Configuration → List RequestedConfigurationKey → List RequestedConfigurationKey
update_versions v [] = []
update_versions v (vv ∷ vs) = set_version v vv ∷ update_versions v vs

-- The callback of a received configuration, if it has one that is not nil.
unfoldable pub callback_of : Configuration → Client → Option ℕ
callback_of v c = elim (lookup (get_configuration_key_from_cfg v) c.req_callbacks) [
  | none ↦ none
  | some f ↦ f
]

unfoldable pub call : Option ℕ → Configuration → List (ℕ × Configuration)
call none v = []
call (some f) v = (f, v) ∷ []

-- The loop over the received configurations.
unfoldable pub trigger_updates : List Configuration → Client → Client × List (ℕ × Configuration)
trigger_updates [] c = (c, [])
trigger_updates (v ∷ vs) c =
    let p = trigger_updates vs (record c {
      requests = record (c.requests) { requested = update_versions v c.requests.requested };
    }) in
    (p.0, call (callback_of v c) v ++ p.1)

unfoldable pub mark_startup_configure_loaded : Client → Client
mark_startup_configure_loaded c =
    if c.startup_load_ch_closed then c else record c { startup_load_ch_closed = true }

-- What one round of processLoop leaves: the client, the calls, and whether it was ready.
unfoldable pub finish_round :
    Result RequestError (Option (List Configuration))
    → Client
    → Client × List (ℕ × Configuration) × Bool
finish_round (err e) c = (c, [], false)
finish_round (ok none) c = (mark_startup_configure_loaded c, [], true)
finish_round (ok (some cfgs)) c =
    let p = trigger_updates cfgs c in (mark_startup_configure_loaded p.0, p.1, true)

unfoldable pub process_round :
    ClientCodec
    → ℕ
    → Exchange
    → Client
    → Result ClientPanic (Client × List (ℕ × Configuration) × Bool)
process_round codec picked exchange c =
    if not c.lock_requests || (length c.requests.requested == 0)
    then ok (c, [], false)
    else send_retrieve_request codec picked exchange c >>= (λ res. ok (finish_round res c))
