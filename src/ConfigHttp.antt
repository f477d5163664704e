-- ===== src/ConfigHttp.antt =====
-- The configuration server's HTTP handlers: configure/configserver/server.go and server.write.go.
-- The CBOR codec and the data writer are parameters. A handler gives the response it writes; what
-- other goroutines do while it waits is a function on the server's state.
pub mod Status
pub mod Retrieving
pub mod Writes
mod Tests
use nekoq_component.Base.{
  Bool, List, Option, [], arith, if◌then◌else◌, leb, length, none, not, some, ℕ, ◌%◌, ◌*◌, ◌++◌,
  ◌==◌, ◌^◌, ◌||◌, ◌∷◌,
}
use nekoq_component.Base.Str.{Str, bytes, str_eq}
use nekoq_component.Base.Map.{lookup, nat_eq, str_key}
use nekoq_component.Base.Result.{Result, err, ok, ◌>>=◌}
use nekoq_component.ConfigApi.{AcquireConfigurationReq, Configuration, trim_space}
use nekoq_component.ConfigServer.{Stop, blocked}
use nekoq_component.ConfigServer.Server.{
  Reply, Server, cancel, get_configuration_via_plain_request, has_unknown_configuration, next_id,
  retrieve_or_wait, updated, waiting,
}

-- time.Second and the default of 60 seconds, in nanoseconds
abbrev pub second : ℕ
second = 1000000000

-- MaxWaitTimeForUpdate is an int, kept as its 64 bits; time.Duration(n) * time.Second wraps.
unfoldable pub get_max_wait_time_for_update : ℕ → ℕ
get_max_wait_time_for_update n =
    if (n == 0) || leb (2 ^ 63) n then 60 * second else (n * second) % 2 ^ 64

abbrev pub application_cbor : Str
application_cbor = bytes "application/cbor"

-- What the handlers read of a request; the body is none if reading it fails.
pub record Request : Type 0 where
  pub accept : Str
  pub content_type : Str
  pub configuration_sel : Str
  pub configuration_opt_sel : Str
  pub body : Option Str
  pub url_group : Str
  pub url_key : Str

pub record Response : Type 0 where
  pub status : ℕ
  pub response_type : Str
  pub response_body : Str

-- w.WriteHeader alone
unfoldable pub write_header : ℕ → Response
write_header code = record { status = code; response_type = []; response_body = [] }

-- the header and the status 200, and the encoded object
unfoldable pub write_object : Option Str → Response
write_object none = write_header 500
write_object (some encoded) = record {
  status = 200;
  response_type = application_cbor;
  response_body = encoded;
}

pub record GetConfigurationRes : Type 0 where
  pub code : Str
  pub message : Str
  pub found : Configuration

-- cbor.Marshal and cbor.Unmarshal at the types that the handlers use.
pub record Codec : Type 0 where
  pub unmarshal_req : Str → Option AcquireConfigurationReq
  pub unmarshal_configuration : Str → Option Configuration
  pub marshal_res : List Configuration → Option Str
  pub marshal_get : GetConfigurationRes → Option Str

-- The case of select that is taken: the channel, or the timer.
pub data Wakeup : Type 0 where
  channel_ready : Wakeup
  timer_fired : Wakeup

-- The loop that reads the channel until it is closed.
unfoldable pub accumulate : List Configuration → List Configuration → List Configuration
accumulate [] accumulated = accumulated
accumulate (cfg ∷ rest) accumulated = accumulate rest (accumulated ++ cfg ∷ [])

unfoldable pub write_accumulated : Codec → List Configuration → Response
write_accumulated codec [] = write_header 500
write_accumulated codec (c ∷ cs) = write_object (codec.marshal_res (c ∷ cs))

-- The first case of select: it blocks on a channel that is never closed.
unfoldable pub receive : Codec → ℕ → Server → Result Stop Response
receive codec ch s = elim (lookup ch s.channels) [
  | none ↦ err blocked
  | some c ↦ if c.closed then ok (write_accumulated codec (accumulate c.sent [])) else err blocked
]

unfoldable pub select : Codec → Wakeup → ℕ → Server → Result Stop Response
select codec channel_ready ch s = receive codec ch s
select codec timer_fired ch s = ok (write_header 304)

-- The rest of the handler after RetrieveOrWait, with the deferred cancelFn.
unfoldable pub answer_reply :
    Codec → ℕ → Reply → (Server → Server) → Wakeup → Server → Result Stop (Server × Response)
answer_reply codec reqid has_unknown_configuration others wakeup s = ok (s, write_header 404)
answer_reply codec reqid (updated ch) others wakeup s =
    let later = others s in select codec wakeup ch later >>= (λ r. ok (later, r))
answer_reply codec reqid (waiting ch i list) others wakeup s =
    let later = others s in
    select codec wakeup ch later >>= (λ r. ok (cancel reqid i list later, r))

-- The guards of handleRetrieveAndListen: a status that ends the request, or what is asked for.
unfoldable pub read_retrieve_request : Codec → Request → Result ℕ AcquireConfigurationReq
read_retrieve_request codec r =
    if not (str_eq r.accept application_cbor) then err 406 else elim r.body [
      | none ↦ err 500
      | some sent_body ↦ elim (codec.unmarshal_req sent_body) [
        | none ↦ err 500
        | some req ↦ if length req.requested == 0 then err 400 else ok req
      ]
    ]

-- `between` is what others do inside RetrieveOrWait, `others` what they do until the handler goes on.
unfoldable pub handle_retrieve_and_listen :
    Codec
    → Request
    → (Server → Server)
    → (Server → Server)
    → Wakeup
    → Server
    → Result Stop (Server × Response)
handle_retrieve_and_listen codec r between others wakeup s = elim (read_retrieve_request codec r) [
  | err code ↦ ok (s, write_header code)
  | ok req ↦
      let p = retrieve_or_wait req between s in
      answer_reply codec (next_id s).1 p.1 others wakeup p.0
]

-- The guards that handleGetConfiguration and deleteConfiguration share, as each of them writes them
-- out: the selectors, the optional selectors, the group and the key.
unfoldable pub read_configuration_path : Request → Result ℕ (Str × Str × Str × Str)
read_configuration_path r =
    if not (str_eq r.accept application_cbor)
    then err 406
    else (if str_eq (trim_space r.configuration_sel) []
        then err 400
        else (if str_eq r.url_group []
            then err 400
            else (if str_eq r.url_key []
                then err 400
                else ok (
                  trim_space r.configuration_sel,
                  trim_space r.configuration_opt_sel,
                  r.url_group,
                  r.url_key,
                ))))

unfoldable pub handle_get_configuration : Codec → Request → Server → Response
handle_get_configuration codec r s = elim (read_configuration_path r) [
  | err code ↦ write_header code
  | ok (sel, opt, group, key) ↦ elim (get_configuration_via_plain_request group key sel opt s) [
    | none ↦ write_header 404
    | some cfg ↦
        write_object (
          codec.marshal_get (record { code = bytes "200"; message = bytes "success"; found = cfg }))
  ]
]

pub data WriteError : Type 0 where
  write_failed : WriteError

-- configapi.DataWriter on the writer's own state.
pub record DataWriter (S : Type 0) : Type 0 where
  pub writer_startup : S → S × Option WriteError
  pub writer_stop : S → S × Option WriteError
  pub save : Configuration → S → S × Option WriteError
  pub remove : Str → Str → Str → Str → S → S × Result WriteError Bool

-- The guards of saveConfiguration, with the configuration to save.
unfoldable pub read_save_request : Codec → Request → Result ℕ Configuration
read_save_request codec r =
    if not (str_eq r.accept application_cbor)
    then err 406
    else (if not (str_eq r.content_type application_cbor) then err 406 else elim r.body [
      | none ↦ err 500
      | some sent_body ↦ elim (codec.unmarshal_configuration sent_body) [
        | none ↦ err 500
        | some cfg ↦ if str_eq cfg.group [] || str_eq cfg.key [] then err 400 else ok cfg
      ]
    ])

module _ {S : Type 0} (writer : DataWriter S) where
  unfoldable pub save_configuration : Codec → Request → S → S × Response
  save_configuration codec r w = elim (read_save_request codec r) [
    | err code ↦ (w, write_header code)
    | ok cfg ↦
        let done = writer.save cfg w in
        elim done.1 [ some e ↦ (done.0, write_header 500) | none ↦ (done.0, write_header 200) ]
  ]

  unfoldable pub delete_configuration_at : Request → S → S × Response
  delete_configuration_at r w = elim (read_configuration_path r) [
    | err code ↦ (w, write_header code)
    | ok (sel, opt, group, key) ↦
        let done = writer.remove group key sel opt w in
        elim done.1 [
          | err e ↦ (done.0, write_header 500)
          | ok removed ↦ (done.0, write_header (if removed then 200 else 404))
        ]
  ]
