-- ===== src/Publishing.antt =====
-- From a save over HTTP to a request over HTTP: the handlers of configure/configserver/server.go, the
-- table of configure/cfgimpl/datawriter.go and datapump.go, and the round of
-- configure/configserver/server.core.go.
mod Tests
use nekoq_component.Base.{
  Bool, Option, Option-cases, [], ap, arith, inl, inr, none, refl, some, true, ℕ, ◌<◌, ◌==◌, ◌^◌,
  ◌∙◌, ◌∷◌, ◌≡◌,
}
use nekoq_component.Base.Str.{Str, bytes}
use nekoq_component.Base.Map.{nat_eq, str_key}
use nekoq_component.Base.Result.{ok, ◌>>=◌}
use nekoq_component.ConfigApi.{Configuration, cache_value, trim_space}
use nekoq_component.ConfigServer.Server.{Server, get_configuration_via_plain_request}
use nekoq_component.ConfigServer.Pump.{cache_selectors, pump_round}
use nekoq_component.ConfigServer.Serving.{HasNoListener, round_is_served}
use nekoq_component.ConfigHttp.{
  Codec, Request, handle_get_configuration, save_configuration, write_header, write_object,
}
use nekoq_component.ConfigHttp.Status.{get_of_found, is_well_formed, plain_lookup}
use nekoq_component.ConfigHttp.Writes.{Carries, Carries-read_save_request}
use nekoq_component.ConfigStore.{
  Session, StoreCodec, StoreError, Table, database_writer, store_save,
}
use nekoq_component.ConfigStore.Pump.{event_of, scan_round}
use nekoq_component.ConfigStore.Written.{HasIds, row_to_write}
use nekoq_component.ConfigStore.Scanning.{AllUpTo, saved_is_scanned}

pair_of : (p : Table × Option StoreError) (t : Table) → t ≡ p.0 → p.1 ≡ none → p ≡ (t, none)
pair_of (a, o) t e n = cc

-- A save request that gets the status 200 has in_transaction-IsWritten to the table.
save_written :
    (http : Codec) (codec : StoreCodec) (opens : Bool) (w : Session) (now : ℕ) (r : Request)
    (cfg : Configuration) (t : Table)
    → Carries http r cfg
    → let done = save_configuration (database_writer codec opens w now) http r t in
      done.1.status ≡ 200 → store_save codec w now cfg t ≡ (done.0, none)
unfolding save_configuration database_writer write_header
save_written http codec opens w now r cfg t c e =
    let q = Carries-read_save_request http r cfg c in
    elim (Option-cases (store_save codec w now cfg t).1) [
      | inl n ↦
          pair_of (store_save codec w now cfg t)
            (save_configuration (database_writer codec opens w now) http r t).0 (ground arith) n
      | inr (x, n) ↦ absurd (ground arith)
    ]

-- The request for one configuration names these selectors, this group and this key.
abbrev pub Names : Request → Str → Str → Str → Str → Type 0
Names r sel opt group key =
    (is_well_formed r ≡ true)
    × (trim_space r.configuration_sel ≡ sel)
    × (trim_space r.configuration_opt_sel ≡ opt)
    × (r.url_group ≡ group)
    × (r.url_key ≡ key)

named_lookup :
    (r : Request) (s : Server) (sel opt group key : Str)
    → Names r sel opt group key
    → plain_lookup r s ≡ get_configuration_via_plain_request group key sel opt s
named_lookup r s sel opt group key (f, a, b, c, d) = rw (a, b, c, d) refl

-- When a save request that carries a configuration gets the status 200, on a table whose ids are
-- sound, whose row for the key is not marked as deleted and whose rows the scan has all seen, and
-- the database's sequence stays below 2^63, the next round of the scan and the round of the server
-- on its events run to the end; then a request that names the decoded configuration's selectors,
-- group and key is answered with its encoding. No request waits for that configuration, and the
-- stored encoding decodes.
pub saved_is_served :
    (http : Codec) (codec : StoreCodec) (unmarshal : Str → Option Configuration) (opens : Bool)
    (w : Session) (now start : ℕ) (sent asked : Request) (cfg decoded : Configuration)
    (encoded : Str) (t : Table) (s : Server)
    → let done = save_configuration (database_writer codec opens w now) http sent t in
      let named = cache_selectors decoded in
      Carries http sent cfg
      → HasIds t
      → codec.marshal cfg ≡ some encoded
      → unmarshal encoded ≡ some decoded
      → (row_to_write
          (cache_value cfg.selectors)
          (cache_value cfg.optional_selectors)
          cfg
          encoded
          now
          t).cfg_status
        ≡ 0
      → AllUpTo start t.rows
      → start < t.next_sequence
      → t.next_sequence < 2 ^ 63
      → HasNoListener named s
      → Names asked
          (cache_value named.selectors)
          (cache_value named.optional_selectors)
          decoded.group
          decoded.key
      → done.1.status ≡ 200
      → (later : Server) × (pump_round (scan_round unmarshal true start done.0.rows).events s
          ≡ ok later)
        × (handle_get_configuration http asked later
            ≡ write_object (
                http.marshal_get (record {
                  code = bytes "200";
                  message = bytes "success";
                  found = cache_selectors named;
                })))
unfolding event_of
saved_is_served http codec unmarshal opens w now start sent asked cfg decoded encoded t s c h m u
      live low next fits n names e =
    let done = save_configuration (database_writer codec opens w now) http sent t in
    let scanned =
      saved_is_scanned codec unmarshal w now start cfg decoded encoded t done.0 h m u low next fits
        (save_written http codec opens w now sent cfg t c e) in
    let (later, round, found) = round_is_served decoded s n in
    (
      later,
      ap (λ z. pump_round z.events s) scanned
          ∙ ap
              (λ z.
                pump_round
                  (event_of (record { seq = t.next_sequence; status = z; scanned = decoded }) ∷ [])
                  s)
              live
          ∙ round,
      get_of_found http asked later (cache_selectors (cache_selectors decoded)) names.0 (
          named_lookup asked later (cache_value (cache_selectors decoded).selectors)
            (cache_value (cache_selectors decoded).optional_selectors) decoded.group decoded.key
            names
          ∙ found),
    )
