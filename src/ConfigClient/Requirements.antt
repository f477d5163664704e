-- ===== src/ConfigClient/Requirements.antt =====
-- What a client asks for and whom it calls back: AddConfigurationRequirement, processLoop and the
-- switches of configure/configclient/client.go.
use nekoq_component.Base.{
  Bool, Bool-cases, List, Option, Option-cases, [], ap, arith, false, inl, inr, length, none, not,
  refl, some, subst, sym, true, ℕ, ◌++◌, ◌==◌, ◌||◌, ◌∙◌, ◌∷◌, ◌≡◌,
}
use nekoq_component.Base.Str.{Str, str_eq, str_eq_iff}
use nekoq_component.Base.Map.{Map, insert, lookup, nat_eq, str_key}
use nekoq_component.Base.Result.{>>=-eq_ok, Result, err, ok, ◌>>=◌}
use nekoq_component.ConfigApi.{Configuration, RequestedConfigurationKey, keys}
use nekoq_component.ConfigClient.{
  Client, ClientCodec, ClientOptions, ClientPanic, Exchange, RequestError, RequiredConfig,
  add_configuration_requirement, finish_round, get_configuration_key, mark_startup_configure_loaded,
  new_client, process_round, resume, send_retrieve_request, set_version, start_client, stop_client,
  suspend, trigger_updates, update_versions,
}

abbrev pub requested_keys : List RequestedConfigurationKey → List Str
requested_keys [] = []
requested_keys (v ∷ vs) = get_configuration_key v ∷ requested_keys vs

abbrev pub IsAbsent : Str → List Str → Type 0
IsAbsent k [] = Unit
IsAbsent k (j ∷ js) = (str_eq j k ≡ false) × IsAbsent k js

abbrev pub AreDistinct : List Str → Type 0
AreDistinct [] = Unit
AreDistinct (k ∷ ks) = IsAbsent k ks × AreDistinct ks

-- The callbacks stand under the keys of the requested configurations, in their order, and no key
-- stands there twice.
abbrev pub IsRegistered : Client → Type 0
IsRegistered c =
    (keys c.req_callbacks ≡ requested_keys c.requests.requested)
    × AreDistinct (keys c.req_callbacks)

requested_keys-append :
    (vs ws : List RequestedConfigurationKey)
    → requested_keys (vs ++ ws) ≡ requested_keys vs ++ requested_keys ws
requested_keys-append [] ws = refl
requested_keys-append (v ∷ vs) ws =
    ap (λ x. get_configuration_key v ∷ x) (requested_keys-append vs ws)

keys-insert :
    (k : Str) (f : Option ℕ) (m : Map Str (Option ℕ))
    → lookup k m ≡ none
    → keys (insert k f m) ≡ keys m ++ k ∷ []
unfolding keys lookup insert
keys-insert k f [] e = refl
keys-insert k f ((j, w) ∷ m) e = elim (Bool-cases (str_eq j k)) [
  | inl q ↦ absurd (ground arith)
  | inr q ↦ ground (arith, keys-insert k f m)
]

keys-IsAbsent : (k : Str) (m : Map Str (Option ℕ)) → lookup k m ≡ none → IsAbsent k (keys m)
unfolding keys lookup
keys-IsAbsent k [] e = tt
keys-IsAbsent k ((j, w) ∷ m) e = elim (Bool-cases (str_eq j k)) [
  | inl q ↦ absurd (ground arith)
  | inr q ↦ (q, keys-IsAbsent k m (ground arith))
]

IsAbsent-append :
    (k j : Str) (ks : List Str) → IsAbsent k ks → str_eq j k ≡ false → IsAbsent k (ks ++ j ∷ [])
IsAbsent-append k j [] a n = (n, tt)
IsAbsent-append k j (i ∷ ks) a n = (a.0, IsAbsent-append k j ks a.1 n)

AreDistinct-append :
    (k : Str) (ks : List Str) → IsAbsent k ks → AreDistinct ks → AreDistinct (ks ++ k ∷ [])
AreDistinct-append k [] a d = (tt, tt)
AreDistinct-append k (i ∷ ks) a d = (
  IsAbsent-append i k ks d.0 (ground (arith, str_eq_iff i k, str_eq_iff k i, a.0)),
  AreDistinct-append k ks a.1 d.1,
)

update_versions-requested_keys :
    (d : Configuration) (vs : List RequestedConfigurationKey)
    → requested_keys (update_versions d vs) ≡ requested_keys vs
unfolding update_versions set_version get_configuration_key
update_versions-requested_keys d [] = refl
update_versions-requested_keys d (v ∷ vs) = ground (arith, update_versions-requested_keys d vs)

add-added :
    (req : RequiredConfig) (c next : Client)
    → add_configuration_requirement req c ≡ ok next
    → (lookup (get_configuration_key req.required) c.req_callbacks ≡ none)
      × (next.req_callbacks
          ≡ insert (get_configuration_key req.required) req.callback c.req_callbacks)
      × (next.requests.requested ≡ c.requests.requested ++ req.required ∷ [])
unfolding add_configuration_requirement
add-added req c next e = elim (Bool-cases c.lock_requests) [
  | inl k ↦ absurd (grind arith)
  | inr k ↦ elim (Option-cases (lookup (get_configuration_key req.required) c.req_callbacks)) [
    | inl n ↦ (n, ground arith, ground arith)
    | inr (f, n) ↦ absurd (grind arith)
  ]
]

add-IsRegistered :
    (req : RequiredConfig) (c next : Client)
    → IsRegistered c
    → add_configuration_requirement req c ≡ ok next
    → IsRegistered next
add-IsRegistered req c next (h, d) e =
    let (n, m, r) = add-added req c next e in
    let k = get_configuration_key req.required in
    let shape = ap keys m ∙ keys-insert k req.callback c.req_callbacks n in
    (
      shape
          ∙ ap (λ ks. ks ++ k ∷ []) h
          ∙ sym (requested_keys-append c.requests.requested (req.required ∷ []))
          ∙ ap requested_keys (sym r),
      subst AreDistinct (sym shape)
          (AreDistinct-append k (keys c.req_callbacks) (keys-IsAbsent k c.req_callbacks n) d),
    )

trigger_updates-IsRegistered :
    (cfgs : List Configuration) (c : Client)
    → IsRegistered c
    → IsRegistered (trigger_updates cfgs c).0
unfolding trigger_updates
trigger_updates-IsRegistered [] c h = h
trigger_updates-IsRegistered (v ∷ vs) c (h, d) =
    trigger_updates-IsRegistered vs _
      (h ∙ sym (update_versions-requested_keys v c.requests.requested), d)

returned : Client → Result ClientPanic Client
returned c = ok c

returned_same : (c next : Client) → returned c ≡ ok next → c ≡ next
unfolding returned
returned_same c next e = cc

kept : (c next : Client) → returned c ≡ ok next → IsRegistered c → IsRegistered next
kept c next e h = subst IsRegistered (returned_same c next e) h

mark-IsRegistered : (c : Client) → IsRegistered c → IsRegistered (mark_startup_configure_loaded c)
unfolding mark_startup_configure_loaded
mark-IsRegistered c h = elim (Bool-cases c.startup_load_ch_closed) [
  | inl e ↦ rw e h
  | inr e ↦ rw e h
]

finish_round-IsRegistered :
    (res : Result RequestError (Option (List Configuration))) (c : Client)
    → IsRegistered c
    → IsRegistered (finish_round res c).0
unfolding finish_round
finish_round-IsRegistered (err e) c h = h
finish_round-IsRegistered (ok none) c h = mark-IsRegistered c h
finish_round-IsRegistered (ok (some cfgs)) c h =
    mark-IsRegistered (trigger_updates cfgs c).0 (trigger_updates-IsRegistered cfgs c h)

round_returned :
    Client × List (ℕ × Configuration) × Bool
    → Result ClientPanic (Client × List (ℕ × Configuration) × Bool)
round_returned d = ok d

finished :
    (d done : Client × List (ℕ × Configuration) × Bool) → round_returned d ≡ ok done → d ≡ done
unfolding round_returned
finished d done e = cc

process_round-IsRegistered :
    (codec : ClientCodec) (picked : ℕ) (exchange : Exchange) (c : Client)
    (done : Client × List (ℕ × Configuration) × Bool)
    → IsRegistered c
    → process_round codec picked exchange c ≡ ok done
    → IsRegistered done.0
unfolding process_round round_returned
process_round-IsRegistered codec picked exchange c done h e =
    elim (Bool-cases (not c.lock_requests || (length c.requests.requested == 0))) [
      | inl q ↦ subst (λ d. IsRegistered d.0) (finished (c, [], false) done (rw q at e)) h
      | inr q ↦
          let (res, a, b) =
            >>=-eq_ok (send_retrieve_request codec picked exchange c)
              (λ res. ok (finish_round res c)) (rw q at e) in
          subst (λ d. IsRegistered d.0) (finished (finish_round res c) done b)
            (finish_round-IsRegistered res c h)
    ]

-- A call on a client, or a round of its loop with what the world answers.
pub data ClientStep : Type 0 where
  adds : RequiredConfig → ClientStep
  starts : ClientStep
  stops : ClientStep
  suspends : ClientStep
  resumes : ClientStep
  rounds : ℕ → Exchange → ClientStep

unfoldable pub client_step : ClientCodec → ClientStep → Client → Result ClientPanic Client
client_step codec (adds req) c = add_configuration_requirement req c
client_step codec starts c = ok (start_client c)
client_step codec stops c = stop_client c
client_step codec suspends c = ok (suspend c)
client_step codec resumes c = ok (resume c)
client_step codec (rounds picked exchange) c =
    process_round codec picked exchange c >>= (λ done. ok done.0)

unfoldable pub client_run : ClientCodec → List ClientStep → Client → Result ClientPanic Client
client_run codec [] c = ok c
client_run codec (step ∷ steps) c =
    client_step codec step c >>= (λ next. client_run codec steps next)

client_step-IsRegistered :
    (codec : ClientCodec) (step : ClientStep) (c next : Client)
    → IsRegistered c
    → client_step codec step c ≡ ok next
    → IsRegistered next
unfolding client_step returned start_client stop_client suspend resume
client_step-IsRegistered codec (adds req) c next h e = add-IsRegistered req c next h e
client_step-IsRegistered codec starts c next h e = kept (start_client c) next e h
client_step-IsRegistered codec stops c next h e = elim (Bool-cases c.close_ch_closed) [
  | inl q ↦ absurd (grind arith)
  | inr q ↦ kept (record c { lock_requests = false; close_ch_closed = true }) next (grind arith) h
]
client_step-IsRegistered codec suspends c next h e = kept (suspend c) next e h
client_step-IsRegistered codec resumes c next h e = kept (resume c) next e h
client_step-IsRegistered codec (rounds picked exchange) c next h e =
    let (done, q, r) = >>=-eq_ok (process_round codec picked exchange c) (λ done. ok done.0) e in
    kept done.0 next r (process_round-IsRegistered codec picked exchange c done h q)

client_run-kept :
    (codec : ClientCodec) (steps : List ClientStep) (c next : Client)
    → IsRegistered c
    → client_run codec steps c ≡ ok next
    → IsRegistered next
unfolding client_run returned
client_run-kept codec [] c next h e = kept c next e h
client_run-kept codec (step ∷ steps) c next h e =
    let (mid, q, r) = >>=-eq_ok (client_step codec step c) (λ m. client_run codec steps m) e in
    client_run-kept codec steps mid next (client_step-IsRegistered codec step c mid h q) r

-- After any run of a new client's calls and rounds that does not panic, its callbacks stand under
-- the keys of the requested configurations, in their order, and no key stands there twice.
pub client_run-IsRegistered :
    (codec : ClientCodec) (steps : List ClientStep) (servers : List Str) (opt : ClientOptions)
    (next : Client)
    → client_run codec steps (new_client servers opt) ≡ ok next
    → IsRegistered next
unfolding new_client keys
client_run-IsRegistered codec steps servers opt next e =
    client_run-kept codec steps (new_client servers opt) next (refl, tt) e
