-- ===== src/ConfigHttp/Status.antt =====
-- Which status a request gets: the handlers of configure/configserver/server.go.
use nekoq_component.Base.{
  Bool, Bool-cases, Option, Option-cases, [], arith, false, inl, inr, none, not, refl, some, true,
  ℕ, ◌&&◌, ◌||◌, ◌↔◌, ◌≡◌, ◌⊎◌,
}
use nekoq_component.Base.Str.{Str, bytes, str_eq}
use nekoq_component.Base.Result.{err, ok}
use nekoq_component.ConfigApi.{Configuration, trim_space}
use nekoq_component.ConfigServer.Server.{Server, get_configuration_via_plain_request}
use nekoq_component.ConfigHttp.{
  Codec, Request, Response, application_cbor, handle_get_configuration, read_configuration_path,
  write_header, write_object,
}

-- The request accepts CBOR and names selectors, a group and a key.
unfoldable pub is_well_formed : Request → Bool
is_well_formed r =
    str_eq r.accept application_cbor
    && not
        (str_eq (trim_space r.configuration_sel) [] || str_eq r.url_group [] || str_eq r.url_key [])

abbrev pub plain_lookup : Request → Server → Option Configuration
plain_lookup r s =
    get_configuration_via_plain_request r.url_group r.url_key (trim_space r.configuration_sel)
      (trim_space r.configuration_opt_sel) s

abbrev pub path_of : Request → Str × Str × Str × Str
path_of r =
    (trim_space r.configuration_sel, trim_space r.configuration_opt_sel, r.url_group, r.url_key)

pub path_well_formed :
    (r : Request) → is_well_formed r ≡ true → read_configuration_path r ≡ ok (path_of r)
unfolding read_configuration_path is_well_formed
path_well_formed r h = ground arith

abbrev pub IsRefusal : ℕ → Type 0
IsRefusal code = (code ≡ 400) ⊎ (code ≡ 406)

pub path_ill_formed :
    (r : Request)
    → is_well_formed r ≡ false
    → (code : ℕ) × (read_configuration_path r ≡ err code) × IsRefusal code
unfolding read_configuration_path is_well_formed
path_ill_formed r h = elim (Bool-cases (str_eq r.accept application_cbor)) [
  | inl a ↦ (400, ground arith, inl refl)
  | inr a ↦ (406, ground arith, inr refl)
]

refused-status :
    (res : Response) (code : ℕ) → res ≡ write_header code → IsRefusal code → IsRefusal res.status
unfolding write_header
refused-status res code e q = rw e q

object-status :
    (res : Response) (o : Option Str)
    → res ≡ write_object o
    → (res.status ≡ 200 × (o ≡ some res.response_body)) ⊎ (res.status ≡ 500 × (o ≡ none))
unfolding write_object write_header
object-status res none e = inr (rw e refl, refl)
object-status res (some b) e = inl (rw e refl, rw e refl)

pub get_of_found :
    (codec : Codec) (r : Request) (s : Server) (cfg : Configuration)
    → is_well_formed r ≡ true
    → plain_lookup r s ≡ some cfg
    → handle_get_configuration codec r s
      ≡ write_object (
          codec.marshal_get (record { code = bytes "200"; message = bytes "success"; found = cfg }))
unfolding handle_get_configuration
get_of_found codec r s cfg h e = rw (handle_get_configuration, path_well_formed r h, e) refl

get_of_missing :
    (codec : Codec) (r : Request) (s : Server)
    → is_well_formed r ≡ true
    → plain_lookup r s ≡ none
    → handle_get_configuration codec r s ≡ write_header 404
unfolding handle_get_configuration
get_of_missing codec r s h e = rw (handle_get_configuration, path_well_formed r h, e) refl

get_of_refused :
    (codec : Codec) (r : Request) (s : Server)
    → is_well_formed r ≡ false
    → (code : ℕ) × (handle_get_configuration codec r s ≡ write_header code) × IsRefusal code
unfolding handle_get_configuration
get_of_refused codec r s h =
    let (code, e, q) = path_ill_formed r h in (code, rw (handle_get_configuration, e) refl, q)

abbrev GetOutcome : Codec → Request → Server → Response → Type 0
GetOutcome codec r s res =
    ((is_well_formed r ≡ false) × IsRefusal res.status)
    ⊎ ((is_well_formed r ≡ true) × (plain_lookup r s ≡ none) × (res.status ≡ 404))
    ⊎ ((cfg : Configuration) × (is_well_formed r ≡ true)
        × (plain_lookup r s ≡ some cfg)
        × (res
            ≡ write_object (
                codec.marshal_get
                  (record { code = bytes "200"; message = bytes "success"; found = cfg }))))

get_outcome :
    (codec : Codec) (r : Request) (s : Server)
    → GetOutcome codec r s (handle_get_configuration codec r s)
unfolding write_header
get_outcome codec r s = elim (Bool-cases (is_well_formed r)) [
  | inr f ↦
      let (code, e, q) = get_of_refused codec r s f in
      inl (f, refused-status (handle_get_configuration codec r s) code e q)
  | inl h ↦ elim (Option-cases (plain_lookup r s)) [
    | inl e ↦ inr (inl (h, e, rw (get_of_missing codec r s h e) refl))
    | inr (cfg, e) ↦ inr (inr (cfg, h, e, get_of_found codec r s cfg h e))
  ]
]

pub get_not_found_iff :
    (codec : Codec) (r : Request) (s : Server)
    → ((handle_get_configuration codec r s).status ≡ 404)
      ↔ ((is_well_formed r ≡ true) × (plain_lookup r s ≡ none))
unfolding write_header
get_not_found_iff codec r s = (
  λ q. elim (get_outcome codec r s) [
    | inl (f, c) ↦ absurd (ground arith)
    | inr (inl (h, e, c)) ↦ (h, e)
    | inr (inr (cfg, h, e, c)) ↦ absurd (ground (arith, object-status _ _ c))
  ],
  λ (h, e). rw (get_of_missing codec r s h e) refl,
)

pub get_served_iff :
    (codec : Codec) (r : Request) (s : Server) (body : Str)
    → let res = handle_get_configuration codec r s in
      ((res.status ≡ 200) × (res.response_body ≡ body)) ↔ (
        (cfg : Configuration) × (is_well_formed r ≡ true)
        × (plain_lookup r s ≡ some cfg)
        × (codec.marshal_get (record { code = bytes "200"; message = bytes "success"; found = cfg })
            ≡ some body))
unfolding write_object
get_served_iff codec r s body = (
  λ q. elim (get_outcome codec r s) [
    | inl (f, c) ↦ absurd (ground arith)
    | inr (inl (h, e, c)) ↦ absurd (ground arith)
    | inr (inr (cfg, h, e, c)) ↦ elim (object-status _ _ c) [
      | inl o ↦ (cfg, h, e, rw (← q.1) o.1)
      | inr o ↦ absurd (ground arith)
    ]
  ],
  λ (cfg, h, e, m).
      (rw (get_of_found codec r s cfg h e, m) refl, rw (get_of_found codec r s cfg h e, m) refl),
)

-- A request for one configuration is answered with the status 200 and a body exactly when it
-- accepts CBOR, names selectors, a group and a key, the server finds a configuration for them, and
-- the body is the encoding of that configuration in a success message; with the status 404 exactly
-- when it is well-formed in the same way and the server finds none.
pub get_answers_lookup :
    (codec : Codec) (r : Request) (s : Server) (body : Str)
    → let res = handle_get_configuration codec r s in
      (((res.status ≡ 200) × (res.response_body ≡ body)) ↔ (
        (cfg : Configuration) × (is_well_formed r ≡ true)
        × (plain_lookup r s ≡ some cfg)
        × (codec.marshal_get (record { code = bytes "200"; message = bytes "success"; found = cfg })
            ≡ some body)))
      × ((res.status ≡ 404) ↔ ((is_well_formed r ≡ true) × (plain_lookup r s ≡ none)))
get_answers_lookup codec r s body = (get_served_iff codec r s body, get_not_found_iff codec r s)
