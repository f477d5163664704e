-- ===== src/ConfigHttp/Writes.antt =====
-- The write API's handlers: saveConfiguration and deleteConfiguration of
-- configure/configserver/server.go, over server.write.go.
use nekoq_component.Base.{
  Option-cases, [], arith, false, inl, inr, none, refl, some, true, ℕ, ◌↔◌, ◌≡◌, ◌≢◌, ◌⊎◌,
}
use nekoq_component.Base.Str.{Str, str_eq, str_eq_iff}
use nekoq_component.Base.Result.{Result-cases, err, ok}
use nekoq_component.ConfigApi.{Configuration, trim_space}
use nekoq_component.ConfigHttp.{
  Codec, DataWriter, Request, application_cbor, delete_configuration_at, read_save_request,
  save_configuration, write_header,
}
use nekoq_component.ConfigHttp.Status.{IsRefusal, is_well_formed, path_ill_formed, path_well_formed}

-- The save request carries CBOR both ways and a configuration with a group and a key.
abbrev pub Carries : Codec → Request → Configuration → Type 0
Carries codec r cfg =
    (str_eq r.accept application_cbor ≡ true)
    × (str_eq r.content_type application_cbor ≡ true)
    × ((sent_body : Str) × (r.body ≡ some sent_body)
        × (codec.unmarshal_configuration sent_body ≡ some cfg))
    × (cfg.group ≢ [])
    × (cfg.key ≢ [])

read_save_request-Carries :
    (codec : Codec) (r : Request) (cfg : Configuration)
    → read_save_request codec r ≡ ok cfg
    → Carries codec r cfg
unfolding read_save_request
read_save_request-Carries codec r cfg e = elim (Option-cases r.body) [
  | inl n ↦ absurd (ground arith)
  | inr (sent_body, b) ↦ elim (Option-cases (codec.unmarshal_configuration sent_body)) [
    | inl n ↦ absurd (ground arith)
    | inr (c, u) ↦ ground (arith, str_eq_iff c.group [], str_eq_iff c.key [])
  ]
]

pub Carries-read_save_request :
    (codec : Codec) (r : Request) (cfg : Configuration)
    → Carries codec r cfg
    → read_save_request codec r ≡ ok cfg
unfolding read_save_request
Carries-read_save_request codec r cfg (a, t, (sent_body, b, u), g, k) =
    ground (arith, str_eq_iff cfg.group [], str_eq_iff cfg.key [])

save_refused-ne :
    (codec : Codec) (r : Request) (code : ℕ) → read_save_request codec r ≡ err code → code ≢ 200
unfolding read_save_request
save_refused-ne codec r code e = elim (Option-cases r.body) [
  | inl n ↦ ground arith
  | inr (sent_body, b) ↦ elim (Option-cases (codec.unmarshal_configuration sent_body)) [
    | inl n ↦ ground arith
    | inr (c, u) ↦ ground arith
  ]
]

module _ {S : Type 0} (writer : DataWriter S) where
  -- A save request either carries CBOR both ways and a configuration with a group and a key, and
  -- then the writer saves it and the status is 200 exactly when the writer reports no error; or it
  -- carries no such configuration, and then the writer is left as it is and the status is not 200.
  pub save_reaches_writer :
      (codec : Codec) (r : Request) (w : S)
      → ((cfg : Configuration) × Carries codec r cfg
          × ((save_configuration writer codec r w).0 ≡ (writer.save cfg w).0)
          × (((save_configuration writer codec r w).1.status ≡ 200)
              ↔ ((writer.save cfg w).1 ≡ none)))
        ⊎ (((cfg : Configuration) → ¬ Carries codec r cfg)
            × ((save_configuration writer codec r w).0 ≡ w)
            × ((save_configuration writer codec r w).1.status ≢ 200))
  unfolding save_configuration write_header
  save_reaches_writer codec r w = elim (Result-cases (read_save_request codec r)) [
    | inl (cfg, e) ↦ inl (
      cfg,
      read_save_request-Carries codec r cfg e,
      ground arith,
      elim (Option-cases (writer.save cfg w).1) [
        | inl n ↦ ground arith
        | inr (x, n) ↦ ground arith
      ],
    )
    | inr (code, e) ↦ inr (
      λ cfg c. ground (arith, Carries-read_save_request codec r cfg c),
      ground arith,
      ground (arith, save_refused-ne codec r code e),
    )
  ]

  -- A well-formed delete request is handed to the writer; its status is 200 exactly when the
  -- writer removes something and 404 exactly when the writer reports that there was nothing. Any
  -- other delete request leaves the writer as it is and gets the status 400 or 406.
  pub delete_answers_removal :
      (r : Request) (w : S)
      → let removal =
          writer.remove r.url_group r.url_key
            (trim_space r.configuration_sel)
            (trim_space r.configuration_opt_sel)
            w in
        let done = delete_configuration_at writer r w in
        ((is_well_formed r ≡ true)
          → (done.0 ≡ removal.0)
            × ((done.1.status ≡ 200) ↔ (removal.1 ≡ ok true))
            × ((done.1.status ≡ 404) ↔ (removal.1 ≡ ok false)))
        × ((is_well_formed r ≡ false) → (done.0 ≡ w) × IsRefusal done.1.status)
  unfolding delete_configuration_at write_header
  delete_answers_removal r w = (
    λ h.
        let p = path_well_formed r h in
        elim (Result-cases
          (writer.remove r.url_group r.url_key (trim_space r.configuration_sel)
            (trim_space r.configuration_opt_sel) w).1) [
              | inl (true, e) ↦ ground arith
              | inl (false, e) ↦ ground arith
              | inr (x, e) ↦ ground arith
            ],
    λ h.
        let (code, e, q) = path_ill_formed r h in
        (rw (delete_configuration_at, e) refl, rw (delete_configuration_at, e) q),
  )
