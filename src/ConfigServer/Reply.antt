-- ===== src/ConfigServer/Reply.antt =====
-- What a request is answered: RetrieveOrWait of configure/configserver/server.core.go.
use nekoq_component.Base.{
  All, Bool-cases, List, Option, Option-cases, [], arith, false, inl, inr, length, none, refl, some,
  subst, true, ℕ, ◌∷◌, ◌≡◌, ◌≤◌, ◌⊎◌,
}
use nekoq_component.Base.Str.{str_lt}
use nekoq_component.Base.Map.{lookup, lookup_same, nat_eq, str_key}
use nekoq_component.ConfigApi.{
  AcquireConfigurationReq, Configuration, RequestedConfigurationKey, cache_value,
}
use nekoq_component.ConfigServer.{
  NotifyChannel, SelectorsStore, get_configuration, has_update, make_channel,
}
use nekoq_component.ConfigServer.Server.{
  Reply, Server, get_selectors_general, has_unknown_configuration, respond, retrieve_or_register,
  start_waiting, store_at, updated, updates, updates_at, waiting,
}

abbrev pub Any {ℓ} : {A : Type ℓ} → (A → Type 0) → List A → Type 0
Any P [] = ⊥
Any P (x ∷ xs) = P x ⊎ Any P xs

abbrev pub IsMissing : SelectorsStore → RequestedConfigurationKey → Type 0
IsMissing st v = get_configuration v.req_group v.req_key st ≡ none

-- The stored configuration is not newer than the one asked for.
abbrev pub IsUpToDate : SelectorsStore → RequestedConfigurationKey → Type 0
IsUpToDate st v =
    (c : Configuration) × (get_configuration v.req_group v.req_key st ≡ some c)
    × (str_lt v.req_version c.version ≡ false)

-- The configuration is stored under the requested key, and newer.
abbrev pub IsUpdate : SelectorsStore → Configuration → RequestedConfigurationKey → Type 0
IsUpdate st c v =
    (get_configuration v.req_group v.req_key st ≡ some c) × (str_lt v.req_version c.version ≡ true)

updates-IsMissing :
    (vs : List RequestedConfigurationKey) (st : SelectorsStore)
    → updates vs st ≡ none
    → Any (IsMissing st) vs
unfolding updates
updates-IsMissing [] st h = absurd (cc)
updates-IsMissing (v ∷ vs) st h = elim (Option-cases (get_configuration v.req_group v.req_key st)) [
  | inl e ↦ inl e
  | inr (c, e) ↦ elim (Option-cases (updates vs st)) [
    | inl g ↦ inr (updates-IsMissing vs st g)
    | inr (r, g) ↦ absurd (grind arith)
  ]
]

updates-IsUpToDate :
    (vs : List RequestedConfigurationKey) (st : SelectorsStore)
    → updates vs st ≡ some []
    → All (IsUpToDate st) vs
unfolding updates has_update
updates-IsUpToDate [] st h = tt
updates-IsUpToDate (v ∷ vs) st h =
    elim (Option-cases (get_configuration v.req_group v.req_key st)) [
      | inl e ↦ absurd (grind arith)
      | inr (c, e) ↦ elim (Option-cases (updates vs st)) [
        | inl g ↦ absurd (grind arith)
        | inr (r, g) ↦ elim (Bool-cases (str_lt v.req_version c.version)) [
          | inl q ↦ absurd (grind arith)
          | inr q ↦ ((c, e, q), updates-IsUpToDate vs st (grind arith))
        ]
      ]
    ]

All-later :
    (v : RequestedConfigurationKey) (vs : List RequestedConfigurationKey) (st : SelectorsStore)
    (r : List Configuration)
    → All (λ c. Any (IsUpdate st c) vs) r
    → All (λ c. Any (IsUpdate st c) (v ∷ vs)) r
All-later v vs st [] a = tt
All-later v vs st (c ∷ r) a = (inr a.0, All-later v vs st r a.1)

pub nothing_updated :
    (st : SelectorsStore) (r : List Configuration) → updates [] st ≡ some r → [] ≡ r
unfolding updates
nothing_updated st r h = cc

newer_first :
    (v : RequestedConfigurationKey) (vs : List RequestedConfigurationKey) (st : SelectorsStore)
    (c : Configuration) (q r : List Configuration)
    → get_configuration v.req_group v.req_key st ≡ some c
    → updates vs st ≡ some q
    → str_lt v.req_version c.version ≡ true
    → updates (v ∷ vs) st ≡ some r
    → c ∷ q ≡ r
unfolding updates has_update
newer_first v vs st c q r e g b h = grind arith

current_first :
    (v : RequestedConfigurationKey) (vs : List RequestedConfigurationKey) (st : SelectorsStore)
    (c : Configuration) (q r : List Configuration)
    → get_configuration v.req_group v.req_key st ≡ some c
    → updates vs st ≡ some q
    → str_lt v.req_version c.version ≡ false
    → updates (v ∷ vs) st ≡ some r
    → q ≡ r
unfolding updates has_update
current_first v vs st c q r e g b h = grind arith

updates-IsUpdate :
    (vs : List RequestedConfigurationKey) (st : SelectorsStore) (r : List Configuration)
    → updates vs st ≡ some r
    → All (λ c. Any (IsUpdate st c) vs) r
unfolding updates has_update
updates-IsUpdate [] st r h = rw (← nothing_updated st r h) tt
updates-IsUpdate (v ∷ vs) st r h =
    elim (Option-cases (get_configuration v.req_group v.req_key st)) [
      | inl e ↦ absurd (grind arith)
      | inr (c, e) ↦ elim (Option-cases (updates vs st)) [
        | inl g ↦ absurd (grind arith)
        | inr (q, g) ↦ elim (Bool-cases (str_lt v.req_version c.version)) [
          | inl b ↦
              subst (All (λ d. Any (IsUpdate st d) (v ∷ vs))) (newer_first v vs st c q r e g b h)
                (inl (e, b), All-later v vs st q (updates-IsUpdate vs st q g))
          | inr b ↦
              subst (All (λ d. Any (IsUpdate st d) (v ∷ vs))) (current_first v vs st c q r e g b h)
                (All-later v vs st q (updates-IsUpdate vs st q g))
        ]
      ]
    ]

abbrev pub store_of : AcquireConfigurationReq → Server → Option ℕ
store_of req s =
    get_selectors_general (cache_value req.req_selectors) (cache_value req.req_optional_selectors) s

updates_at-none :
    (req : AcquireConfigurationReq) (s : Server) (i : ℕ)
    → updates_at req s ≡ none
    → store_of req s ≡ some i
    → updates req.requested (store_at i s) ≡ none
unfolding updates_at
updates_at-none req s i e g = grind arith

pub updates_at-some :
    (req : AcquireConfigurationReq) (s : Server) (i : ℕ) (r : List Configuration)
    → updates_at req s ≡ some (i, r)
    → (store_of req s ≡ some i) × (updates req.requested (store_at i s) ≡ some r)
unfolding updates_at
updates_at-some req s i r e = grind arith

-- What each reply says of the store that the request names.
abbrev pub Answers : AcquireConfigurationReq → Server → Server → Reply → Type 0
Answers req s after has_unknown_configuration =
    (after ≡ s)
    × ((store_of req s ≡ none)
        ⊎ ((i : ℕ) × (store_of req s ≡ some i) × Any (IsMissing (store_at i s)) req.requested))
Answers req s after (updated ch) =
    (i : ℕ) × (c : NotifyChannel) × (store_of req s ≡ some i)
    × (lookup ch after.channels ≡ some c)
    × (c.closed ≡ true)
    × (1 ≤ length c.sent)
    × All (λ d. Any (IsUpdate (store_at i s) d) req.requested) c.sent
Answers req s after (waiting ch i list) =
    (store_of req s ≡ some i)
    × All (IsUpToDate (store_at i s)) req.requested
    × (lookup ch after.channels ≡ some (make_channel (length req.requested)))

start_waiting-Answers :
    (reqid : ℕ) (req : AcquireConfigurationReq) (s : Server) (i : ℕ)
    → updates_at req s ≡ some (i, [])
    → Answers req s (start_waiting reqid req i s).0 (start_waiting reqid req i s).1
unfolding start_waiting
start_waiting-Answers reqid req s i e =
    let (g, u) = updates_at-some req s i [] e in
    (
      g,
      updates-IsUpToDate req.requested (store_at i s) u,
      lookup_same s.next_channel (make_channel (length req.requested)) s.channels,
    )

respond-Answers :
    (req : AcquireConfigurationReq) (s : Server) (i : ℕ) (c : Configuration)
    (r : List Configuration)
    → updates_at req s ≡ some (i, c ∷ r)
    → Answers req s (respond (c ∷ r) s).0 (respond (c ∷ r) s).1
unfolding respond
respond-Answers req s i c r e =
    let (g, u) = updates_at-some req s i (c ∷ r) e in
    (
      i,
      record { capacity = length (c ∷ r); sent = c ∷ r; closed = true },
      g,
      lookup_same s.next_channel (record { capacity = length (c ∷ r); sent = c ∷ r; closed = true })
          s.channels,
      refl,
      omega arith,
      updates-IsUpdate req.requested (store_at i s) (c ∷ r) u,
    )

-- The reply of the second step of RetrieveOrWait is right: the unknown-configuration error leaves
-- the server as it is and means that the selectors have no store or that a requested key is
-- missing in it; a channel of updates is closed and holds one or more configurations, each stored
-- under a requested key and newer than asked; a channel to wait on is new, and means that every
-- requested key is stored and none is newer than asked.
pub retrieve_or_register-Answers :
    (reqid : ℕ) (req : AcquireConfigurationReq) (s : Server)
    → let p = retrieve_or_register reqid req s in Answers req s p.0 p.1
unfolding retrieve_or_register
retrieve_or_register-Answers reqid req s = elim (Option-cases (updates_at req s)) [
  | inl e ↦
      rw (retrieve_or_register, e)
        (
          refl,
          elim (Option-cases (store_of req s)) [
            | inl g ↦ inl g
            | inr (i, g) ↦
                inr (
                  i,
                  g,
                  updates-IsMissing req.requested (store_at i s) (updates_at-none req s i e g),
                )
          ],
        )
  | inr ((i, []), e) ↦ rw (retrieve_or_register, e) (start_waiting-Answers reqid req s i e)
  | inr ((i, c ∷ r), e) ↦ rw (retrieve_or_register, e) (respond-Answers req s i c r e)
]
