-- ===== src/ConfigClient/Versions.antt =====
-- The versions that a client asks for after it has received updates: processLoop of
-- configure/configclient/client.go against the pre-check of configure/configserver/server.core.go.
use nekoq_component.Base.{
  All, Bool-cases, List, Option, Option-cases, [], ap, arith, false, inl, inr, none, refl, some,
  subst, sym, true, ◌&&◌, ◌∙◌, ◌∷◌, ◌≡◌, ◌⊎◌,
}
use nekoq_component.Base.Str.{Str, str_eq, str_eq_iff, str_lt}
use nekoq_component.Base.Map.{nat_eq, str_key}
use nekoq_component.Base.Sort.{str_lt_irrefl}
use nekoq_component.ConfigApi.{Configuration, RequestedConfigurationKey}
use nekoq_component.ConfigServer.{SelectorsStore, get_configuration, has_update}
use nekoq_component.ConfigServer.Reply.{Any, nothing_updated}
use nekoq_component.ConfigServer.Server.{updates}
use nekoq_component.ConfigClient.{set_version, update_versions}

unfoldable pub update_all :
    List Configuration → List RequestedConfigurationKey → List RequestedConfigurationKey
update_all [] vs = vs
update_all (c ∷ cs) vs = update_all cs (update_versions c vs)

set_versions : List Configuration → RequestedConfigurationKey → RequestedConfigurationKey
set_versions [] v = v
set_versions (c ∷ cs) v = set_versions cs (set_version c v)

update_all-map :
    (cs : List Configuration) (v : RequestedConfigurationKey) (vs : List RequestedConfigurationKey)
    → update_all cs (v ∷ vs) ≡ set_versions cs v ∷ update_all cs vs
unfolding update_all set_versions update_versions
update_all-map [] v vs = refl
update_all-map (c ∷ cs) v vs = update_all-map cs (set_version c v) (update_versions c vs)

update_all-empty : (cs : List Configuration) → update_all cs [] ≡ []
unfolding update_all update_versions
update_all-empty [] = refl
update_all-empty (c ∷ cs) = update_all-empty cs

-- A stored configuration has the group and the key that it is found under.
abbrev pub IsLabelled : SelectorsStore → RequestedConfigurationKey → Type 0
IsLabelled st v =
    (c : Configuration)
    → get_configuration v.req_group v.req_key st ≡ some c
    → (c.group ≡ v.req_group) × (c.key ≡ v.req_key)

-- Each received configuration is the stored one under its own group and key.
abbrev IsStored : SelectorsStore → Configuration → Type 0
IsStored st c = get_configuration c.group c.key st ≡ some c

-- The head of the requested list: its configuration, and whether it is among the updates.
updates_first :
    (v : RequestedConfigurationKey) (vs : List RequestedConfigurationKey) (st : SelectorsStore)
    (r : List Configuration)
    → updates (v ∷ vs) st ≡ some r
    → (c : Configuration) × (q : List Configuration) × (get_configuration v.req_group v.req_key st
        ≡ some c)
      × (updates vs st ≡ some q)
      × (((str_lt v.req_version c.version ≡ true) × (r ≡ c ∷ q))
          ⊎ ((str_lt v.req_version c.version ≡ false) × (r ≡ q)))
unfolding updates has_update
updates_first v vs st r e = elim (Option-cases (get_configuration v.req_group v.req_key st)) [
  | inl g ↦ absurd (grind arith)
  | inr (c, g) ↦ elim (Option-cases (updates vs st)) [
    | inl g' ↦ absurd (grind arith)
    | inr (q, g') ↦ elim (Bool-cases (str_lt v.req_version c.version)) [
      | inl b ↦ (c, q, g, g', inl (b, grind arith))
      | inr b ↦ (c, q, g, g', inr (b, grind arith))
    ]
  ]
]

first-IsStored :
    (v : RequestedConfigurationKey) (c : Configuration) (st : SelectorsStore)
    → get_configuration v.req_group v.req_key st ≡ some c
    → IsLabelled st v
    → IsStored st c
first-IsStored v c st g l =
    let (a, b) = l c g in
    subst (λ x. get_configuration x c.key st ≡ some c) (sym a)
      (subst (λ y. get_configuration v.req_group y st ≡ some c) (sym b) g)

updates-IsStored :
    (vs : List RequestedConfigurationKey) (st : SelectorsStore) (r : List Configuration)
    → All (IsLabelled st) vs
    → updates vs st ≡ some r
    → All (IsStored st) r
updates-IsStored [] st r l e = rw (← nothing_updated st r e) tt
updates-IsStored (v ∷ vs) st r l e =
    let (c, q, g, g', cases) = updates_first v vs st r e in
    elim cases [
      | inl (b, h) ↦ rw h (first-IsStored v c st g l.0, updates-IsStored vs st q l.1 g')
      | inr (b, h) ↦ rw h (updates-IsStored vs st q l.1 g')
    ]

abbrev Agrees : Str → Str → Str → Configuration → Type 0
Agrees g k version d = d.group ≡ g → d.key ≡ k → d.version ≡ version

abbrev Asks : Str → Str → RequestedConfigurationKey → Type 0
Asks g k v = (v.req_group ≡ g) × (v.req_key ≡ k)

set_version-Asks :
    (d : Configuration) (g k : Str) (v : RequestedConfigurationKey)
    → Asks g k v
    → Asks g k (set_version d v)
unfolding set_version
set_version-Asks d g k v a = ground arith

set_version_agreed :
    (d : Configuration) (g k version : Str) (v : RequestedConfigurationKey)
    → Asks g k v
    → Agrees g k version d
    → ((set_version d v).req_version ≡ v.req_version) ⊎ ((set_version d v).req_version ≡ version)
unfolding set_version
set_version_agreed d g k version v (a, b) h =
    elim (Bool-cases (str_eq v.req_group d.group && str_eq v.req_key d.key)) [
      | inl e ↦ inr (ground (arith, str_eq_iff v.req_group d.group, str_eq_iff v.req_key d.key))
      | inr e ↦ inl (ground arith)
    ]

set_versions-Asks :
    (cs : List Configuration) (g k : Str) (v : RequestedConfigurationKey)
    → Asks g k v
    → Asks g k (set_versions cs v)
unfolding set_versions
set_versions-Asks [] g k v a = a
set_versions-Asks (c ∷ cs) g k v a =
    set_versions-Asks cs g k (set_version c v) (set_version-Asks c g k v a)

set_versions_agreed :
    (cs : List Configuration) (g k version : Str) (v : RequestedConfigurationKey)
    → Asks g k v
    → All (Agrees g k version) cs
    → ((set_versions cs v).req_version ≡ v.req_version)
      ⊎ ((set_versions cs v).req_version ≡ version)
unfolding set_versions
set_versions_agreed [] g k version v a h = inl refl
set_versions_agreed (c ∷ cs) g k version v a h = ground (
  arith,
  set_version_agreed c g k version v a h.0,
  set_versions_agreed cs g k version (set_version c v) (set_version-Asks c g k v a) h.1,
)

set_version_same :
    (c : Configuration) (g k : Str) (v : RequestedConfigurationKey)
    → Asks g k v
    → c.group ≡ g
    → c.key ≡ k
    → (set_version c v).req_version ≡ c.version
unfolding set_version
set_version_same c g k v a x y =
    ground (arith, str_eq_iff v.req_group c.group, str_eq_iff v.req_key c.key)

set_versions_received :
    (cs : List Configuration) (c : Configuration) (g k : Str) (v : RequestedConfigurationKey)
    → Asks g k v
    → c.group ≡ g
    → c.key ≡ k
    → All (Agrees g k c.version) cs
    → Any (λ d. d ≡ c) cs
    → (set_versions cs v).req_version ≡ c.version
unfolding set_versions
set_versions_received [] c g k v a x y h m = absurd m
set_versions_received (d ∷ cs) c g k v a x y h (inl e) =
    let same =
      set_version_same d g k v a (ap (λ z. z.group) e ∙ x) (ap (λ z. z.key) e ∙ y)
      ∙ ap (λ z. z.version) e in
    elim (set_versions_agreed cs g k c.version (set_version d v) (set_version-Asks d g k v a) h.1) [
      | inl q ↦ q ∙ same
      | inr q ↦ q
    ]
set_versions_received (d ∷ cs) c g k v a x y h (inr m) =
    set_versions_received cs c g k (set_version d v) (set_version-Asks d g k v a) x y h.1 m

version_or : Option Configuration → Str
version_or none = []
version_or (some c) = c.version

-- What is stored under a key agrees with every stored configuration of that key.
stored-Agrees :
    (cs : List Configuration) (g k : Str) (c : Configuration) (st : SelectorsStore)
    → get_configuration g k st ≡ some c
    → All (IsStored st) cs
    → All (Agrees g k c.version) cs
unfolding version_or
stored-Agrees [] g k c st e h = tt
stored-Agrees (d ∷ cs) g k c st e h = (
  λ a b. ap version_or (
      sym (
        subst (λ x. get_configuration x k st ≡ some d) a
          (subst (λ y. get_configuration d.group y st ≡ some d) b h.0))
      ∙ e),
  stored-Agrees cs g k c st e h.1,
)

updates_none_newer :
    (v : RequestedConfigurationKey) (vs : List RequestedConfigurationKey) (st : SelectorsStore)
    (c : Configuration)
    → get_configuration v.req_group v.req_key st ≡ some c
    → str_lt v.req_version c.version ≡ false
    → updates vs st ≡ some []
    → updates (v ∷ vs) st ≡ some []
unfolding updates has_update
updates_none_newer v vs st c g b e = grind arith

asked_now :
    (w : RequestedConfigurationKey) (g k : Str) (st : SelectorsStore) (c : Configuration)
    → Asks g k w
    → get_configuration g k st ≡ some c
    → get_configuration w.req_group w.req_key st ≡ some c
asked_now w g k st c (a, b) e = rw (a, b) e

current_if_received :
    (cs : List Configuration) (c : Configuration) (g k : Str) (v : RequestedConfigurationKey)
    → Asks g k v
    → c.group ≡ g
    → c.key ≡ k
    → All (Agrees g k c.version) cs
    → Any (λ d. d ≡ c) cs
    → str_lt (set_versions cs v).req_version c.version ≡ false
current_if_received cs c g k v a x y h m =
    rw (set_versions_received cs c g k v a x y h m) (str_lt_irrefl c.version)

current_as_before :
    (cs : List Configuration) (c : Configuration) (g k : Str) (v : RequestedConfigurationKey)
    → Asks g k v
    → All (Agrees g k c.version) cs
    → str_lt v.req_version c.version ≡ false
    → str_lt (set_versions cs v).req_version c.version ≡ false
current_as_before cs c g k v a h b = elim (set_versions_agreed cs g k c.version v a h) [
  | inl q ↦ rw q b
  | inr q ↦ rw q (str_lt_irrefl c.version)
]

abbrev AllIn : List Configuration → List Configuration → Type 0
AllIn cs r = All (λ c. Any (λ d. d ≡ c) cs) r

-- What was received covers the updates of the requests that follow.
caught_up :
    (vs : List RequestedConfigurationKey) (cs : List Configuration) (st : SelectorsStore)
    (r : List Configuration)
    → All (IsLabelled st) vs
    → All (IsStored st) cs
    → updates vs st ≡ some r
    → AllIn cs r
    → updates (update_all cs vs) st ≡ some []
unfolding updates
caught_up [] cs st r l h e m = rw (update_all-empty cs) refl
caught_up (v ∷ vs) cs st r l h e m =
    let (c, q, g, g', cases) = updates_first v vs st r e in
    let agreed = stored-Agrees cs v.req_group v.req_key c st g h in
    let asked = set_versions-Asks cs v.req_group v.req_key v (refl, refl) in
    let next = λ (b : str_lt (set_versions cs v).req_version c.version ≡ false) (n : AllIn cs q).
      updates_none_newer (set_versions cs v) (update_all cs vs) st c
        (asked_now (set_versions cs v) v.req_group v.req_key st c asked g) b
        (caught_up vs cs st q l.1 h g' n) in
    rw (update_all-map cs v vs) (elim cases [
      | inl (b, z) ↦
          let both = subst (AllIn cs) z m in
          next
            (current_if_received cs c v.req_group v.req_key v (refl, refl) (l.0 c g).0 (l.0 c g).1
              agreed both.0)
            both.1
      | inr (b, z) ↦
          next (current_as_before cs c v.req_group v.req_key v (refl, refl) agreed b)
            (subst (AllIn cs) z m)
    ])

AllIn-later : (c : Configuration) (cs r : List Configuration) → AllIn cs r → AllIn (c ∷ cs) r
AllIn-later c cs [] h = tt
AllIn-later c cs (d ∷ r) h = (inr h.0, AllIn-later c cs r h.1)

AllIn-self : (r : List Configuration) → AllIn r r
AllIn-self [] = tt
AllIn-self (c ∷ r) = (inl refl, AllIn-later c r r (AllIn-self r))

-- With the versions of the updates that it found, the server finds no further update.
pub updates-update_all :
    (vs : List RequestedConfigurationKey) (st : SelectorsStore) (r : List Configuration)
    → All (IsLabelled st) vs
    → updates vs st ≡ some r
    → updates (update_all r vs) st ≡ some []
updates-update_all vs st r l e =
    caught_up vs r st r l (updates-IsStored vs st r l e) e (AllIn-self r)
