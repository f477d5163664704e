-- ===== src/ConfigServer/Selecting.antt =====
-- Which store a pair of selectors names: configure/configserver/server.core.go,
-- GetSelectorsGeneral and GetOrCreateSelectorsGeneral.
use nekoq_component.Base.{
  Option, Option-cases, [], arith, if◌then◌else◌, inl, inr, none, refl, some, suc, ℕ, ◌&&◌, ◌<◌,
  ◌≡◌,
}
use nekoq_component.Base.Str.{Str, str_eq, str_eq_iff, str_eq_refl}
use nekoq_component.Base.Map.{lookup, lookup-insert, lookup_nil, nat_eq, str_key}
use nekoq_component.ConfigServer.Server.{
  Server, add_opt_store, entry_store, get_or_create_selectors_general, get_selectors_general,
  new_server, new_store,
}

-- The store that was made for exactly this pair.
unfoldable pub exact : Str → Str → Server → Option ℕ
exact sel opt s = elim (lookup sel s.selectors_map) [
  | none ↦ none
  | some v ↦ if str_eq opt [] then some v.selectors_store else lookup opt v.opt_selectors_store
]

pub get-exact :
    (sel opt : Str) (s : Server)
    → get_selectors_general sel opt s
      ≡ elim (exact sel opt s) [ none ↦ exact sel [] s | some i ↦ some i ]
unfolding get_selectors_general exact entry_store
get-exact sel opt s = ground arith

-- Every store of the map is below the next free address, and no two pairs share one.
abbrev pub WellFormed : Server → Type 0
WellFormed s =
    ((sel opt : Str) (i : ℕ) → exact sel opt s ≡ some i → i < s.next_store)
    × ((sel opt sel' opt' : Str) (i : ℕ)
        → exact sel opt s ≡ some i
        → exact sel' opt' s ≡ some i
        → (sel ≡ sel') × (opt ≡ opt'))

pub new_server-WellFormed : WellFormed new_server
unfolding exact lookup new_server
new_server-WellFormed = (λ sel opt i h. cc, λ sel opt sel' opt' i h g. cc)

exact_created :
    (sel opt sel' opt' : Str) (s : Server)
    → exact sel opt s ≡ none
    → exact sel' opt' (get_or_create_selectors_general sel opt s).0 ≡ (
        if str_eq sel sel' && str_eq opt opt'
        then some (get_or_create_selectors_general sel opt s).1
        else elim (lookup sel s.selectors_map) [
          | none ↦
              if str_eq sel sel' && str_eq opt' [] then some s.next_store else exact sel' opt' s
          | some v ↦ exact sel' opt' s
        ])
unfolding exact get_or_create_selectors_general add_opt_store new_store
exact_created sel opt sel' opt' s h =
    grind (arith, lookup-insert, lookup_nil, str_eq_iff, str_eq_refl)

exact_found :
    (sel opt : Str) (i : ℕ) (s : Server)
    → exact sel opt s ≡ some i
    → get_or_create_selectors_general sel opt s ≡ (s, i)
unfolding exact get_or_create_selectors_general
exact_found sel opt i s h = grind arith

-- The address handed out for a new pair: the next free one, or the one after it when the selectors'
-- own store is made first.
created_address :
    (sel opt : Str) (s : Server)
    → exact sel opt s ≡ none
    → let r = get_or_create_selectors_general sel opt s in
      (r.0.next_store ≡ suc r.1)
      × (r.1 ≡ elim (lookup sel s.selectors_map) [
        | none ↦ if str_eq opt [] then s.next_store else suc s.next_store
        | some v ↦ s.next_store
      ])
unfolding exact get_or_create_selectors_general add_opt_store new_store
created_address sel opt s h = ground arith

exact_same :
    (sel opt sel' opt' : Str) (i : ℕ) (s : Server)
    → exact sel opt s ≡ none
    → exact sel' opt' s ≡ some i
    → (if str_eq sel sel' && str_eq opt opt'
        then some (get_or_create_selectors_general sel opt s).1
        else elim (lookup sel s.selectors_map) [
          | none ↦
              if str_eq sel sel' && str_eq opt' [] then some s.next_store else exact sel' opt' s
          | some v ↦ exact sel' opt' s
        ])
      ≡ some i
unfolding exact
exact_same sel opt sel' opt' i s e h = grind (arith, str_eq_iff)

exact_kept :
    (sel opt sel' opt' : Str) (i : ℕ) (s : Server)
    → exact sel' opt' s ≡ some i
    → exact sel' opt' (get_or_create_selectors_general sel opt s).0 ≡ some i
exact_kept sel opt sel' opt' i s h = elim (Option-cases (exact sel opt s)) [
  | inr (j, e) ↦ rw (exact_found sel opt j s e) h
  | inl e ↦ rw (exact_created sel opt sel' opt' s e) (exact_same sel opt sel' opt' i s e h)
]

pub exact_made :
    (sel opt : Str) (s : Server)
    → exact sel opt (get_or_create_selectors_general sel opt s).0
      ≡ some (get_or_create_selectors_general sel opt s).1
exact_made sel opt s = elim (Option-cases (exact sel opt s)) [
  | inr (j, e) ↦ rw (exact_found sel opt j s e) e
  | inl e ↦ rw (exact_created sel opt sel opt s e, str_eq_refl sel, str_eq_refl opt) refl
]

-- After GetOrCreateSelectorsGeneral for a pair of selectors, GetSelectorsGeneral finds the
-- returned store for that pair, and for any pair that had a store of its own it still finds that
-- one.
pub get_selectors_general-get_or_create :
    (sel opt sel' opt' : Str) (i : ℕ) (s : Server)
    → exact sel' opt' s ≡ some i
    → let r = get_or_create_selectors_general sel opt s in
      (get_selectors_general sel opt r.0 ≡ some r.1)
      × (get_selectors_general sel' opt' r.0 ≡ some i)
get_selectors_general-get_or_create sel opt sel' opt' i s h = (
  rw (get-exact sel opt (get_or_create_selectors_general sel opt s).0, exact_made sel opt s) refl,
  rw
      (
        get-exact sel' opt' (get_or_create_selectors_general sel opt s).0,
        exact_kept sel opt sel' opt' i s h,
      )
      refl,
)

created_below :
    (sel opt sel' opt' : Str) (i : ℕ) (s : Server)
    → WellFormed s
    → exact sel opt s ≡ none
    → exact sel' opt' (get_or_create_selectors_general sel opt s).0 ≡ some i
    → i < (get_or_create_selectors_general sel opt s).0.next_store
created_below sel opt sel' opt' i s w e h =
    grind (arith, exact_created sel opt sel' opt' s e, created_address sel opt s e, w.0 sel' opt' i)

created_apart :
    (sel opt sel' opt' sel'' opt'' : Str) (i : ℕ) (s : Server)
    → WellFormed s
    → exact sel opt s ≡ none
    → exact sel' opt' (get_or_create_selectors_general sel opt s).0 ≡ some i
    → exact sel'' opt'' (get_or_create_selectors_general sel opt s).0 ≡ some i
    → (sel' ≡ sel'') × (opt' ≡ opt'')
created_apart sel opt sel' opt' sel'' opt'' i s w e h g = grind (
  arith,
  exact_created sel opt sel' opt' s e,
  exact_created sel opt sel'' opt'' s e,
  created_address sel opt s e,
  w.0 sel' opt' i,
  w.0 sel'' opt'' i,
  w.1 sel' opt' sel'' opt'' i,
  str_eq_iff,
)

-- GetOrCreateSelectorsGeneral keeps the map of selectors well-formed: every store's address is
-- below the next free one, and no two pairs of selectors share a store.
pub get_or_create-WellFormed :
    (sel opt : Str) (s : Server)
    → WellFormed s
    → WellFormed (get_or_create_selectors_general sel opt s).0
get_or_create-WellFormed sel opt s w = elim (Option-cases (exact sel opt s)) [
  | inr (j, e) ↦ rw (exact_found sel opt j s e) w
  | inl e ↦ (
    λ sel' opt' i h. created_below sel opt sel' opt' i s w e h,
    λ sel' opt' sel'' opt'' i h g. created_apart sel opt sel' opt' sel'' opt'' i s w e h g,
  )
]
