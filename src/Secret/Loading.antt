-- ===== src/Secret/Loading.antt =====
-- The provider made from key files: NewLocalFileUnsealProvider of configure/secret/unseal.local.go.
-- Opening, reading and decoding a file is a parameter.
use nekoq_component.Base.{
  All, Bool-cases, List, Option-cases, [], arith, false, if◌then◌else◌, inl, inr, length, none,
  refl, some, true, ℕ, ◌∷◌, ◌≡◌, ◌≢◌, ◌≤◌,
}
use nekoq_component.Base.Str.{Str}
use nekoq_component.Base.Map.{Map, insert, lookup, lookup-insert, nat_eq, str_key}
use nekoq_component.Base.Result.{Result, err, ok, ◌>>=◌}
use nekoq_component.Base.Words.{lt64}
use nekoq_component.Secret.KeySets.{KeySet, verify_crc}
use nekoq_component.Secret.Provider.{LocalFileUnsealProvider}

pub data LoadError {ℓ} (E : Type ℓ) : Type ℓ where
  file_error : E → LoadError E
  unexpected_crc : LoadError E
  -- slices.Max of an empty slice
  empty_list_panic : LoadError E

unfoldable pub max_key_id : ℕ → List ℕ → ℕ
max_key_id a [] = a
max_key_id a (x ∷ xs) = max_key_id (if lt64 a x then x else a) xs

unfoldable pub key_ids : Map ℕ KeySet → List ℕ
key_ids [] = []
key_ids ((id, k) ∷ m) = id ∷ key_ids m

-- keySets[maxKeyId], which is there
unfoldable pub key_set_at : ℕ → KeySet → Map ℕ KeySet → KeySet
key_set_at id first m = elim (lookup id m) [ none ↦ first | some k ↦ k ]

length-insert_le : (id : ℕ) (k : KeySet) (m : Map ℕ KeySet) → length m ≤ length (insert id k m)
unfolding insert
length-insert_le id k [] = omega arith
length-insert_le id k ((j, w) ∷ m) = ground (arith, length-insert_le id k m)

length-insert_positive : (id : ℕ) (k : KeySet) (m : Map ℕ KeySet) → 1 ≤ length (insert id k m)
unfolding insert
length-insert_positive id k [] = omega arith
length-insert_positive id k ((j, w) ∷ m) = ground arith

-- No id of the list is greater.
abbrev pub IsMax : ℕ → List ℕ → Type 0
IsMax a = All (λ x. lt64 a x ≡ false)

lt64_irrefl : (a : ℕ) → lt64 a a ≡ false
unfolding lt64
lt64_irrefl a = ground arith

larger_left : (a x : ℕ) → lt64 (if lt64 a x then x else a) a ≡ false
unfolding lt64
larger_left a x = ground arith

larger_right : (a x : ℕ) → lt64 (if lt64 a x then x else a) x ≡ false
unfolding lt64
larger_right a x = ground arith

max_key_id_above : (b a : ℕ) (xs : List ℕ) → lt64 a b ≡ false → lt64 (max_key_id a xs) b ≡ false
unfolding max_key_id lt64
max_key_id_above b a [] h = h
max_key_id_above b a (x ∷ xs) h =
    max_key_id_above b (if lt64 a x then x else a) xs (ground (arith, h))

max_key_id-IsMax : (a : ℕ) (xs : List ℕ) → IsMax (max_key_id a xs) (a ∷ xs)
unfolding max_key_id
max_key_id-IsMax a [] = (lt64_irrefl a, tt)
max_key_id-IsMax a (x ∷ xs) = (
  max_key_id_above a (if lt64 a x then x else a) xs (larger_left a x),
  (
    max_key_id_above x (if lt64 a x then x else a) xs (larger_right a x),
    (max_key_id-IsMax (if lt64 a x then x else a) xs).1,
  ),
)

-- The id is loaded, with a key set whose checksums hold.
abbrev pub IsLoaded : Map ℕ KeySet → ℕ → Type 0
IsLoaded m id = (k : KeySet) × (lookup id m ≡ some k) × (verify_crc k ≡ true)

IsLoaded-insert :
    (id j : ℕ) (k : KeySet) (m : Map ℕ KeySet)
    → verify_crc k ≡ true
    → ((i : ℕ) (w : KeySet) → lookup i m ≡ some w → verify_crc w ≡ true)
    → (w : KeySet) → lookup j (insert id k m) ≡ some w
    → verify_crc w ≡ true
IsLoaded-insert id j k m v h w e = grind (arith, lookup-insert id j k m, h j w)

keys-IsLoaded :
    (m rest : Map ℕ KeySet)
    → ((i : ℕ) → lookup i rest ≢ none → lookup i m ≢ none)
    → ((i : ℕ) (w : KeySet) → lookup i m ≡ some w → verify_crc w ≡ true)
    → All (IsLoaded m) (key_ids rest)
unfolding key_ids lookup
keys-IsLoaded m [] sub v = tt
keys-IsLoaded m ((j, w) ∷ rest) sub v = (
  elim (Option-cases (lookup j m)) [
    | inl e ↦ absurd (sub j (λ g. grind arith) e)
    | inr (k, e) ↦ (k, e, v j k e)
  ],
  keys-IsLoaded m rest (λ i h. sub i (λ g. h (grind arith))) v,
)

key_set_found :
    (id : ℕ) (first : KeySet) (m : Map ℕ KeySet) (k : KeySet)
    → lookup id m ≡ some k
    → key_set_at id first m ≡ k
unfolding key_set_at
key_set_found id first m k e = grind arith

nothing_loaded : (i : ℕ) (w : KeySet) → lookup i [] ≡ some w → verify_crc w ≡ true
unfolding lookup
nothing_loaded i w e = absurd (cc)

max_key_id-IsLoaded :
    (m : Map ℕ KeySet) (a : ℕ) (xs : List ℕ)
    → IsLoaded m a
    → All (IsLoaded m) xs
    → IsLoaded m (max_key_id a xs)
unfolding max_key_id
max_key_id-IsLoaded m a [] h hs = h
max_key_id-IsLoaded m a (x ∷ xs) h hs = elim (Bool-cases (lt64 a x)) [
  | inl q ↦ rw (q) (max_key_id-IsLoaded m x xs hs.0 hs.1)
  | inr q ↦ rw (q) (max_key_id-IsLoaded m a xs h hs.1)
]

module _ {ℓ} {E : Type ℓ} (load : Str → Result E KeySet) where
  unfoldable pub load_key_sets : Map ℕ Str → Map ℕ KeySet → Result (LoadError E) (Map ℕ KeySet)
  load_key_sets [] key_sets = ok key_sets
  load_key_sets ((id, path) ∷ rest) key_sets = elim (load path) [
    | err e ↦ err (file_error e)
    | ok k ↦ elim (verify_crc k) [
      | false ↦ err unexpected_crc
      | true ↦ load_key_sets rest (insert id k key_sets)
    ]
  ]

  unfoldable pub provider_of : Map ℕ KeySet → Result (LoadError E) LocalFileUnsealProvider
  provider_of [] = err empty_list_panic
  provider_of ((id, k) ∷ m) =
      let latest = max_key_id id (key_ids m) in
      ok (record {
        key_sets = (id, k) ∷ m;
        latest_key_id = latest;
        latest_key = key_set_at latest k ((id, k) ∷ m);
      })

  unfoldable pub new_local_file_unseal_provider :
      Map ℕ Str → Result (LoadError E) LocalFileUnsealProvider
  new_local_file_unseal_provider mapping = load_key_sets mapping [] >>= (λ m. provider_of m)

  abbrev pub IsLoadable : ℕ × Str → Type ℓ
  IsLoadable f = (k : KeySet) × (load f.1 ≡ ok k) × (verify_crc k ≡ true)

  load_key_sets_ok :
      (mapping : Map ℕ Str) (m : Map ℕ KeySet)
      → ((i : ℕ) (w : KeySet) → lookup i m ≡ some w → verify_crc w ≡ true)
      → All IsLoadable mapping
      → (r : Map ℕ KeySet) × (load_key_sets mapping m ≡ ok r)
        × (length m ≤ length r)
        × ((i : ℕ) (w : KeySet) → lookup i r ≡ some w → verify_crc w ≡ true)
  unfolding load_key_sets
  load_key_sets_ok [] m v h = (m, refl, omega arith, v)
  load_key_sets_ok ((id, path) ∷ rest) m v ((k, e, c), h) =
      let (r, q, l, w) =
        load_key_sets_ok rest (insert id k m) (λ j. IsLoaded-insert id j k m c v) h in
      (r, rw (load_key_sets, e, c) q, omega (arith, l, length-insert_le id k m), w)

  -- The provider has its latest key under its latest id, the checksums of that key hold, and no id is
  -- greater.
  abbrev pub IsLatest : LocalFileUnsealProvider → Type 0
  IsLatest l =
      (lookup l.latest_key_id l.key_sets ≡ some l.latest_key)
      × (verify_crc l.latest_key ≡ true)
      × IsMax l.latest_key_id (key_ids l.key_sets)

  provider_of-IsLatest :
      (m : Map ℕ KeySet)
      → 1 ≤ length m
      → ((i : ℕ) (w : KeySet) → lookup i m ≡ some w → verify_crc w ≡ true)
      → (l : LocalFileUnsealProvider) × (provider_of m ≡ ok l) × IsLatest l
  unfolding provider_of key_ids
  provider_of-IsLatest [] h v = absurd (omega arith)
  provider_of-IsLatest ((id, k) ∷ m) h v =
      let all = keys-IsLoaded ((id, k) ∷ m) ((id, k) ∷ m) (λ i g. g) v in
      let latest = max_key_id id (key_ids m) in
      let (w, e, c) = max_key_id-IsLoaded ((id, k) ∷ m) id (key_ids m) all.0 all.1 in
      let at : key_set_at latest k ((id, k) ∷ m) ≡ w = key_set_found latest k ((id, k) ∷ m) w e in
      (
        record {
          key_sets = (id, k) ∷ m;
          latest_key_id = latest;
          latest_key = key_set_at latest k ((id, k) ∷ m);
        },
        refl,
        (rw (at) e, rw (at) c, max_key_id-IsMax id (key_ids m)),
      )

  -- From one or more key files that all load with the checksums they state, a provider is made whose
  -- latest key set stands under its latest id, the greatest id that it has.
  pub new_provider-IsLatest :
      (f : ℕ × Str) (mapping : Map ℕ Str)
      → All IsLoadable (f ∷ mapping)
      → (l : LocalFileUnsealProvider) × (new_local_file_unseal_provider (f ∷ mapping) ≡ ok l)
        × IsLatest l
  unfolding new_local_file_unseal_provider load_key_sets
  new_provider-IsLatest (id, path) mapping ((k, e, c), h) =
      let (r, q, l, w) =
        load_key_sets_ok mapping (insert id k []) (λ j. IsLoaded-insert id j k [] c nothing_loaded)
          h in
      let (p, u, t) = provider_of-IsLatest r (omega (arith, l, length-insert_positive id k [])) w in
      (p, rw (new_local_file_unseal_provider, load_key_sets, e, c, q, u) refl, t)
