-- ===== src/Secret/Latest.antt =====
-- What a new provider has of each key file: NewLocalFileUnsealProvider of
-- configure/secret/unseal.local.go.
use nekoq_component.Base.{
  All, Bool-cases, Option-cases, [], ap, arith, false, inl, inr, none, refl, some, sym, true, ℕ,
  ◌==◌, ◌∙◌, ◌∷◌, ◌≡◌, ==_iff,
}
use nekoq_component.Base.Str.{Str}
use nekoq_component.Base.Map.{Map, insert, lookup, lookup-insert, lookup_nil, nat_eq}
use nekoq_component.Base.Result.{>>=-eq_ok, Result, err, ok}
use nekoq_component.Base.Words.{lt64}
use nekoq_component.Secret.KeySets.{KeySet, verify_crc}
use nekoq_component.Secret.Provider.{LocalFileUnsealProvider}
use nekoq_component.Secret.Loading.{
  IsLoadable, IsMax, key_ids, load_key_sets, new_local_file_unseal_provider, new_provider-IsLatest,
  provider_of,
}

-- A map has each id once.
abbrev pub HasApartIds : Map ℕ Str → Type 0
HasApartIds [] = Unit
HasApartIds ((id, path) ∷ files) = (lookup id files ≡ none) × HasApartIds files

lookup_other :
    (i id : ℕ) (path : Str) (files : Map ℕ Str)
    → lookup i ((id, path) ∷ files) ≡ none
    → ((id == i) ≡ false) × (lookup i files ≡ none)
unfolding lookup
lookup_other i id path files h = elim (Bool-cases (id == i)) [
  | inl q ↦ absurd (grind arith)
  | inr q ↦ (q, grind arith)
]

not_greater :
    (a i : ℕ) (m : Map ℕ KeySet) (k : KeySet)
    → IsMax a (key_ids m)
    → lookup i m ≡ some k
    → lt64 a i ≡ false
unfolding key_ids lookup
not_greater a i [] k h e = absurd (cc)
not_greater a i ((j, w) ∷ m) k h e = elim (Bool-cases (j == i)) [
  | inl q ↦ let same : j ≡ i = (==_iff j i).0 q in rw (← same) h.0
  | inr q ↦ not_greater a i m k h.1 (grind arith)
]

module _ {ℓ} {E : Type ℓ} (load : Str → Result E KeySet) where
  load_first :
      (id : ℕ) (path : Str) (files : Map ℕ Str) (m : Map ℕ KeySet) (k : KeySet)
      → load path ≡ ok k
      → verify_crc k ≡ true
      → load_key_sets load ((id, path) ∷ files) m ≡ load_key_sets load files (insert id k m)
  unfolding load_key_sets
  load_first id path files m k e c = rw (load_key_sets, e, c) refl

  loaded_other :
      (files : Map ℕ Str) (m r : Map ℕ KeySet) (i : ℕ)
      → All (IsLoadable load) files
      → load_key_sets load files m ≡ ok r
      → lookup i files ≡ none
      → lookup i r ≡ lookup i m
  unfolding load_key_sets
  loaded_other [] m r i all h out = let same : m ≡ r = cc in rw (same) refl
  loaded_other ((id, path) ∷ files) m r i ((k, e, c), all) h out =
      let (apart, rest) = lookup_other i id path files out in
      loaded_other files (insert id k m) r i all (sym (load_first id path files m k e c) ∙ h) rest
      ∙ rw (lookup-insert id i k m, apart) refl

  loaded_own :
      (files : Map ℕ Str) (m r : Map ℕ KeySet) (i : ℕ) (path : Str)
      → HasApartIds files
      → All (IsLoadable load) files
      → load_key_sets load files m ≡ ok r
      → lookup i files ≡ some path
      → (k : KeySet) × (load path ≡ ok k) × (lookup i r ≡ some k)
  unfolding lookup
  loaded_own [] m r i path ids all h at = absurd (cc)
  loaded_own ((id, p) ∷ files) m r i path (out, ids) ((k, e, c), all) h at =
      let next = sym (load_first id p files m k e c) ∙ h in
      elim (Bool-cases (id == i)) [
        | inl q ↦
            let same : id ≡ i = (==_iff id i).0 q in
            let its : p ≡ path = grind arith in
            (
              k,
              rw (← its) e,
              loaded_other files (insert id k m) r i all next (rw (← same) out)
                  ∙ rw (lookup-insert id i k m, q) refl,
            )
        | inr q ↦ loaded_own files (insert id k m) r i path ids all next (grind arith)
      ]

  provider_key_sets :
      (m : Map ℕ KeySet) (l : LocalFileUnsealProvider) → provider_of load m ≡ ok l → m ≡ l.key_sets
  unfolding provider_of
  provider_key_sets [] l h = absurd (cc)
  provider_key_sets ((id, k) ∷ m) l h = ap (λ x. elim x [ ok p ↦ p.key_sets | err e ↦ [] ]) h

  -- A provider has exactly the files: the key set that a file loads to stands under the file's id,
  -- and there is no other id.
  abbrev pub HasFiles : Map ℕ Str → LocalFileUnsealProvider → Type ℓ
  HasFiles files l =
      ((id : ℕ) (path : Str)
        → lookup id files ≡ some path
        → (k : KeySet) × (load path ≡ ok k) × (lookup id l.key_sets ≡ some k))
      × ((id : ℕ) → lookup id files ≡ none → lookup id l.key_sets ≡ none)

  -- The latest id is that of a file, whose key set with its valid checksums is the latest one, and
  -- no file has a greater id.
  abbrev pub IsLatestOf : Map ℕ Str → LocalFileUnsealProvider → Type ℓ
  IsLatestOf files l =
      ((path : Str) × (lookup l.latest_key_id files ≡ some path) × (load path ≡ ok l.latest_key))
      × (lookup l.latest_key_id l.key_sets ≡ some l.latest_key)
      × (verify_crc l.latest_key ≡ true)
      × ((id : ℕ) (path : Str) → lookup id files ≡ some path → lt64 l.latest_key_id id ≡ false)

  its_path :
      (files : Map ℕ Str) (l : LocalFileUnsealProvider) (id : ℕ) (k : KeySet)
      → HasFiles files l
      → lookup id l.key_sets ≡ some k
      → (path : Str) × (lookup id files ≡ some path) × (load path ≡ ok k)
  its_path files l id k (own, other) h = elim (Option-cases (lookup id files)) [
    | inl q ↦ let gone = other id q in absurd (grind arith)
    | inr (path, q) ↦
        let (w, e, g) = own id path q in let same : w ≡ k = grind arith in (path, q, rw (← same) e)
  ]

  -- From one or more key files with different ids that all load with the checksums they state,
  -- NewLocalFileUnsealProvider makes a provider that has exactly these files' key sets under their
  -- ids; its latest id is the id of a file, no file has a greater one, and its latest key set is
  -- what that file loads to, with valid checksums.
  pub new_provider-HasFiles :
      (f : ℕ × Str) (files : Map ℕ Str)
      → HasApartIds (f ∷ files)
      → All (IsLoadable load) (f ∷ files)
      → (l : LocalFileUnsealProvider) × (new_local_file_unseal_provider load (f ∷ files) ≡ ok l)
        × HasFiles (f ∷ files) l
        × IsLatestOf (f ∷ files) l
  unfolding new_local_file_unseal_provider
  new_provider-HasFiles f files ids all =
      let (l, made, (found, crc, greatest)) = new_provider-IsLatest load f files all in
      let (m, loaded, provided) = >>=-eq_ok (load_key_sets load (f ∷ files) []) _ made in
      let same = provider_key_sets m l provided in
      let r : load_key_sets load (f ∷ files) [] ≡ ok l.key_sets = rw (← same) loaded in
      let has : HasFiles (f ∷ files) l = (
        λ id path at. loaded_own (f ∷ files) [] l.key_sets id path ids all r at,
        λ id out. loaded_other (f ∷ files) [] l.key_sets id all r out ∙ lookup_nil id,
      ) in
      (
        l,
        made,
        has,
        (
          its_path (f ∷ files) l l.latest_key_id l.latest_key has found,
          found,
          crc,
          λ id path at.
              let (k, e, g) = has.0 id path at in
              not_greater l.latest_key_id id l.key_sets k greatest g,
        ),
      )
