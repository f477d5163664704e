-- ===== src/ConfigApi/Fill.antt =====
-- What `Fill` reads back: configure/configapi/protocol.go.
use nekoq_component.Base.{
  All, All-append, Bool, List, [], append-nil, arith, false, if◌then◌else◌, length, map, none, refl,
  some, take-append, true, ◌++◌, ◌==◌, ◌||◌, ◌∙◌, ◌∷◌, ◌≡◌,
}
use nekoq_component.Base.Str.{Str, str_eq, str_eq_iff, str_lt}
use nekoq_component.Base.Map.{Map, insert, lookup, lookup-insert, nat_eq, str_key}
use nekoq_component.Base.Sort.{insert_sorted, sort}
use nekoq_component.ConfigApi.{
  Selectors, cache, cache_in, cache_value, entry, fill, fill_map, fill_splits, is_space,
  join_entries, keys, more_entries, new_selectors, split_on, trim_left, trim_right, trim_space,
  value,
}
use nekoq_component.ConfigApi.Words.{
  IsClean, IsClean-NoBlank, IsClean-NoComma, NoBlank, NoComma, drop_next, index_clean,
  split_on_comma, split_on_end, trim_space_id,
}

unfoldable elem : Str → List Str → Bool
elem j [] = false
elem j (k ∷ ks) = str_eq k j || elem j ks

elem-insert_sorted :
    (j k : Str) (ks : List Str) → elem j (insert_sorted k ks) ≡ (str_eq k j || elem j ks)
unfolding elem insert_sorted
elem-insert_sorted j k [] = refl
elem-insert_sorted j k (i ∷ ks) = ground (arith, elem-insert_sorted j k ks)

elem-sort : (j : Str) (ks : List Str) → elem j (sort ks) ≡ elem j ks
unfolding elem sort
elem-sort j [] = refl
elem-sort j (k ∷ ks) = rw (elem-insert_sorted j k (sort ks), elem-sort j ks) refl

All-insert_sorted {κ} :
    (P : Str → Type κ) (k : Str) (ks : List Str) → P k → All P ks → All P (insert_sorted k ks)
unfolding insert_sorted
All-insert_sorted P k [] p h = (p, h)
All-insert_sorted P k (j ∷ js) p h =
    elim (str_lt j k) as (λ b. All P (if b then j ∷ insert_sorted k js else k ∷ j ∷ js)) [
      | true ↦ (h.0, All-insert_sorted P k js p h.1)
      | false ↦ (p, h)
    ]

All-sort {κ} : (P : Str → Type κ) (ks : List Str) → All P ks → All P (sort ks)
unfolding sort
All-sort P [] h = h
All-sort P (k ∷ ks) h = All-insert_sorted P k (sort ks) h.0 (All-sort P ks h.1)

lookup-keys :
    (j : Str) (m : Map Str Str) → lookup j m ≡ (if elem j (keys m) then some (value m j) else none)
unfolding lookup keys elem value
lookup-keys j [] = refl
lookup-keys j ((k, v) ∷ m) = ground (arith, lookup-keys j m)

cache_value_new : (m : Map Str Str) → cache_value (new_selectors m) ≡ join_entries m (sort (keys m))
unfolding cache_value cache cache_in new_selectors keys join_entries sort
cache_value_new [] = refl
cache_value_new (x ∷ m) = ground arith

module _ (m : Map Str Str) where
  abbrev pub HasClean : List Str → Type 0
  HasClean = All (λ k. IsClean k × IsClean (value m k))

  entry-NoBlank : (k : Str) → IsClean k → IsClean (value m k) → NoBlank (entry m k)
  unfolding entry is_space
  entry-NoBlank k h g =
      All-append (λ c. is_space c ≡ false) k (61 ∷ value m k) (IsClean-NoBlank k h)
        (refl, IsClean-NoBlank (value m k) g)

  entry-NoComma : (k : Str) → IsClean k → IsClean (value m k) → NoComma (entry m k)
  unfolding entry
  entry-NoComma k h g =
      All-append (λ c. (c == 44) ≡ false) k (61 ∷ value m k) (IsClean-NoComma k h)
        (refl, IsClean-NoComma (value m k) g)

  more_entries-NoBlank : (ks : List Str) → HasClean ks → NoBlank (more_entries m ks)
  unfolding more_entries is_space
  more_entries-NoBlank [] h = tt
  more_entries-NoBlank (k ∷ ks) h = (
    refl,
    All-append (λ c. is_space c ≡ false) (entry m k) (more_entries m ks)
        (entry-NoBlank k h.0.0 h.0.1) (more_entries-NoBlank ks h.1),
  )

  split_on-entries :
      (k : Str) (ks : List Str)
      → HasClean (k ∷ ks)
      → split_on 44 (entry m k ++ more_entries m ks) ≡ entry m k ∷ map (entry m) ks
  unfolding more_entries
  split_on-entries k [] h = rw append-nil (split_on_end (entry m k) (entry-NoComma k h.0.0 h.0.1))
  split_on-entries k (j ∷ js) h =
      rw
        (
          split_on_comma (entry m k) (entry m j ++ more_entries m js) (entry-NoComma k h.0.0 h.0.1),
          split_on-entries j js h.1,
        )
        refl

  unfoldable insert_values : List Str → Map Str Str → Map Str Str
  insert_values [] acc = acc
  insert_values (k ∷ ks) acc = insert_values ks (insert k (value m k) acc)

  fill_splits-entry :
      (k : Str) (vs : List Str) (acc : Map Str Str)
      → IsClean k
      → IsClean (value m k)
      → fill_splits (entry m k ∷ vs) acc ≡ fill_splits vs (insert k (value m k) acc)
  unfolding fill_splits entry
  fill_splits-entry k vs acc h g =
      rw
        (
          fill_splits,
          trim_space_id (entry m k) (entry-NoBlank k h g),
          index_clean k (value m k) h,
          take-append k (61 ∷ value m k) (length k) refl,
          drop_next k (value m k),
          trim_space_id k (IsClean-NoBlank k h),
          trim_space_id (value m k) (IsClean-NoBlank (value m k) g),
        )
        refl

  fill_splits-entries :
      (ks : List Str) (acc : Map Str Str)
      → HasClean ks
      → fill_splits (map (entry m) ks) acc ≡ some (insert_values ks acc)
  unfolding fill_splits insert_values
  fill_splits-entries [] acc h = refl
  fill_splits-entries (k ∷ ks) acc h =
      fill_splits-entry k (map (entry m) ks) acc h.0.0 h.0.1
      ∙ fill_splits-entries ks (insert k (value m k) acc) h.1

  entry_not_empty : (k w : Str) → str_eq (entry m k ++ w) [] ≡ false
  unfolding entry
  entry_not_empty [] w = refl
  entry_not_empty (c ∷ k) w = refl

  fill_map-join_entries :
      (ks : List Str) → HasClean ks → fill_map (join_entries m ks) ≡ some (insert_values ks [])
  unfolding fill_map join_entries insert_values trim_space trim_left trim_right
  fill_map-join_entries [] h = refl
  fill_map-join_entries (k ∷ ks) h =
      rw
        (
          trim_space_id (entry m k ++ more_entries m ks) (
              All-append (λ c. is_space c ≡ false) (entry m k) (more_entries m ks)
                (entry-NoBlank k h.0.0 h.0.1) (more_entries-NoBlank ks h.1)),
          entry_not_empty k (more_entries m ks),
          split_on-entries k ks h,
        )
        (fill_splits-entries (k ∷ ks) [] h)

  lookup-insert_values :
      (j : Str) (ks : List Str) (acc : Map Str Str)
      → lookup j (insert_values ks acc) ≡ (if elem j ks then some (value m j) else lookup j acc)
  unfolding insert_values elem
  lookup-insert_values j [] acc = refl
  lookup-insert_values j (k ∷ ks) acc = ground (
    arith,
    lookup-insert_values j ks (insert k (value m k) acc),
    lookup-insert k j (value m k) acc,
    str_eq_iff k j,
  )

  lookup-reread : (j : Str) → lookup j (insert_values (sort (keys m)) []) ≡ lookup j m
  unfolding lookup
  lookup-reread j =
      rw (lookup-insert_values j (sort (keys m)) [], elem-sort j (keys m), lookup-keys j m) refl

  -- Fill of the cached name of selectors whose keys and values have no blank, comma or equals sign
  -- succeeds and gives selectors with the same value for every key.
  pub fill-cache_value :
      (old : Selectors)
      → HasClean (keys m)
      → (f : Map Str Str) × (fill (cache_value (new_selectors m)) old ≡ (new_selectors f, none))
        × ((j : Str) → lookup j f ≡ lookup j m)
  unfolding fill
  fill-cache_value old h = (
    insert_values (sort (keys m)) [],
    rw
        (
          cache_value_new m,
          fill,
          fill_map-join_entries (sort (keys m))
              (All-sort (λ k. IsClean k × IsClean (value m k)) (keys m) h),
        )
        refl,
    lookup-reread,
  )
