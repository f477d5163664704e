-- ===== src/ConfigApi/Tests.antt =====
-- Runs of the protocol's definitions.
use nekoq_component.Base.Sort.{insert_sorted, sort}
use nekoq_component.Base.{[], none, refl, ◌++◌, ◌∷◌, ◌≡◌}
use nekoq_component.Base.Str.{Str, bytes}
use nekoq_component.Base.Map.{Map, insert, lookup, nat_eq, str_key}
use nekoq_component.ConfigApi.{
  cache, cache_in, cache_value, entry, fill, fill_splits, is_space, join_entries, keys,
  more_entries, new_selectors, value,
}
use nekoq_component.ConfigApi.Fill.{HasClean, fill-cache_value}
use nekoq_component.ConfigApi.Blank.{blanks_of, fill_splits_blank}
use nekoq_component.ConfigApi.Words.{IsClean, clean_byte}
use mathlib.Core.List.{Permᴰ, Perm}

abbrev two_keys : Map Str Str
two_keys = (bytes "zone", bytes "b") ∷ (bytes "env", bytes "dev") ∷ []

cache_value_two : cache_value (new_selectors two_keys) ≡ bytes "env=dev,zone=b"
unfolding cache_value cache cache_in new_selectors keys join_entries more_entries entry value sort
    insert_sorted lookup
cache_value_two = refl

other_order : Perm (bytes "env" ∷ bytes "zone" ∷ []) (keys (new_selectors two_keys).data_map)
unfolding keys new_selectors
other_order = ∣ Permᴰ.swap refl refl ∣₁

two_keys-HasClean : HasClean two_keys (keys two_keys)
unfolding keys value lookup clean_byte is_space
two_keys-HasClean = (
  ((refl, (refl, (refl, (refl, tt)))), (refl, tt)),
  (((refl, (refl, (refl, tt))), (refl, (refl, (refl, tt)))), tt),
)

fill-cache_value_example :
    (f : Map Str Str) × (fill (cache_value (new_selectors two_keys)) (new_selectors [])
      ≡ (new_selectors f, none))
    × ((j : Str) → lookup j f ≡ lookup j two_keys)
fill-cache_value_example = fill-cache_value two_keys (new_selectors []) two_keys-HasClean

aba-IsClean : IsClean (97 ∷ 98 ∷ 97 ∷ [])
unfolding clean_byte is_space
aba-IsClean = (refl, (refl, (refl, tt)))

a-IsClean : IsClean (97 ∷ [])
unfolding clean_byte is_space
a-IsClean = (refl, tt)

fill_splits_blank_example :
    fill_splits
      ((blanks_of (98 ∷ 97 ∷ []) ++ (((97 ∷ []) ++ 98 ∷ 97 ∷ []) ++ 61 ∷ 97 ∷ [])) ∷ [])
      []
    ≡ fill_splits [] (insert (97 ∷ []) ((97 ∷ []) ++ 61 ∷ 97 ∷ []) [])
fill_splits_blank_example =
    fill_splits_blank (97 ∷ []) 98 (97 ∷ []) (97 ∷ []) [] [] aba-IsClean a-IsClean a-IsClean
      a-IsClean
