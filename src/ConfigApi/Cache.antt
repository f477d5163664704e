-- ===== src/ConfigApi/Cache.antt =====
-- The cached name of selectors: configure/configapi/protocol.go, cache.
use nekoq_component.Base.{List, refl, ◌≡◌}
use nekoq_component.Base.Str.{Str}
use nekoq_component.Base.Map.{nat_eq, str_key}
use nekoq_component.Base.Sort.{sort-Perm}
use nekoq_component.ConfigApi.{Selectors, cache, cache_in, keys}
use mathlib.Core.List.{Perm}

-- The cached name of selectors does not depend on the order in which the range over the map visits
-- its keys.
pub cache_any_order :
    (s : Selectors) (order : List Str) → Perm order (keys s.data_map) → cache_in order s ≡ cache s
unfolding cache cache_in
cache_any_order s order p = rw (sort-Perm p) refl
