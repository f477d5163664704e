-- ===== src/ConfigApi.antt =====
-- The configuration protocol's values and the names of selectors: protocol.go, helper.go,
-- protocol.acquire.go and data.pump.go of configure/configapi. Strings are ASCII, and a map is an
-- association list, whose order stands for that of a range.
pub mod Cache
pub mod Words
pub mod Fill
pub mod Blank
pub mod Signature
mod Tests
use nekoq_component.Base.{
  Bool, List, Option, [], arith, drop, if◌then◌else◌, leb, length, ltb, none, some, suc, take, ℕ,
  ◌&&◌, ◌++◌, ◌+◌, ◌==◌, ◌||◌, ◌∷◌,
}
use nekoq_component.Base.Str.{Str, str_eq}
use nekoq_component.Base.Map.{Map, insert, lookup, nat_eq, str_key}
use nekoq_component.Base.Sort.{sort}

pub record Selectors : Type 0 where
  pub data_map : Map Str Str
  pub cached : Str

unfoldable pub new_selectors : Map Str Str → Selectors
new_selectors m = record { data_map = m; cached = [] }

unfoldable pub keys {ℓ κ} : {K : Type ℓ} {V : Type κ} → Map K V → List K
keys [] = []
keys ((k, v) ∷ m) = k ∷ keys m

-- m[k] of a map of strings, which is empty for a missing key
unfoldable pub value : Map Str Str → Str → Str
value m k = elim (lookup k m) [ none ↦ [] | some v ↦ v ]

unfoldable pub entry : Map Str Str → Str → Str
entry m k = k ++ 61 ∷ value m k

unfoldable pub more_entries : Map Str Str → List Str → Str
more_entries m [] = []
more_entries m (k ∷ ks) = 44 ∷ (entry m k ++ more_entries m ks)

unfoldable pub join_entries : Map Str Str → List Str → Str
join_entries m [] = []
join_entries m (k ∷ ks) = entry m k ++ more_entries m ks

-- `cache`, given the order in which the range over the map visits its keys.
unfoldable pub cache_in : List Str → Selectors → Selectors
cache_in order s =
    if ltb 0 (length s.data_map) && str_eq s.cached []
    then record { data_map = s.data_map; cached = join_entries s.data_map (sort order) }
    else s

unfoldable pub cache : Selectors → Selectors
cache s = cache_in (keys s.data_map) s

-- SelectorsHelperCacheValue
unfoldable pub cache_value : Selectors → Str
cache_value s = (cache s).cached

-- `unicode.IsSpace` on ASCII
unfoldable pub is_space : ℕ → Bool
is_space c = (leb 9 c && leb c 13) || (c == 32)

unfoldable pub trim_left : Str → Str
trim_left [] = []
trim_left (c ∷ s) = if is_space c then trim_left s else c ∷ s

unfoldable pub keep_or_trim : ℕ → Str → Str
keep_or_trim c [] = if is_space c then [] else c ∷ []
keep_or_trim c (d ∷ s) = c ∷ d ∷ s

unfoldable pub trim_right : Str → Str
trim_right [] = []
trim_right (c ∷ s) = keep_or_trim c (trim_right s)

unfoldable pub trim_space : Str → Str
trim_space s = trim_right (trim_left s)

unfoldable pub cons_head : ℕ → List Str → List Str
cons_head c [] = (c ∷ []) ∷ []
cons_head c (s ∷ ss) = (c ∷ s) ∷ ss

-- `strings.Split` at one byte
unfoldable pub split_on : ℕ → Str → List Str
split_on sep [] = [] ∷ []
split_on sep (c ∷ s) = let rest = split_on sep s in if c == sep then [] ∷ rest else cons_head c rest

-- `strings.Index` of one byte
unfoldable pub index : ℕ → Str → Option ℕ
index b [] = none
index b (c ∷ s) =
    if c == b then some 0 else elim (index b s) [ none ↦ none | some i ↦ some (suc i) ]

unfoldable pub fill_splits : List Str → Map Str Str → Option (Map Str Str)
fill_splits [] m = some m
fill_splits (v ∷ vs) m = elim (index 61 (trim_space v)) [
  | none ↦ none
  | some idx ↦ fill_splits vs (insert (trim_space (take idx v)) (trim_space (drop (idx + 1) v)) m)
]

unfoldable pub fill_map : Str → Option (Map Str Str)
fill_map s =
    if str_eq (trim_space s) [] then some [] else fill_splits (split_on 44 (trim_space s)) []

pub data FillError : Type 0 where
  invalid_selectors : FillError

-- The receiver after `Fill`, with the error if it returns one.
unfoldable pub fill : Str → Selectors → Selectors × Option FillError
fill s old = elim (fill_map s) [
  | none ↦ (old, some invalid_selectors)
  | some m ↦ (new_selectors m, none)
]

pub record Configuration : Type 0 where
  pub group : Str
  pub key : Str
  pub version : Str
  pub value_bytes : List ℕ
  pub signature : Str
  pub selectors : Selectors
  pub optional_selectors : Selectors
  pub timestamp : ℕ

pub record RequestedConfigurationKey : Type 0 where
  pub req_group : Str
  pub req_key : Str
  pub req_version : Str

pub record AcquireConfigurationReq : Type 0 where
  pub requested : List RequestedConfigurationKey
  pub req_selectors : Selectors
  pub req_optional_selectors : Selectors

pub record Event : Type 0 where
  pub configuration : Option Configuration
  pub created : Bool
  pub modified : Bool
  pub deleted : Bool
