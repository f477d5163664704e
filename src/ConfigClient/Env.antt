-- ===== src/ConfigClient/Env.antt =====
-- The client of environment variables: configure/configclient/client.special.go. The list that
-- os.Environ gives and the parsers of package strconv are parameters; names are ASCII.
use nekoq_component.Base.{
  ==_iff, Bool, Bool-cases, List, Option, [], arith, drop, false, if◌then◌else◌, inl, inr, leb,
  length, none, not, refl, some, subst, suc, take, true, ℕ, ◌&&◌, ◌+◌, ◌==◌, ◌∙◌, ◌∷◌, ◌≡◌, ◌≤◌,
  ◌⊎◌,
}
use nekoq_component.Base.Str.{Str, str_eq, str_eq_iff}
use nekoq_component.Base.Map.{Map, insert, lookup, lookup-insert, lookup_same, nat_eq, str_key}
use nekoq_component.Base.Result.{Result, err, ok}
use nekoq_component.ConfigApi.{index, value}

pub data EnvError : Type 0 where
  no_such_environment_variable : EnvError
  -- what a parser of strconv reports
  parse_error : EnvError

pub record EnvClient : Type 0 where
  pub envs : Map Str Str
  -- inputKeyTransform: to lower case, or the identity
  pub lowers_keys : Bool
  -- ErrHasDuplicatedKeysWithDifferentCaseFormat
  pub parser_warning : Bool

unfoldable pub lower : ℕ → ℕ
lower c = if leb 65 c && leb c 90 then c + 32 else c

-- `strings.ToLower` on ASCII
unfoldable pub to_lower : Str → Str
to_lower [] = []
to_lower (c ∷ s) = lower c ∷ to_lower s

unfoldable pub input_key_transform : EnvClient → Str → Str
input_key_transform e key = if e.lowers_keys then to_lower key else key

-- The loop over os.Environ; none is the panic for an entry without an equals sign.
unfoldable pub read_environ : List Str → Map Str Str → Option (Map Str Str)
read_environ [] envs = some envs
read_environ (v ∷ vs) envs = elim (index 61 v) [
  | none ↦ none
  | some i ↦ read_environ vs (insert (take i v) (drop (i + 1) v) envs)
]

unfoldable pub new_env_client : List Str → Option EnvClient
new_env_client list = elim (read_environ list []) [
  | none ↦ none
  | some envs ↦ some (record { envs = envs; lowers_keys = false; parser_warning = false })
]

unfoldable pub get_string : Str → EnvClient → Result EnvError Str
get_string key e = elim (lookup (input_key_transform e key) e.envs) [
  | none ↦ err no_such_environment_variable
  | some value ↦ ok value
]

-- GetInt, GetBool, GetFloat and GetInt64, which differ in the parser.
unfoldable pub get_parsed : {A : Type 0} → (Str → Option A) → Str → EnvClient → Result EnvError A
get_parsed parse key e = elim (lookup (input_key_transform e key) e.envs) [
  | none ↦ err no_such_environment_variable
  | some value ↦ elim (parse value) [ none ↦ err parse_error | some a ↦ ok a ]
]

-- Must, where an error is a panic
unfoldable pub must : {A : Type 0} → Result EnvError A → Result EnvError A
must (ok a) = ok a
must (err e) = err e

-- MustDefault(dv).On
unfoldable pub on : {A : Type 0} → A → Result EnvError A → Result EnvError A
on dv (ok a) = ok a
on dv (err no_such_environment_variable) = ok dv
on dv (err parse_error) = err parse_error

-- The loop over the variables, in the order of the range over the map.
unfoldable pub lower_keys : Map Str Str → Map Str Str → Map Str Str
lower_keys [] envs = envs
lower_keys ((k, v) ∷ m) envs = lower_keys m (insert (to_lower k) v envs)

unfoldable pub case_insensitive : EnvClient → EnvClient
case_insensitive e =
    let lowered = lower_keys e.envs [] in
    record {
      envs = lowered;
      lowers_keys = true;
      parser_warning = not (length e.envs == length lowered);
    }

length-insert :
    (k v : Str) (m : Map Str Str)
    → (length (insert k v m) ≡ length m)
      ⊎ ((lookup k m ≡ none) × (length (insert k v m) ≡ suc (length m)))
unfolding insert lookup
length-insert k v [] = inr (refl, refl)
length-insert k v ((j, w) ∷ m) = elim (Bool-cases (str_eq j k)) [
  | inl e ↦ inl (ground arith)
  | inr e ↦ ground (arith, length-insert k v m)
]

lower_keys-le : (m envs : Map Str Str) → length (lower_keys m envs) ≤ length m + length envs
unfolding lower_keys
lower_keys-le [] envs = omega arith
lower_keys-le ((k, v) ∷ m) envs =
    ground (arith, length-insert (to_lower k) v envs, lower_keys-le m (insert (to_lower k) v envs))

-- Keys that stay apart in lower case leave what was there before.
lower_keys-lookup :
    (m envs : Map Str Str) (j w : Str)
    → length (lower_keys m envs) ≡ length m + length envs
    → lookup j envs ≡ some w
    → lookup j (lower_keys m envs) ≡ some w
unfolding lower_keys
lower_keys-lookup [] envs j w h e = e
lower_keys-lookup ((k, v) ∷ m) envs j w h e = elim (length-insert (to_lower k) v envs) [
  | inl q ↦ absurd (ground (arith, lower_keys-le m (insert (to_lower k) v envs)))
  | inr (n, q) ↦
      lower_keys-lookup m (insert (to_lower k) v envs) j w (ground arith)
        (rw (lookup-insert (to_lower k) j v envs) (ground (arith, str_eq_iff (to_lower k) j)))
]

lower_keys-found :
    (m envs : Map Str Str) (k v : Str)
    → length (lower_keys m envs) ≡ length m + length envs
    → lookup k m ≡ some v
    → lookup (to_lower k) (lower_keys m envs) ≡ some v
unfolding lower_keys lookup
lower_keys-found [] envs k v h e = absurd (cc)
lower_keys-found ((j, w) ∷ m) envs k v h e = elim (length-insert (to_lower j) w envs) [
  | inl q ↦ absurd (ground (arith, lower_keys-le m (insert (to_lower j) w envs)))
  | inr (n, q) ↦ elim (Bool-cases (str_eq j k)) [
    | inl s ↦
        let added = insert (to_lower j) w envs in
        subst (λ x. lookup (to_lower x) (lower_keys m added) ≡ some v) ((str_eq_iff j k).0 s)
          (lower_keys-lookup m added (to_lower j) w (ground arith) (lookup_same (to_lower j) w envs)
            ∙ ground arith)
    | inr s ↦ lower_keys-found m (insert (to_lower j) w envs) k v (ground arith) (ground arith)
  ]
]

-- A case-insensitive client of environment variables that has no warning finds the value of every
-- variable of the client it was made from, under any spelling of its name that is the same in
-- lower case.
pub get_string-case_insensitive :
    (e : EnvClient) (k j v : Str)
    → (case_insensitive e).parser_warning ≡ false
    → lookup k e.envs ≡ some v
    → to_lower j ≡ to_lower k
    → get_string j (case_insensitive e) ≡ ok v
unfolding get_string case_insensitive input_key_transform
get_string-case_insensitive e k j v w h l =
    rw
      (
        get_string,
        l,
        lower_keys-found e.envs [] k v
            (ground (arith, ==_iff (length e.envs) (length (lower_keys e.envs [])))) h,
      )
      refl
