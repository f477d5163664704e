-- ===== src/Storage/Versions.antt =====
-- What comes before the insert: the greatest version of a name, its key type, and the level-1 key
-- set, of configure/secretimpl/secret.pg.go.
use nekoq_component.Base.{
  All, Bool, Bool-cases, List, Option, Option-cases, ap, arith, false, inl, inr, ltb, none, refl,
  some, sym, true, ℕ, ◌&&◌, ◌+◌, ◌<◌, ◌==◌, ◌^◌, ◌∙◌, ◌∷◌, ◌≡◌,
}
use nekoq_component.Base.Str.{Str, str_eq, str_eq_iff, str_eq_refl}
use nekoq_component.Base.Result.{>>=-eq_ok, Result, ok}
use nekoq_component.Secret.KeySets.{KeySet}
use nekoq_component.Jwt.KeyTypes.{
  KeyType, key_type_from_string, key_type_from_string-key_type_string, key_type_string,
}
use nekoq_component.Storage.{
  KeySetDecrypt, Level1Row, Level2Row, StorageError, Tables, check_rotate_level2_key, key_set_error,
  key_type_panic, latest, load_level1_key_set_by_id, load_level1_key_set_internal, no_such_key,
  or_fail, retire, same_key_type, version_and_type, with_id,
}
use nekoq_component.Storage.Sealing.{or_fail-ok}
use nekoq_component.Storage.Rows.{All-weaken, latest_greatest, latest_has, latest-none}

-- A row of level 1 is found by its id, which is an int64, and the ids of level 2 are below the serial.
abbrev pub IsKeyed : Tables → Type 0
IsKeyed t =
    All (λ r. (r.l1_id < 2 ^ 64) × (with_id (λ x. x.l1_id) r.l1_id t.level1 ≡ some r)) t.level1
    × All (λ r. r.key_id < t.next_key_id) t.level2

abbrev some_type : KeyType → Option KeyType
some_type k = some k

pub same_key_type_iff : (a b : KeyType) → same_key_type a b ≡ true → a ≡ b
unfolding same_key_type
same_key_type_iff a b h =
    let texts : key_type_string a ≡ key_type_string b =
      (str_eq_iff (key_type_string a) (key_type_string b)).0 h in
    let same : some_type a ≡ some_type b =
      sym (key_type_from_string-key_type_string a)
      ∙ ap key_type_from_string texts
      ∙ key_type_from_string-key_type_string b in
    cc

pub versions_below :
    (name : Str) (kt k : KeyType) (v : ℕ) (rs : List Level2Row)
    → version_and_type name kt rs ≡ ok (v, k)
    → All (λ r. str_eq r.key_name name ≡ true → r.key_version < v + 1) rs
unfolding version_and_type or_fail
versions_below name kt k v rs h =
    elim (Option-cases (latest (λ r. r.key_version) (λ r. str_eq r.key_name name) rs)) [
      | inl e ↦
          All-weaken rs (λ r f w. absurd (grind arith))
            (latest-none (λ r. r.key_version) (λ r. str_eq r.key_name name) rs e)
      | inr (q, e) ↦
          let (m, read, h1) =
            >>=-eq_ok (or_fail key_type_panic (key_type_from_string q.key_type_text))
              (λ x. ok (q.key_version, x)) (rw (version_and_type, e) at h) in
          let same : q.key_version ≡ v = cc in
          All-weaken rs (λ r f w. let below = f w in omega (arith, same, below))
            (latest_greatest (λ r. r.key_version) (λ r. str_eq r.key_name name) rs q e)
    ]

pub retire_self : (now : ℕ) (r : Level2Row) → retire now r.key_name r.key_version r ≡ r
unfolding retire
retire_self now r =
    let never : ltb r.key_version r.key_version ≡ false = ground arith in
    rw (retire, str_eq_refl r.key_name, never) refl

pub latest_first :
    {R : Type 0} (version : R → ℕ) (where_ : R → Bool) (r : R) (rs : List R)
    → where_ r ≡ true
    → latest version where_ rs ≡ none
    → latest version where_ (r ∷ rs) ≡ some r
unfolding latest
latest_first version where_ r rs w e = rw (latest, e, w) refl

module _ (decrypt : KeySetDecrypt) where
  -- The key set that a name loads is the one that its id loads.
  pub by_id-internal :
      (name : Str) (t : Tables) (id : ℕ) (ks : KeySet)
      → IsKeyed t
      → load_level1_key_set_internal decrypt name t ≡ ok (id, ks)
      → (id < 2 ^ 64) × (load_level1_key_set_by_id decrypt id t ≡ ok ks)
  unfolding load_level1_key_set_internal load_level1_key_set_by_id or_fail
  by_id-internal name t id ks keyed h =
      let chosen = λ (r : Level1Row). str_eq r.l1_name name && (r.l1_status == 0) in
      let (q, found, h1) =
        >>=-eq_ok (or_fail no_such_key (latest (λ r. r.l1_version) chosen t.level1)) _ h in
      let (s, opened, h2) = >>=-eq_ok (or_fail key_set_error (decrypt q.l1_encrypted)) _ h1 in
      let its_id : q.l1_id ≡ id = cc in
      let its_set : s ≡ ks = cc in
      let (small, at) =
        latest_has (λ r. r.l1_version) chosen
          (λ r. (r.l1_id < 2 ^ 64) × (with_id (λ x. x.l1_id) r.l1_id t.level1 ≡ some r)) t.level1 q
          keyed.0 (or_fail-ok no_such_key _ q found) in
      (rw (← its_id) small, rw (← its_id, ← its_set, load_level1_key_set_by_id, at, or_fail) opened)

pub rotates :
    (k key_type : KeyType) (u : Unit) → check_rotate_level2_key k key_type ≡ ok u → k ≡ key_type
unfolding check_rotate_level2_key
rotates k key_type u h = elim (Bool-cases (same_key_type k key_type)) [
  | inl q ↦ same_key_type_iff k key_type q
  | inr q ↦ absurd (grind arith)
]

abbrev pub ok_of : Level2Row → Result StorageError Level2Row
ok_of r = ok r

pub ok_row : (a b : Level2Row) → ok_of a ≡ ok_of b → a ≡ b
ok_row a b h = cc
