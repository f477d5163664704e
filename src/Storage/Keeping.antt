-- ===== src/Storage/Keeping.antt =====
-- The storage keeps its keys through rotations: StoreL2DataKey, FetchL2DataKey and LoadL2DataKeyById
-- of configure/secretimpl/secret.pg.go, as the storage of the cipher tool.
use nekoq_component.Base.{
  All, Bool-cases, List, ap, arith, false, inl, inr, ltb, map, refl, some, subst, suc, sym, true, ℕ,
  ◌&&◌, ◌<◌, ◌==◌, ◌∙◌, ◌∷◌, ◌≡◌, ==_iff,
}
use nekoq_component.Base.Str.{Str, str_eq, str_eq_refl}
use nekoq_component.Base.Result.{>>=-eq_ok, ok, ◌>>=◌}
use nekoq_component.Secret.KeySets.{KeySet}
use nekoq_component.Jwt.KeyTypes.{KeyType, key_type_from_string-key_type_string}
use nekoq_component.Keys.Cipher.{AesGcm}
use nekoq_component.Keys.Generating.{KeepsSize}
use nekoq_component.Storage.{
  row_to_insert, DatabaseAnswers, Base64, KeySetDecrypt, Level2Row, Tables, check,
  check_rotate_level2_key, data_decrypt_by_l1, data_encrypt_by_l1, fetch_l2_data_key, latest,
  load_l2_data_key_by_id, load_level1_key_set_by_id, load_level1_key_set_internal, new_row,
  no_such_key, or_fail, read_row, retire, version_and_type, with_id,
}
use nekoq_component.Storage.Sealing.{IsBase64, data_decrypt_by_l1-data_encrypt_by_l1, or_fail-ok}
use nekoq_component.Storage.Rows.{
  All-weaken, map-retire, latest-empty, retire-All, with_id-retire, with_id_below, with_id_here,
  with_id_next,
}
use nekoq_component.Storage.Versions.{
  IsKeyed, by_id-internal, latest_first, ok_row, retire_self, rotates, versions_below,
}

module _ {B A : Type 0} (gcm : AesGcm B A) (base64 : Base64) (decrypt : KeySetDecrypt) where
  -- What the row that StoreL2DataKey inserts has.
  abbrev pub IsNewRow : Str → KeyType → List ℕ → Tables → Level2Row → Type 0
  IsNewRow name key_type key t r =
      (r.key_id ≡ t.next_key_id)
      × (r.key_name ≡ name)
      × (r.key_status ≡ 0)
      × All (λ x. str_eq x.key_name name ≡ true → x.key_version < r.key_version) t.level2
      × (read_row gcm base64 decrypt r t ≡ ok (key_type, key))

  row_to_insert-IsNewRow :
      (w : DatabaseAnswers) (name : Str) (v : ℕ) (k key_type : KeyType) (id : ℕ) (ks : KeySet)
      (text : Str) (key : List ℕ) (t : Tables)
      → k ≡ key_type
      → version_and_type name key_type t.level2 ≡ ok (v, k)
      → load_level1_key_set_by_id decrypt id t ≡ ok ks
      → data_decrypt_by_l1 gcm base64 text ks ≡ ok (id, key)
      → IsNewRow name key_type key t (row_to_insert w name v k id text t)
  unfolding row_to_insert read_row or_fail
  row_to_insert-IsNewRow w name v k key_type id ks text key t same found by_id opened = (
    refl,
    refl,
    refl,
    versions_below name key_type k v t.level2 found,
    rw (read_row, key_type_from_string-key_type_string k, by_id, opened)
        (ap (λ x. ok (x, key)) same),
  )

  pub new_row-IsNewRow :
      (w : DatabaseAnswers) (l1_name name : Str) (key_type : KeyType) (key : List ℕ) (t : Tables)
      (r : Level2Row)
      → KeepsSize w.nonces
      → IsBase64 base64
      → IsKeyed t
      → new_row gcm base64 decrypt w l1_name name key_type key t ≡ ok r
      → IsNewRow name key_type key t r
  unfolding new_row
  new_row-IsNewRow w l1_name name key_type key t r sizes b64 keyed h =
      let (u, h0, h1) = >>=-eq_ok (check w.begins >>= (λ _. check w.selects)) _ h in
      let ((v, k), found, h2) = >>=-eq_ok (version_and_type name key_type t.level2) _ h1 in
      let (u2, rotated, h3) =
        >>=-eq_ok (check_rotate_level2_key k key_type >>= (λ _. check w.selects_level1)) _ h2 in
      let (u3, fits, h4) = >>=-eq_ok (check_rotate_level2_key k key_type) _ rotated in
      let ((id, ks), lv1, h5) = >>=-eq_ok (load_level1_key_set_internal decrypt l1_name t) _ h3 in
      let (text, sealed, h6) = >>=-eq_ok (data_encrypt_by_l1 gcm base64 w.nonces key id ks) _ h5 in
      let (small, by_id) = by_id-internal decrypt l1_name t id ks keyed lv1 in
      subst (IsNewRow name key_type key t) (ok_row (row_to_insert w name v k id text t) r h6) (
        row_to_insert-IsNewRow w name v k key_type id ks text key t (rotates k key_type u3 fits)
          found by_id
          (data_decrypt_by_l1-data_encrypt_by_l1 gcm base64 w.nonces key id ks text sizes b64 small
            sealed))

  read_row-retire :
      (now : ℕ) (name : Str) (next : ℕ) (r : Level2Row) (rows : List Level2Row) (n : ℕ) (t : Tables)
      → read_row gcm base64 decrypt
          (retire now name next r)
          (record t { level2 = rows; next_key_id = n })
        ≡ read_row gcm base64 decrypt r t
  unfolding read_row retire load_level1_key_set_by_id
  read_row-retire now name next r rows n t =
      elim (Bool-cases (str_eq r.key_name name && ltb r.key_version next)) [
        | inl q ↦ rw (retire, q) refl
        | inr q ↦ rw (retire, q) refl
      ]

  -- The tables with a new row and the versions before it retired.
  abbrev pub with_row : ℕ → Level2Row → Tables → Tables
  with_row now r t = record t {
    level2 = map (retire now r.key_name r.key_version) (r ∷ t.level2);
    next_key_id = suc t.next_key_id;
  }

  read_row-with_row :
      (now : ℕ) (q r : Level2Row) (t : Tables)
      → read_row gcm base64 decrypt (retire now r.key_name r.key_version q) (with_row now r t)
        ≡ read_row gcm base64 decrypt q t
  read_row-with_row now q r t =
      read_row-retire now r.key_name r.key_version q
        (map (retire now r.key_name r.key_version) (r ∷ t.level2)) (suc t.next_key_id) t

  fetch_chosen :
      (name : Str) (t : Tables) (q : Level2Row) (key_type : KeyType) (key : List ℕ)
      → latest (λ r. r.key_version) (λ r. str_eq r.key_name name && (r.key_status == 0)) t.level2
        ≡ some q
      → read_row gcm base64 decrypt q t ≡ ok (key_type, key)
      → fetch_l2_data_key gcm base64 decrypt true name t ≡ ok (q.key_id, key_type, key)
  unfolding fetch_l2_data_key check or_fail
  fetch_chosen name t q key_type key e h = rw (fetch_l2_data_key, e, or_fail, h) refl

  load_chosen :
      (id : ℕ) (t : Tables) (q : Level2Row) (k : KeyType × List ℕ)
      → with_id (λ r. r.key_id) id t.level2 ≡ some q
      → read_row gcm base64 decrypt q t ≡ ok k
      → load_l2_data_key_by_id gcm base64 decrypt true id t ≡ ok k
  unfolding load_l2_data_key_by_id check or_fail
  load_chosen id t q k e h = rw (load_l2_data_key_by_id, e, or_fail) h

  new_is_latest :
      (now : ℕ) (t : Tables) (r : Level2Row)
      → r.key_status ≡ 0
      → All (λ x. str_eq x.key_name r.key_name ≡ true → x.key_version < r.key_version) t.level2
      → latest
          (λ x. x.key_version)
          (λ x. str_eq x.key_name r.key_name && (x.key_status == 0))
          (with_row now r t).level2
        ≡ some r
  new_is_latest now t r live below =
      let older = map (retire now r.key_name r.key_version) t.level2 in
      let chosen = λ (x : Level2Row). str_eq x.key_name r.key_name && (x.key_status == 0) in
      ap (λ x. latest (λ y. y.key_version) chosen (x ∷ older)) (retire_self now r)
      ∙ latest_first (λ x. x.key_version) chosen r older (rw (str_eq_refl r.key_name, live) refl)
          (latest-empty (λ x. x.key_version) chosen older
            (map-retire now r.key_name r.key_version t.level2 below))

  pub fetched_row :
      (now : ℕ) (name : Str) (key_type : KeyType) (key : List ℕ) (t : Tables) (r : Level2Row)
      → IsNewRow name key_type key t r
      → fetch_l2_data_key gcm base64 decrypt true name (with_row now r t)
        ≡ ok (r.key_id, key_type, key)
  fetched_row now name key_type key t r (its_id, named, live, below, reads) =
      subst
        (λ x.
          fetch_l2_data_key gcm base64 decrypt true x (with_row now r t)
          ≡ ok (r.key_id, key_type, key))
        named
        (fetch_chosen r.key_name (with_row now r t) r key_type key
          (new_is_latest now t r live (
            subst
              (λ x. All (λ y. str_eq y.key_name x ≡ true → y.key_version < r.key_version) t.level2)
              (sym named) below))
          (ap (λ x. read_row gcm base64 decrypt x (with_row now r t)) (sym (retire_self now r))
            ∙ read_row-with_row now r r t
            ∙ reads))

  pub loaded_row :
      (now : ℕ) (name : Str) (key_type : KeyType) (key : List ℕ) (t : Tables) (r : Level2Row)
      → IsNewRow name key_type key t r
      → load_l2_data_key_by_id gcm base64 decrypt true r.key_id (with_row now r t)
        ≡ ok (key_type, key)
  loaded_row now name key_type key t r (its_id, named, live, below, reads) =
      load_chosen r.key_id (with_row now r t) (retire now r.key_name r.key_version r)
        (key_type, key)
        (with_id_here r.key_id (retire now r.key_name r.key_version r)
          (map (retire now r.key_name r.key_version) t.level2)
          (ap (λ x. x.key_id == r.key_id) (retire_self now r) ∙ (==_iff r.key_id r.key_id).1 refl))
        (read_row-with_row now r r t ∙ reads)

  pub loaded_older :
      (now id : ℕ) (k : KeyType × List ℕ) (t : Tables) (r : Level2Row)
      → IsKeyed t
      → r.key_id ≡ t.next_key_id
      → load_l2_data_key_by_id gcm base64 decrypt true id t ≡ ok k
      → load_l2_data_key_by_id gcm base64 decrypt true id (with_row now r t) ≡ ok k
  unfolding load_l2_data_key_by_id check
  loaded_older now id k t r keyed its_id h =
      let (q, found, h1) =
        >>=-eq_ok (or_fail no_such_key (with_id (λ x. x.key_id) id t.level2)) _ h in
      let at = or_fail-ok no_such_key (with_id (λ x. x.key_id) id t.level2) q found in
      let small = with_id_below id t.next_key_id t.level2 q keyed.1 at in
      let apart : (r.key_id == id) ≡ false = ground (arith, its_id, small) in
      load_chosen id (with_row now r t) (retire now r.key_name r.key_version q) k
        (with_id_next id (retire now r.key_name r.key_version r)
            (map (retire now r.key_name r.key_version) t.level2)
            (ap (λ x. x.key_id == id) (retire_self now r) ∙ apart)
          ∙ with_id-retire now r.key_name r.key_version id t.level2 q at)
        (read_row-with_row now q r t ∙ h1)

  pub with_row-IsKeyed :
      (now : ℕ) (t : Tables) (r : Level2Row)
      → IsKeyed t
      → r.key_id ≡ t.next_key_id
      → IsKeyed (with_row now r t)
  with_row-IsKeyed now t r (l1, l2) its_id = (
    l1,
    retire-All now r.key_name r.key_version (suc t.next_key_id) (r ∷ t.level2)
        (omega (arith, its_id), All-weaken t.level2 (λ x f. omega (arith, f)) l2),
  )
