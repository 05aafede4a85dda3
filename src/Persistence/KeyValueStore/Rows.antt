-- ===== src/Persistence/KeyValueStore/Rows.antt =====
-- The rows of the key value store: the first one of a key after a change of the list
-- (freqtrade/persistence/key_value_store.py).
use freqtrade_llm.Base.{
  Bool, true, false, none, some, List, [], ◌∷◌, ◌++◌, String, str_eq, eq_iff, if◌then◌else◌,
  is_some, any, any-append, if_both, Bool-cases, ◌≡◌, ◌≢◌, refl, ap, arith, inl, inr,
}
use freqtrade_llm.Base.Result.{ok}
use freqtrade_llm.Persistence.KeyValueStore.{
  ValueTypesEnum, ValueTypes, of_string, of_datetime, of_float, of_int, KeyValue, has_key, has_type,
  change_first, delete_first, first, with_value, value_of, new_row,
}

module _ {F I : Type 0} where
  pub value_of-with_value :
      (v : ValueTypes F I) (kv : KeyValue F I) → value_of (with_value v kv) ≡ ok (some v)
  unfolding value_of with_value
  value_of-with_value (of_string x) kv = refl
  value_of-with_value (of_datetime x) kv = refl
  value_of-with_value (of_float x) kv = refl
  value_of-with_value (of_int x) kv = refl

  pub key-with_value : (v : ValueTypes F I) (kv : KeyValue F I) → (with_value v kv).key ≡ kv.key
  unfolding with_value
  key-with_value (of_string x) kv = refl
  key-with_value (of_datetime x) kv = refl
  key-with_value (of_float x) kv = refl
  key-with_value (of_int x) kv = refl

  pub first-append :
      (p : KeyValue F I → Bool) (xs : List (KeyValue F I)) (kv : KeyValue F I)
      → first p (xs ++ kv ∷ [])
        ≡ (if is_some (first p xs) then first p xs else if p kv then some kv else none)
  unfolding first
  first-append p [] kv = refl
  first-append p (x ∷ xs) kv = ground (arith, first-append p xs kv)

  -- The first row of a key, after that row was changed
  pub first-change_first :
      (key : String) (v : ValueTypes F I) (xs : List (KeyValue F I))
      → is_some (first (has_key key) xs) ≡ true
      → (kv : KeyValue F I) × (first (has_key key) (change_first (has_key key) (with_value v) xs)
          ≡ some (with_value v kv))
  unfolding first change_first
  first-change_first key v [] h = ground arith
  first-change_first key v (x ∷ xs) h = elim (Bool-cases (str_eq x.key key)) [
    | inl e ↦ rw e (x, rw (key-with_value v x) (rw e refl))
    | inr e ↦ let (kv, k) = first-change_first key v xs (ground arith) in rw e (rw e (kv, k))
  ]

  -- The keys are pairwise different.
  abbrev pub IsUnique : List (KeyValue F I) → Type 0
  IsUnique [] = Unit {0}
  IsUnique (kv ∷ kvs) = (any (has_key kv.key) kvs ≡ false) × IsUnique kvs

  -- A row that is changed stays first for its own key, and does not matter for the others.
  pub first-change_other :
      (key other : String) (v : ValueTypes F I) (xs : List (KeyValue F I))
      → key ≢ other
      → first (has_key other) (change_first (has_key key) (with_value v) xs)
        ≡ first (has_key other) xs
  unfolding first change_first
  first-change_other key other v [] h = refl
  first-change_other key other v (x ∷ xs) h = ground (
    arith,
    first-change_other key other v xs h,
    eq_iff x.key key,
    eq_iff x.key other,
    eq_iff (with_value v x).key other,
    key-with_value v x,
  )

  pub any-change_first :
      (k key : String) (v : ValueTypes F I) (xs : List (KeyValue F I))
      → any (has_key k) (change_first (has_key key) (with_value v) xs) ≡ any (has_key k) xs
  unfolding any change_first
  any-change_first k key v [] = refl
  any-change_first k key v (x ∷ xs) =
      ground (arith, any-change_first k key v xs, key-with_value v x)

  pub change_first-IsUnique :
      (key : String) (v : ValueTypes F I) (xs : List (KeyValue F I))
      → IsUnique xs
      → IsUnique (change_first (has_key key) (with_value v) xs)
  unfolding change_first
  change_first-IsUnique key v [] h = h
  change_first-IsUnique key v (x ∷ xs) h = elim (Bool-cases (str_eq x.key key)) [
    | inl e ↦ rw e (rw (key-with_value v x) (h.0), h.1)
    | inr e ↦ rw e (rw (any-change_first x.key key v xs) h.0, change_first-IsUnique key v xs h.1)
  ]

  pub append-IsUnique :
      (key : String) (kv : KeyValue F I) (xs : List (KeyValue F I))
      → kv.key ≡ key
      → is_some (first (has_key key) xs) ≡ false
      → IsUnique xs
      → IsUnique (xs ++ kv ∷ [])
  unfolding first any
  append-IsUnique key kv [] e h u = (refl, tt)
  append-IsUnique key kv (x ∷ xs) e h u = (
    ground (arith, any-append (has_key x.key) xs (kv ∷ []), eq_iff x.key key, eq_iff kv.key x.key),
    append-IsUnique key kv xs e (ground arith) u.1,
  )

  pub first-any :
      (p : KeyValue F I → Bool) (xs : List (KeyValue F I)) → is_some (first p xs) ≡ any p xs
  unfolding first any
  first-any p [] = refl
  first-any p (x ∷ xs) = ground (arith, first-any p xs)

  pub first-none :
      (p : KeyValue F I → Bool) (xs : List (KeyValue F I))
      → is_some (first p xs) ≡ false
      → first p xs ≡ none
  first-none p xs h = ground arith

  pub found :
      (key : String) (v : ValueTypes F I) → str_eq (with_value v (new_row key)).key key ≡ true
  found key v = rw (key-with_value v (new_row key)) (ground (arith, eq_iff key key))

  -- A row of one key does not matter for the others.
  pub first-append_other :
      (key other : String) (kv : KeyValue F I) (xs : List (KeyValue F I))
      → kv.key ≡ key
      → key ≢ other
      → first (has_key other) (xs ++ kv ∷ []) ≡ first (has_key other) xs
  unfolding first
  first-append_other key other kv [] e h = ground (arith, eq_iff kv.key other)
  first-append_other key other kv (x ∷ xs) e h =
      ground (arith, first-append_other key other kv xs e h)

  -- Deleting the only row of a key leaves none, and the rows of the other keys.
  pub first-delete_first :
      (key : String) (xs : List (KeyValue F I))
      → IsUnique xs
      → first (has_key key) (delete_first (has_key key) xs) ≡ none
  unfolding first delete_first
  first-delete_first key [] u = refl
  first-delete_first key (x ∷ xs) u = elim (Bool-cases (str_eq x.key key)) [
    | inl e ↦
        ground (arith, eq_iff x.key key, first-any (has_key key) xs, ap (λ k. any (has_key k) xs))
    | inr e ↦ rw e (rw e (first-delete_first key xs u.1))
  ]

  pub first-delete_other :
      (key other : String) (xs : List (KeyValue F I))
      → key ≢ other
      → first (has_key other) (delete_first (has_key key) xs) ≡ first (has_key other) xs
  unfolding first delete_first
  first-delete_other key other [] h = refl
  first-delete_other key other (x ∷ xs) h =
      ground (arith, first-delete_other key other xs h, eq_iff x.key key, eq_iff x.key other)

  pub any-delete_first :
      (k key : String) (xs : List (KeyValue F I))
      → any (has_key k) xs ≡ false
      → any (has_key k) (delete_first (has_key key) xs) ≡ false
  unfolding any delete_first
  any-delete_first k key [] h = refl
  any-delete_first k key (x ∷ xs) h = ground (arith, any-delete_first k key xs)

  pub delete_first-IsUnique :
      (key : String) (xs : List (KeyValue F I))
      → IsUnique xs
      → IsUnique (delete_first (has_key key) xs)
  unfolding delete_first
  delete_first-IsUnique key [] u = u
  delete_first-IsUnique key (x ∷ xs) u =
      if_both IsUnique (str_eq x.key key) xs (x ∷ delete_first (has_key key) xs) u.1
        (any-delete_first x.key key xs u.0, delete_first-IsUnique key xs u.1)

  -- With one row for each key, the first row with a key and a type is the row of that key, if it has
  -- the type.
  pub first-has_type :
      (key : String) (type_ : ValueTypesEnum) (xs : List (KeyValue F I))
      → IsUnique xs
      → first (has_type key type_) xs ≡ elim (first (has_key key) xs) [
        | none ↦ none
        | some kv ↦ if has_type key type_ kv then some kv else none
      ]
  unfolding first
  first-has_type key type_ [] u = refl
  first-has_type key type_ (x ∷ xs) u = elim (Bool-cases (str_eq x.key key)) [
    | inl e ↦ ground (
      arith,
      eq_iff x.key key,
      ap (λ k. any (has_key k) xs),
      first-any (has_key key) xs,
      first-has_type key type_ xs u.1,
    )
    | inr e ↦ rw e (first-has_type key type_ xs u.1)
  ]
