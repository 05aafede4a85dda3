-- ===== src/Persistence/KeyValueStore/Keys.antt =====
-- What a key holds after a value was stored or deleted (freqtrade/persistence/key_value_store.py).
use freqtrade_llm.Base.{
  ℕ, Bool, true, Option, none, some, List, [], ◌∷◌, String, str_eq, is_some, Option-cases,
  Bool-cases, ◌≡◌, ◌≢◌, refl, arith, inl, inr,
}
use freqtrade_llm.Base.Result.{Result, ok}
use freqtrade_llm.Persistence.KeyValueStore.{
  string, datetime, float, int, ValueTypes, of_string, of_datetime, of_float, of_int, KeyValue,
  Table, TableLaws, has_key, first, with_value, ValueError, value_of, read_row, new_row,
  store_value, delete_value, get_value, get_string_value, get_datetime_value, get_float_value,
  get_int_value,
}
use freqtrade_llm.Persistence.KeyValueStore.Rows.{
  value_of-with_value, key-with_value, first-append, first-change_first, IsUnique,
  first-change_other, change_first-IsUnique, append-IsUnique, first-none, found, first-append_other,
  first-delete_first, first-delete_other, delete_first-IsUnique, first-has_type,
}

module _ {F I Db : Type 0} (session : Table F I Db) (laws : TableLaws session) (db : Db) where
  abbrev Unique : Db → Type 0
  Unique d = IsUnique (session.rows d)

  -- A value that is stored is what `get_value` returns for its key afterwards, whatever the type of
  -- the value that it replaces; every other key holds what it held; and the keys stay pairwise
  -- different, if they were.
  pub store_value-get_value :
      (key : String) (v : ValueTypes F I)
      → let after = store_value session key v db in
        (get_value session key after ≡ ok (some v))
        × ((other : String)
            → key ≢ other
            → get_value session other after ≡ get_value session other db)
        × (Unique db → Unique after)
  unfolding store_value get_value read_row
  store_value-get_value key v =
      let xs = session.rows db in
      let p : KeyValue F I → Bool = has_key key in
      let row = with_value v (new_row key) in
      elim (Bool-cases (is_some (first p xs))) [
        | inl e ↦
            let r = laws.rows-change p (with_value v) db in
            let (kv, k) = first-change_first key v xs e in
            rw e (
              rw (r, k) (value_of-with_value v kv),
              λ other ne. rw (r, first-change_other key other v xs ne) refl,
              λ u. rw r (change_first-IsUnique key v xs u),
            )
        | inr e ↦
            let r = laws.rows-add row db in
            rw e (
              rw (r, first-append p xs row, e, found key v) (value_of-with_value v (new_row key)),
              λ other ne.
                  rw (r, first-append_other key other row xs (key-with_value v (new_row key)) ne)
                    refl,
              λ u. rw r (append-IsUnique key row xs (key-with_value v (new_row key)) e u),
            )
      ]

  -- With pairwise different keys, a key that is deleted holds nothing, every other key holds what it
  -- held, and the keys stay pairwise different.
  delete_value-get_value :
      (key : String)
      → Unique db
      → let after = delete_value session key db in
        (get_value session key after ≡ ok none)
        × ((other : String)
            → key ≢ other
            → get_value session other after ≡ get_value session other db)
        × Unique after
  unfolding delete_value get_value read_row
  delete_value-get_value key u =
      let xs = session.rows db in
      let p : KeyValue F I → Bool = has_key key in
      elim (Bool-cases (is_some (first p xs))) [
        | inl e ↦
            let r = laws.rows-delete p db in
            rw e (
              rw (r, first-delete_first key xs u) refl,
              λ other ne. rw (r, first-delete_other key other xs ne) refl,
              rw r (delete_first-IsUnique key xs u),
            )
        | inr e ↦ rw e (rw (first-none p xs e) refl, λ other ne. refl, u)
      ]

abbrev as_string : {F I : Type 0} → Result ValueError (Option (ValueTypes F I)) → Option String
as_string (ok (some (of_string x))) = some x
as_string _ = none

abbrev as_datetime : {F I : Type 0} → Result ValueError (Option (ValueTypes F I)) → Option ℕ
as_datetime (ok (some (of_datetime x))) = some x
as_datetime _ = none

abbrev as_float : {F I : Type 0} → Result ValueError (Option (ValueTypes F I)) → Option F
as_float (ok (some (of_float x))) = some x
as_float _ = none

abbrev as_int : {F I : Type 0} → Result ValueError (Option (ValueTypes F I)) → Option I
as_int (ok (some (of_int x))) = some x
as_int _ = none

module _ {F I : Type 0} where
  -- The first row of a key has that key.
  first-key :
      (key : String) (xs : List (KeyValue F I)) (kv : KeyValue F I)
      → first (has_key key) xs ≡ some kv
      → str_eq kv.key key ≡ true
  unfolding first
  first-key key [] kv h = cc
  first-key key (x ∷ xs) kv h = elim (Bool-cases (str_eq x.key key)) [
    | inl e ↦ ground arith
    | inr e ↦ first-key key xs kv (ground arith)
  ]

-- With pairwise different keys, each getter for one type returns what `get_value` returns, if that is
-- a value of its type, and nothing otherwise.
typed_getters :
    {F I Db : Type 0} (session : Table F I Db) (key : String) (db : Db)
    → IsUnique (session.rows db)
    → let value = get_value session key db in
      (get_string_value session key db ≡ as_string value)
      × (get_datetime_value session key db ≡ as_datetime value)
      × (get_float_value session key db ≡ as_float value)
      × (get_int_value session key db ≡ as_int value)
unfolding get_value get_string_value get_datetime_value get_float_value get_int_value read_row
    value_of
typed_getters session key db u =
    let xs = session.rows db in
    let f = first-has_type key in
    rw (f string xs u, f datetime xs u, f float xs u, f int xs u)
      elim (Option-cases (first (has_key key) xs)) [
        | inl e ↦ rw e (refl, refl, refl, refl)
        | inr (kv, e) ↦ rw e (
          ground (arith, first-key key xs kv e),
          ground (arith, first-key key xs kv e),
          ground (arith, first-key key xs kv e),
          ground (arith, first-key key xs kv e),
        )
      ]
