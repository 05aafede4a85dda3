-- ===== src/Persistence/KeyValueStore.antt =====
-- freqtrade/persistence/key_value_store.py: values of four types, stored under a key.
pub mod Rows
pub mod Keys
use freqtrade_llm.Base.{
  ℕ, Bool, true, false, not, ◌&&◌, Option, none, some, List, [], ◌∷◌, ◌++◌, String, str_eq,
  if◌then◌else◌, select, head?, is_some, ◌≡◌,
}
use freqtrade_llm.Base.Result.{Result, ok, err}

pub data ValueTypesEnum : Type 0 where
  string datetime float int : ValueTypesEnum

abbrev pub type_eq : ValueTypesEnum → ValueTypesEnum → Bool
type_eq string string = true
type_eq datetime datetime = true
type_eq float float = true
type_eq int int = true
type_eq _ _ = false

-- `ValueTypes`; F and I are Python's `float` and `int`, and a datetime is a number
-- of microseconds, in UTC as it is read back.
pub data ValueTypes (F I : Type 0) : Type 0 where
  of_string : String → ValueTypes F I
  of_datetime : ℕ → ValueTypes F I
  of_float : F → ValueTypes F I
  of_int : I → ValueTypes F I

-- A row, less the primary key, which the database assigns. A row of an older program may hold a type
-- that is none of the four: `none`.
pub record KeyValue (F I : Type 0) : Type 0 where
  pub key : String
  pub value_type : Option ValueTypesEnum
  pub string_value : Option String
  pub datetime_value : Option ℕ
  pub float_value : Option F
  pub int_value : Option I

pub data ValueError : Type 0 where
  unknown_value_type : ValueError

abbrev pub has_key : {F I : Type 0} → String → KeyValue F I → Bool
has_key key kv = str_eq kv.key key

abbrev pub has_type : {F I : Type 0} → String → ValueTypesEnum → KeyValue F I → Bool
has_type key type_ kv =
    str_eq kv.key key && elim kv.value_type [ none ↦ false | some t ↦ type_eq t type_ ]

-- Changing or deleting the first element that passes a test
unfoldable pub change_first : {A : Type 0} → (A → Bool) → (A → A) → List A → List A
change_first p f [] = []
change_first p f (x ∷ xs) = if p x then f x ∷ xs else x ∷ change_first p f xs

unfoldable pub delete_first : {A : Type 0} → (A → Bool) → List A → List A
delete_first p [] = []
delete_first p (x ∷ xs) = if p x then xs else x ∷ delete_first p xs

-- The session of the table, which is SQLAlchemy's: its rows; `add` of a new row, or of the first row
-- that passes a test, after it was changed; and `delete` of that row; each with its commit.
pub record Table (F I Db : Type 0) : Type 0 where
  pub rows : Db → List (KeyValue F I)
  pub add : KeyValue F I → Db → Db
  pub change : (KeyValue F I → Bool) → (KeyValue F I → KeyValue F I) → Db → Db
  pub delete : (KeyValue F I → Bool) → Db → Db

pub record TableLaws {F I Db : Type 0} (s : Table F I Db) : Type 0 where
  pub rows-add : (kv : KeyValue F I) (db : Db) → s.rows (s.add kv db) ≡ s.rows db ++ kv ∷ []
  pub rows-change :
      (p : KeyValue F I → Bool) (f : KeyValue F I → KeyValue F I) (db : Db)
      → s.rows (s.change p f db) ≡ change_first p f (s.rows db)
  pub rows-delete :
      (p : KeyValue F I → Bool) (db : Db) → s.rows (s.delete p db) ≡ delete_first p (s.rows db)

module _ {F I : Type 0} where
  -- `query(...).filter(...).first()`
  unfoldable pub first : (KeyValue F I → Bool) → List (KeyValue F I) → Option (KeyValue F I)
  first p [] = none
  first p (kv ∷ kvs) = if p kv then some kv else first p kvs

  -- The columns that `store_value` writes; the columns of the other types stay.
  unfoldable pub with_value : ValueTypes F I → KeyValue F I → KeyValue F I
  with_value (of_string x) kv = record kv { value_type = some string; string_value = some x }
  with_value (of_datetime x) kv = record kv { value_type = some datetime; datetime_value = some x }
  with_value (of_float x) kv = record kv { value_type = some float; float_value = some x }
  with_value (of_int x) kv = record kv { value_type = some int; int_value = some x }

  abbrev pub new_row : String → KeyValue F I
  new_row key = record {
    key = key;
    value_type = none;
    string_value = none;
    datetime_value = none;
    float_value = none;
    int_value = none;
  }

  abbrev pub wrapped {ℓ} : {A : Type ℓ} → (A → ValueTypes F I) → Option A → Option (ValueTypes F I)
  wrapped c none = none
  wrapped c (some x) = some (c x)

  -- The columns that `get_value` reads. A date that is missing is an unknown type.
  unfoldable pub value_of : KeyValue F I → Result ValueError (Option (ValueTypes F I))
  value_of kv = elim kv.value_type [
    | none ↦ err unknown_value_type
    | some string ↦ ok (wrapped of_string kv.string_value)
    | some datetime ↦
        if is_some kv.datetime_value
        then ok (wrapped of_datetime kv.datetime_value)
        else err unknown_value_type
    | some float ↦ ok (wrapped of_float kv.float_value)
    | some int ↦ ok (wrapped of_int kv.int_value)
  ]

  unfoldable pub read_row : Option (KeyValue F I) → Result ValueError (Option (ValueTypes F I))
  unfolding value_of
  read_row none = ok none
  read_row (some kv) = value_of kv

  -- One column of the first row with a key and a type
  abbrev pub column_of : {A : Type 0} → (KeyValue F I → Option A) → Option (KeyValue F I) → Option A
  column_of column none = none
  column_of column (some kv) = column kv

module _ {F I Db : Type 0} (session : Table F I Db) where
  unfoldable pub store_value : String → ValueTypes F I → Db → Db
  unfolding first with_value
  store_value key value db =
      if is_some (first (has_key key) (session.rows db))
      then session.change (has_key key) (with_value value) db
      else session.add (with_value value (new_row key)) db

  unfoldable pub delete_value : String → Db → Db
  unfolding first
  delete_value key db =
      if is_some (first (has_key key) (session.rows db))
      then session.delete (has_key key) db
      else db

  unfoldable pub get_value : String → Db → Result ValueError (Option (ValueTypes F I))
  unfolding first read_row
  get_value key db = read_row (first (has_key key) (session.rows db))

  unfoldable pub get_string_value : String → Db → Option String
  unfolding first
  get_string_value key db =
      column_of (λ kv. kv.string_value) (first (has_type key string) (session.rows db))

  unfoldable pub get_datetime_value : String → Db → Option ℕ
  unfolding first
  get_datetime_value key db =
      column_of (λ kv. kv.datetime_value) (first (has_type key datetime) (session.rows db))

  unfoldable pub get_float_value : String → Db → Option F
  unfolding first
  get_float_value key db =
      column_of (λ kv. kv.float_value) (first (has_type key float) (session.rows db))

  unfoldable pub get_int_value : String → Db → Option I
  unfolding first
  get_int_value key db = column_of (λ kv. kv.int_value) (first (has_type key int) (session.rows db))

  -- `open_date` is the open date of the oldest trade.
  unfoldable pub set_startup_time : Option ℕ → ℕ → Db → Result ValueError Db
  unfolding store_value get_value
  set_startup_time open_date now db = elim (get_value "bot_start_time" db) [
    | err e ↦ err e
    | ok (some value) ↦ ok (store_value "startup_time" (of_datetime now) db)
    | ok none ↦
        let started : ℕ = elim open_date [ none ↦ now | some date ↦ date ] in
        ok (
          store_value "startup_time" (of_datetime now)
            (store_value "bot_start_time" (of_datetime started) db))
  ]
