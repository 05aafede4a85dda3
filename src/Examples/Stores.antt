-- ===== src/Examples/Stores.antt =====
-- The theorems on the key value store at concrete values.
use freqtrade_llm.Base.{ℕ, String, none, some, List, [], ◌∷◌, ◌++◌, ◌≡◌, ◌≢◌, refl}
use freqtrade_llm.Base.Result.{ok}
use freqtrade_llm.Persistence.KeyValueStore.{
  KeyValue, Table, TableLaws, of_string, string, datetime, change_first, delete_first, store_value,
  get_value,
}
use freqtrade_llm.Persistence.KeyValueStore.Rows.{IsUnique}
use freqtrade_llm.Persistence.KeyValueStore.Keys.{store_value-get_value}

abbrev rows_of : Table ℕ ℕ (List (KeyValue ℕ ℕ))
rows_of = record {
  rows = λ db. db;
  add = λ kv db. db ++ kv ∷ [];
  change = λ p f db. change_first p f db;
  delete = λ p db. delete_first p db;
}

rows_of-TableLaws : TableLaws rows_of
rows_of-TableLaws = record {
  rows-add = λ kv db. refl;
  rows-change = λ p f db. refl;
  rows-delete = λ p db. refl;
}

abbrev stored : List (KeyValue ℕ ℕ)
stored =
    record {
      key = "startup";
      value_type = some datetime;
      string_value = none;
      datetime_value = some 7;
      float_value = none;
      int_value = none;
    }
    ∷ record {
      key = "bot_name";
      value_type = some string;
      string_value = some "a";
      datetime_value = none;
      float_value = none;
      int_value = none;
    }
    ∷ []

store_value-get_value_example :
    (get_value rows_of "startup" (store_value rows_of "startup" (of_string "now") stored)
      ≡ ok (some (of_string "now")))
    × ((other : String)
        → "startup" ≢ other
        → get_value rows_of other (store_value rows_of "startup" (of_string "now") stored)
          ≡ get_value rows_of other stored)
    × (IsUnique stored → IsUnique (store_value rows_of "startup" (of_string "now") stored))
store_value-get_value_example =
    store_value-get_value rows_of rows_of-TableLaws stored "startup" (of_string "now")
