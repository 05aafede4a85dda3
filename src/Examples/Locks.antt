-- ===== src/Examples/Locks.antt =====
-- The theorems on pair locks, protections and timeframes at concrete values.
use freqtrade_llm.Base.{
  true, false, ◌||◌, none, some, List, [], ◌∷◌, String, str_eq, eq_iff, any, ◌≡◌, ◌≢◌, refl, arith,
}
use freqtrade_llm.Persistence.PairLock.{PairLock}
use freqtrade_llm.Persistence.PairLocks.{
  PairLocks, get_pair_locks, get_all_locks, lock_pair, unlock_pair, unlock_reason, is_pair_locked,
  is_global_lock,
}
use freqtrade_llm.Persistence.PairLocks.Effects.{
  blocks, is_pair_locked-lock_pair, is_pair_locked_iff,
}
use freqtrade_llm.Persistence.PairLocks.Unlock.{is_pair_locked-unlock_pair, unlock_reason_past}
use freqtrade_llm.Persistence.PairLocks.Backends.{get_pair_locks_agree, get_pair_locks_differ}
use freqtrade_llm.Examples.Setting.{table, table-SessionLaws, five_minutes}

abbrev btc : String
btc = "BTC/USDT"

abbrev eth : String
eth = "ETH/USDT"

differ : (a b : String) → str_eq a b ≡ false → a ≢ b
differ a b h e = ground (arith, eq_iff a b)

abbrev empty : String
empty = ""

abbrev star : String
star = "*"

abbrev btc_lock : PairLock
btc_lock = record {
  pair = btc;
  side = "*";
  reason = some "Cooldown";
  lock_time = 100;
  lock_end_time = 900_000_000;
  active = true;
}

abbrev eth_lock : PairLock
eth_lock = record {
  pair = eth;
  side = "long";
  reason = some "StoplossGuard";
  lock_time = 100;
  lock_end_time = 600_000_000;
  active = true;
}

abbrev in_memory : PairLocks (List PairLock)
in_memory = record {
  use_db = false;
  locks = btc_lock ∷ eth_lock ∷ [];
  timeframe = "5m";
  db = btc_lock ∷ eth_lock ∷ [];
}

abbrev in_database : PairLocks (List PairLock)
in_database = record in_memory { use_db = true }

abbrev only_btc : PairLocks (List PairLock)
only_btc = record in_memory { locks = btc_lock ∷ []; db = btc_lock ∷ [] }

btc_named : btc ≢ empty
btc_named = differ btc empty refl

btc_no_star : btc ≢ star
btc_no_star = differ btc star refl

eth_named : eth ≢ empty
eth_named = differ eth empty refl

eth_no_btc : eth ≢ btc
eth_no_btc = differ eth btc refl

is_pair_locked-lock_pair_example :
    let result =
      lock_pair table five_minutes 50 in_database btc 400_000_000 none (some 100) "long" in
    is_pair_locked table 70 result.1 btc (some 200) "long" ≡ (
      is_pair_locked table 70 in_database btc (some 200) "long"
      || blocks true btc 200 "long" result.0)
is_pair_locked-lock_pair_example =
    is_pair_locked-lock_pair table five_minutes 50 in_database btc 400_000_000 none (some 100)
      "long" table-SessionLaws 70 btc 200 "long" btc_named

is_pair_locked_iff_example :
    is_pair_locked table 50 in_memory eth (some 200) "long"
    ≡ any (blocks false eth 200 "long") (get_all_locks table in_memory)
is_pair_locked_iff_example = is_pair_locked_iff table 50 in_memory eth 200 "long" eth_named

is_pair_locked-unlock_pair_example :
    let after = unlock_pair table 50 in_memory btc (some 300) "long" in
    (is_pair_locked table 70 after btc (some 300) "long"
      ≡ is_global_lock table 70 in_memory (some 300) "long")
    × (is_pair_locked table 70 after eth (some 200) "long"
        ≡ is_pair_locked table 70 in_memory eth (some 200) "long")
is_pair_locked-unlock_pair_example =
    is_pair_locked-unlock_pair table table-SessionLaws 50 in_memory btc 300 "long" btc_named
      btc_no_star 70 eth 200 "long" eth_named eth_no_btc

unlock_reason_past_example :
    get_all_locks table (unlock_reason table 1_000_000_000 in_memory "Cooldown" (some 300))
    ≡ get_all_locks table in_memory
unlock_reason_past_example =
    unlock_reason_past table 1_000_000_000 in_memory "Cooldown" 300 refl (ground arith)

get_pair_locks_agree_example :
    get_pair_locks table 50 (record in_memory { use_db = true }) (some btc) (some 200) (some "long")
    ≡ get_pair_locks table 50
        (record in_memory { use_db = false })
        (some btc)
        (some 200)
        (some "long")
get_pair_locks_agree_example =
    get_pair_locks_agree table 50 in_memory btc 200 (some "long") refl btc_named (ground arith)

get_pair_locks_differ_example :
    (get_pair_locks table 50
        (record only_btc { use_db = true })
        (some btc)
        (some 900_000_000)
        (some "*")
      ≡ [])
    × (get_pair_locks table 50
          (record only_btc { use_db = false })
          (some btc)
          (some 900_000_000)
          (some "*")
        ≡ only_btc.locks)
get_pair_locks_differ_example =
    get_pair_locks_differ table 50 only_btc btc 900_000_000 refl (ground arith)
