-- ===== src/FreqtradeBot/Protecting.antt =====
-- `handle_protections` in freqtrade/freqtradebot.py: what follows an exit. The clock stands still
-- during the call.
pub mod Locked
use freqtrade_llm.Base.{ℕ, Option, none, some, List, String}
use freqtrade_llm.Base.Float.{Float}
use freqtrade_llm.Base.Result.{Result, ok, err, ◌>>=◌}
use freqtrade_llm.Exchange.Timeframe.{Ccxt}
use freqtrade_llm.Persistence.PairLock.{PairLock, Session}
use freqtrade_llm.Persistence.PairLocks.{PairLocks, lock_pair}
use freqtrade_llm.Persistence.Trade.Store.{BtTrades}
use freqtrade_llm.Plugins.Protections.{Error}
use freqtrade_llm.Plugins.ProtectionManager.{Protection, Texts, stop_per_pair, global_stop}

-- `lock_pair` of the strategy passes its arguments on to the pair locks.
unfoldable pub auto_lock :
    {Db : Type 0} → Session Db → Ccxt → ℕ → String → String → PairLocks Db → PairLocks Db
auto_lock session c clock pair side s =
    (lock_pair session c clock s pair clock (some "Auto lock") none side).1

-- The messages are the locks that are reported, and the state is the pair locks.
pub record Protected (Db : Type 0) : Type 0 where
  pub prot_trig : Option PairLock
  pub prot_trig_glb : Option PairLock
  pub locks : PairLocks Db

module _ {F Db : Type 0} ⦃f : Float F⦄ (x : Texts F) (trades : BtTrades F) (session : Session Db)
    (c : Ccxt) (clock : ℕ) (handlers : List (Protection F)) where
  unfoldable pub handle_protections : String → String → PairLocks Db → Result Error (Protected Db)
  unfolding auto_lock
  handle_protections pair side s =
      stop_per_pair x trades session c clock clock handlers pair side
        (auto_lock session c clock pair side s)
      >>= λ local. global_stop x trades session c clock clock handlers side local.1 >>= λ whole.
          ok (record { prot_trig = local.0; prot_trig_glb = whole.0; locks = whole.1 })
