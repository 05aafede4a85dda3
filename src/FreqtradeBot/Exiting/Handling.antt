-- ===== src/FreqtradeBot/Exiting/Handling.antt =====
-- `handle_trade` of freqtrade/freqtradebot.py: the signals of the latest candle and the exit rate lead
-- to the exits that the strategy asks for, which are executed.
use freqtrade_llm.Base.{Bool, false, not, ◌||◌, Option, none, String, if◌then◌else◌, if_both}
use freqtrade_llm.Base.Float.{Float}
use freqtrade_llm.Base.Result.{err, ◌>>=◌}
use freqtrade_llm.Persistence.Trade.{Trade}
use freqtrade_llm.Strategy.Signals.{get_exit_signal}
use freqtrade_llm.FreqtradeBot.{dependency}
use freqtrade_llm.FreqtradeBot.Exiting.{Leaving, ExitDesk, Exit, leaving, check_and_execute_exit}
use freqtrade_llm.FreqtradeBot.Exiting.Remaining.{
  Remains, leaving-Remains, check_and_execute_exit-Remains,
}
use freqtrade_llm.FreqtradeBot.Orders.{Parts, within}
use freqtrade_llm.FreqtradeBot.Orders.Keeping.{Any, Stays, within-Keeps}

module _ {F P Db : Type 0} ⦃f : Float F⦄ (x : Parts F P Db) (y : ExitDesk F) where
  -- Enter, exit and the tag. The two settings are those of the configuration, which the strategy has
  -- as well.
  unfoldable pub exit_signals : Trade F → Bool × Bool × Option String
  exit_signals t =
      if x.strategy.use_exit_signal || x.strategy.ignore_roi_if_entry_signal
      then get_exit_signal x.ccxt x.strategy x.clock y.timeframe (y.analyzed t.pair) t.is_short
      else (false, false, none)

  -- The flag says that an exit was executed.
  unfoldable pub handle_trade : Leaving F Db → Exit x y
  unfolding exit_signals check_and_execute_exit
  handle_trade s =
      let p = s.position in
      let (enter, exit_, exit_tag) = exit_signals p.trade in
      let tried : Exit x y =
        leaving x y s.seen (within (λ e. e) p (x.venue.get_exit_rate p.trade.pair p.trade.is_short))
        >>= λ rate. check_and_execute_exit x y rate enter exit_ exit_tag s in
      if not p.trade.is_open then err (dependency, s) else tried

  -- Handling a trade neither deletes it nor brings it back, whether it returns or raises, although
  -- open entries of the trade may be canceled for an exit.
  pub handle_trade-Remains :
      (b : Bool) (s : Leaving F Db) → Stays b s.position → Remains x y b (handle_trade s)
  unfolding handle_trade
  handle_trade-Remains b s h =
      let p = s.position in
      let (enter, exit_, exit_tag) = exit_signals p.trade in
      let raised : Exit x y = err (dependency, s) in
      if_both (Remains x y b) (not p.trade.is_open) raised _ h (
        leaving-Remains x y b Any s.seen
          (within (λ e. e) p (x.venue.get_exit_rate p.trade.pair p.trade.is_short)) _
          (within-Keeps b (λ e. e) p _ h)
          λ rate u. check_and_execute_exit-Remains x y b rate enter exit_ exit_tag s h)
