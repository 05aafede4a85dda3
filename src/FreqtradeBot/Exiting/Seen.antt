-- ===== src/FreqtradeBot/Exiting/Seen.antt =====
-- The exits that freqtrade/freqtradebot.py has executed in a candle, when they are asked for again.
use freqtrade_llm.Base.{◌≡◌, Bool, true, String, str_eq, any}
use freqtrade_llm.Base.Float.{Float}
use freqtrade_llm.Base.Result.{Result}
use freqtrade_llm.FreqtradeBot.Orders.{Parts}
use freqtrade_llm.FreqtradeBot.Exiting.{Leaving, ExitDesk}

module _ {F P Db : Type 0} ⦃f : Float F⦄ (x : Parts F P Db) (y : ExitDesk F) where
  -- If an exit was executed, its reason is known for the rest of the candle.
  abbrev KnowsReason : String → Bool × Leaving F Db → Type 0
  KnowsReason reason (exited, s) = exited ≡ true → any (λ r. str_eq r reason) s.seen ≡ true
