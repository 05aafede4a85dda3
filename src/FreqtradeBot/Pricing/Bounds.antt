-- ===== src/FreqtradeBot/Pricing/Bounds.antt =====
-- The bounds on the prices, stakes, leverages and amounts of freqtrade/freqtradebot.py.
use freqtrade_llm.Base.{
  ◌≡◌, ◌≢◌, refl, sym, ◌∙◌, Bool, true, false, not, Option, none, some, ◌⊎◌, inl, inr, if_cases,
  if◌then◌else◌, arith, String,
}
use freqtrade_llm.Base.Float.{Float, OrderLaws, truthy}
use freqtrade_llm.Base.Float
use freqtrade_llm.Base.Result.{Result, ok, err, Ensures, Ensures-bind, Ensures-returned}
use freqtrade_llm.Persistence.Trade.{Trade, TradingMode, spot, margin, futures}
use freqtrade_llm.Wallets.{Wallets, Config, Books, get_available_stake_amount, get_free, get_used}
use freqtrade_llm.Wallets.Stake.{IsValidStake, IsComparable, validate_stake_amount-IsValidStake}
use freqtrade_llm.FreqtradeBot.{Exception, dependency, pricing}
use freqtrade_llm.FreqtradeBot.Pricing.{
  CustomPrice, Market, Callbacks, Entry, EntryExecuteMode, valid_custom_price,
  min_custom_price_allowed, max_custom_price_allowed, get_valid_price, proposed_enter_price,
  enter_price, enter_leverage, stoploss_reserve, stake_at_price, get_valid_enter_price_and_stake,
  safe_exit_amount,
}

off_futures :
    {A : Type 0} (a b : A) (mode : TradingMode)
    → mode ≢ futures
    → (elim mode [ futures ↦ a | spot ↦ b | margin ↦ b ]) ≡ b
off_futures a b spot m = refl
off_futures a b margin m = refl
off_futures a b futures m = ground (arith, m refl)

module _ {F : Type 0} ⦃f : Float F⦄ (laws : OrderLaws f) where
  open f use {zero, one, add, mul, lt, le}

  -- `max(min(value, high), low)`
  abbrev bracket : F → F → F → F
  bracket low high value = Float.max (Float.min value high) low

  bracket-not_below : (low high value : F) → lt (bracket low high value) low ≡ false
  bracket-not_below low high value = ground (arith, laws.lt_irrefl low)

  bracket-not_above :
      (low high value : F) → lt high low ≡ false → lt high (bracket low high value) ≡ false
  bracket-not_above low high value h = ground (arith, laws.lt_irrefl high)

  bracket-inside :
      (low high value : F)
      → lt value low ≡ false
      → lt high value ≡ false
      → bracket low high value ≡ value
  bracket-inside low high value h k = ground arith

  -- Where the band around the proposed price is not empty, the valid price lies in it, and a custom
  -- price inside the band is taken as it is.
  get_valid_price_bounds :
      (ratio : F) (custom : CustomPrice F) (proposed : F)
      → let low = min_custom_price_allowed ratio proposed in
        let high = max_custom_price_allowed ratio proposed in
        let wanted = valid_custom_price custom proposed in
        let price = get_valid_price ratio custom proposed in
        lt high low ≡ false
        → (lt price low ≡ false)
          × (lt high price ≡ false)
          × (lt wanted low ≡ false → lt high wanted ≡ false → price ≡ wanted)
  unfolding get_valid_price
  get_valid_price_bounds ratio custom proposed h =
      (bracket-not_below _ _ _, bracket-not_above _ _ _ h, bracket-inside _ _ _)

  -- A leverage within the exchange's limit: it is below 1 only where the limit is.
  unfoldable pub IsCapped : F → F → Type 0
  IsCapped largest leverage =
      (lt largest leverage ≡ false) × (lt leverage one ≡ true → lt largest one ≡ true)

  cap-IsCapped : (largest x : F) → IsCapped largest (Float.min (Float.max x one) largest)
  unfolding IsCapped
  cap-IsCapped largest x =
      (ground (arith, laws.lt_irrefl largest), λ h. ground (arith, laws.lt_irrefl one))

  -- The leverage of a trade that exists stays, it is 1 on the spot market, and capped elsewhere.
  unfoldable pub IsLeverage : Market F → TradingMode → String → F → Option (Trade F) → F → Type 0
  unfolding IsCapped
  IsLeverage x mode pair stake (some trade) leverage = leverage ≡ trade.leverage
  IsLeverage x spot pair stake none leverage = leverage ≡ one
  IsLeverage x margin pair stake none leverage = IsCapped (x.get_max_leverage pair stake) leverage
  IsLeverage x futures pair stake none leverage = IsCapped (x.get_max_leverage pair stake) leverage

  enter_leverage-IsLeverage :
      (x : Market F) (s : Callbacks F) (mode : TradingMode) (pair : String) (price stake : F)
      (trade : Option (Trade F)) (given : Option F)
      → IsLeverage x mode pair stake trade (enter_leverage x s mode pair price stake trade given)
  unfolding IsLeverage enter_leverage
  enter_leverage-IsLeverage x s mode pair price stake (some trade) given = refl
  enter_leverage-IsLeverage x s spot pair price stake none given = refl
  enter_leverage-IsLeverage x s margin pair price stake none given = cap-IsCapped _ _
  enter_leverage-IsLeverage x s futures pair price stake none given = cap-IsCapped _ _

  -- A stake at a price and a leverage: 0, or valid for the limits of the exchange there.
  unfoldable pub IsGranted :
      Market F → Callbacks F → F → String → EntryExecuteMode → Entry F → Type 0
  IsGranted x s available pair mode e =
      (e.stake_amount ≡ zero)
      ⊎ IsValidStake laws available
          (x.get_max_pair_stake_amount pair e.enter_limit_requested e.leverage)
          (x.get_min_pair_stake_amount pair e.enter_limit_requested (stoploss_reserve s mode)
            e.leverage)
          e.stake_amount

  unfoldable pub IsValidEntry :
      Market F
      → Callbacks F
      → Config F
      → F
      → String
      → F
      → Option (Trade F)
      → EntryExecuteMode
      → Entry F
      → Type 0
  unfolding IsLeverage IsGranted
  IsValidEntry x s c available pair stake trade mode e =
      (truthy e.enter_limit_requested ≡ true)
      × IsLeverage x c.trading_mode pair stake trade e.leverage
      × IsGranted x s available pair mode e

  stake_at_price-IsValidEntry :
      (tolerance : F) (x : Market F) (s : Callbacks F) (c : Config F) (b : Books F) (w : Wallets F)
      (pair : String) (stake : F) (trade : Option (Trade F)) (mode : EntryExecuteMode)
      (given : Option F) (price : F)
      → ((leverage : F)
          → IsComparable laws
              (x.get_max_pair_stake_amount pair price leverage)
              (get_available_stake_amount c b w))
      → Ensures
          (IsValidEntry x s c (get_available_stake_amount c b w) pair stake trade mode)
          (stake_at_price tolerance x s c b w pair stake trade mode given price)
  unfolding stake_at_price IsValidEntry IsGranted
  stake_at_price-IsValidEntry tolerance x s c b w pair stake trade mode given price h =
      let available = get_available_stake_amount c b w in
      let leverage = enter_leverage x s c.trading_mode pair price stake trade given in
      if_cases (Ensures (IsValidEntry x s c available pair stake trade mode)) (not (truthy price))
        (err pricing) (ok _) (λ e. tt)
        (λ e. (
          ground arith,
          enter_leverage-IsLeverage x s c.trading_mode pair price stake trade given,
          validate_stake_amount-IsValidStake laws tolerance c b w _ _ _ _ (h leverage),
        ))

  -- An entry that is granted has a price that is not 0. Its leverage is that of the trade, if there
  -- is one, 1 on the spot market, and otherwise not above the exchange's limit and not below 1,
  -- unless the limit is. Its stake is 0 or lies within the limits of the exchange at that price and
  -- leverage and within what is available. The largest stake and what is available are not NaN.
  pub get_valid_enter_price_and_stake-IsValidEntry :
      (ratio tolerance : F) (x : Market F) (s : Callbacks F) (c : Config F) (b : Books F)
      (w : Wallets F) (pair : String) (price : Option F) (stake : F) (is_short : Bool)
      (trade : Option (Trade F)) (mode : EntryExecuteMode) (given : Option F) (e : Entry F)
      → ((rate leverage : F)
          → IsComparable laws
              (x.get_max_pair_stake_amount pair rate leverage)
              (get_available_stake_amount c b w))
      → get_valid_enter_price_and_stake ratio tolerance x s c b w pair price stake is_short trade
          mode given
        ≡ ok e
      → IsValidEntry x s c (get_available_stake_amount c b w) pair stake trade mode e
  unfolding get_valid_enter_price_and_stake
  get_valid_enter_price_and_stake-IsValidEntry ratio tolerance x s c b w pair price stake is_short
        trade mode given e h =
      let valid : Entry F → Type 0 =
        IsValidEntry x s c (get_available_stake_amount c b w) pair stake trade mode in
      Ensures-returned valid _ e (
        Ensures-bind valid (proposed_enter_price x pair price is_short) _ (λ rate _.
          stake_at_price-IsValidEntry tolerance x s c b w pair stake trade mode given
            (enter_price ratio s pair mode rate) (h (enter_price ratio s pair mode rate))))

  -- The amount of an exit, and the trade after it: the amount that was asked for, or else the whole
  -- balance, which becomes the amount of the trade.
  unfoldable pub IsExitAmount : F → F → F → Trade F → F × Trade F → Type 0
  IsExitAmount almost wallet amount t (r, u) =
      (lt wallet r ≡ false)
      × (((r ≡ amount) × (u ≡ t))
          ⊎ ((r ≡ wallet) × (u ≡ record t { amount = wallet }) × (lt (mul amount almost) r ≡ true)))

  covered_amount-IsExitAmount :
      (almost wallet amount : F) (t : Trade F)
      → Ensures (IsExitAmount almost wallet amount t) (
          if le amount wallet
          then ok (amount, t)
          else if lt (mul amount almost) wallet
          then ok (wallet, record t { amount = wallet })
          else err dependency)
  unfolding IsExitAmount
  covered_amount-IsExitAmount almost wallet amount t =
      let held : Exception → Result Exception (F × Trade F) = err in
      if_cases (Ensures (IsExitAmount almost wallet amount t)) (le amount wallet) (ok (amount, t)) _
        (λ h. (
          ground (arith, laws.lt_irrefl wallet, laws.lt-le_trans wallet amount wallet),
          inl (refl, refl),
        ))
        (λ h.
          if_cases (Ensures (IsExitAmount almost wallet amount t)) (lt (mul amount almost) wallet)
            (ok (wallet, record t { amount = wallet })) (held dependency)
            (λ k. (laws.lt_irrefl wallet, inr (refl, refl, k))) (λ k. tt))

  -- Off the futures market an exit never asks for more than the wallet holds, free or used, of the
  -- currency. It asks for the amount of the trade, or for all that there is, if that is almost the
  -- amount; then the trade takes that amount.
  pub safe_exit_amount-IsExitAmount :
      (almost : F) (c : Config F) (w : Wallets F) (currency : String) (amount : F) (t : Trade F)
      (result : F × Trade F)
      → c.trading_mode ≢ futures
      → safe_exit_amount almost c w currency amount t ≡ ok result
      → IsExitAmount almost (add (get_free w currency) (get_used w currency)) amount t result
  unfolding safe_exit_amount
  safe_exit_amount-IsExitAmount almost c w currency amount t result m e =
      Ensures-returned
        (IsExitAmount almost (add (get_free w currency) (get_used w currency)) amount t) _ result
        (covered_amount-IsExitAmount almost (add (get_free w currency) (get_used w currency)) amount
          t)
        (sym (off_futures _ _ c.trading_mode m) ∙ e)
