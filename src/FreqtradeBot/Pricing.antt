-- ===== src/FreqtradeBot/Pricing.antt =====
-- freqtrade/freqtradebot.py: the price, stake and leverage of an entry, and the amount of an exit. The
-- methods of the strategy are called through `strategy_safe_wrapper`; what they return is a parameter.
pub mod Bounds
use freqtrade_llm.Base.{
  ℕ, Bool, true, false, not, ◌&&◌, ◌||◌, Option, none, some, List, [], ◌∷◌, String, if◌then◌else◌,
  is_some,
}
use freqtrade_llm.Base.Float.{Float, truthy, truthy?}
use freqtrade_llm.Base.Float
use freqtrade_llm.Base.Result.{Result, ok, err, ◌>>=◌}
use freqtrade_llm.Persistence.Trade.{Trade, TradingMode, spot, margin, futures}
use freqtrade_llm.Wallets.{
  Wallets, Config, Books, get_free, get_used, get_available_stake_amount, validate_stake_amount,
}
use freqtrade_llm.FreqtradeBot.{Exception, dependency, pricing}

-- What a strategy may give for a price: nothing or 0, a number, or another object with what `float`
-- makes of it, `none` where that raises `ValueError`.
pub data CustomPrice (F : Type 0) : Type 0 where
  no_price : CustomPrice F
  number : F → CustomPrice F
  convertible : Option F → CustomPrice F

-- `EntryExecuteMode`
pub data EntryExecuteMode : Type 0 where
  initial pos_adjust replace : EntryExecuteMode

-- What the exchange answers about a pair, and the strategy's answers. `get_rate` takes the direction,
-- `get_min_pair_stake_amount` the price, the stop loss and the leverage.
pub record Market (F : Type 0) : Type 0 where
  pub get_rate : String → Bool → Result Exception F
  pub get_max_leverage : String → F → F
  pub get_min_pair_stake_amount : String → F → F → F → Option F
  pub get_max_pair_stake_amount : String → F → F → F

pub record Callbacks (F : Type 0) : Type 0 where
  pub stoploss : F
  pub custom_entry_price : String → F → CustomPrice F
  -- of the pair, the rate and the largest leverage
  pub leverage : String → F → F → F
  -- of the pair, the rate, the proposed stake, the smallest and the largest one, and the leverage
  pub custom_stake_amount : String → F → F → Option F → F → F → Option F

pub record Entry (F : Type 0) : Type 0 where
  pub enter_limit_requested : F
  pub stake_amount : F
  pub leverage : F

module _ {F : Type 0} ⦃f : Float F⦄ where
  open f use {zero, one, add, sub, mul, div, lt, le}

  unfoldable pub valid_custom_price : CustomPrice F → F → F
  valid_custom_price no_price proposed = proposed
  valid_custom_price (number x) proposed = if truthy x then x else proposed
  valid_custom_price (convertible none) proposed = proposed
  valid_custom_price (convertible (some x)) proposed = x

  unfoldable pub min_custom_price_allowed : F → F → F
  min_custom_price_allowed ratio proposed = sub proposed (mul proposed ratio)

  unfoldable pub max_custom_price_allowed : F → F → F
  max_custom_price_allowed ratio proposed = add proposed (mul proposed ratio)

  -- `ratio` is `custom_price_max_distance_ratio`.
  unfoldable pub get_valid_price : F → CustomPrice F → F → F
  unfolding valid_custom_price min_custom_price_allowed max_custom_price_allowed
  get_valid_price ratio custom proposed =
      Float.max
        (Float.min (valid_custom_price custom proposed) (max_custom_price_allowed ratio proposed))
        (min_custom_price_allowed ratio proposed)

  -- The price before the strategy is asked: the one that is given, or the rate of the exchange.
  unfoldable pub proposed_enter_price : Market F → String → Option F → Bool → Result Exception F
  proposed_enter_price x pair none is_short = x.get_rate pair is_short
  proposed_enter_price x pair (some price) is_short =
      if truthy price then ok price else x.get_rate pair is_short

  -- The strategy is not asked while an order is replaced.
  unfoldable pub enter_price : F → Callbacks F → String → EntryExecuteMode → F → F
  unfolding get_valid_price
  enter_price ratio s pair replace proposed = proposed
  enter_price ratio s pair initial proposed =
      get_valid_price ratio (s.custom_entry_price pair proposed) proposed
  enter_price ratio s pair pos_adjust proposed =
      get_valid_price ratio (s.custom_entry_price pair proposed) proposed

  abbrev pub chosen_leverage : Callbacks F → String → F → F → Option F → F
  chosen_leverage s pair price largest none = s.leverage pair price largest
  chosen_leverage s pair price largest (some given) =
      if truthy given then given else s.leverage pair price largest

  -- A new trade off the spot market chooses its leverage; any other keeps it.
  unfoldable pub enter_leverage :
      Market F → Callbacks F → TradingMode → String → F → F → Option (Trade F) → Option F → F
  enter_leverage x s mode pair price stake (some trade) given = trade.leverage
  enter_leverage x s spot pair price stake none given = one
  enter_leverage x s margin pair price stake none given =
      let largest = x.get_max_leverage pair stake in
      Float.min (Float.max (chosen_leverage s pair price largest given) one) largest
  enter_leverage x s futures pair price stake none given =
      let largest = x.get_max_leverage pair stake in
      Float.min (Float.max (chosen_leverage s pair price largest given) one) largest

  abbrev pub stoploss_reserve : Callbacks F → EntryExecuteMode → F
  stoploss_reserve s pos_adjust = zero
  stoploss_reserve s initial = s.stoploss
  stoploss_reserve s replace = s.stoploss

  -- The stake and the leverage at a price. A zero price raises.
  unfoldable pub stake_at_price :
      F
      → Market F
      → Callbacks F
      → Config F
      → Books F
      → Wallets F
      → String
      → F
      → Option (Trade F)
      → EntryExecuteMode
      → Option F
      → F
      → Result Exception (Entry F)
  unfolding enter_leverage
  stake_at_price tolerance x s c b w pair stake trade mode given price =
      let leverage = enter_leverage x s c.trading_mode pair price stake trade given in
      let min_stake = x.get_min_pair_stake_amount pair price (stoploss_reserve s mode) leverage in
      let max_stake = x.get_max_pair_stake_amount pair price leverage in
      let wanted : Option F = elim trade [
        | some t ↦ some stake
        | none ↦
            s.custom_stake_amount pair price stake min_stake
              (Float.min max_stake (get_available_stake_amount c b w)) leverage
      ] in
      let tied_up : Option F = elim trade [ none ↦ none | some t ↦ some t.stake_amount ] in
      if not (truthy price)
      then err pricing
      else ok (record {
        enter_limit_requested = price;
        stake_amount = validate_stake_amount tolerance c b w wanted min_stake max_stake tied_up;
        leverage = leverage;
      })

  unfoldable pub get_valid_enter_price_and_stake :
      F
      → F
      → Market F
      → Callbacks F
      → Config F
      → Books F
      → Wallets F
      → String
      → Option F
      → F
      → Bool
      → Option (Trade F)
      → EntryExecuteMode
      → Option F
      → Result Exception (Entry F)
  unfolding proposed_enter_price enter_price stake_at_price
  get_valid_enter_price_and_stake ratio tolerance x s c b w pair price stake is_short trade mode
        given =
      proposed_enter_price x pair price is_short >>= λ proposed.
      stake_at_price tolerance x s c b w pair stake trade mode given
        (enter_price ratio s pair mode proposed)

  -- `_safe_exit_amount`, after the wallets were updated: the amount, and the trade, which it may
  -- shrink; `almost` is 0.98.
  unfoldable pub safe_exit_amount :
      F → Config F → Wallets F → String → F → Trade F → Result Exception (F × Trade F)
  unfolding get_free get_used
  safe_exit_amount almost c w base_currency amount t =
      let wallet_amount = add (get_free w base_currency) (get_used w base_currency) in
      let covered : Result Exception (F × Trade F) =
        if le amount wallet_amount
        then ok (amount, t)
        else if lt (mul amount almost) wallet_amount
        then ok (wallet_amount, record t { amount = wallet_amount })
        else err dependency in
      elim c.trading_mode [ futures ↦ ok (amount, t) | spot ↦ covered | margin ↦ covered ]

  -- `_check_depth_of_market`: the volumes of bids and asks, and the smallest ratio
  unfoldable pub check_depth_of_market : F → F → F → Bool → Bool
  check_depth_of_market bids_to_ask_delta bids asks is_long =
      let entry_side = if is_long then bids else asks in
      let exit_side = if is_long then asks else bids in
      le bids_to_ask_delta (div entry_side exit_side)
