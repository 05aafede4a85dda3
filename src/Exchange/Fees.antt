-- ===== src/Exchange/Fees.antt =====
-- freqtrade/exchange/exchange.py: an order as ccxt returns it, and the fee that it reports. A key that
-- is missing and one whose value is `None` are both `none`.
use freqtrade_llm.Base.{
  ℕ, Bool, false, not, ◌&&◌, Option, none, some, List, String, str_eq, if◌then◌else◌, is_some,
}
use freqtrade_llm.Base.Float.{Float, truthy, truthy?}
use freqtrade_llm.Base.Result.{Result, ok, err, ◌>>=◌}
use freqtrade_llm.Persistence.Order.{OrderSide, is_non_open}

pub record CcxtFee (F : Type 0) : Type 0 where
  pub currency : Option String
  pub cost : Option F
  pub rate : Option F

-- An execution, of which an order may have several
pub record ExecTrade (F : Type 0) : Type 0 where
  pub symbol : String
  pub amount : Option F
  pub cost : Option F
  pub fee : Option (CcxtFee F)
  pub fees : List (CcxtFee F)

pub record CcxtOrder (F : Type 0) : Type 0 where
  pub id : String
  pub symbol : String
  pub side : OrderSide
  pub status : Option String
  pub price : Option F
  pub average : Option F
  pub amount : Option F
  pub filled : Option F
  pub remaining : Option F
  pub cost : Option F
  pub stop_price : Option F
  pub timestamp : Option ℕ
  pub last_trade_timestamp : Option ℕ
  pub fee : Option (CcxtFee F)
  pub trades : List (ExecTrade F)

-- `TypeError` of a number that is `None`, and `ZeroDivisionError`
pub data FeeError : Type 0 where
  not_a_number division_by_zero : FeeError

-- The currencies of a pair, the rate of a currency in the stake currency, `none` where there is none or
-- it cannot be found, the rate of the configuration, and `round(x, 8)`.
pub record Currencies (F : Type 0) : Type 0 where
  pub get_pair_base_currency : String → String
  pub get_pair_quote_currency : String → String
  pub get_conversion_rate : String → Option F
  pub unknown_fee_rate : Option F
  pub round8 : F → F

module _ {F : Type 0} where
  unfoldable pub has_fee : Option (CcxtFee F) → Bool
  has_fee none = false
  has_fee (some fee) = is_some fee.currency && is_some fee.cost

module _ {F : Type 0} ⦃f : Float F⦄ where
  open f use {zero, mul, div, eq}

  unfoldable pub check_order_canceled_empty : CcxtOrder F → Bool
  check_order_canceled_empty order =
      is_non_open order.status && elim order.filled [ none ↦ false | some x ↦ eq x zero ]

  unfoldable pub order_has_fee : CcxtOrder F → Bool
  unfolding has_fee
  order_has_fee order = has_fee order.fee

  abbrev pub given_cost : CcxtFee F → Result FeeError F
  given_cost fee = elim fee.cost [ none ↦ err not_a_number | some x ↦ ok x ]

  abbrev pub quotient : (F → F) → F → F → Result FeeError (Option F)
  quotient round8 x y = if eq y zero then err division_by_zero else ok (some (round8 (div x y)))

  -- A rate of 0 counts as none.
  abbrev pub or_unknown : Option F → Option F → Option F
  or_unknown rate unknown = if truthy? rate then rate else if truthy? unknown then unknown else none

  abbrev pub rate_of_cost : (F → F) → F → Option F → Result FeeError (Option F)
  rate_of_cost round8 fee_cost none = ok none
  rate_of_cost round8 fee_cost (some cost) =
      if truthy cost then ok (some (round8 (div fee_cost cost))) else ok none

  unfoldable pub calculate_fee_rate :
      Currencies F → CcxtFee F → String → Option F → Option F → Result FeeError (Option F)
  calculate_fee_rate x fee symbol cost amount = elim fee.rate [
    | some rate ↦ ok (some rate)
    | none ↦ elim fee.currency [
      | none ↦ ok none
      | some currency ↦ given_cost fee >>= λ fee_cost.
          if str_eq currency (x.get_pair_base_currency symbol)
          then elim amount [ none ↦ err not_a_number | some a ↦ quotient x.round8 fee_cost a ]
          else if str_eq currency (x.get_pair_quote_currency symbol)
          then rate_of_cost x.round8 fee_cost cost
          else if not (truthy? cost)
          then ok none
          else elim (or_unknown (x.get_conversion_rate currency) x.unknown_fee_rate) [
            | none ↦ ok none
            | some rate ↦ rate_of_cost x.round8 (mul fee_cost rate) cost
          ]
    ]
  ]

  -- The cost and the rate; the currency is that of the fee.
  unfoldable pub extract_cost_curr_rate :
      Currencies F → CcxtFee F → String → Option F → Option F → Result FeeError (F × Option F)
  unfolding calculate_fee_rate
  extract_cost_curr_rate x fee symbol cost amount = given_cost fee >>= λ fee_cost.
      calculate_fee_rate x fee symbol cost amount >>= λ rate. ok (fee_cost, rate)
