-- ===== src/Persistence/Trade/Profit.antt =====
-- The values and the profit of a trade, of class LocalTrade in
-- freqtrade/persistence/trade_model.py, and the interest of freqtrade/leverage/interest.py. A rate is
-- a float, as the annotations say, and never `None`.
pub mod Agree
use freqtrade_llm.Base.{
  ℕ, Bool, true, false, Option, none, some, String, str_eq, if◌then◌else◌, is_some,
}
use freqtrade_llm.Base.Float.{Float, Precise, truthy, truthy?, or_else}
use freqtrade_llm.Base.Result.{Result, ok, err, ◌>>=◌}
use freqtrade_llm.Exchange.Timeframe.{or_now}
use freqtrade_llm.Persistence.Trade.{Trade, spot, margin, futures, has_no_leverage, borrowed}

-- What Python provides: `float(f"{x:.8f}")`, `name.lower()`, the seconds of a difference of dates
-- (the later one first), the float of a number, `FtPrecise(ceil(x))`, and `math.isclose`.
pub record Python (F P : Type 0) : Type 0 where
  pub round8 : F → F
  pub lower : String → String
  pub total_seconds : ℕ → ℕ → F
  pub of_number : ℕ → F
  pub ceil : P → P
  -- `isclose(a, b, abs_tol=MATH_CLOSE_PREC)`
  pub isclose : F → F → Bool

pub data ProfitError : Type 0 where
  operational_exception zero_division : ProfitError

pub record ProfitStruct (F : Type 0) : Type 0 where
  pub profit_abs : F
  pub profit_ratio : F
  pub total_profit : F
  pub total_profit_ratio : F

module _ {F P : Type 0} ⦃f : Float F⦄ (pr : Precise F P) (py : Python F P) where
  open f use {zero, one, add, sub, mul, div, eq}
  open pr use {of_float, to_float}

  unfoldable pub interest : String → P → P → P → Result ProfitError P
  interest exchange_name borrowed rate hours =
      let name = py.lower exchange_name in
      let number : ℕ → P = λ n. of_float (py.of_number n) in
      if str_eq name "binance"
      then ok (pr.div (pr.mul (pr.mul borrowed rate) (py.ceil hours)) (number 24))
      else if str_eq name "kraken"
      then ok
          (pr.mul (pr.mul borrowed rate) (pr.add (number 1) (py.ceil (pr.div hours (number 4)))))
      else err operational_exception

  -- `or zero` on the hours puts a zero in the place of a zero.
  unfoldable pub calculate_interest : Trade F → ℕ → Result ProfitError P
  unfolding interest has_no_leverage borrowed
  calculate_interest t clock =
      let nothing = ok (of_float zero) in
      let hours =
        pr.div (of_float (py.total_seconds (or_now t.close_date clock) t.open_date))
          (of_float (py.of_number 3600)) in
      elim t.trading_mode [
        | spot ↦ nothing
        | futures ↦ nothing
        | margin ↦
            if has_no_leverage t
            then nothing
            else interest t.exchange (of_float (borrowed t)) (of_float t.interest_rate) hours
      ]

  unfoldable pub calc_base_close : Trade F → P → F → Option F → P
  calc_base_close t amount rate fee =
      let close_value = pr.mul amount (of_float rate) in
      let fees = pr.mul close_value (of_float (or_else fee zero)) in
      if t.is_short then pr.add close_value fees else pr.sub close_value fees

  -- `_calc_open_trade_value` with numbers that are `FtPrecise` already
  unfoldable pub open_value_of : Trade F → P → P → F
  open_value_of t amount open_rate =
      let open_value = pr.mul amount open_rate in
      let fees = pr.mul open_value (of_float t.fee_open) in
      if t.is_short then to_float (pr.sub open_value fees) else to_float (pr.add open_value fees)

  unfoldable pub calc_open_trade_value : Trade F → F → F → F
  unfolding open_value_of
  calc_open_trade_value t amount open_rate = open_value_of t (of_float amount) (of_float open_rate)

  unfoldable pub recalc_open_trade_value : Trade F → Trade F
  unfolding calc_open_trade_value
  recalc_open_trade_value t = record t {
    open_trade_value = calc_open_trade_value t t.amount t.open_rate;
  }

  unfoldable pub calc_close_trade_value : Trade F → ℕ → F → Option F → Result ProfitError F
  unfolding calculate_interest calc_base_close
  calc_close_trade_value t clock rate amount =
      let amount1 = of_float (or_else amount t.amount) in
      let value = to_float (calc_base_close t amount1 rate t.fee_close) in
      let funding_fees = or_else t.funding_fees zero in
      elim t.trading_mode [
        | spot ↦ ok value
        | margin ↦ calculate_interest t clock >>= λ total. ok (
            if t.is_short
            then to_float (calc_base_close t (pr.add amount1 total) rate t.fee_close)
            else to_float (pr.sub (calc_base_close t amount1 rate t.fee_close) total))
        | futures ↦ ok (if t.is_short then sub value funding_fees else add value funding_fees)
      ]

  -- The value the trade was opened with in `calculate_profit`, for an amount and a rate if both are
  -- given
  unfoldable pub opened_with : Trade F → Option F → Option F → F
  unfolding calc_open_trade_value
  opened_with t none open_rate = t.open_trade_value
  opened_with t (some amount) none = t.open_trade_value
  opened_with t (some amount) (some open_rate) = calc_open_trade_value t amount open_rate

  -- The same in `calc_profit_ratio`, which has its own branches
  unfoldable pub opened_for_ratio : Trade F → Option F → Option F → F
  unfolding calc_open_trade_value
  opened_for_ratio t amount open_rate = elim amount [
    | none ↦ t.open_trade_value
    | some a ↦ elim open_rate [ none ↦ t.open_trade_value | some r ↦ calc_open_trade_value t a r ]
  ]

  -- For an open value that is not 0.
  abbrev pub ratio : Trade F → F → F → F
  ratio t close open_value =
      if t.is_short
      then mul (sub one (div close open_value)) t.leverage
      else mul (sub (div close open_value) one) t.leverage

  abbrev pub absolute : Trade F → F → F → F
  absolute t close open_value = if t.is_short then sub open_value close else sub close open_value

  unfoldable pub calc_profit_ratio : Trade F → ℕ → F → Option F → Option F → Result ProfitError F
  unfolding calc_close_trade_value opened_for_ratio
  calc_profit_ratio t clock rate amount open_rate =
      calc_close_trade_value t clock rate amount >>= λ close.
      let open_value = opened_for_ratio t amount open_rate in
      ok (if eq open_value zero then zero else py.round8 (ratio t close open_value))

  unfoldable pub max_stake : Trade F → F → F
  max_stake t stake = mul stake (if t.is_short then sub one t.fee_open else add one t.fee_open)

  -- `max_stake` can be 0, for a fee of 1; this division is outside the `try`.
  unfoldable pub total_ratio : Trade F → F → Result ProfitError F
  unfolding max_stake
  total_ratio t total = elim t.max_stake_amount [
    | none ↦ ok zero
    | some stake ↦
        if truthy stake
        then (if eq (max_stake t stake) zero
            then err zero_division
            else ok (py.round8 (div total (max_stake t stake))))
        else ok zero
  ]

  -- A division in Python
  abbrev pub divided : F → F → Result ProfitError F
  divided a b = if eq b zero then err zero_division else ok (div a b)

  -- The ratio in the `try` of `calculate_profit`
  unfoldable pub tried_ratio : Trade F → F → F → Result ProfitError F
  tried_ratio t close open_value = divided close open_value >>= λ quotient. ok (
      py.round8 (
        if t.is_short
        then mul (sub one quotient) t.leverage
        else mul (sub quotient one) t.leverage))

  -- `except ZeroDivisionError`; nothing else is raised there.
  abbrev pub unless_zero_division : Result ProfitError F → Result ProfitError F
  unless_zero_division (ok profit_ratio) = ok profit_ratio
  unless_zero_division (err zero_division) = ok zero
  unless_zero_division (err operational_exception) = err operational_exception

  unfoldable pub calculate_profit :
      Trade F → ℕ → F → Option F → Option F → Result ProfitError (ProfitStruct F)
  unfolding calc_close_trade_value opened_with tried_ratio total_ratio
  calculate_profit t clock rate amount open_rate =
      calc_close_trade_value t clock rate amount >>= λ close.
      let open_value = opened_with t amount open_rate in
      let profit_abs = absolute t close open_value in
      let total = add profit_abs t.realized_profit in
      unless_zero_division (tried_ratio t close open_value) >>= λ profit_ratio.
      total_ratio t total >>= λ total_profit_ratio. ok record {
        profit_abs = py.round8 profit_abs;
        profit_ratio = profit_ratio;
        total_profit = py.round8 total;
        total_profit_ratio = total_profit_ratio;
      }

  unfoldable pub calc_profit : Trade F → ℕ → F → Option F → Option F → Result ProfitError F
  unfolding calculate_profit
  calc_profit t clock rate amount open_rate =
      calculate_profit t clock rate amount open_rate >>= λ prof. ok prof.profit_abs
