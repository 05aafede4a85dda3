-- ===== src/Exchange/Precision.antt =====
-- The rounding of freqtrade/exchange/exchange_utils.py to what an exchange accepts. ccxt's
-- `decimal_to_precision` and its constants, and Python's `math` and `decimal`, are parameters.
use freqtrade_llm.Base.{Bool, true, false, not, ◌&&◌, Option, none, some, if◌then◌else◌}
use freqtrade_llm.Base.Float.{Float, Precise, truthy}

-- The constants of ccxt.
pub data PrecisionMode : Type 0 where
  decimal_places significant_digits tick_size : PrecisionMode

pub data RoundingMode : Type 0 where
  truncate round round_up round_down : RoundingMode

pub record Decimals (F : Type 0) : Type 0 where
  -- `float(decimal_to_precision(x, rounding_mode=r, precision=p, counting_mode=m))`
  pub decimal_to_precision : F → RoundingMode → F → PrecisionMode → F
  -- `int(x)`
  pub int : F → F
  -- `10 ** round(x)`
  pub pow10 : F → F
  pub ceil : F → F
  pub floor : F → F
  -- `round(x, 14)`
  pub round14 : F → F
  pub isnan : F → Bool
  pub isinf : F → Bool
  -- `__price_to_precision_significant_digits`, which works on the digits of a `decimal.Decimal`
  pub to_significant_digits : F → F → RoundingMode → F

module _ {F P : Type 0} ⦃f : Float F⦄ (pr : Precise F P) where
  open f use {zero, one, eq}

  abbrev pub has_contract_size : Option F → Bool
  has_contract_size none = false
  has_contract_size (some size) = truthy size && not (eq size one)

  unfoldable pub amount_to_contracts : F → Option F → F
  amount_to_contracts amount none = amount
  amount_to_contracts amount (some size) =
      if has_contract_size (some size)
      then pr.to_float (pr.div (pr.of_float amount) (pr.of_float size))
      else amount

  unfoldable pub contracts_to_amount : F → Option F → F
  contracts_to_amount num_contracts none = num_contracts
  contracts_to_amount num_contracts (some size) =
      if has_contract_size (some size)
      then pr.to_float (pr.mul (pr.of_float num_contracts) (pr.of_float size))
      else num_contracts

module _ {F : Type 0} (d : Decimals F) where
  -- `int(precision) if mode != TICK_SIZE else precision`
  abbrev pub whole_precision : F → PrecisionMode → F
  whole_precision p tick_size = p
  whole_precision p mode = d.int p

  unfoldable pub amount_to_precision : F → Option F → Option PrecisionMode → F
  amount_to_precision amount (some p) (some mode) =
      d.decimal_to_precision amount truncate (whole_precision p mode) mode
  amount_to_precision amount none _ = amount
  amount_to_precision amount (some p) none = amount

module _ {F P : Type 0} ⦃f : Float F⦄ (pr : Precise F P) (d : Decimals F) where
  open f use {zero, mul, div}

  unfoldable pub amount_to_contract_precision : F → Option F → Option PrecisionMode → Option F → F
  unfolding amount_to_precision amount_to_contracts contracts_to_amount
  amount_to_contract_precision amount (some p) (some mode) size =
      contracts_to_amount pr
        (amount_to_precision d (amount_to_contracts pr amount size) (some p) (some mode)) size
  amount_to_contract_precision amount none _ size = amount
  amount_to_contract_precision amount (some p) none size = amount

  -- The remainder decides whether the price is on a tick already.
  unfoldable pub to_tick : F → F → Bool → F
  to_tick price p up =
      let missing = pr.modulo (pr.of_float price) (pr.of_float p) in
      if not (pr.eq missing (pr.of_float zero))
      then (if up
          then d.round14 (pr.to_float (pr.add (pr.sub (pr.of_float price) missing) (pr.of_float p)))
          else d.round14 (pr.to_float (pr.sub (pr.of_float price) missing)))
      else price

  unfoldable pub to_decimal_places : F → F → Bool → F
  to_decimal_places price p up =
      let ticks = mul price (d.pow10 p) in
      if up then div (d.ceil ticks) (d.pow10 p) else div (d.floor ticks) (d.pow10 p)

  -- Rounding in one direction; `up` is `rounding_mode == ROUND_UP`.
  unfoldable pub directed : F → F → PrecisionMode → Bool → F
  unfolding to_tick to_decimal_places
  directed price p tick_size up = to_tick price p up
  directed price p decimal_places up = to_decimal_places price p up
  directed price p significant_digits up =
      d.to_significant_digits price p (if up then round_up else round_down)

  -- With the three modes of ccxt the two `raise ValueError` of the source cannot be reached.
  unfoldable pub rounded : F → F → PrecisionMode → RoundingMode → F
  unfolding directed
  rounded price p mode round_up = directed price p mode true
  rounded price p mode round_down = directed price p mode false
  rounded price p mode r = d.decimal_to_precision price r (whole_precision d p mode) mode

  unfoldable pub price_to_precision : F → Option F → Option PrecisionMode → RoundingMode → F
  unfolding rounded
  price_to_precision price (some p) (some mode) r =
      if not (d.isnan price) then rounded price p mode r else price
  price_to_precision price none _ r = price
  price_to_precision price (some p) none r = price
