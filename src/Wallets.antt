-- ===== src/Wallets.antt =====
-- freqtrade/wallets.py: the balances of a bot, and the stake of a trade.
pub mod Balances
pub mod Stake
pub mod Refresh
use freqtrade_llm.Base.{
  ℕ, ◌+◌, Bool, true, false, not, ◌&&◌, ◌||◌, Option, none, some, List, [], ◌∷◌, map, String,
  str_eq, if◌then◌else◌, is_some, select, ltb, ◌==◌,
}
use freqtrade_llm.Base.Float.{Float, Precise, truthy, truthy?, or_else}
use freqtrade_llm.Base.Float
use freqtrade_llm.Base.Result.{Result, ok, err}
use freqtrade_llm.Persistence.Order.{Order, side_eq, safe_amount, safe_price}
use freqtrade_llm.Persistence.Trade.{
  Trade, TradingMode, spot, margin, futures, entry_side, exit_side, open_orders, trade_direction,
}

pub record Wallet (F : Type 0) : Type 0 where
  pub free : F
  pub used : F
  pub total : F

pub record PositionWallet (F : Type 0) : Type 0 where
  pub position : F
  pub leverage : Option F
  pub collateral : F
  pub side : String

-- The keys of the configuration that this file reads. An unlimited stake amount is `none`.
pub record Config (F : Type 0) : Type 0 where
  pub dry_run : Bool
  pub runmode_live : Bool
  pub cross_margin : Bool
  pub trading_mode : TradingMode
  pub available_capital : Option F
  pub tradable_balance_ratio : F
  pub amend_last_stake_amount : Bool
  pub last_stake_amount_min_ratio : F
  pub stake_amount : Option F

-- An entry of the balances of an account, with the keys "free", "used" and "total" where they are
-- there; entries that are no dictionaries are passed over.
pub data BalanceEntry (F : Type 0) : Type 0 where
  balance_entry : Option F → Option F → Option F → BalanceEntry F
  other_entry : BalanceEntry F

-- A position as ccxt returns it
pub record AccountPosition (F : Type 0) : Type 0 where
  pub symbol : String
  pub side : Option String
  pub contracts : F
  pub initial_margin : Option F
  pub collateral : Option F
  pub leverage : Option F

-- What the exchange answers: the currency of a pair, a rate, if there is one, the amount of a number
-- of contracts of a pair, and, on the account, the balances and the positions.
pub record Exchange (F : Type 0) : Type 0 where
  pub get_pair_base_currency : String → String
  pub get_conversion_rate : String → String → Option F
  pub contracts_to_amount : String → F → F
  pub get_balances : List (String × BalanceEntry F)
  pub fetch_positions : List (AccountPosition F)

pub record Wallets (F : Type 0) : Type 0 where
  pub wallets : String → Option (Wallet F)
  pub positions : String → Option (PositionWallet F)
  pub start_cap : List (String × F)
  pub stake_currency : String
  pub last_wallet_refresh : Option ℕ

-- The trades that the wallets ask for: the open ones, and the profit of the closed ones.
pub record Books (F : Type 0) : Type 0 where
  pub open_trades : List (Trade F)
  pub total_closed_profit : F

pub data DependencyException : Type 0 where
  balance_too_low : DependencyException

unfoldable pub put : {A : Type 0} → String → A → (String → Option A) → String → Option A
put key a d k = if str_eq k key then some a else d k

unfoldable pub put_all : {A : Type 0} → List (String × A) → (String → Option A) → String → Option A
unfolding put
put_all [] d = d
put_all ((key, a) ∷ rest) d = put_all rest (put key a d)

module _ {F : Type 0} ⦃f : Float F⦄ where
  open f use {zero, one, add, sub, mul, div, lt, le}

  -- `d.get(key, 0)` on a dictionary of numbers
  unfoldable pub amount_of : String → List (String × F) → F
  amount_of key [] = zero
  amount_of key ((k, x) ∷ rest) = if str_eq k key then x else amount_of key rest

  -- One column of a balance, or 0
  abbrev pub column : (Wallet F → F) → Option (Wallet F) → F
  column c none = zero
  column c (some w) = if truthy (c w) then c w else zero

  unfoldable pub get_free : Wallets F → String → F
  get_free w currency = column (λ b. b.free) (w.wallets currency)

  unfoldable pub get_used : Wallets F → String → F
  get_used w currency = column (λ b. b.used) (w.wallets currency)

  unfoldable pub get_total : Wallets F → String → F
  get_total w currency = column (λ b. b.total) (w.wallets currency)

  unfoldable pub get_owned : Config F → Wallets F → String → String → F
  get_owned c w pair base_currency =
      let total = get_total w base_currency in
      let position : F = elim (w.positions pair) [ none ↦ zero | some p ↦ p.position ] in
      elim c.trading_mode [ spot ↦ total | margin ↦ total | futures ↦ position ]

  -- The start capital in currencies that have no balance yet
  unfoldable pub put_start_cap :
      List (String × F) → (String → Option (Wallet F)) → String → Option (Wallet F)
  unfolding put
  put_start_cap [] d = d
  put_start_cap ((currency, balance) ∷ rest) d =
      let w : Wallet F = record { free = balance; used = zero; total = balance } in
      put_start_cap rest (if is_some (d currency) then d else put currency w d)

  -- `get_collateral`, over the values of `_positions`
  unfoldable pub get_collateral : Config F → Wallets F → List (PositionWallet F) → F
  unfolding get_free get_total
  get_collateral c w positions =
      if c.cross_margin
      then add (get_free w w.stake_currency) (Float.sum (map (λ p. p.collateral) positions))
      else get_total w w.stake_currency

  -- `Trade.total_open_trades_stakes()`
  unfoldable pub total_open_trades_stakes : Books F → F
  total_open_trades_stakes b = Float.sum (map (λ t. t.stake_amount) b.open_trades)

  unfoldable pub get_total_stake_amount : Config F → Books F → Wallets F → F
  get_total_stake_amount c b w = elim c.available_capital [
    | some starting_balance ↦ add starting_balance b.total_closed_profit
    | none ↦
        mul (add (total_open_trades_stakes b) (get_free w w.stake_currency))
          c.tradable_balance_ratio
  ]

  unfoldable pub get_starting_balance : Config F → Books F → Wallets F → F
  get_starting_balance c b w = elim c.available_capital [
    | some starting_balance ↦ starting_balance
    | none ↦
        mul
          (add (sub (get_free w w.stake_currency) b.total_closed_profit)
            (total_open_trades_stakes b))
          c.tradable_balance_ratio
  ]

  unfoldable pub get_available_stake_amount : Config F → Books F → Wallets F → F
  get_available_stake_amount c b w =
      Float.min (sub (get_total_stake_amount c b w) (total_open_trades_stakes b))
        (get_free w w.stake_currency)

  -- `max_open_trades` is `none` where it is infinite: dividing by infinity gives 0.
  unfoldable pub calculate_unlimited_stake_amount : (ℕ → F) → F → F → Option ℕ → F
  calculate_unlimited_stake_amount of_number available_amount val_tied_up none =
      Float.min zero available_amount
  calculate_unlimited_stake_amount of_number available_amount val_tied_up (some n) =
      if n == 0
      then zero
      else Float.min (div (add available_amount val_tied_up) (of_number n)) available_amount

  -- The stake after `amend_last_stake_amount`
  unfoldable pub amended : Config F → F → F → F
  amended c stake_amount available_amount =
      if c.amend_last_stake_amount
      then (if lt (mul stake_amount c.last_stake_amount_min_ratio) available_amount
          then Float.min stake_amount available_amount
          else zero)
      else stake_amount

  unfoldable pub check_available_stake_amount : Config F → F → F → Result DependencyException F
  unfolding amended
  check_available_stake_amount c stake_amount available_amount =
      let stake = amended c stake_amount available_amount in
      if lt available_amount stake then err balance_too_low else ok (Float.max stake zero)

  -- `get_trade_stake_amount`, after the wallets were updated
  unfoldable pub get_trade_stake_amount :
      (ℕ → F) → Config F → Books F → Wallets F → Option ℕ → Result DependencyException F
  get_trade_stake_amount of_number c b w max_open_trades =
      let available_amount = get_available_stake_amount c b w in
      let stake_amount : F = elim c.stake_amount [
        | some amount ↦ amount
        | none ↦
            calculate_unlimited_stake_amount of_number available_amount (total_open_trades_stakes b)
              max_open_trades
      ] in
      check_available_stake_amount c stake_amount available_amount

  -- `max_allowed_stake`
  unfoldable pub max_allowed_stake : Config F → Books F → Wallets F → F → Option F → F
  max_allowed_stake c b w max_stake_amount trade_amount =
      let allowed = Float.min max_stake_amount (get_available_stake_amount c b w) in
      elim trade_amount [
        | none ↦ allowed
        | some amount ↦
            if truthy amount then Float.min allowed (sub max_stake_amount amount) else allowed
      ]

  -- The stake for a minimum, or `none` where the trade is given up; `tolerance` is 1.3.
  unfoldable pub raised_to_min : F → Option F → F → F → Option F
  raised_to_min tolerance none allowed stake = some stake
  raised_to_min tolerance (some min_stake) allowed stake =
      if lt allowed min_stake
      then none
      else if lt stake min_stake
      then (if lt (mul stake tolerance) min_stake then none else some min_stake)
      else some stake

  -- A stake that is not given up, at most the largest one allowed
  abbrev pub capped : F → Option F → F
  capped allowed none = zero
  capped allowed (some x) = if lt allowed x then allowed else x

  unfoldable pub validate_stake_amount :
      F → Config F → Books F → Wallets F → Option F → Option F → F → Option F → F
  unfolding max_allowed_stake raised_to_min
  validate_stake_amount tolerance c b w none min_stake max_stake trade_amount = zero
  validate_stake_amount tolerance c b w (some stake) min_stake max_stake trade_amount =
      let allowed = max_allowed_stake c b w max_stake trade_amount in
      if not (truthy stake)
      then zero
      else capped allowed (raised_to_min tolerance min_stake allowed stake)

  -- `factor` is 2 - 0.981.
  unfoldable pub check_exit_amount_once : F → Config F → Wallets F → String → Trade F → Bool
  unfolding get_total
  check_exit_amount_once factor c w base_currency t =
      let owned = le t.amount (mul (get_total w base_currency) factor) in
      elim t.trading_mode [
        | spot ↦ owned
        | margin ↦ owned
        | futures ↦ elim (w.positions t.pair) [ none ↦ false | some p ↦ le t.amount p.position ]
      ]
