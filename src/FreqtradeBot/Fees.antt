-- ===== src/FreqtradeBot/Fees.antt =====
-- freqtrade/freqtradebot.py: the fee of an order that was closed. A raise keeps what the trade had
-- become before it.
pub mod Rates
use freqtrade_llm.Base.{
  ℕ, Bool, true, false, not, ◌&&◌, ◌||◌, Option, none, some, List, [], ◌∷◌, ◌++◌, String, str_eq,
  if◌then◌else◌, is_some, is_empty, leb, any, length,
}
use freqtrade_llm.Base.Float.{Float, truthy}
use freqtrade_llm.Base.Float
use freqtrade_llm.Base.Result.{Result, ok, err, ◌>>=◌}
use freqtrade_llm.Exchange.Fees.{
  CcxtOrder, CcxtFee, ExecTrade, Currencies, FeeError, has_fee, order_has_fee,
  extract_cost_curr_rate,
}
use freqtrade_llm.Persistence.Order.{Order, OrderSide, stoploss, side_eq, safe_filled}
use freqtrade_llm.Persistence.PairLock.{given, optional_eq}
use freqtrade_llm.Persistence.Trade.{
  Trade, entry_side, exit_side, nr_of_successful_entries, update_fee, fee_updated,
}
use freqtrade_llm.Wallets.{Wallets, get_free}
use freqtrade_llm.FreqtradeBot.{Exception, dependency, other, is_dependency}

-- What the fees are read with: the wallets after their update, the executions of an order,
-- `float` of a number, `isclose`, and the constant 0.02.
pub record FeeDesk (F : Type 0) : Type 0 where
  pub currencies : Currencies F
  pub wallets : Wallets F
  pub get_trades_for_order : String → String → ℕ → Result Exception (List (ExecTrade F))
  pub of_number : ℕ → F
  pub isclose : F → F → Bool
  pub two_percent : F

abbrev pub of_fee_error {ℓ} : {A : Type ℓ} → Result FeeError A → Result Exception A
of_fee_error (ok a) = ok a
of_fee_error (err e) = err other

-- The variables of the loop over the executions
pub record FeeTotals (F : Type 0) : Type 0 where
  pub fee_currency : Option String
  pub amount : F
  pub fee_abs : F
  pub fee_cost : F
  pub fee_rate_array : List F

-- What a function that may raise does to a trade
abbrev pub Step : Type 0 → Type 0
Step F = Result (Exception × Trade F) (Option F × Trade F)

module _ {F : Type 0} where
  abbrev pub number : Option F → Result Exception F
  number none = err other
  number (some a) = ok a

  abbrev pub raising : {A : Type 0} → Trade F → Result Exception A → Result (Exception × Trade F) A
  raising t (ok a) = ok a
  raising t (err e) = err (e, t)

  abbrev pub order_amount : CcxtOrder F → Option F
  order_amount order = elim order.filled [ none ↦ order.amount | some a ↦ some a ]

module _ {F : Type 0} ⦃f : Float F⦄ (x : FeeDesk F) where
  open f use {zero, add, sub, mul, div, lt, le, eq}

  -- `amount_`: the amount that the wallet holds if no fee was taken
  unfoldable pub held_amount : Trade F → Option F → OrderSide → Result Exception F
  held_amount t amount side =
      let more : Result Exception F = number amount >>= λ a. ok (add t.amount a) in
      let less : Result Exception F = number amount >>= λ a. ok (sub t.amount a) in
      if leb 1 (nr_of_successful_entries t) && side_eq side (entry_side t)
      then more
      else if side_eq side (exit_side t) || side_eq side stoploss
      then less
      else ok t.amount

  unfoldable pub apply_fee_conditional :
      Trade F → String → Option F → F → OrderSide → Result Exception (Option F)
  unfolding held_amount get_free
  apply_fee_conditional t trade_base_currency amount fee_abs side =
      held_amount t amount side >>= λ held.
      if truthy fee_abs && le held (get_free x.wallets trade_base_currency)
      then ok none
      else if truthy fee_abs
      then ok (some fee_abs)
      else ok none

  unfoldable pub trades_valid_for_fee : List (ExecTrade F) → Bool
  trades_valid_for_fee trades =
      not (is_empty trades)
      && not (any (λ t. not (is_some t.amount) || not (is_some t.cost)) trades)

  -- The fees of one execution
  unfoldable pub count_fees :
      String → ExecTrade F → List (CcxtFee F) → FeeTotals F → Result Exception (FeeTotals F)
  count_fees base exec [] s = ok s
  count_fees base exec (fee ∷ fees) s =
      of_fee_error (extract_cost_curr_rate x.currencies fee exec.symbol exec.cost exec.amount)
      >>= λ (cost, rate). count_fees base exec fees (record s {
        fee_currency = fee.currency;
        fee_cost = add s.fee_cost cost;
        fee_rate_array = elim rate [
          | none ↦ s.fee_rate_array
          | some r ↦ s.fee_rate_array ++ r ∷ []
        ];
        fee_abs = if optional_eq fee.currency base then add s.fee_abs cost else s.fee_abs;
      })

  -- The single fee is preferred.
  abbrev pub fees_of : ExecTrade F → List (CcxtFee F)
  fees_of exec =
      let single : List (CcxtFee F) = elim exec.fee [ none ↦ [] | some fee ↦ fee ∷ [] ] in
      if has_fee exec.fee then single else exec.fees

  unfoldable pub count_trades :
      String → List (ExecTrade F) → FeeTotals F → Result Exception (FeeTotals F)
  unfolding count_fees
  count_trades base [] s = ok s
  count_trades base (exec ∷ execs) s = number exec.amount >>= λ a.
      count_fees base exec (fees_of exec) (record s { amount = add s.amount a }) >>= λ u.
      count_trades base execs u

  abbrev pub no_fees : FeeTotals F
  no_fees = record {
    fee_currency = none;
    amount = zero;
    fee_abs = zero;
    fee_cost = zero;
    fee_rate_array = [];
  }

  -- Only a mean rate below 2% is recorded.
  unfoldable pub record_mean : FeeTotals F → OrderSide → Trade F → Trade F
  record_mean s side t =
      let mean = div (Float.sum s.fee_rate_array) (x.of_number (length s.fee_rate_array)) in
      if given s.fee_currency && not (is_empty s.fee_rate_array) && lt mean x.two_percent
      then update_fee t s.fee_cost s.fee_currency (some mean) side
      else t

  abbrev pub close_to : F → Option F → Result Exception Bool
  close_to amount order_amount = number order_amount >>= λ a. ok (x.isclose amount a)

  -- What follows the loop
  unfoldable pub conclude_trades : OrderSide → OrderSide → Option F → FeeTotals F → Trade F → Step F
  unfolding record_mean apply_fee_conditional
  conclude_trades side ft_side order_amount s t =
      let u = record_mean s side t in
      let base = x.currencies.get_pair_base_currency t.pair in
      raising u (close_to s.amount order_amount) >>= λ close.
      if not close
      then err (dependency, u)
      else if truthy s.fee_abs
      then (raising u (apply_fee_conditional u base (some s.amount) s.fee_abs ft_side) >>= λ fee.
          ok (fee, u))
      else ok (none, u)

  abbrev pub executions : Trade F → CcxtOrder F → Order F → Result Exception (List (ExecTrade F))
  executions t order o =
      if trades_valid_for_fee order.trades
      then ok order.trades
      else x.get_trades_for_order order.id t.pair o.order_date

  unfoldable pub fee_detection_from_trades : Trade F → CcxtOrder F → Order F → Option F → Step F
  unfolding count_trades conclude_trades trades_valid_for_fee
  fee_detection_from_trades t order o order_amount =
      let base = x.currencies.get_pair_base_currency t.pair in
      raising t (executions t order o) >>= λ trades.
      if is_empty trades
      then ok (none, t)
      else (raising t (count_trades base trades no_fees) >>= λ s.
          conclude_trades order.side o.ft_order_side order_amount s t)

  -- A fee without a rate, or with one below 2%, is recorded.
  abbrev pub acceptable : Option F → Bool
  acceptable none = true
  acceptable (some rate) = lt rate x.two_percent

  -- The fee that the order itself reports
  unfoldable pub fee_of_order :
      Trade F → CcxtOrder F → Order F → Option F → CcxtFee F → F × Option F → Step F
  unfolding fee_detection_from_trades apply_fee_conditional
  fee_of_order t order o order_amount fee (cost, rate) =
      let base = x.currencies.get_pair_base_currency t.pair in
      let u = update_fee t cost fee.currency rate order.side in
      let detected = fee_detection_from_trades t order o order_amount in
      if acceptable rate
      then (if optional_eq fee.currency base
          then (raising u (apply_fee_conditional u base order_amount cost o.ft_order_side)
              >>= λ abs. ok (abs, u))
          else ok (none, u))
      else detected

  abbrev pub fee_from_order : Trade F → CcxtOrder F → Order F → Option (CcxtFee F) → Step F
  fee_from_order t order o none = fee_detection_from_trades t order o (order_amount order)
  fee_from_order t order o (some fee) =
      raising t (
        of_fee_error
          (extract_cost_curr_rate x.currencies fee order.symbol order.cost (some (safe_filled o))))
      >>= λ found. fee_of_order t order o (order_amount order) fee found

  unfoldable pub get_real_amount : Trade F → CcxtOrder F → Order F → Step F
  unfolding fee_of_order fee_detection_from_trades
  get_real_amount t order o =
      let detected = fee_detection_from_trades t order o (order_amount order) in
      if fee_updated t order.side || optional_eq order.status "open"
      then ok (none, t)
      else if order_has_fee order
      then fee_from_order t order o order.fee
      else detected

  abbrev pub with_fee : Order F → Option F → Order F
  with_fee o none = o
  with_fee o (some abs) = record o { ft_fee_base = some abs }

  -- A `DependencyException` is caught; the order stays then.
  abbrev pub caught : Order F → Step F → Result (Exception × Trade F) (Trade F × Order F)
  caught o (ok (fee, u)) = ok (u, with_fee o fee)
  caught o (err (e, u)) = if is_dependency e then ok (u, o) else err (e, u)

  -- The trade and the order afterwards
  unfoldable pub handle_order_fee :
      Trade F → Order F → CcxtOrder F → Result (Exception × Trade F) (Trade F × Order F)
  unfolding get_real_amount
  handle_order_fee t o order = caught o (get_real_amount t order o)
