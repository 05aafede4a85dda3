-- ===== src/Wallets/Balances.antt =====
-- freqtrade/wallets.py: how the balances are refreshed, and whether an exit is covered by them.
use freqtrade_llm.Base.{
  ℕ, ◌+◌, Bool, true, false, not, ◌&&◌, ◌||◌, Option, none, some, List, [], ◌∷◌, map, String,
  str_eq, if◌then◌else◌, select, ltb,
}
use freqtrade_llm.Base.Float.{Float, Precise, truthy, truthy?, or_else}
use freqtrade_llm.Base.Float
use freqtrade_llm.Persistence.Order.{Order, side_eq, safe_amount, safe_price}
use freqtrade_llm.Persistence.Trade.{
  Trade, spot, margin, futures, entry_side, exit_side, open_orders, trade_direction,
}
use freqtrade_llm.Wallets.{
  Wallet, PositionWallet, BalanceEntry, balance_entry, other_entry, AccountPosition, Config,
  Exchange, Wallets, Books, put, put_all, amount_of, put_start_cap, check_exit_amount_once,
}

module _ {F P : Type 0} ⦃f : Float F⦄ (pr : Precise F P) (x : Exchange F) where
  open f use {zero, add, sub, mul, eq}

  -- `Order.stake_amount`
  unfoldable pub order_stake_amount : Trade F → Order F → F
  order_stake_amount t o = pr.to_float (
      pr.div (pr.mul (pr.of_float (safe_amount o)) (pr.of_float (safe_price o)))
        (pr.of_float t.leverage))

  -- The stake of the open entry orders of a trade
  unfoldable pub pending_stake : Trade F → F
  unfolding order_stake_amount
  pending_stake t = Float.sum (
      map (order_stake_amount t)
        (select (λ o. side_eq o.ft_order_side (entry_side t)) (open_orders t)))

  unfoldable pub pending_exit : Trade F → F
  pending_exit t = Float.sum (
      map (λ o. or_else o.amount zero)
        (select (λ o. truthy? o.amount && side_eq o.ft_order_side (exit_side t)) (open_orders t)))

  -- The balance of a trade's currency; a later trade in the same currency takes its place.
  abbrev pub trade_wallet : List (String × F) → Trade F → String × Wallet F
  trade_wallet start_cap t =
      let currency = x.get_pair_base_currency t.pair in
      let balance = amount_of currency start_cap in
      (
        currency,
        record {
          free = sub (add balance t.amount) (pending_exit t);
          used = pending_exit t;
          total = add t.amount balance;
        },
      )

  abbrev pub trade_position : Trade F → String × PositionWallet F
  trade_position t = (
    t.pair,
    record {
      position = t.amount;
      leverage = some t.leverage;
      collateral = t.stake_amount;
      side = trade_direction t;
    },
  )

  -- The start capital in other currencies, at their rate
  unfoldable pub cross_margin_from : String → F → List (String × F) → F
  cross_margin_from stake_currency acc [] = acc
  cross_margin_from stake_currency acc ((currency, balance) ∷ rest) =
      let rated : F = elim (x.get_conversion_rate currency stake_currency) [
        | none ↦ acc
        | some rate ↦ if truthy rate then add acc (mul balance rate) else acc
      ] in
      cross_margin_from stake_currency (if str_eq currency stake_currency then acc else rated) rest

  unfoldable pub update_dry : Config F → Books F → Wallets F → Wallets F
  unfolding put put_all put_start_cap pending_stake cross_margin_from
  update_dry c b w =
      let realized = Float.sum (map (λ t. t.realized_profit) b.open_trades) in
      let tot_profit = add b.total_closed_profit realized in
      let tot_in_trades = Float.sum (map (λ t. t.stake_amount) b.open_trades) in
      let in_orders = Float.sum (map pending_stake b.open_trades) in
      let is_futures : Bool = elim c.trading_mode [
        | spot ↦ false
        | margin ↦ false
        | futures ↦ true
      ] in
      let used_stake = if is_futures then tot_in_trades else in_orders in
      let cross_margin =
        if c.cross_margin then cross_margin_from w.stake_currency zero w.start_cap else zero in
      let current_stake =
        sub (add (amount_of w.stake_currency w.start_cap) tot_profit) tot_in_trades in
      let of_trades : String → Option (Wallet F) =
        if is_futures
        then (λ k. none)
        else put_all (map (trade_wallet w.start_cap) b.open_trades) (λ k. none) in
      let stake : Wallet F = record {
        free = add current_stake cross_margin;
        used = used_stake;
        total = add current_stake used_stake;
      } in
      record w {
        wallets = put_start_cap w.start_cap (put w.stake_currency stake of_trades);
        positions =
            if is_futures
            then put_all (map trade_position b.open_trades) (λ k. none)
            else (λ k. none);
      }

  -- `d.get(key, 0)`
  abbrev pub or_zero : Option F → F
  or_zero none = zero
  or_zero (some a) = a

  unfoldable pub parsed_balances : List (String × BalanceEntry F) → List (String × Wallet F)
  parsed_balances [] = []
  parsed_balances ((currency, other_entry) ∷ rest) = parsed_balances rest
  parsed_balances ((currency, balance_entry free used total) ∷ rest) =
      (currency, record { free = or_zero free; used = or_zero used; total = or_zero total })
      ∷ parsed_balances rest

  -- `position["collateral"] == 0.0`
  abbrev pub is_nothing : Option F → Bool
  is_nothing none = false
  is_nothing (some a) = eq a zero

  -- `safe_value_fallback(position, "initialMargin", "collateral", 0.0)`
  abbrev pub collateral_of : Option F → Option F → F
  collateral_of none collateral = or_zero collateral
  collateral_of (some initial) collateral = initial

  -- Positions without a side or with a collateral of 0 are not open.
  unfoldable pub parsed_positions : List (AccountPosition F) → List (String × PositionWallet F)
  parsed_positions [] = []
  parsed_positions (p ∷ rest) =
      let others = parsed_positions rest in
      elim p.side [
        | none ↦ others
        | some side ↦
            if is_nothing p.collateral
            then others
            else (
              p.symbol,
              record {
                position = x.contracts_to_amount p.symbol p.contracts;
                leverage = p.leverage;
                collateral = collateral_of p.initial_margin p.collateral;
                side = side;
              },
            )
              ∷ others
      ]

  unfoldable pub update_live : Wallets F → Wallets F
  unfolding put_all parsed_balances parsed_positions
  update_live w = record w {
    wallets = put_all (parsed_balances x.get_balances) (λ k. none);
    positions = put_all (parsed_positions x.fetch_positions) (λ k. none);
  }

  -- The refresh is skipped only if it is not required and the last one is less than an hour old.
  unfoldable pub update : Config F → Books F → Bool → ℕ → Wallets F → Wallets F
  unfolding update_dry update_live
  update c b require_update now w =
      let outdated : Bool = elim w.last_wallet_refresh [
        | none ↦ true
        | some last ↦ ltb (last + 3_600_000_000) now
      ] in
      if require_update || outdated
      then record (if not c.dry_run || c.runmode_live then update_live w else update_dry c b w) {
        last_wallet_refresh = some now;
      }
      else w

  unfoldable pub check_exit_amount :
      F → Config F → Books F → String → ℕ → Trade F → Wallets F → Bool × Wallets F
  unfolding check_exit_amount_once update
  check_exit_amount factor c b base_currency now t w =
      if check_exit_amount_once factor c w base_currency t
      then (true, w)
      else (let u = update c b true now w in (check_exit_amount_once factor c u base_currency t, u))
