-- ===== src/Persistence/Trade/Profit/Agree.antt =====
-- The two computations of a trade's profit ratio agree, and so do the stored and the recomputed
-- open value (freqtrade/persistence/trade_model.py).
use freqtrade_llm.Base.{
  ℕ, true, false, if◌then◌else◌, Option, none, some, String, str_eq, ◌≡◌, ◌≢◌, refl, ◌⊎◌, arith,
}
use freqtrade_llm.Base.Float.{Float, Precise}
use freqtrade_llm.Base.Result.{ok, is_ok, value_of_ok}
use freqtrade_llm.Persistence.Trade.{Trade, margin}
use freqtrade_llm.Persistence.Trade.Profit.{
  Python, ProfitStruct, interest, calculate_interest, calc_close_trade_value,
  recalc_open_trade_value, opened_with, opened_for_ratio, calc_profit_ratio, ratio, tried_ratio,
  unless_zero_division, absolute, max_stake, total_ratio, calculate_profit,
}

module _ {F P : Type 0} ⦃f : Float F⦄ (pr : Precise F P) (py : Python F P) where
  open f use {zero, eq}

  -- The trade has no interest to pay, or its exchange is one of the two with a rule for it.
  abbrev pub Supported : Trade F → Type 0
  Supported t =
      (t.trading_mode ≢ margin)
      ⊎ ((str_eq (py.lower t.exchange) "binance" ≡ true)
          ⊎ (str_eq (py.lower t.exchange) "kraken" ≡ true))

  -- The largest stake, with its fee, is not 0.
  abbrev pub HasStake : Trade F → Type 0
  HasStake t =
      (stake : F) → t.max_stake_amount ≡ some stake → eq (max_stake pr py t stake) zero ≡ false

  interest-is_ok :
      (name : String) (b r h : P)
      → (str_eq (py.lower name) "binance" ≡ true) ⊎ (str_eq (py.lower name) "kraken" ≡ true)
      → is_ok (interest pr py name b r h) ≡ true
  unfolding interest
  interest-is_ok name b r h e = ground arith

  calculate_interest-is_ok :
      (t : Trade F) (clock : ℕ) → Supported t → is_ok (calculate_interest pr py t clock) ≡ true
  unfolding calculate_interest
  calculate_interest-is_ok t clock h = ground (arith, interest-is_ok t.exchange)

  calc_close_trade_value-is_ok :
      (t : Trade F) (clock : ℕ) (rate : F) (amount : Option F)
      → Supported t
      → is_ok (calc_close_trade_value pr py t clock rate amount) ≡ true
  unfolding calc_close_trade_value
  calc_close_trade_value-is_ok t clock rate amount h =
      ground (arith, calculate_interest-is_ok t clock h)

  total_ratio-is_ok :
      (t : Trade F) (total : F) → HasStake t → is_ok (total_ratio pr py t total) ≡ true
  unfolding total_ratio
  total_ratio-is_ok t total h = grind arith

  opened_for_ratio-opened_with :
      (t : Trade F) (amount open_rate : Option F)
      → opened_for_ratio pr py t amount open_rate ≡ opened_with pr py t amount open_rate
  unfolding opened_for_ratio opened_with
  opened_for_ratio-opened_with t none open_rate = refl
  opened_for_ratio-opened_with t (some amount) none = refl
  opened_for_ratio-opened_with t (some amount) (some open_rate) = refl

  -- The `try` and the test for 0 give the same ratio.
  tried_ratio-ratio :
      (t : Trade F) (close open_value : F)
      → unless_zero_division pr py (tried_ratio pr py t close open_value)
        ≡ ok (if eq open_value zero then zero else py.round8 (ratio pr py t close open_value))
  unfolding tried_ratio
  tried_ratio-ratio t close open_value = ground arith

  -- Where the exchange supports the trade and its largest stake is not 0, both computations return,
  -- and their ratios are the same.
  pub calc_profit_ratio-calculate_profit :
      (t : Trade F) (clock : ℕ) (rate : F) (amount open_rate : Option F)
      → Supported t
      → HasStake t
      → (p : ProfitStruct F) × (calculate_profit pr py t clock rate amount open_rate ≡ ok p)
        × (calc_profit_ratio pr py t clock rate amount open_rate ≡ ok p.profit_ratio)
  unfolding calculate_profit calc_profit_ratio
  calc_profit_ratio-calculate_profit t clock rate amount open_rate h k =
      let (x, e) = value_of_ok _ (calc_close_trade_value-is_ok t clock rate amount h) in
      let total =
        f.add (absolute pr py t x (opened_with pr py t amount open_rate)) t.realized_profit in
      let (y, e') = value_of_ok _ (total_ratio-is_ok t total k) in
      rw (e, calculate_profit, calc_profit_ratio)
        (rw
          (
            tried_ratio-ratio t x (opened_with pr py t amount open_rate),
            e',
            opened_for_ratio-opened_with t amount open_rate,
          )
          (_, refl, refl))

  -- Once the open value was recomputed, the profit computed from it is the one that is computed from
  -- the trade's own amount and open rate.
  calculate_profit-recalc_open_trade_value :
      (t : Trade F) (clock : ℕ) (rate : F)
      → let u = recalc_open_trade_value pr py t in
        calculate_profit pr py u clock rate none none
        ≡ calculate_profit pr py u clock rate (some t.amount) (some t.open_rate)
  unfolding calculate_profit recalc_open_trade_value calc_close_trade_value
  calculate_profit-recalc_open_trade_value t clock rate = ground arith
