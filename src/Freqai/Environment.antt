-- ===== src/Freqai/Environment.antt =====
-- freqtrade/freqai/RL/BaseEnvironment.py and Base5ActionRLEnv.py: the trading environment with five
-- actions. The counters for Tensorboard and the observation, a slice of the features, are left out.
pub mod Positions
use freqtrade_llm.Base.{
  ℕ, zero, suc, ◌-◌, ◌+◌, Bool, true, false, not, ◌&&◌, ◌||◌, Option, none, some, List, [], ◌∷◌,
  ◌++◌, if◌then◌else◌, ◌==◌, length,
}
use freqtrade_llm.Base.Float.{Float}
use freqtrade_llm.Base.Result.{Result, ok, err, ◌>>=◌}

pub data Actions : Type 0 where
  stay long_enter long_exit short_enter short_exit : Actions

pub data Position : Type 0 where
  short long neutral : Position

pub data IndexError : Type 0 where
  index_error : IndexError

-- An entry of `trade_history`; the type of the trade is the action that led to it.
pub record TradeEntry (F : Type 0) : Type 0 where
  pub price : F
  pub index : ℕ
  pub type_ : Actions
  pub profit : F

pub record Info (F : Type 0) : Type 0 where
  pub tick : ℕ
  pub action : Actions
  pub total_reward : F
  pub total_profit : F
  pub position : Position
  pub trade_duration : ℕ
  pub current_profit_pct : F

pub record Env (F : Type 0) : Type 0 where
  pub start_tick : ℕ
  pub current_tick : ℕ
  pub last_trade_tick : Option ℕ
  pub position : Position
  pub position_history : List (Option Position)
  pub total_reward : F
  pub total_profit : F
  pub total_unrealized_profit : F
  pub done : Bool
  pub trade_history : List (TradeEntry F)
  pub history : List (Info F)

-- What stays over an episode: the column of open prices, the settings, and `calculate_reward`, which
-- the user writes.
pub record Setup (F : Type 0) : Type 0 where
  pub prices : List F
  pub window_size : ℕ
  pub fee : F
  pub compound_trades : Bool
  pub max_drawdown : F
  pub starting_point : Bool
  pub calculate_reward : Env F → Actions → F

-- `prices.iloc[tick].open`
unfoldable pub price_at : {F : Type 0} → List F → ℕ → Result IndexError F
price_at [] n = err index_error
price_at (x ∷ xs) zero = ok x
price_at (x ∷ xs) (suc n) = price_at xs n

repeat_none : ℕ → List (Option Position)
repeat_none zero = []
repeat_none (suc n) = none ∷ repeat_none n

unfoldable pub get_trade_duration : {F : Type 0} → Env F → ℕ
get_trade_duration e = elim e.last_trade_tick [ none ↦ 0 | some tick ↦ e.current_tick - tick ]

-- A trade signal changes the position: an entry from neutral, or the exit of the position held.
unfoldable pub is_tradesignal : Actions → Position → Bool
is_tradesignal stay p = false
is_tradesignal short_enter short = false
is_tradesignal short_enter long = false
is_tradesignal short_enter neutral = true
is_tradesignal short_exit short = true
is_tradesignal short_exit long = false
is_tradesignal short_exit neutral = false
is_tradesignal long_enter short = false
is_tradesignal long_enter long = false
is_tradesignal long_enter neutral = true
is_tradesignal long_exit short = false
is_tradesignal long_exit long = true
is_tradesignal long_exit neutral = false

abbrev pub is_exit : Actions → Bool
is_exit stay = false
is_exit long_enter = false
is_exit long_exit = true
is_exit short_enter = false
is_exit short_exit = true

abbrev pub is_enter : Actions → Bool
is_enter stay = false
is_enter long_enter = true
is_enter long_exit = false
is_enter short_enter = true
is_enter short_exit = false

abbrev pub is_neutral : Position → Bool
is_neutral short = false
is_neutral long = false
is_neutral neutral = true

unfoldable pub is_valid : Actions → Position → Bool
is_valid a p = not (is_exit a && is_neutral p) && not (is_enter a && not (is_neutral p))

module _ {F : Type 0} ⦃f : Float F⦄ (s : Setup F) where
  open f use {zero as zero_, one, add, sub, mul, div, lt}

  abbrev pub end_tick : ℕ
  end_tick = length s.prices - 1

  abbrev pub add_entry_fee : F → F
  add_entry_fee price = mul price (add one s.fee)

  abbrev pub add_exit_fee : F → F
  add_exit_fee price = div price (add one s.fee)

  unfoldable pub get_unrealized_profit : Env F → Result IndexError F
  unfolding price_at
  get_unrealized_profit e = elim e.last_trade_tick [
    | none ↦ ok zero_
    | some tick ↦ elim e.position [
      | neutral ↦ ok zero_
      | short ↦ price_at s.prices e.current_tick >>= λ current. price_at s.prices tick >>= λ last.
          ok (div (sub (add_exit_fee last) (add_entry_fee current)) (add_exit_fee last))
      | long ↦ price_at s.prices e.current_tick >>= λ current. price_at s.prices tick >>= λ last.
          ok (div (sub (add_exit_fee current) (add_entry_fee last)) (add_entry_fee last))
    ]
  ]

  -- The total profit with the profit of the open trade.
  abbrev pub with_profit : Env F → F → F
  with_profit e pnl =
      if s.compound_trades then mul e.total_profit (add one pnl) else add e.total_profit pnl

  unfoldable pub update_unrealized_total_profit : Env F → Result IndexError (Env F)
  update_unrealized_total_profit e =
      if is_neutral e.position
      then ok e
      else get_unrealized_profit e >>= λ pnl.
          ok (record e { total_unrealized_profit = with_profit e pnl })

  unfoldable pub update_total_profit : Env F → Result IndexError (Env F)
  update_total_profit e =
      get_unrealized_profit e >>= λ pnl. ok (record e { total_profit = with_profit e pnl })

  abbrev pub entered : Position → Env F → Env F
  entered p e = record e { position = p; last_trade_tick = some e.current_tick }

  abbrev pub left : Env F → Env F
  left e = record e { position = neutral; last_trade_tick = none }

  -- The position after a trade signal.
  unfoldable pub trade : Actions → Env F → Result IndexError (Env F)
  trade stay e = ok (left e)
  trade long_enter e = ok (entered long e)
  trade short_enter e = ok (entered short e)
  trade long_exit e = update_total_profit e >>= λ u. ok (left u)
  trade short_exit e = update_total_profit e >>= λ u. ok (left u)

  -- `trade_history.append`, after the position has changed
  unfoldable pub log_trade : Actions → Env F → Result IndexError (Env F)
  log_trade a e = price_at s.prices e.current_tick >>= λ price.
      get_unrealized_profit e >>= λ profit. ok (record e {
        trade_history =
            e.trade_history
            ++ record { price = price; index = e.current_tick; type_ = a; profit = profit } ∷ [];
      })

  unfoldable pub trade_step : Actions → Env F → Result IndexError (Env F)
  trade_step a e = if is_tradesignal a e.position then (trade a e >>= λ u. log_trade a u) else ok e

  -- The first lines of `step`
  abbrev pub next_tick : Env F → Env F
  next_tick e = record e {
    current_tick = suc e.current_tick;
    done = suc e.current_tick == end_tick;
  }

  -- The last lines of `step`
  unfoldable pub finish : Actions → Env F → Result IndexError (Env F)
  finish a e = get_unrealized_profit e >>= λ pct.
      let info : Info F = record {
        tick = e.current_tick;
        action = a;
        total_reward = e.total_reward;
        total_profit = e.total_profit;
        position = e.position;
        trade_duration = get_trade_duration e;
        current_profit_pct = pct;
      } in
      ok (record e {
        done =
            e.done
            || (lt e.total_profit s.max_drawdown || lt e.total_unrealized_profit s.max_drawdown);
        position_history = e.position_history ++ some e.position ∷ [];
        history = e.history ++ info ∷ [];
      })

  abbrev pub rewarded : Actions → Env F → Env F
  rewarded a e = record e { total_reward = add e.total_reward (s.calculate_reward e a) }

  unfoldable pub step : Env F → Actions → Result IndexError (Env F)
  step e a = update_unrealized_total_profit (next_tick e) >>= λ u.
      trade_step a (rewarded a u) >>= λ v. finish a v

  -- `reset`, at the start tick that the caller chose or `random` drew. The position history is built
  -- from the position before it is reset.
  unfoldable pub reset : Env F → ℕ → Env F
  unfolding repeat_none
  reset e start = record {
    start_tick = start;
    current_tick = start;
    last_trade_tick = none;
    position = neutral;
    position_history =
        repeat_none (if s.starting_point then start else s.window_size) ++ some e.position ∷ [];
    total_reward = zero_;
    total_profit = one;
    total_unrealized_profit = one;
    done = false;
    trade_history = [];
    history = [];
  }
