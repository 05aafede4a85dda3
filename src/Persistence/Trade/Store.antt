-- ===== src/Persistence/Trade/Store.antt =====
-- The trade lists of the backtest: the class attributes `bt_*` of `LocalTrade` in
-- freqtrade/persistence/trade_model.py. `list.remove` compares objects; here an object is known by
-- its id and its pair. `bt_trades_open_pp` is a `defaultdict(list)`, so it has a list for every key.
pub mod Index
use freqtrade_llm.Base.{
  ℕ, ◌+◌, ◌-◌, Bool, true, false, not, ◌&&◌, Option, none, some, List, [], ◌∷◌, ◌++◌, String,
  str_eq, if◌then◌else◌, ◌==◌, ltb, select, ◌≡◌,
}
use freqtrade_llm.Base.Float.{Float}
use freqtrade_llm.Persistence.PairLock.{given}
use freqtrade_llm.Persistence.Trade.{Trade}

pub record BtTrades (F : Type 0) : Type 0 where
  pub bt_trades : List (Trade F)
  pub bt_trades_open : List (Trade F)
  pub bt_trades_open_pp : String → List (Trade F)
  pub bt_open_open_trade_count : ℕ
  pub bt_total_profit : F

-- `ValueError` of `list.remove`, `TypeError` of adding `None`; what was written before the raise
-- stays written.
pub data Error : Type 0 where
  not_in_list unsupported_operand : Error

pub data Outcome (S : Type 0) : Type 0 where
  returned : S → Outcome S
  raised : Error → S → Outcome S

abbrev pub bind : {S : Type 0} → Outcome S → (S → Outcome S) → Outcome S
bind (returned s) k = k s
bind (raised e s) k = raised e s

-- The conditions on the dates; a date that is not given is no condition.
unfoldable pub after_date : Option ℕ → ℕ → Bool
after_date none date = true
after_date (some bound) date = ltb bound date

unfoldable pub closed_after : Option ℕ → Option ℕ → Bool
closed_after none date = true
closed_after (some bound) none = false
closed_after (some bound) (some date) = ltb bound date

module _ {F : Type 0} where
  abbrev pub same_object : Trade F → Trade F → Bool
  same_object t u = t.id == u.id && str_eq t.pair u.pair

  -- `l.remove(trade)`: the first occurrence, `none` where there is none
  unfoldable pub remove : Trade F → List (Trade F) → Option (List (Trade F))
  remove t [] = none
  remove t (u ∷ us) =
      let rest = remove t us in
      if same_object t u then some us else elim rest [ none ↦ none | some vs ↦ some (u ∷ vs) ]

  -- `bt_trades_open_pp[pair] = ts`
  unfoldable pub put_pair :
      (String → List (Trade F)) → String → List (Trade F) → String → List (Trade F)
  put_pair pp pair ts p = if str_eq p pair then ts else pp p

  -- The first three lines of `close_bt_trade`, which are the whole of `remove_bt_trade`.
  unfoldable pub remove_bt_trade : BtTrades F → Trade F → Outcome (BtTrades F)
  unfolding remove put_pair
  remove_bt_trade s t = elim (remove t s.bt_trades_open) [
    | none ↦ raised not_in_list s
    | some others ↦ elim (remove t (s.bt_trades_open_pp t.pair)) [
      | none ↦ raised not_in_list (record s { bt_trades_open = others })
      | some of_pair ↦ returned (record s {
        bt_trades_open = others;
        bt_trades_open_pp = put_pair s.bt_trades_open_pp t.pair of_pair;
        bt_open_open_trade_count = s.bt_open_open_trade_count - 1;
      })
    ]
  ]

  unfoldable pub add_bt_trade : BtTrades F → Trade F → BtTrades F
  unfolding put_pair
  add_bt_trade s t =
      if t.is_open
      then record s {
        bt_trades_open = s.bt_trades_open ++ t ∷ [];
        bt_trades_open_pp =
            put_pair s.bt_trades_open_pp t.pair (s.bt_trades_open_pp t.pair ++ t ∷ []);
        bt_open_open_trade_count = s.bt_open_open_trade_count + 1;
      }
      else record s { bt_trades = s.bt_trades ++ t ∷ [] }

  unfoldable pub selected : BtTrades F → Option Bool → List (Trade F)
  selected s none = s.bt_trades ++ s.bt_trades_open
  selected s (some true) = s.bt_trades_open
  selected s (some false) = s.bt_trades

  abbrev pub of_pair : Option String → Trade F → Bool
  of_pair none t = true
  of_pair (some pair) t = if given (some pair) then str_eq t.pair pair else true

  unfoldable pub get_trades_proxy :
      BtTrades F → Option String → Option Bool → Option ℕ → Option ℕ → List (Trade F)
  unfolding selected after_date closed_after
  get_trades_proxy s pair is_open open_date close_date =
      select (λ t. closed_after close_date t.close_date)
        (select (λ t. after_date open_date t.open_date)
          (select (of_pair pair) (selected s is_open)))

  unfoldable pub get_open_trade_count : BtTrades F → ℕ
  get_open_trade_count s = s.bt_open_open_trade_count

module _ {F : Type 0} ⦃f : Float F⦄ where
  unfoldable pub reset_trades : BtTrades F
  reset_trades = record {
    bt_trades = [];
    bt_trades_open = [];
    bt_trades_open_pp = λ pair. [];
    bt_open_open_trade_count = 0;
    bt_total_profit = f.zero;
  }

  unfoldable pub close_bt_trade : BtTrades F → Trade F → Outcome (BtTrades F)
  unfolding remove_bt_trade
  close_bt_trade s t = bind (remove_bt_trade s t) λ u.
      let closed = record u { bt_trades = u.bt_trades ++ t ∷ [] } in
      elim t.close_profit_abs [
        | none ↦ raised unsupported_operand closed
        | some profit ↦
            returned (record closed { bt_total_profit = f.add u.bt_total_profit profit })
      ]
