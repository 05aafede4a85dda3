-- ===== src/Persistence/Order.antt =====
-- The class `Order` of freqtrade/persistence/trade_model.py. Its queries over the database are not
-- modelled; the columns below are those that the other components read.
pub mod Updating
use freqtrade_llm.Base.{ℕ, Bool, true, false, ◌||◌, Option, none, some, String, str_eq}
use freqtrade_llm.Base.Float.{Float, or_else}

-- `ft_order_side` can only be 'buy', 'sell' or 'stoploss'.
pub data OrderSide : Type 0 where
  buy sell stoploss : OrderSide

abbrev pub side_eq : OrderSide → OrderSide → Bool
side_eq buy buy = true
side_eq sell sell = true
side_eq stoploss stoploss = true
side_eq _ _ = false

pub record Order (F : Type 0) : Type 0 where
  pub order_id : String
  pub ft_order_side : OrderSide
  pub side : Option OrderSide
  pub ft_is_open : Bool
  pub ft_amount : F
  pub ft_price : F
  pub status : Option String
  pub price : Option F
  pub average : Option F
  pub amount : Option F
  pub filled : Option F
  pub remaining : Option F
  pub cost : Option F
  pub stop_price : Option F
  pub order_date : ℕ
  pub order_filled_date : Option ℕ
  pub funding_fee : Option F
  pub ft_fee_base : Option F

-- `status in CANCELED_EXCHANGE_STATES` and `status in NON_OPEN_EXCHANGE_STATES`
unfoldable pub is_canceled : Option String → Bool
is_canceled none = false
is_canceled (some s) =
    str_eq s "cancelled" || str_eq s "canceled" || str_eq s "expired" || str_eq s "rejected"

unfoldable pub is_non_open : Option String → Bool
unfolding is_canceled
is_non_open none = false
is_non_open (some s) = is_canceled (some s) || str_eq s "closed"

module _ {F : Type 0} ⦃f : Float F⦄ where
  open f use {zero, sub}

  unfoldable pub safe_amount : Order F → F
  safe_amount o = or_else o.amount o.ft_amount

  unfoldable pub safe_placement_price : Order F → F
  safe_placement_price o = or_else o.price (or_else o.stop_price o.ft_price)

  unfoldable pub safe_price : Order F → F
  safe_price o = or_else o.average (or_else o.price (or_else o.stop_price o.ft_price))

  unfoldable pub safe_filled : Order F → F
  safe_filled o = elim o.filled [ none ↦ zero | some x ↦ x ]

  unfoldable pub safe_cost : Order F → F
  safe_cost o = or_else o.cost zero

  unfoldable pub safe_remaining : Order F → F
  unfolding safe_amount
  safe_remaining o = elim o.remaining [
    | none ↦ sub (safe_amount o) (or_else o.filled zero)
    | some x ↦ x
  ]

  unfoldable pub safe_fee_base : Order F → F
  safe_fee_base o = or_else o.ft_fee_base zero

  unfoldable pub safe_amount_after_fee : Order F → F
  unfolding safe_filled safe_fee_base
  safe_amount_after_fee o = sub (safe_filled o) (safe_fee_base o)
