-- ===== src/Examples/Setting.antt =====
-- The parameters, instantiated: natural numbers for floats, candles of five minutes, and a list of
-- rows for the database.
use freqtrade_llm.Base.{
  ℕ, ◌+◌, ◌-◌, ◌*◌, ◌/◌, ◌%◌, false, List, [], ◌∷◌, ◌++◌, ltb, leb, ◌==◌, refl, arith,
}
use freqtrade_llm.Base.Float.{Float, Precise, OrderLaws}
use freqtrade_llm.Exchange.Precision.{Decimals}
use freqtrade_llm.Exchange.Timeframe.{Ccxt, CcxtLaws, round_up, round_down}
use freqtrade_llm.Persistence.PairLock.{PairLock, Session, SessionLaws, deactivate_where}

instance abbrev pub whole : Float ℕ
whole = record {
  zero = 0;
  one = 1;
  add = λ a b. a + b;
  sub = λ a b. a - b;
  mul = λ a b. a * b;
  div = λ a b. a / b;
  neg = λ a. 0;
  abs = λ a. a;
  lt = ltb;
  le = leb;
  eq = λ a b. a == b;
}

pub whole-OrderLaws : OrderLaws whole
whole-OrderLaws = record {
  lt_irrefl = λ a. ground arith;
  lt_trans = λ a b c h k. ground arith;
  lt-le_trans = λ a b c h k. ground arith;
  le-lt_trans = λ a b c h k. ground arith;
  le_trans = λ a b c h k. ground arith;
  lt→le = λ a b h. ground arith;
}

abbrev pub exact : Precise ℕ ℕ
exact = record {
  of_float = λ a. a;
  to_float = λ a. a;
  add = λ a b. a + b;
  sub = λ a b. a - b;
  mul = λ a b. a * b;
  div = λ a b. a / b;
  modulo = λ a b. a % b;
  lt = ltb;
  eq = λ a b. a == b;
}

abbrev pub digits : Decimals ℕ
digits = record {
  decimal_to_precision = λ x r p m. x;
  int = λ x. x;
  pow10 = λ x. 1;
  ceil = λ x. x;
  floor = λ x. x;
  round14 = λ x. x;
  isnan = λ x. false;
  isinf = λ x. false;
  to_significant_digits = λ x p r. x;
}

abbrev pub five_minutes : Ccxt
five_minutes = record {
  parse_timeframe = λ tf. 300;
  round_timeframe = λ tf ts direction. elim direction [
    | round_up ↦ ts / 300000 * 300000 + 300000
    | round_down ↦ ts / 300000 * 300000
  ];
}

pub five_minutes-CcxtLaws : CcxtLaws five_minutes
five_minutes-CcxtLaws = record {
  timeframe_pos = λ tf. ground arith;
  round_down_le = λ tf ts. ground arith;
  round_up_eq = λ tf ts. ground arith;
  lt_round_up = λ tf ts. ground arith;
  round_down_seconds = λ tf ts. ground arith;
}

abbrev pub table : Session (List PairLock)
table = record {
  rows = λ db. db;
  add = λ lock db. db ++ lock ∷ [];
  deactivate = λ p db. deactivate_where p db;
}

pub table-SessionLaws : SessionLaws table
table-SessionLaws = record { rows-add = λ lock db. refl; rows-deactivate = λ p db. refl }
