-- ===== src/Freqai/Environment/Positions.antt =====
-- The positions of the trading environment over a step (freqtrade/freqai/RL).
use freqtrade_llm.Base.{
  ℕ, zero, suc, ◌-◌, ◌+◌, ◌<◌, ◌≤◌, true, false, not, none, some, List, [], ◌∷◌, ◌++◌,
  if◌then◌else◌, leb, length, is_some, if_both, Bool-cases, Option-cases, ◌≡◌, ◌⊎◌, refl, ap, ◌∙◌,
  arith, inl, inr,
}
use freqtrade_llm.Base.Float.{Float}
use freqtrade_llm.Base.Result.{Result, ok, ◌>>=◌, is_ok, value_of_ok}
use freqtrade_llm.Freqai.Environment.{
  Env, Setup, is_exit, Actions, Position, IndexError, stay, long_enter, long_exit, short_enter,
  short_exit, short, long, neutral, price_at, is_neutral, is_tradesignal, is_valid,
  get_unrealized_profit, update_unrealized_total_profit, update_total_profit, trade, log_trade,
  trade_step, finish, step, next_tick, rewarded, end_tick, left, with_profit,
}

price_at-is_ok : {F : Type 0} (xs : List F) (n : ℕ) → n < length xs → is_ok (price_at xs n) ≡ true
unfolding price_at
price_at-is_ok [] n h = ground arith
price_at-is_ok (x ∷ xs) zero h = refl
price_at-is_ok (x ∷ xs) (suc n) h = price_at-is_ok xs n (ground arith)

-- The last trade is remembered exactly while a position is held, and lies in the past.
abbrev pub IsConsistent : {F : Type 0} → Env F → Type 0
IsConsistent e =
    (is_some e.last_trade_tick ≡ not (is_neutral e.position))
    × (elim e.last_trade_tick [ none ↦ true | some tick ↦ leb tick e.current_tick ] ≡ true)

abbrev SameTrade : {F : Type 0} → Env F → Env F → Type 0
SameTrade e u =
    (u.position ≡ e.position)
    × (u.last_trade_tick ≡ e.last_trade_tick)
    × (u.current_tick ≡ e.current_tick)

IsConsistent-SameTrade :
    {F : Type 0} (e u : Env F) → SameTrade e u → IsConsistent e → IsConsistent u
IsConsistent-SameTrade e u same h = ground arith

IsConsistent-next_tick :
    {F : Type 0} ⦃f : Float F⦄ (s : Setup F) (e : Env F)
    → IsConsistent e
    → IsConsistent (next_tick s e)
IsConsistent-next_tick s e h = ground arith

in_range : (m n l : ℕ) → m ≡ suc n → n < l - 1 → m < l
in_range m n l e h = ground arith

-- The position that an action asks for.
abbrev pub target : Actions → Position
target stay = neutral
target long_enter = long
target long_exit = neutral
target short_enter = short
target short_exit = neutral

module _ {F : Type 0} ⦃f : Float F⦄ (s : Setup F) where
  get_unrealized_profit-is_ok :
      (e : Env F)
      → IsConsistent e
      → e.current_tick < length s.prices
      → is_ok (get_unrealized_profit s e) ≡ true
  unfolding get_unrealized_profit
  get_unrealized_profit-is_ok e h k = elim (Option-cases e.last_trade_tick) [
    | inl en ↦ ground arith
    | inr (tick, es) ↦
        ground (arith, price_at-is_ok s.prices e.current_tick k, price_at-is_ok s.prices tick)
  ]

  update_unrealized_total_profit_lem :
      (e : Env F)
      → IsConsistent e
      → e.current_tick < length s.prices
      → (u : Env F) × (update_unrealized_total_profit s e ≡ ok u) × SameTrade e u
  unfolding update_unrealized_total_profit
  update_unrealized_total_profit_lem e h k =
      let (pnl, ep) = value_of_ok _ (get_unrealized_profit-is_ok e h k) in
      if_both (λ (r : Result IndexError (Env F)). (u : Env F) × (r ≡ ok u) × SameTrade e u)
        (is_neutral e.position) _ _ (e, refl, (refl, refl, refl))
        (rw ep (_, refl, (refl, refl, refl)))

  -- What an action does to the position and the tick of the last trade.
  abbrev Moves : Actions → Env F → Env F → Type 0
  Moves a e u =
      IsConsistent u
      × (u.current_tick ≡ e.current_tick)
      × (u.position ≡ (if is_tradesignal a e.position then target a else e.position))

  trade_lem :
      (a : Actions) (e : Env F)
      → IsConsistent e
      → e.current_tick < length s.prices
      → (u : Env F) × (trade s a e ≡ ok u)
        × IsConsistent u
        × (u.current_tick ≡ e.current_tick)
        × (u.position ≡ target a)
  unfolding trade update_total_profit
  trade_lem stay e h k = (_, refl, (refl, refl), refl, refl)
  trade_lem long_enter e h k = (_, refl, (refl, ground arith), refl, refl)
  trade_lem short_enter e h k = (_, refl, (refl, ground arith), refl, refl)
  trade_lem long_exit e h k =
      let (pnl, ep) = value_of_ok _ (get_unrealized_profit-is_ok e h k) in
      rw ep (_, refl, (refl, refl), refl, refl)
  trade_lem short_exit e h k =
      let (pnl, ep) = value_of_ok _ (get_unrealized_profit-is_ok e h k) in
      rw ep (_, refl, (refl, refl), refl, refl)

  log_trade_lem :
      (a : Actions) (e : Env F)
      → IsConsistent e
      → e.current_tick < length s.prices
      → (u : Env F) × (log_trade s a e ≡ ok u) × SameTrade e u
  unfolding log_trade
  log_trade_lem a e h k =
      let (price, ex) = value_of_ok _ (price_at-is_ok s.prices e.current_tick k) in
      let (pnl, ep) = value_of_ok _ (get_unrealized_profit-is_ok e h k) in
      rw ex (rw ep (_, refl, (refl, refl, refl)))

  finish_lem :
      (a : Actions) (e : Env F)
      → IsConsistent e
      → e.current_tick < length s.prices
      → (u : Env F) × (finish s a e ≡ ok u) × SameTrade e u
  unfolding finish
  finish_lem a e h k =
      let (pnl, ep) = value_of_ok _ (get_unrealized_profit-is_ok e h k) in
      rw ep (_, refl, (refl, refl, refl))

  trade_step_lem :
      (a : Actions) (e : Env F)
      → IsConsistent e
      → e.current_tick < length s.prices
      → (u : Env F) × (trade_step s a e ≡ ok u) × Moves a e u
  unfolding trade_step
  trade_step_lem a e h k = elim (Bool-cases (is_tradesignal a e.position)) [
    | inl b ↦
        let (u, eu, cu, tu, pu) = trade_lem a e h k in
        let (v, ev, sv) = log_trade_lem a u cu (ground arith) in
        rw b (rw eu (rw ev (v, refl, (ground arith, ground arith, ground arith))))
    | inr b ↦ rw b (e, refl, (h, refl, refl))
  ]

  -- On a consistent state before the last tick every action is carried out, one tick later. The
  -- position becomes the one the action asks for if the action is a trade signal, and stays
  -- otherwise; the last trade is remembered exactly while a position is held.
  step-IsConsistent :
      (e : Env F) (a : Actions)
      → IsConsistent e
      → e.current_tick < end_tick s
      → (u : Env F) × (step s e a ≡ ok u)
        × IsConsistent u
        × (u.current_tick ≡ suc e.current_tick)
        × (u.position ≡ (if is_tradesignal a e.position then target a else e.position))
  unfolding step
  step-IsConsistent e a h k =
      let c0 = IsConsistent-next_tick s e h in
      let (u, eu, (up, ul, uc)) =
        update_unrealized_total_profit_lem (next_tick s e) c0 (ground arith) in
      let cu = IsConsistent-SameTrade (next_tick s e) u (up, ul, uc) c0 in
      let before = in_range u.current_tick e.current_tick (length s.prices) uc k in
      let (v, ev, (cv, vt, vp)) = trade_step_lem a (rewarded s a u) cu before in
      let (w, ew, (wp, wl, wt)) = finish_lem a v cv (rw vt before) in
      let position = ap (λ p. if is_tradesignal a p then target a else p) up in
      rw eu (
        rw ev (
          rw ew (
            w,
            refl,
            IsConsistent-SameTrade v w (wp, wl, wt) cv,
            wt ∙ (vt ∙ uc),
            wp ∙ (vp ∙ position),
          )))

  -- The steps of an episode, one for each action.
  unfoldable pub run : Env F → List Actions → Result IndexError (Env F)
  run e [] = ok e
  run e (a ∷ actions) = step s e a >>= λ u. run u actions

  -- An episode that ends at the last tick or before it never reads a price that is not there, and
  -- every state it passes through is consistent.
  pub run-IsConsistent :
      (e : Env F) (actions : List Actions)
      → IsConsistent e
      → e.current_tick + length actions ≤ end_tick s
      → (u : Env F) × (run e actions ≡ ok u)
        × IsConsistent u
        × (u.current_tick ≡ e.current_tick + length actions)
  unfolding run
  run-IsConsistent e [] h k = (e, refl, h, ground arith)
  run-IsConsistent e (a ∷ actions) h k =
      let (u, eu, cu, tu, pu) = step-IsConsistent e a h (ground arith) in
      let (v, ev, cv, tv) = run-IsConsistent u actions cu (ground arith) in
      rw eu (v, ev, cv, ground arith)

  no_profit : (e : Env F) → e.last_trade_tick ≡ none → get_unrealized_profit s e ≡ ok f.zero
  unfolding get_unrealized_profit
  no_profit e h = ground arith

  exit_lem :
      (a : Actions) (e : Env F) (pnl price : F)
      → get_unrealized_profit s e ≡ ok pnl
      → price_at s.prices e.current_tick ≡ ok price
      → is_exit a ≡ true
      → (u : Env F) × (price : F) × ((trade s a e >>= λ v. log_trade s a v) ≡ ok u)
        × (u.trade_history
            ≡ e.trade_history
              ++ record { price = price; index = e.current_tick; type_ = a; profit = f.zero } ∷ [])
  unfolding trade update_total_profit log_trade
  exit_lem stay e pnl price ep ex x = ground arith
  exit_lem long_enter e pnl price ep ex x = ground arith
  exit_lem short_enter e pnl price ep ex x = ground arith
  exit_lem long_exit e pnl price ep ex x = rw ep (
      rw ex (
        rw (no_profit (left s (record e { total_profit = with_profit s e pnl })) refl)
          (_, price, refl, refl)))
  exit_lem short_exit e pnl price ep ex x = rw ep (
      rw ex (
        rw (no_profit (left s (record e { total_profit = with_profit s e pnl })) refl)
          (_, price, refl, refl)))

  -- Every exit is logged with the profit 0, since its profit is asked for after the position was
  -- closed.
  pub trade_step_exit :
      (a : Actions) (e : Env F)
      → IsConsistent e
      → e.current_tick < length s.prices
      → is_tradesignal a e.position ≡ true
      → is_exit a ≡ true
      → (u : Env F) × (price : F) × (trade_step s a e ≡ ok u)
        × (u.trade_history
            ≡ e.trade_history
              ++ record { price = price; index = e.current_tick; type_ = a; profit = f.zero } ∷ [])
  unfolding trade_step
  trade_step_exit a e h k b x =
      let (price, ex) = value_of_ok _ (price_at-is_ok s.prices e.current_tick k) in
      let (pnl, ep) = value_of_ok _ (get_unrealized_profit-is_ok e h k) in
      rw b (exit_lem a e pnl price ep ex x)

-- A trade signal is a valid action that enters a position from neutral or leaves one for it; and a
-- valid action that is no trade signal is to stay, or the exit of a position on the other side.
is_tradesignal_cases :
    (a : Actions) (p : Position)
    → (is_tradesignal a p ≡ true
        → (is_valid a p ≡ true) × (is_neutral (target a) ≡ not (is_neutral p)))
      × (is_valid a p ≡ true
          → is_tradesignal a p ≡ false
          → (a ≡ stay) ⊎ (((a ≡ long_exit) × (p ≡ short)) ⊎ ((a ≡ short_exit) × (p ≡ long))))
unfolding is_tradesignal is_valid
is_tradesignal_cases a p = ground arith
