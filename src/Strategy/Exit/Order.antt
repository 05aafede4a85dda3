-- ===== src/Strategy/Exit/Order.antt =====
-- The list of exits that `should_exit` of freqtrade/strategy/interface.py returns.
use freqtrade_llm.Base.{
  ℕ, suc, ◌<◌, ◌≤◌, Bool, true, false, not, ◌&&◌, ◌||◌, List, [], ◌∷◌, ◌++◌, String, if◌then◌else◌,
  is_some, any, ◌≡◌, refl, ◌∙◌, inl, arith,
}
use freqtrade_llm.Base.Float.{Float, OrderLaws, Precise, or_else}
use freqtrade_llm.Exchange.Precision.{Decimals}
use freqtrade_llm.Persistence.Trade.{Trade, adjust_min_max_rates}
use freqtrade_llm.Persistence.Trade.StopLoss.Ratchet.{Tightens, Tightens-trans}
use freqtrade_llm.Strategy.{
  Strategy, Callbacks, ExitType, ExitCheckTuple, exit_check, roi, stop_loss, trailing_stop_loss,
  liquidation, exit_signal, custom_exit, none_exit,
}
use freqtrade_llm.Strategy.Stoploss.{
  Situation, stop_hit, liquidation_hit, stoploss_flag, ft_stoploss_reached,
}
use freqtrade_llm.Strategy.Stoploss.Hit.{ft_stoploss_reached-Tightens}
use freqtrade_llm.Strategy.Exit.{
  Request, exits, should_exit, situation, profit_best, signal_and_reason, roi_reached,
  wants_signal_exit, is_custom, is_signal, is_hard_stop, is_trailing_stop, when,
}

-- "Sequence: Exit-signal, Stoploss, ROI, Trailing stoploss"
abbrev pub rank : ExitType → ℕ
rank exit_signal = 0
rank custom_exit = 0
rank stop_loss = 1
rank liquidation = 1
rank roi = 2
rank trailing_stop_loss = 3
rank _ = 4

-- The ranks rise strictly, from the bound on, and stay below 4.
abbrev pub Rises : ℕ → List ExitCheckTuple → Type 0
Rises n [] = Unit {0}
Rises n (e ∷ es) =
    (n ≤ rank e.exit_type) × (rank e.exit_type < 4) × Rises (suc (rank e.exit_type)) es

Rises-mono : (n m : ℕ) (es : List ExitCheckTuple) → n ≤ m → Rises m es → Rises n es
Rises-mono n m [] le h = tt
Rises-mono n m (e ∷ es) le h = (omega arith, h.1, h.2)

-- A possible exit in front of others that come later in the sequence.
Rises-when :
    (n m : ℕ) (test : Bool) (e : ExitCheckTuple) (es : List ExitCheckTuple)
    → n ≤ m
    → (test ≡ true → (rank e.exit_type ≡ m) × (m < 4))
    → Rises (suc m) es
    → Rises n (when test e ++ es)
Rises-when n m true e es le h rest =
    (omega (arith, h refl), omega (arith, h refl), rw ((h refl).0) rest)
Rises-when n m false e es le h rest = Rises-mono n (suc m) es (omega arith) rest

Rises-last :
    (n : ℕ) (test : Bool) (e : ExitCheckTuple)
    → (test ≡ true → rank e.exit_type ≡ 3)
    → n ≤ 3
    → Rises n (when test e)
Rises-last n true e h le = (omega (arith, h refl), omega (arith, h refl), tt)
Rises-last n false e h le = tt

rank-exit_check : (t : ExitType) (reason : String) → rank (exit_check t reason).exit_type ≡ rank t
unfolding exit_check
rank-exit_check t reason = refl

signal_rank : (t : ExitType) → (is_custom t || is_signal t) ≡ true → rank t ≡ 0
signal_rank custom_exit h = refl
signal_rank exit_signal h = refl
signal_rank _ h = absurd (cc)

hard_stop_rank : (t : ExitType) → is_hard_stop t ≡ true → rank t ≡ 1
hard_stop_rank stop_loss h = refl
hard_stop_rank liquidation h = refl
hard_stop_rank _ h = absurd (cc)

trailing_stop_rank : (t : ExitType) → is_trailing_stop t ≡ true → rank t ≡ 3
trailing_stop_rank trailing_stop_loss h = refl
trailing_stop_rank _ h = absurd (cc)

-- The exit is one of a stop loss or a liquidation.
abbrev pub is_stop : ExitCheckTuple → Bool
is_stop e = is_hard_stop e.exit_type || is_trailing_stop e.exit_type

any-when :
    (p : ExitCheckTuple → Bool) (test : Bool) (e : ExitCheckTuple) (es : List ExitCheckTuple)
    → any p (when test e ++ es) ≡ ((test && p e) || any p es)
unfolding any
any-when p true e es = refl
any-when p false e es = refl

any-when_last :
    (p : ExitCheckTuple → Bool) (test : Bool) (e : ExitCheckTuple)
    → any p (when test e) ≡ (test && p e)
unfolding any
any-when_last p true e = ground arith
any-when_last p false e = refl

signal_is_no_stop :
    (t : ExitType) (reason : String)
    → (is_custom t || is_signal t) ≡ true
    → is_stop (exit_check t reason) ≡ false
unfolding exit_check
signal_is_no_stop custom_exit reason h = refl
signal_is_no_stop exit_signal reason h = refl
signal_is_no_stop _ reason h = absurd (cc)

flag_lem :
    (hit liquidated trailing : Bool)
    → is_stop (
        if hit
        then exit_check (if trailing then trailing_stop_loss else stop_loss) ""
        else if liquidated
        then exit_check liquidation ""
        else exit_check none_exit "")
      ≡ (hit || liquidated)
unfolding exit_check
flag_lem true liquidated true = refl
flag_lem true liquidated false = refl
flag_lem false true trailing = refl
flag_lem false false trailing = refl

roi_is_no_stop : is_stop (exit_check roi "") ≡ false
unfolding exit_check
roi_is_no_stop = refl

module _ {F P : Type 0} ⦃f : Float F⦄ (pr : Precise F P) (d : Decimals F) (s : Strategy F)
    (calls : Callbacks F) where
  signal_exit_rank :
      (t : ExitType) (profit : F) → wants_signal_exit pr d s calls t profit ≡ true → rank t ≡ 0
  unfolding wants_signal_exit
  signal_exit_rank t profit h = signal_rank t (ground arith)

  exits-Rises :
      (signal : ExitType × String) (profit : F) (stop : ExitCheckTuple) (roi_reached : Bool)
      → Rises 0 (exits pr d s calls signal profit stop roi_reached)
  unfolding exits
  exits-Rises (signal, reason) profit stop roi_reached =
      Rises-when 0 0 _ (exit_check signal reason) _ (omega arith)
        (λ h. (rw (rank-exit_check signal reason) (signal_exit_rank signal profit h), omega arith))
        (Rises-when 1 1 _ stop _ (omega arith) (λ h. (hard_stop_rank stop.exit_type h, omega arith))
          (Rises-when 2 2 roi_reached (exit_check roi "") _ (omega arith)
            (λ h. (rank-exit_check roi "", omega arith))
            (Rises-last 3 _ stop (λ h. trailing_stop_rank stop.exit_type h) (omega arith))))

  any-is_stop-exits :
      (signal : ExitType × String) (profit : F) (stop : ExitCheckTuple) (roi_reached : Bool)
      → any is_stop (exits pr d s calls signal profit stop roi_reached) ≡ is_stop stop
  unfolding exits wants_signal_exit
  any-is_stop-exits (signal, reason) profit stop roi_reached = ground (
    arith,
    any-when is_stop (wants_signal_exit pr d s calls signal profit) (exit_check signal reason) (
        when (is_hard_stop stop.exit_type) stop
        ++ (when roi_reached (exit_check roi "") ++ when (is_trailing_stop stop.exit_type) stop)),
    any-when is_stop (is_hard_stop stop.exit_type) stop
        (when roi_reached (exit_check roi "") ++ when (is_trailing_stop stop.exit_type) stop),
    any-when is_stop roi_reached (exit_check roi "") (when (is_trailing_stop stop.exit_type) stop),
    any-when_last is_stop (is_trailing_stop stop.exit_type) stop,
    signal_is_no_stop signal reason,
    roi_is_no_stop,
  )

  is_stop-stoploss_flag :
      (t : Trade F) (x : Situation F)
      → is_stop (stoploss_flag pr d s calls t x) ≡ (
          (stop_hit pr d s calls t x && (not s.stoploss_on_exchange || s.dry_run))
          || liquidation_hit pr d s calls t x)
  unfolding stoploss_flag exit_check
  is_stop-stoploss_flag t x =
      flag_lem (stop_hit pr d s calls t x && (not s.stoploss_on_exchange || s.dry_run))
        (liquidation_hit pr d s calls t x) t.is_stop_loss_trailing

  -- The extreme rates have nothing to do with the stop loss.
  min_max-Tightens :
      (t : Trade F) (high low : F)
      → is_some t.initial_stop_loss_pct ≡ true
      → Tightens pr d t (adjust_min_max_rates t high low)
  unfolding adjust_min_max_rates
  min_max-Tightens t high low h = record {
    started = h;
    direction = refl;
    initial = refl;
    tight = inl refl;
  }

  -- The exits are listed in the order signal, stop loss or liquidation, ROI, trailing stop loss, with
  -- at most one of each rank and of no other type; and a stop loss that has been set is never
  -- loosened on the way, whatever the strategy's callbacks answer.
  pub should_exit-Rises :
      OrderLaws f
      → (t : Trade F) (r : Request F) → is_some t.initial_stop_loss_pct ≡ true
      → Rises 0 (should_exit pr d s calls t r).1 × Tightens pr d t (should_exit pr d s calls t r).0
  unfolding should_exit
  should_exit-Rises laws t r h =
      let t1 = adjust_min_max_rates t (or_else r.high r.rate) (or_else r.low r.rate) in
      let x = situation pr d s calls r (calls.calc_profit_ratio t r.rate) in
      let profit = calls.calc_profit_ratio t r.rate in
      let u = (ft_stoploss_reached pr d s calls t1 x).0 in
      let stop = (ft_stoploss_reached pr d s calls t1 x).1 in
      let first = min_max-Tightens t _ _ h in
      (
        exits-Rises (signal_and_reason pr d s calls u r profit) profit stop
            (roi_reached pr d s calls u r (profit_best pr d s calls t r)),
        Tightens-trans pr d laws t t1 _ first
            (ft_stoploss_reached-Tightens pr d s calls laws t1 x first.started),
      )

  -- Whether a stop exit is among the exits is what the two tests of `ft_stoploss_reached` say.
  pub is_stop-should_exit :
      (t : Trade F) (r : Request F)
      → let (u, es) = should_exit pr d s calls t r in
        let x = situation pr d s calls r (calls.calc_profit_ratio t r.rate) in
        any is_stop es ≡ (
          (stop_hit pr d s calls u x && (not s.stoploss_on_exchange || s.dry_run))
          || liquidation_hit pr d s calls u x)
  unfolding should_exit ft_stoploss_reached
  is_stop-should_exit t r =
      let (u, es) = should_exit pr d s calls t r in
      let x = situation pr d s calls r (calls.calc_profit_ratio t r.rate) in
      any-is_stop-exits (signal_and_reason pr d s calls u r (calls.calc_profit_ratio t r.rate))
        (calls.calc_profit_ratio t r.rate) (stoploss_flag pr d s calls u x)
        (roi_reached pr d s calls u r (profit_best pr d s calls t r))
      ∙ is_stop-stoploss_flag u x
