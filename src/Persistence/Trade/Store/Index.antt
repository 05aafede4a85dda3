-- ===== src/Persistence/Trade/Store/Index.antt =====
-- The per-pair index and the counter of freqtrade/persistence/trade_model.py agree with the list of
-- open trades.
use mathlib.Core.List.{append-nil}
use freqtrade_llm.Base.{
  ◌+◌, ◌-◌, Bool, true, false, none, some, List, [], ◌∷◌, ◌++◌, String, str_eq, eq_iff, select, any,
  length, select-append, length-append, ◌≡◌, ◌≢◌, refl, arith, Option-cases, inl, inr, Bool-cases,
  if_both,
}
use freqtrade_llm.Base.Float.{Float}
use freqtrade_llm.Persistence.Trade.{Trade}
use freqtrade_llm.Persistence.Trade.Store.{
  of_pair, BtTrades, returned, same_object, remove, put_pair, remove_bt_trade, add_bt_trade,
  close_bt_trade, get_trades_proxy, get_open_trade_count,
}

module _ {F : Type 0} where
  abbrev pub in_pair : String → Trade F → Bool
  in_pair p t = str_eq t.pair p

  pub record IsIndexed (s : BtTrades F) : Type 0 where
    pub by_pair : (p : String) → s.bt_trades_open_pp p ≡ select (in_pair p) s.bt_trades_open
    pub counted : s.bt_open_open_trade_count ≡ length s.bt_trades_open

  -- Removing an object commutes with the choice of its pair, and leaves the other pairs alone.
  select-remove :
      (t : Trade F) (us vs : List (Trade F)) (p : String)
      → remove t us ≡ some vs
      → (str_eq p t.pair ≡ true → remove t (select (in_pair p) us) ≡ some (select (in_pair p) vs))
        × (str_eq p t.pair ≡ false → select (in_pair p) us ≡ select (in_pair p) vs)
        × (length us ≡ length vs + 1)
  unfolding remove select
  select-remove t [] vs p h = absurd (cc)
  select-remove t (u ∷ us) vs p h = elim (Option-cases (remove t us)) [
    | inl e ↦ ground (arith, eq_iff u.pair p, eq_iff t.pair u.pair, eq_iff p t.pair)
    | inr (ws, e) ↦
        ground
          (arith, eq_iff u.pair p, eq_iff t.pair u.pair, eq_iff p t.pair, select-remove t us ws p e)
  ]

  remove_present :
      (t : Trade F) (us : List (Trade F))
      → any (same_object t) us ≡ true
      → (vs : List (Trade F)) × (remove t us ≡ some vs)
  unfolding remove any
  remove_present t [] h = absurd (cc)
  remove_present t (u ∷ us) h = elim (Bool-cases (same_object t u)) [
    | inl hit ↦ (us, rw hit)
    | inr miss ↦ let (vs, e) = remove_present t us (ground arith) in (u ∷ vs, ground arith)
  ]

  -- The state that the addition of an open trade leaves.
  extended : BtTrades F → Trade F → BtTrades F
  extended s t = record s {
    bt_trades_open = s.bt_trades_open ++ t ∷ [];
    bt_trades_open_pp = put_pair s.bt_trades_open_pp t.pair (s.bt_trades_open_pp t.pair ++ t ∷ []);
    bt_open_open_trade_count = s.bt_open_open_trade_count + 1;
  }

  extended-IsIndexed : (s : BtTrades F) (t : Trade F) → IsIndexed s → IsIndexed (extended s t)
  unfolding extended put_pair select
  extended-IsIndexed s t v = record {
    by_pair = λ p. rw (select-append (in_pair p) s.bt_trades_open (t ∷ [])) (
        ground (
          arith,
          v.by_pair p,
          v.by_pair t.pair,
          eq_iff p t.pair,
          eq_iff t.pair p,
          append-nil (select (in_pair p) s.bt_trades_open),
        ));
    counted = omega (arith, v.counted, length-append s.bt_trades_open (t ∷ []));
  }

  add_bt_trade-IsIndexed :
      (s : BtTrades F) (t : Trade F) → IsIndexed s → IsIndexed (add_bt_trade s t)
  unfolding add_bt_trade extended
  add_bt_trade-IsIndexed s t v =
      if_both IsIndexed t.is_open _ _ (extended-IsIndexed s t v)
        (record { by_pair = v.by_pair; counted = v.counted })

  -- The state that the removal of an open trade leaves.
  without : BtTrades F → Trade F → List (Trade F) → BtTrades F
  without s t vs = record s {
    bt_trades_open = vs;
    bt_trades_open_pp = put_pair s.bt_trades_open_pp t.pair (select (in_pair t.pair) vs);
    bt_open_open_trade_count = s.bt_open_open_trade_count - 1;
  }

  without-IsIndexed :
      (s : BtTrades F) (t : Trade F) (vs : List (Trade F))
      → IsIndexed s
      → remove t s.bt_trades_open ≡ some vs
      → IsIndexed (without s t vs)
  unfolding without put_pair
  without-IsIndexed s t vs v h = record {
    by_pair =
        λ p. ground (arith, v.by_pair p, select-remove t s.bt_trades_open vs p h, eq_iff p t.pair);
    counted = ground (arith, v.counted, select-remove t s.bt_trades_open vs t.pair h);
  }

  remove_bt_trade_lem :
      (s : BtTrades F) (t : Trade F) (vs : List (Trade F))
      → IsIndexed s
      → remove t s.bt_trades_open ≡ some vs
      → remove_bt_trade s t ≡ returned (without s t vs)
  unfolding remove_bt_trade without
  remove_bt_trade_lem s t vs v h =
      rw (h, remove_bt_trade)
        (rw (v.by_pair t.pair) (
          rw (
            (select-remove t s.bt_trades_open vs t.pair h).0
              (ground (arith, eq_iff t.pair t.pair)))))

  select-all : (us : List (Trade F)) → select (λ t. true) us ≡ us
  unfolding select
  select-all [] = refl
  select-all (u ∷ us) = ground (arith, select-all us)

  -- The per-pair index answers the query for the open trades of a pair, and the counter counts the
  -- open trades, in every state whose index and counter follow the list. The pair is not empty.
  get_trades_proxy-open_pair :
      (s : BtTrades F) (pair : String)
      → IsIndexed s
      → pair ≢ ""
      → (get_trades_proxy s (some pair) (some true) none none ≡ s.bt_trades_open_pp pair)
        × (get_open_trade_count s ≡ length (get_trades_proxy s none (some true) none none))
  unfolding get_trades_proxy get_open_trade_count
  get_trades_proxy-open_pair s pair v h = (
    rw
        (
          select-all (select (λ t. true) (select (of_pair (some pair)) s.bt_trades_open)),
          select-all (select (of_pair (some pair)) s.bt_trades_open),
        )
        (ground (arith, eq_iff pair "", v.by_pair pair)),
    rw
        (
          select-all (select (λ t. true) (select (λ t. true) s.bt_trades_open)),
          select-all (select (λ t. true) s.bt_trades_open),
          select-all s.bt_trades_open,
        )
        v.counted,
  )

  -- Removing a trade that is among the open ones succeeds, and index and counter still follow the
  -- list, which is the old one without the first occurrence of the trade.
  remove_bt_trade-IsIndexed :
      (s : BtTrades F) (t : Trade F)
      → IsIndexed s
      → any (same_object t) s.bt_trades_open ≡ true
      → (u : BtTrades F) × (remove_bt_trade s t ≡ returned u)
        × IsIndexed u
        × (remove t s.bt_trades_open ≡ some u.bt_trades_open)
        × (u.bt_trades ≡ s.bt_trades)
  unfolding without
  remove_bt_trade-IsIndexed s t v h =
      let (vs, e) = remove_present t s.bt_trades_open h in
      (without s t vs, remove_bt_trade_lem s t vs v e, without-IsIndexed s t vs v e, e, refl)

module _ {F : Type 0} ⦃f : Float F⦄ where
  -- Closing a trade that is among the open ones and has its profit succeeds: the trade moves from the
  -- open trades to the end of the closed ones, its profit is added to the total, and index and counter
  -- still follow the list.
  pub close_bt_trade-IsIndexed :
      (s : BtTrades F) (t : Trade F) (profit : F)
      → IsIndexed s
      → any (same_object t) s.bt_trades_open ≡ true
      → t.close_profit_abs ≡ some profit
      → (u : BtTrades F) × (close_bt_trade s t ≡ returned u)
        × IsIndexed u
        × (remove t s.bt_trades_open ≡ some u.bt_trades_open)
        × (u.bt_trades ≡ s.bt_trades ++ t ∷ [])
        × (u.bt_total_profit ≡ f.add s.bt_total_profit profit)
  unfolding close_bt_trade without
  close_bt_trade-IsIndexed s t profit v h e =
      let (vs, r) = remove_present t s.bt_trades_open h in
      let w = without s t vs in
      (
        record w {
          bt_trades = s.bt_trades ++ t ∷ [];
          bt_total_profit = f.add s.bt_total_profit profit;
        },
        rw (remove_bt_trade_lem s t vs v r, close_bt_trade) (ground arith),
        record {
          by_pair = (without-IsIndexed s t vs v r).by_pair;
          counted = (without-IsIndexed s t vs v r).counted;
        },
        r,
        refl,
        refl,
      )
