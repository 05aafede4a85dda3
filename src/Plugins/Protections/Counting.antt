-- ===== src/Plugins/Protections/Counting.antt =====
-- Which trades StoplossGuard of freqtrade/plugins/protections/stoploss_guard.py counts.
use freqtrade_llm.Base.{
  ℕ, ◌-◌, ◌*◌, ◌<◌, Bool, true, false, ◌&&◌, Option, none, some, List, [], ◌∷◌, String, str_eq,
  eq_iff, if◌then◌else◌, select, select-select, ◌≡◌, ◌⊎◌, inl, inr, refl, sym, ◌∙◌, ap, arith,
  Bool-cases, ltb→lt, lt→ltb,
}
use freqtrade_llm.Base.Float.{Float, truthy?}
use freqtrade_llm.Persistence.Trade.{Trade, trade_direction}
use freqtrade_llm.Persistence.Trade.Store.{
  BtTrades, of_pair, after_date, closed_after, selected, get_trades_proxy,
}
use freqtrade_llm.Plugins.Protections.{minute}
use freqtrade_llm.Plugins.Protections.Guards.{
  StoplossGuard, is_stoploss_reason, is_stoploss, recent_trades, stoploss_trades,
}

-- The second list holds those of the first that have the property, in their order.
pub data Picked {A : Type 0} (P : A → Type 0) : List A → List A → Type 0 where
  end : Picked P [] []
  take : {x : A} {xs ys : List A} → P x → Picked P xs ys → Picked P (x ∷ xs) (x ∷ ys)
  skip : {x : A} {xs ys : List A} → ¬ P x → Picked P xs ys → Picked P (x ∷ xs) ys

-- The text of an exit that a stop loss or a liquidation brought about
abbrev pub IsStopReason : Option String → Type 0
IsStopReason reason =
    (reason ≡ some "stop_loss")
    ⊎ ((reason ≡ some "trailing_stop_loss")
        ⊎ ((reason ≡ some "stoploss_on_exchange") ⊎ (reason ≡ some "liquidation")))

module _ {F : Type 0} ⦃f : Float F⦄ (date_now : ℕ) (p : StoplossGuard F) (pair : Option String)
    (side : String) where
  open f use {zero, lt, eq}

  -- The trade counts as a stop loss: it was closed within the period that the guard looks back on,
  -- for one of the four reasons, with a profit below the limit that is not 0; it is of the pair, if
  -- one is given, and of the direction, if directions are counted apart.
  pub record IsCounted (t : Trade F) : Type 0 where
    pub recent :
        (date : ℕ) × (t.close_date ≡ some date)
        × (date_now - p.base.lookback_period * minute < date)
    pub stopped : IsStopReason t.exit_reason
    pub lost :
        (profit : F) × (t.close_profit ≡ some profit)
        × (eq profit zero ≡ false)
        × (lt profit p.profit_limit ≡ true)
    pub pair_given : (pair ≡ none) ⊎ ((pair ≡ some "") ⊎ (pair ≡ some t.pair))
    pub counted_side : (p.only_per_side ≡ false) ⊎ (side ≡ (if t.is_short then "short" else "long"))

-- A comprehension picks the elements with a property that its test decides.
select-Picked :
    {A : Type 0} (P : A → Type 0) (p : A → Bool) (xs : List A)
    → ((x : A) → p x ≡ true → P x)
    → ((x : A) → P x → p x ≡ true)
    → Picked P xs (select p xs)
unfolding select
select-Picked P p [] h k = end
select-Picked P p (x ∷ xs) h k =
    let rest = select-Picked P p xs h k in
    elim (Bool-cases (p x)) [
      | inl e ↦ rw e (take (h x e) rest)
      | inr e ↦ rw e (skip (λ c. ground (arith, k x c)) rest)
    ]

is_stoploss_reason-IsStopReason :
    (reason : Option String) → is_stoploss_reason reason ≡ true → IsStopReason reason
unfolding is_stoploss_reason
is_stoploss_reason-IsStopReason none h = ground arith
is_stoploss_reason-IsStopReason (some r) h = elim (Bool-cases (str_eq r "stop_loss")) [
  | inl e ↦ inl (ap some ((eq_iff r "stop_loss").0 e))
  | inr n ↦ elim (Bool-cases (str_eq r "trailing_stop_loss")) [
    | inl e ↦ inr (inl (ap some ((eq_iff r "trailing_stop_loss").0 e)))
    | inr n' ↦ elim (Bool-cases (str_eq r "stoploss_on_exchange")) [
      | inl e ↦ inr (inr (inl (ap some ((eq_iff r "stoploss_on_exchange").0 e))))
      | inr n'' ↦ inr (inr (inr (ap some ((eq_iff r "liquidation").0 (ground arith)))))
    ]
  ]
]

IsStopReason-is_stoploss_reason :
    (reason : Option String) → IsStopReason reason → is_stoploss_reason reason ≡ true
unfolding is_stoploss_reason
IsStopReason-is_stoploss_reason reason (inl e) = rw e refl
IsStopReason-is_stoploss_reason reason (inr (inl e)) = rw e refl
IsStopReason-is_stoploss_reason reason (inr (inr (inl e))) = rw e refl
IsStopReason-is_stoploss_reason reason (inr (inr (inr e))) = rw e refl

-- A comprehension under a condition
when_select :
    {A : Type 0} (b : Bool) (p : A → Bool) (xs : List A)
    → (if b then select p xs else xs) ≡ select (λ x. if b then p x else true) xs
unfolding select
when_select true p xs = refl
when_select false p [] = refl
when_select false p (x ∷ xs) = ground (arith, when_select false p xs)

closed_after-date :
    (bound : ℕ) (closed : Option ℕ)
    → closed_after (some bound) closed ≡ true
    → (date : ℕ) × (closed ≡ some date) × (bound < date)
unfolding closed_after
closed_after-date bound none h = ground arith
closed_after-date bound (some date) h = (date, refl, ltb→lt bound date h)

date-closed_after :
    (bound date : ℕ) (closed : Option ℕ)
    → closed ≡ some date
    → bound < date
    → closed_after (some bound) closed ≡ true
unfolding closed_after
date-closed_after bound date closed e h = rw e (lt→ltb bound date h)

module _ {F : Type 0} ⦃f : Float F⦄ where
  open f use {zero, lt, eq}

  of_pair-given :
      (pair : Option String) (t : Trade F)
      → of_pair pair t ≡ true
      → (pair ≡ none) ⊎ ((pair ≡ some "") ⊎ (pair ≡ some t.pair))
  of_pair-given none t h = inl refl
  of_pair-given (some q) t h = elim (Bool-cases (str_eq q "")) [
    | inl e ↦ inr (inl (ap some ((eq_iff q "").0 e)))
    | inr n ↦ inr (inr (ap some (sym ((eq_iff t.pair q).0 (ground arith)))))
  ]

  given-of_pair :
      (pair : Option String) (t : Trade F)
      → (pair ≡ none) ⊎ ((pair ≡ some "") ⊎ (pair ≡ some t.pair))
      → of_pair pair t ≡ true
  given-of_pair pair t (inl e) = rw e refl
  given-of_pair pair t (inr (inl e)) = rw e refl
  given-of_pair pair t (inr (inr e)) = rw e (ground (arith, eq_iff t.pair t.pair))

  -- The test of the profit
  abbrev is_loss : F → Option F → Bool
  is_loss limit profit = truthy? profit && elim profit [ none ↦ false | some x ↦ lt x limit ]

  is_loss-lost :
      (limit : F) (closed : Option F)
      → is_loss limit closed ≡ true
      → (profit : F) × (closed ≡ some profit) × (eq profit zero ≡ false) × (lt profit limit ≡ true)
  is_loss-lost limit none h = ground arith
  is_loss-lost limit (some x) h = (x, refl, ground arith, ground arith)

  lost-is_loss :
      (limit profit : F) (closed : Option F)
      → closed ≡ some profit
      → eq profit zero ≡ false
      → lt profit limit ≡ true
      → is_loss limit closed ≡ true
  lost-is_loss limit profit closed e n h = rw e (ground arith)

module _ {F : Type 0} ⦃f : Float F⦄ (s : BtTrades F) (date_now : ℕ) (p : StoplossGuard F)
    (pair : Option String) (side : String) where
  abbrev bound : ℕ
  bound = date_now - p.base.lookback_period * minute

  -- The test of the direction
  abbrev on_side : Trade F → Bool
  on_side t = if p.only_per_side then str_eq (trade_direction t) side else true

  -- All the tests
  abbrev counts : Trade F → Bool
  counts t =
      ((of_pair pair t && true) && closed_after (some bound) t.close_date)
      && (is_stoploss s date_now p t && on_side t)

  on_side-counted :
      (t : Trade F)
      → on_side t ≡ true
      → (p.only_per_side ≡ false) ⊎ (side ≡ (if t.is_short then "short" else "long"))
  unfolding trade_direction
  on_side-counted t h = elim (Bool-cases p.only_per_side) [
    | inl e ↦ inr (sym ((eq_iff (if t.is_short then "short" else "long") side).0 (ground arith)))
    | inr n ↦ inl n
  ]

  counted-on_side :
      (t : Trade F)
      → (p.only_per_side ≡ false) ⊎ (side ≡ (if t.is_short then "short" else "long"))
      → on_side t ≡ true
  unfolding trade_direction
  counted-on_side t (inl n) = rw n refl
  counted-on_side t (inr e) = rw e (ground (arith, eq_iff (trade_direction t) (trade_direction t)))

  counts-IsCounted : (t : Trade F) → counts t ≡ true → IsCounted date_now p pair side t
  counts-IsCounted t h = record {
    recent = closed_after-date bound t.close_date (ground arith);
    stopped = is_stoploss_reason-IsStopReason t.exit_reason (ground arith);
    lost = is_loss-lost p.profit_limit t.close_profit (ground arith);
    pair_given = of_pair-given pair t (ground arith);
    counted_side = on_side-counted t (ground arith);
  }

  IsCounted-counts : (t : Trade F) → IsCounted date_now p pair side t → counts t ≡ true
  IsCounted-counts t c =
      let (date, e, after) = c.recent in
      let (profit, e', n, below) = c.lost in
      ground (
        arith,
        date-closed_after bound date t.close_date e after,
        IsStopReason-is_stoploss_reason t.exit_reason c.stopped,
        lost-is_loss p.profit_limit profit t.close_profit e' n below,
        given-of_pair pair t c.pair_given,
        counted-on_side t c.counted_side,
      )

  stoploss_trades-counts : stoploss_trades s date_now p pair side ≡ select counts s.bt_trades
  unfolding stoploss_trades recent_trades get_trades_proxy selected after_date
  stoploss_trades-counts =
      let stop = is_stoploss s date_now p in
      let closed = λ (t : Trade F). closed_after (some bound) t.close_date in
      let paired = λ (t : Trade F). of_pair pair t && true in
      let all = s.bt_trades in
      let recent = recent_trades s date_now p.base pair in
      when_select p.only_per_side (λ t. str_eq (trade_direction t) side) (select stop recent)
      ∙ (select-select on_side stop recent
          ∙ (ap (select (λ t. stop t && on_side t)) (
                ap (select closed) (select-select (λ t. true) (of_pair pair) all)
                ∙ select-select closed paired all)
              ∙ select-select (λ t. stop t && on_side t) (λ t. paired t && closed t) all))

  -- The guard looks at the counted trades of the store, in their order.
  pub stoploss_trades-Picked :
      Picked (IsCounted date_now p pair side) s.bt_trades (stoploss_trades s date_now p pair side)
  stoploss_trades-Picked = rw stoploss_trades-counts (
      select-Picked (IsCounted date_now p pair side) counts s.bt_trades counts-IsCounted
        IsCounted-counts)
