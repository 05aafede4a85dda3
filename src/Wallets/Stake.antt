-- ===== src/Wallets/Stake.antt =====
-- freqtrade/wallets.py: the stakes that the wallets grant, and how a refresh treats the balances.
use freqtrade_llm.Base.{
  ℕ, ◌≡◌, refl, sym, Bool, true, false, not, Option, none, some, ◌⊎◌, inl, inr, if_cases, if_both,
  if◌then◌else◌, arith,
}
use freqtrade_llm.Base.Float.{Float, Precise, OrderLaws, truthy}
use freqtrade_llm.Base.Float
use freqtrade_llm.Base.Result.{Result, ok, err}
use freqtrade_llm.Wallets.{
  Wallets, Config, Books, DependencyException, balance_too_low, get_available_stake_amount,
  get_trade_stake_amount, check_available_stake_amount, amended, validate_stake_amount, capped,
  max_allowed_stake, raised_to_min,
}

module _ {F : Type 0} ⦃f : Float F⦄ (laws : OrderLaws f) where
  open f use {zero, lt, le, mul}

  min-not_above : (a b : F) → lt b (Float.min a b) ≡ false
  min-not_above a b = ground (arith, laws.lt_irrefl b)

  -- What exceeds the first argument exceeds the smaller one.
  min-below : (a b x : F) → lt a x ≡ true → lt (Float.min a b) x ≡ true
  min-below a b x h = ground (arith, laws.lt_trans b a x)

  max-not_below : (a b : F) → lt (Float.max a b) b ≡ false
  max-not_below a b = ground (arith, laws.lt_irrefl b)

  -- A stake that is granted is not negative and is covered by what is available. An error under
  -- `amend_last_stake_amount` means that less than nothing is available.
  unfoldable pub IsCovered : F → Bool → Result DependencyException F → Type 0
  IsCovered available amend (ok r) = (lt r zero ≡ false) × ((r ≡ zero) ⊎ (lt available r ≡ false))
  IsCovered available amend (err e) = amend ≡ true → lt available zero ≡ true

  checked_lem :
      (amend : Bool) (available stake : F)
      → (amend ≡ true → (stake ≡ zero) ⊎ (lt available stake ≡ false))
      → IsCovered available amend
          (if lt available stake then err balance_too_low else ok (Float.max stake zero))
  unfolding IsCovered
  checked_lem amend available stake h =
      if_cases (IsCovered available amend) (lt available stake) (err balance_too_low)
        (ok (Float.max stake zero))
        (λ k e. elim (h e) [ inl z ↦ rw (sym z) k | inr n ↦ ground arith ])
        (λ k. (
          max-not_below stake zero,
          if_cases (λ r. (r ≡ zero) ⊎ (lt available r ≡ false)) (lt stake zero) zero stake
              (λ z. inl refl) (λ z. inr k),
        ))

  amended-IsCovered :
      (c : Config F) (available stake : F)
      → c.amend_last_stake_amount ≡ true
      → (amended c stake available ≡ zero) ⊎ (lt available (amended c stake available) ≡ false)
  unfolding amended
  amended-IsCovered c available stake e = rw e (
      if_cases (λ x. (x ≡ zero) ⊎ (lt available x ≡ false))
        (lt (mul stake c.last_stake_amount_min_ratio) available) (Float.min stake available) zero
        (λ h. inr (min-not_above stake available)) (λ h. inl refl))

  -- The stake for a new trade, if there is one, is not negative, and is 0 or covered by what is
  -- available; with `amend_last_stake_amount`, it is refused only if less than 0 is available.
  pub get_trade_stake_amount-IsCovered :
      (of_number : ℕ → F) (c : Config F) (b : Books F) (w : Wallets F) (max_open_trades : Option ℕ)
      → IsCovered
          (get_available_stake_amount c b w)
          c.amend_last_stake_amount
          (get_trade_stake_amount of_number c b w max_open_trades)
  unfolding get_trade_stake_amount check_available_stake_amount
  get_trade_stake_amount-IsCovered of_number c b w max_open_trades =
      checked_lem c.amend_last_stake_amount (get_available_stake_amount c b w) _
        (amended-IsCovered c (get_available_stake_amount c b w) _)

  -- A stake that a trade may have: not below the minimum, if there is one, and above neither the
  -- maximum nor what is available.
  unfoldable pub IsValidStake : F → F → Option F → F → Type 0
  IsValidStake available max_stake min_stake r =
      (lt available r ≡ false)
      × (lt max_stake r ≡ false)
      × ((m : F) → min_stake ≡ some m → lt r m ≡ false)

  -- Neither number is NaN: one is below the other, or it is not.
  unfoldable pub IsComparable : F → F → Type 0
  IsComparable a b = (lt b a ≡ true) ⊎ (le a b ≡ true)

  min-below_right : (a b x : F) → IsComparable a b → lt b x ≡ true → lt (Float.min a b) x ≡ true
  unfolding IsComparable
  min-below_right a b x h k = ground (arith, laws.le-lt_trans a b x)

  max_allowed-below_max :
      (c : Config F) (b : Books F) (w : Wallets F) (max_stake : F) (trade_amount : Option F) (x : F)
      → lt max_stake x ≡ true
      → lt (max_allowed_stake c b w max_stake trade_amount) x ≡ true
  unfolding max_allowed_stake
  max_allowed-below_max c b w max_stake none x h = min-below max_stake _ x h
  max_allowed-below_max c b w max_stake (some amount) x h =
      if_both (λ m. lt m x ≡ true) (truthy amount) _ _ (min-below _ _ x (min-below max_stake _ x h))
        (min-below max_stake _ x h)

  max_allowed-below_available :
      (c : Config F) (b : Books F) (w : Wallets F) (max_stake : F) (trade_amount : Option F) (x : F)
      → IsComparable max_stake (get_available_stake_amount c b w)
      → lt (get_available_stake_amount c b w) x ≡ true
      → lt (max_allowed_stake c b w max_stake trade_amount) x ≡ true
  unfolding max_allowed_stake
  max_allowed-below_available c b w max_stake none x e h = min-below_right max_stake _ x e h
  max_allowed-below_available c b w max_stake (some amount) x e h =
      if_both (λ m. lt m x ≡ true) (truthy amount) _ _
        (min-below _ _ x (min-below_right max_stake _ x e h)) (min-below_right max_stake _ x e h)

  -- A stake after the test against the minimum: the minimum is allowed, and it is not below it.
  raised_to_min-NotBelow :
      (tolerance : F) (min_stake : Option F) (allowed stake x : F)
      → raised_to_min tolerance min_stake allowed stake ≡ some x
      → (m : F) → min_stake ≡ some m
      → (lt allowed m ≡ false) × (lt x m ≡ false)
  unfolding raised_to_min
  raised_to_min-NotBelow tolerance none allowed stake x h m e = ground arith
  raised_to_min-NotBelow tolerance (some n) allowed stake x h m e = ground (arith, laws.lt_irrefl m)

  capped-IsValidStake :
      (c : Config F) (b : Books F) (w : Wallets F) (min_stake : Option F) (max_stake : F)
      (trade_amount : Option F) (x : F)
      → IsComparable max_stake (get_available_stake_amount c b w)
      → ((m : F)
          → min_stake ≡ some m
          → (lt (max_allowed_stake c b w max_stake trade_amount) m ≡ false) × (lt x m ≡ false))
      → IsValidStake (get_available_stake_amount c b w) max_stake min_stake (
          if lt (max_allowed_stake c b w max_stake trade_amount) x
          then max_allowed_stake c b w max_stake trade_amount
          else x)
  unfolding IsValidStake
  capped-IsValidStake c b w min_stake max_stake trade_amount x e h =
      let allowed : F = max_allowed_stake c b w max_stake trade_amount in
      if_cases (IsValidStake (get_available_stake_amount c b w) max_stake min_stake) (lt allowed x)
        allowed x
        (λ k. (
          ground (
            arith,
            max_allowed-below_available c b w max_stake trade_amount allowed e,
            laws.lt_irrefl allowed,
          ),
          ground (
            arith,
            max_allowed-below_max c b w max_stake trade_amount allowed,
            laws.lt_irrefl allowed,
          ),
          λ m q. (h m q).0,
        ))
        (λ k. (
          ground (arith, max_allowed-below_available c b w max_stake trade_amount x e),
          ground (arith, max_allowed-below_max c b w max_stake trade_amount x),
          λ m q. (h m q).1,
        ))

  abbrev IsGranted : F → F → Option F → F → Type 0
  IsGranted available max_stake min_stake r =
      (r ≡ zero) ⊎ IsValidStake available max_stake min_stake r

  capped-IsGranted :
      (c : Config F) (b : Books F) (w : Wallets F) (min_stake : Option F) (max_stake : F)
      (trade_amount o : Option F)
      → IsComparable max_stake (get_available_stake_amount c b w)
      → ((x : F)
          → o ≡ some x
          → (m : F) → min_stake ≡ some m
          → (lt (max_allowed_stake c b w max_stake trade_amount) m ≡ false) × (lt x m ≡ false))
      → IsGranted
          (get_available_stake_amount c b w)
          max_stake
          min_stake
          (capped (max_allowed_stake c b w max_stake trade_amount) o)
  capped-IsGranted c b w min_stake max_stake trade_amount none e h = inl refl
  capped-IsGranted c b w min_stake max_stake trade_amount (some x) e h =
      inr (capped-IsValidStake c b w min_stake max_stake trade_amount x e (h x refl))

  -- The stake that `validate_stake_amount` lets a trade have is 0 or a valid one. The maximum and
  -- what is available are comparable, that is, neither is NaN.
  pub validate_stake_amount-IsValidStake :
      (tolerance : F) (c : Config F) (b : Books F) (w : Wallets F) (stake min_stake : Option F)
      (max_stake : F) (trade_amount : Option F)
      → IsComparable max_stake (get_available_stake_amount c b w)
      → (validate_stake_amount tolerance c b w stake min_stake max_stake trade_amount ≡ zero)
        ⊎ IsValidStake
            (get_available_stake_amount c b w)
            max_stake
            min_stake
            (validate_stake_amount tolerance c b w stake min_stake max_stake trade_amount)
  unfolding validate_stake_amount
  validate_stake_amount-IsValidStake tolerance c b w none min_stake max_stake trade_amount e =
      inl refl
  validate_stake_amount-IsValidStake tolerance c b w (some stake) min_stake max_stake trade_amount
        e =
      let allowed : F = max_allowed_stake c b w max_stake trade_amount in
      if_both (IsGranted (get_available_stake_amount c b w) max_stake min_stake)
        (not (truthy stake)) zero _ (inl refl)
        (capped-IsGranted c b w min_stake max_stake trade_amount _ e
          (raised_to_min-NotBelow tolerance min_stake allowed stake))
