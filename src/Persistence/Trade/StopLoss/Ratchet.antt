-- ===== src/Persistence/Trade/StopLoss/Ratchet.antt =====
-- The stop loss of freqtrade/persistence/trade_model.py moves in the favourable direction only.
use mathlib.Core.Path.{subst}
use freqtrade_llm.Base.{
  ◌∙◌, Bool, true, false, not, ◌&&◌, ◌||◌, Option, none, some, List, [], ◌∷◌, if◌then◌else◌,
  is_some, ◌≡◌, refl, ◌⊎◌, inl, arith,
}
use freqtrade_llm.Base.Float.{Float, OrderLaws, Precise}
use freqtrade_llm.Exchange.Precision.{Decimals}
use freqtrade_llm.Persistence.Trade.{Trade}
use freqtrade_llm.Persistence.Trade.StopLoss.{adjust_stop_loss, stop_loss_norm, new_loss}

module _ {F : Type 0} ⦃f : Float F⦄ where
  open f use {lt}

  -- `a` is at least as protective as `b`: no lower for a long trade, no higher for a short one.
  abbrev pub AsTight : Bool → F → F → Type 0
  AsTight is_short a b = (a ≡ b) ⊎ ((if is_short then lt a b else lt b a) ≡ true)

  pub AsTight-trans :
      OrderLaws f
      → (short : Bool) (a b c : F) → AsTight short a b
      → AsTight short b c
      → AsTight short a c
  AsTight-trans laws true a b c h k = ground (arith, laws.lt_trans a b c)
  AsTight-trans laws false a b c h k = ground (arith, laws.lt_trans c b a)

-- One call: the price, the stop loss factor, and `initial`. `allow_refresh` is not given.
pub record Adjustment (F : Type 0) : Type 0 where
  pub current_price : F
  pub stoploss : Option F
  pub initial : Bool

module _ {F P : Type 0} ⦃f : Float F⦄ (pr : Precise F P) (d : Decimals F) where
  open f use {lt}

  pub adjust : Trade F → Adjustment F → Trade F
  unfolding adjust_stop_loss
  adjust t a = adjust_stop_loss pr d t a.current_price a.stoploss a.initial false

  pub adjust_all : Trade F → List (Adjustment F) → Trade F
  unfolding adjust
  adjust_all t [] = t
  adjust_all t (a ∷ rest) = adjust_all (adjust t a) rest

  -- What the calls keep, and what they may move.
  pub record Tightens (t u : Trade F) : Type 0 where
    pub started : is_some u.initial_stop_loss_pct ≡ true
    pub direction : u.is_short ≡ t.is_short
    pub initial : u.initial_stop_loss_pct ≡ t.initial_stop_loss_pct
    pub tight : AsTight t.is_short u.stop_loss t.stop_loss

  pub adjust_stop_loss-Tightens :
      (t : Trade F) (price : F) (stoploss : Option F) (initial : Bool)
      → is_some t.initial_stop_loss_pct ≡ true
      → Tightens t (adjust_stop_loss pr d t price stoploss initial false)
  unfolding adjust_stop_loss
  adjust_stop_loss-Tightens t price none initial h = ground arith
  adjust_stop_loss-Tightens t price (some x) initial h = ground arith

  pub Tightens-refl : (t : Trade F) → is_some t.initial_stop_loss_pct ≡ true → Tightens t t
  Tightens-refl t h = record { started = h; direction = refl; initial = refl; tight = inl refl }

  pub Tightens-trans : OrderLaws f → (t u v : Trade F) → Tightens t u → Tightens u v → Tightens t v
  Tightens-trans laws t u v h k = record {
    started = k.started;
    direction = k.direction ∙ h.direction;
    initial = k.initial ∙ h.initial;
    tight =
        AsTight-trans laws t.is_short v.stop_loss u.stop_loss t.stop_loss
          (subst (λ b. AsTight b v.stop_loss u.stop_loss) h.direction k.tight) h.tight;
  }

  -- However often a stop loss that has been set is adjusted without `allow_refresh`, it ends where it
  -- was or strictly higher for a long trade, strictly lower for a short one. The initial percentage
  -- and the direction of the trade stay.
  pub adjust_all-Tightens :
      OrderLaws f
      → (t : Trade F) (calls : List (Adjustment F)) → is_some t.initial_stop_loss_pct ≡ true
      → Tightens t (adjust_all t calls)
  unfolding adjust_all adjust
  adjust_all-Tightens laws t [] h = Tightens-refl t h
  adjust_all-Tightens laws t (a ∷ rest) h =
      let one = adjust_stop_loss-Tightens t a.current_price a.stoploss a.initial h in
      Tightens-trans laws t (adjust t a) (adjust_all (adjust t a) rest) one
        (adjust_all-Tightens laws (adjust t a) rest one.started)

  -- Without `initial`, a first call sets the stop loss to the rounded price and records both initial
  -- values; a later call takes the rounded price exactly when that is better for the direction of
  -- the trade, and then marks the stop loss as trailing, or when a refresh is allowed.
  adjust_stop_loss_cases :
      (t : Trade F) (price x : F) (allow_refresh : Bool)
      → let u = adjust_stop_loss pr d t price (some x) false allow_refresh in
        let norm = stop_loss_norm pr d t (new_loss pr d t price x) in
        (is_some t.initial_stop_loss_pct ≡ false
          → (u.stop_loss ≡ norm)
            × (u.initial_stop_loss ≡ some (stop_loss_norm pr d t norm))
            × (is_some u.initial_stop_loss_pct ≡ true)
            × (u.is_stop_loss_trailing ≡ t.is_stop_loss_trailing))
        × (is_some t.initial_stop_loss_pct ≡ true
            → (u.stop_loss ≡ (
                if allow_refresh
                  || (if t.is_short then lt norm t.stop_loss else lt t.stop_loss norm)
                then norm
                else t.stop_loss))
              × (u.is_stop_loss_trailing ≡ (
                  t.is_stop_loss_trailing
                  || (not allow_refresh
                      && (if t.is_short then lt norm t.stop_loss else lt t.stop_loss norm)))))
  unfolding adjust_stop_loss stop_loss_norm
  adjust_stop_loss_cases t price x allow_refresh = ground arith
