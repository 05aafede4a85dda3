-- ===== src/Worker/Throttle.antt =====
-- freqtrade/worker.py: how long the loop sleeps between two turns.
use freqtrade_llm.Base.{
  Bool, false, ◌&&◌, some, if◌then◌else◌, ◌≡◌, refl, ◌⊎◌, inl, inr, arith, if_both,
}
use freqtrade_llm.Base.Float.{Float, OrderLaws}
use freqtrade_llm.Base.Float
use freqtrade_llm.Worker.{sleep_duration}

module _ {F : Type 0} ⦃f : Float F⦄ (laws : OrderLaws f) where
  open f use {zero, add, sub, lt}

  -- Between the new candle and the time at which it is certain to be there
  abbrev pub is_early : F → F → F → Bool
  is_early next_tft next_tf_with_offset x = lt next_tft x && lt x next_tf_with_offset

  -- A duration within the bound of the next candle, and not in the gap before it
  unfoldable pub IsTimely : F → F → F → Type 0
  IsTimely next_tft bound x = (lt bound x ≡ false) × (is_early next_tft bound x ≡ false)

  spread-IsTimely :
      (next_tft bound duration : F)
      → IsTimely next_tft bound
          (Float.min (if is_early next_tft bound duration then bound else duration) bound)
  unfolding IsTimely
  spread-IsTimely next_tft bound duration =
      (ground (arith, laws.lt_irrefl bound), ground (arith, laws.lt_irrefl bound))

  -- Before a candle, the sleep is not negative, and it is 0 or neither longer than until the candle is
  -- certain to be there nor over between the new candle and that time. What is left of the throttle
  -- is slept in full if it ends before the candle.
  pub sleep_duration-IsTimely :
      (throttle_secs time_passed next_tft timeframe_offset : F)
      → (lt (sleep_duration throttle_secs time_passed (some next_tft) timeframe_offset) zero
          ≡ false)
        × ((sleep_duration throttle_secs time_passed (some next_tft) timeframe_offset ≡ zero)
            ⊎ IsTimely next_tft
                (add next_tft timeframe_offset)
                (sleep_duration throttle_secs time_passed (some next_tft) timeframe_offset))
        × (lt next_tft (sub throttle_secs time_passed) ≡ false
            → lt (add next_tft timeframe_offset) (sub throttle_secs time_passed) ≡ false
            → sleep_duration throttle_secs time_passed (some next_tft) timeframe_offset
              ≡ Float.max (sub throttle_secs time_passed) zero)
  unfolding sleep_duration
  sleep_duration-IsTimely throttle_secs time_passed next_tft timeframe_offset =
      let bound : F = add next_tft timeframe_offset in
      let duration : F = sub throttle_secs time_passed in
      let s : F = Float.min (if is_early next_tft bound duration then bound else duration) bound in
      (
        ground (arith, laws.lt_irrefl zero),
        if_both (λ r. (r ≡ zero) ⊎ IsTimely next_tft bound r) (lt s zero) zero s (inl refl)
            (inr (spread-IsTimely next_tft bound duration)),
        λ h k. ground arith,
      )
