-- ===== src/Strategy/Roi.antt =====
-- `min_roi_reached` of freqtrade/strategy/interface.py and the choice of the ROI entry.
use freqtrade_llm.Base.{
  ℕ, ◌-◌, ◌/◌, ◌≤◌, ◌<◌, Bool, true, false, ◌||◌, Option, none, some, List, [], ◌∷◌, if◌then◌else◌,
  leb, ltb, ◌==◌, ◌≡◌, ◌⊎◌, inl, inr, arith, All, any, Bool-cases, leb→le,
}
use freqtrade_llm.Base.Float.{Float, OrderLaws}
use freqtrade_llm.Exchange.Precision.{Decimals}
use freqtrade_llm.Persistence.Trade.{Trade}
use freqtrade_llm.Strategy.{Strategy, Callbacks}

-- `max(x for x in keys if x <= trade_dur)`
unfoldable pub roi_key : List ℕ → ℕ → Option ℕ
roi_key [] trade_dur = none
roi_key (k ∷ ks) trade_dur =
    let rest = roi_key ks trade_dur in
    if leb k trade_dur
    then elim rest [ none ↦ some k | some best ↦ some (if ltb best k then k else best) ]
    else rest

module _ {F : Type 0} where
  -- `self.minimal_roi[key]`
  unfoldable pub at_key : List (ℕ × F) → ℕ → Option F
  at_key [] k = none
  at_key ((j, v) ∷ table) k = if j == k then some v else at_key table k

  abbrev pub keys : List (ℕ × F) → List ℕ
  keys [] = []
  keys ((j, v) ∷ table) = j ∷ keys table

  -- The entry of the table with the highest key that the duration has reached.
  unfoldable pub table_entry : List (ℕ × F) → ℕ → Option (ℕ × F)
  unfolding roi_key at_key
  table_entry table trade_dur = elim (roi_key (keys table) trade_dur) [
    | none ↦ none
    | some k ↦ elim (at_key table k) [ none ↦ none | some v ↦ some (k, v) ]
  ]

module _ {F : Type 0} ⦃f : Float F⦄ (d : Decimals F) (s : Strategy F) (calls : Callbacks F) where
  open f use {lt}

  unfoldable pub valid_roi : Option F → Option F
  valid_roi none = none
  valid_roi (some x) = if d.isnan x || d.isinf x then none else some x

  unfoldable pub lower_roi : ℕ → Option F → Option (ℕ × F) → Option (ℕ × F)
  lower_roi trade_dur none entry = entry
  lower_roi trade_dur (some custom) none = some (trade_dur, custom)
  lower_roi trade_dur (some custom) (some (k, min_roi)) =
      if lt custom min_roi then some (trade_dur, custom) else some (k, min_roi)

  unfoldable pub min_roi_reached_entry : Trade F → ℕ → ℕ → Option (ℕ × F)
  unfolding valid_roi lower_roi table_entry
  min_roi_reached_entry t trade_dur current_time =
      let custom =
        if s.use_custom_roi then valid_roi (calls.custom_roi t current_time trade_dur) else none in
      lower_roi trade_dur custom (table_entry s.minimal_roi trade_dur)

  -- Minutes since the trade was opened; the current time is not before that.
  abbrev pub trade_duration : Trade F → ℕ → ℕ
  trade_duration t current_time = (current_time - t.open_date) / 60_000_000

  -- `current_profit > roi`, for an entry that is there
  unfoldable pub exceeds : F → Option (ℕ × F) → Bool
  exceeds profit none = false
  exceeds profit (some (k, roi)) = lt roi profit

  unfoldable pub min_roi_reached : Trade F → F → ℕ → Bool
  unfolding min_roi_reached_entry exceeds
  min_roi_reached t current_profit current_time =
      exceeds current_profit (min_roi_reached_entry t (trade_duration t current_time) current_time)

-- The entry that is looked for in a table: no entry has been reached, or it is one with the highest
-- key among those that have been.
data IsRoiKey (ks : List ℕ) (trade_dur : ℕ) : Option ℕ → Type 0 where
  unreached : All (λ k. trade_dur < k) ks → IsRoiKey ks trade_dur none
  reached :
      (k : ℕ)
      → k ≤ trade_dur
      → any (λ j. j == k) ks ≡ true
      → All (λ j. (j ≤ k) ⊎ (trade_dur < j)) ks
      → IsRoiKey ks trade_dur (some k)

All-weaken :
    (a b dur : ℕ) (ks : List ℕ)
    → a ≤ b
    → All (λ j. (j ≤ a) ⊎ (dur < j)) ks
    → All (λ j. (j ≤ b) ⊎ (dur < j)) ks
All-weaken a b dur [] h k = tt
All-weaken a b dur (j ∷ js) h (inl le, rest) = (inl (omega arith), All-weaken a b dur js h rest)
All-weaken a b dur (j ∷ js) h (inr lt, rest) = (inr lt, All-weaken a b dur js h rest)

ahead : (dur k : ℕ) (ks : List ℕ) → All (λ j. dur < j) ks → All (λ j. (j ≤ k) ⊎ (dur < j)) ks
ahead dur k [] h = tt
ahead dur k (j ∷ js) h = (inr h.0, ahead dur k js h.1)

-- The chosen key is the highest one that the trade's duration has reached; there is none exactly
-- when every key lies ahead.
roi_key-IsRoiKey : (ks : List ℕ) (dur : ℕ) → IsRoiKey ks dur (roi_key ks dur)
unfolding roi_key any
roi_key-IsRoiKey [] dur = unreached tt
roi_key-IsRoiKey (k ∷ ks) dur = step (roi_key ks dur) (roi_key-IsRoiKey ks dur)
  where
    step :
        (best : Option ℕ)
        → IsRoiKey ks dur best
        → IsRoiKey (k ∷ ks) dur (
            if leb k dur
            then elim best [ none ↦ some k | some b ↦ some (if ltb b k then k else b) ]
            else best)
    step none (unreached h) = elim (Bool-cases (leb k dur)) [
      | inl e ↦
          rw e (reached k (leb→le k dur e) (ground arith) (inl (omega arith), ahead dur k ks h))
      | inr e ↦ rw e (unreached (ground arith, h))
    ]
    step (some b) (reached b' le m h) = elim (Bool-cases (leb k dur)) [
      | inl e ↦ rw e (elim (Bool-cases (ltb b k)) [
        | inl up ↦ rw up (
            reached k (leb→le k dur e) (ground arith)
              (inl (omega arith), All-weaken b k dur ks (ground arith) h))
        | inr down ↦ rw down (reached b le (ground arith) (inl (ground arith), h))
      ])
      | inr e ↦ rw e (reached b le (ground arith) (inr (ground arith), h))
    ]

module _ {F : Type 0} ⦃f : Float F⦄ (d : Decimals F) (s : Strategy F) (calls : Callbacks F) where
  exceeds-lower_roi :
      OrderLaws f
      → (dur : ℕ) (custom : Option F) (entry : Option (ℕ × F)) (profit : F)
      → exceeds d s calls profit entry ≡ true
      → exceeds d s calls profit (lower_roi d s calls dur custom entry) ≡ true
  unfolding exceeds lower_roi
  exceeds-lower_roi laws dur none entry profit h = h
  exceeds-lower_roi laws dur (some c) none profit h = absurd (cc)
  exceeds-lower_roi laws dur (some c) (some (k, roi)) profit h =
      ground (arith, laws.lt_trans c roi profit)

  -- A custom ROI can only bring the exit forward: whenever the ROI table alone asks for an exit, the
  -- strategy asks for it with its custom ROI as well.
  min_roi_reached_mono :
      OrderLaws f
      → (t : Trade F) (profit : F) (now : ℕ)
      → min_roi_reached d (record s { use_custom_roi = false }) calls t profit now ≡ true
      → min_roi_reached d s calls t profit now ≡ true
  unfolding min_roi_reached
  min_roi_reached_mono laws t profit now h =
      exceeds-lower_roi laws (trade_duration d s calls t now) _ _ profit h
