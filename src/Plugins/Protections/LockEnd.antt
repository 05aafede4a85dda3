-- ===== src/Plugins/Protections/LockEnd.antt =====
-- `calculate_lock_end` of freqtrade/plugins/protections/iprotection.py.
use freqtrade_llm.Base.{
  ℕ, ◌+◌, ◌*◌, ◌/◌, ◌%◌, ◌≤◌, ◌<◌, true, Option, none, some, List, [], ◌∷◌, if◌then◌else◌, ltb,
  ◌==◌, any, length, ◌≡◌, refl, ◌∙◌, ◌⊎◌, inl, arith, All,
}
use freqtrade_llm.Base.Result.{ok, err, ◌>>=◌}
use freqtrade_llm.Persistence.Trade.{Trade}
use freqtrade_llm.Plugins.Protections.{
  IProtection, TimeOfDay, value_error, minute, day, close_dates, max_from, max_date, lock_end_from,
  calculate_lock_end,
}

max_from-ge :
    (best : ℕ) (ds : List ℕ) → (best ≤ max_from best ds) × All (λ d. d ≤ max_from best ds) ds
unfolding max_from
max_from-ge best [] = (omega arith, tt)
max_from-ge best (d ∷ ds) = ground (arith, max_from-ge (if ltb best d then d else best) ds)

max_from-cases :
    (best : ℕ) (ds : List ℕ)
    → (max_from best ds ≡ best) ⊎ (any (λ d. d == max_from best ds) ds ≡ true)
unfolding max_from any
max_from-cases best [] = inl refl
max_from-cases best (d ∷ ds) = ground (
  arith,
  max_from-cases (if ltb best d then d else best) ds,
  max_from-ge (if ltb best d then d else best) ds,
)

lock_end_from_stop_duration :
    (p : IProtection) (date : ℕ)
    → p.unlock_at ≡ none
    → lock_end_from p date ≡ ok (date + p.stop_duration * minute)
unfolding lock_end_from
lock_end_from_stop_duration p date h = ground arith

lock_end_from_unlock_at :
    (p : IProtection) (date : ℕ) (time : TimeOfDay)
    → p.unlock_at ≡ some time
    → time.hour < 24
    → time.minutes < 60
    → (r : ℕ) × (lock_end_from p date ≡ ok r)
      × (date ≤ r)
      × (r < date + day)
      × (r % day / minute ≡ time.hour * 60 + time.minutes)
unfolding lock_end_from
lock_end_from_unlock_at p date time h hh hm =
    let at = date / day * day + (time.hour * 60 + time.minutes) * minute + date % minute in
    (if ltb at date then at + day else at, ground arith, ground arith, ground arith, ground arith)

-- `unlock_at` was accepted by `strptime` when the configuration was validated.
abbrev pub HasValidTime : Option TimeOfDay → Type 0
HasValidTime none = Unit {0}
HasValidTime (some time) = (time.hour < 24) × (time.minutes < 60)

-- What the end of a lock is, from the last close date: after the stop duration, or the next moment
-- with the configured time of day.
abbrev EndsAfter : IProtection → ℕ → ℕ → Type 0
EndsAfter p last until =
    (p.unlock_at ≡ none → until ≡ last + p.stop_duration * minute)
    × ((time : TimeOfDay)
        → p.unlock_at ≡ some time
        → (until < last + day) × (until % day / minute ≡ time.hour * 60 + time.minutes))

lock_end_from-EndsAfter :
    (p : IProtection) (date : ℕ) (unlock_at : Option TimeOfDay)
    → p.unlock_at ≡ unlock_at
    → HasValidTime unlock_at
    → (until : ℕ) × (lock_end_from p date ≡ ok until) × (date ≤ until) × EndsAfter p date until
lock_end_from-EndsAfter p date none e h = (
  date + p.stop_duration * minute,
  lock_end_from_stop_duration p date e,
  omega arith,
  (λ _. refl, λ time k. cc),
)
lock_end_from-EndsAfter p date (some time) e h =
    let (r, eq, lo, hi, at) = lock_end_from_unlock_at p date time e h.0 h.1 in
    (r, eq, lo, (λ k. cc, λ other k. (hi, at ∙ same other k)))
  where
    same :
        (other : TimeOfDay)
        → p.unlock_at ≡ some other
        → time.hour * 60 + time.minutes ≡ other.hour * 60 + other.minutes
    same other k = ground arith

max_date-cons : (d : ℕ) (ds : List ℕ) → max_date (d ∷ ds) ≡ ok (max_from d ds)
unfolding max_date
max_date-cons d ds = refl

lock_end_of_dates :
    (p : IProtection) (dates : List ℕ)
    → HasValidTime p.unlock_at
    → 0 < length dates
    → (last until : ℕ) × (any (λ d. d == last) dates ≡ true)
      × All (λ d. d ≤ last) dates
      × ((max_date dates >>= lock_end_from p) ≡ ok until)
      × (last ≤ until)
      × EndsAfter p last until
unfolding any
lock_end_of_dates p [] v h = elim h [ ]
lock_end_of_dates p (d ∷ ds) v h =
    let (lo, bound) = max_from-ge d ds in
    let (until, e, le, after) = lock_end_from-EndsAfter p (max_from d ds) p.unlock_at refl v in
    (
      max_from d ds,
      until,
      ground (arith, max_from-cases d ds),
      (lo, bound),
      rw (max_date-cons d ds) e,
      le,
      after,
    )

module _ {F : Type 0} (p : IProtection) (ts : List (Trade F)) where
  -- If some of the trades has a close date, and `unlock_at`, where it is set, is a time of day, the
  -- call returns, and its result lies at or after the last of the close dates: exactly the stop
  -- duration after it, or, with `unlock_at`, less than a day after it and at that hour and minute.
  pub calculate_lock_end-EndsAfter :
      HasValidTime p.unlock_at
      → 0 < length (close_dates ts)
      → (last until : ℕ) × (any (λ d. d == last) (close_dates ts) ≡ true)
        × All (λ d. d ≤ last) (close_dates ts)
        × (calculate_lock_end p ts ≡ ok until)
        × (last ≤ until)
        × EndsAfter p last until
  unfolding calculate_lock_end
  calculate_lock_end-EndsAfter v h = lock_end_of_dates p (close_dates ts) v h

  -- Without a close date the call raises.
  pub calculate_lock_end_raises : close_dates ts ≡ [] → calculate_lock_end p ts ≡ err value_error
  unfolding calculate_lock_end max_date
  calculate_lock_end_raises h = rw h
