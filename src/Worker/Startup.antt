-- ===== src/Worker/Startup.antt =====
-- freqtrade/worker.py: the bot is started before it processes.
use freqtrade_llm.Base.{
  Bool, true, false, not, ◌&&◌, Option, none, some, List, [], ◌∷◌, ◌++◌, if◌then◌else◌, ◌≡◌, refl,
  ◌∙◌, arith, if_both, if_cases,
}
use freqtrade_llm.Base.Float.{Float}
use freqtrade_llm.Worker.{
  State, running, paused, stopped, reload_config, Event, startup, new_bot, process, watchdog,
  heartbeat, sleep, reloading, cleanup, notify_reloaded, ready, Bot, Config, Turn, Step, Outcome,
  returned, temporary_error, operational_exception, other_exception, is_active, state_eq,
  change_state, process_running, run_state, beat, worker, reconfigure, turn_of, run,
}

module _ {F : Type 0} where
  -- Whether the bot is started after these events: a new bot is not, until its `startup`.
  pub started_after : Bool → List (Event F) → Bool
  started_after s [] = s
  started_after s (startup ∷ es) = started_after true es
  started_after s (new_bot ∷ es) = started_after false es
  started_after s (e ∷ es) = started_after s es

  -- Whether the bot is started whenever it processes
  pub is_orderly : Bool → List (Event F) → Bool
  is_orderly s [] = true
  is_orderly s (startup ∷ es) = is_orderly true es
  is_orderly s (new_bot ∷ es) = is_orderly false es
  is_orderly s (process ∷ es) = s && is_orderly s es
  is_orderly s (e ∷ es) = is_orderly s es

  -- The events keep the order, from a bot that is started if the old state is active, and leave one
  -- that is started if the new state is.
  IsStep : Option State → Option State → List (Event F) → Type 0
  IsStep old_state state es =
      (s : Bool)
      → (is_active old_state ≡ true → s ≡ true)
      → (is_orderly s es ≡ true) × (is_active state ≡ true → started_after s es ≡ true)

  is_orderly-append :
      (s : Bool) (xs ys : List (Event F))
      → is_orderly s (xs ++ ys) ≡ is_orderly s xs && is_orderly (started_after s xs) ys
  unfolding is_orderly started_after
  is_orderly-append s [] ys = refl
  is_orderly-append s (x ∷ xs) ys = ground (
    arith,
    is_orderly-append s xs ys,
    is_orderly-append true xs ys,
    is_orderly-append false xs ys,
  )

  started_after-append :
      (s : Bool) (xs ys : List (Event F))
      → started_after s (xs ++ ys) ≡ started_after (started_after s xs) ys
  unfolding started_after
  started_after-append s [] ys = refl
  started_after-append s (x ∷ xs) ys = ground (
    arith,
    started_after-append s xs ys,
    started_after-append true xs ys,
    started_after-append false xs ys,
  )

  IsStep-append :
      (a b c : Option State) (xs ys : List (Event F))
      → IsStep a b xs
      → IsStep b c ys
      → IsStep a c (xs ++ ys)
  unfolding IsStep
  IsStep-append a b c xs ys h k s e =
      let (o, t) = h s e in
      let (p, u) = k (started_after s xs) t in
      (rw (is_orderly-append s xs ys) (ground arith), λ i. rw (started_after-append s xs ys) (u i))

module _ {B F : Type 0} ⦃f : Float F⦄ (bot : Bot B) (c : Config F) where
  change_state-IsStep :
      (old_state : Option State) (state : State) (m : F) (b : B)
      → IsStep old_state (some state) (change_state bot c old_state state m b).events
  unfolding IsStep change_state is_orderly started_after
  change_state-IsStep old_state state m b s h = (ground arith, λ i. ground arith)

  process_running-IsStep :
      (state : State) (m : F) (o : Outcome × B)
      → is_active (some state) ≡ true
      → IsStep (some state) (some state) (process_running bot c m o).events
  unfolding IsStep process_running is_orderly started_after
  process_running-IsStep state m (returned, b) a s h = (ground arith, h)
  process_running-IsStep state m (temporary_error, b) a s h = (ground arith, h)
  process_running-IsStep state m (operational_exception, b) a s h = (ground arith, h)
  process_running-IsStep state m (other_exception, b) a s h = (ground arith, h)

  sleep_lem :
      (raised : Bool) (x : F) (s : Bool)
      → (is_orderly s (if raised then [] else sleep x ∷ []) ≡ true)
        × (started_after s (if raised then [] else sleep x ∷ []) ≡ s)
  unfolding is_orderly started_after
  sleep_lem true x s = (refl, refl)
  sleep_lem false x s = (refl, refl)

  heartbeat-IsStep : (a : Option State) (state : State) → IsStep {F = F} a a (heartbeat state ∷ [])
  unfolding IsStep is_orderly started_after
  heartbeat-IsStep a state s h = (refl, h)

  -- A turn in an active state, whatever comes after its call that is not a call
  called-IsStep :
      (state : State) (m : F) (o : Outcome × B) (rest : List (Event F))
      → is_active (some state) ≡ true
      → ((s : Bool) → (is_orderly s rest ≡ true) × (started_after s rest ≡ s))
      → IsStep
          (some state)
          (some state)
          (watchdog state ∷ (process_running bot c m o).events ++ rest)
  unfolding IsStep is_orderly started_after
  called-IsStep state m o rest a q s h =
      IsStep-append (some state) (some state) (some state) (process_running bot c m o).events rest
        (process_running-IsStep state m o a) (λ r k. ((q r).0, λ i. (q r).1 ∙ k i)) s h

  run_state-IsStep :
      (turn : Turn B F) (state : State) (m : F) (b : B)
      → IsStep (some state) (some state) (run_state bot c turn state m b).events
  unfolding run_state IsStep is_orderly started_after
  run_state-IsStep turn running m b s h =
      called-IsStep running m (bot.process b) _ refl (sleep_lem _ _) s h
  run_state-IsStep turn paused m b s h =
      called-IsStep paused m (bot.process b) _ refl (sleep_lem _ _) s h
  run_state-IsStep turn stopped m b s h = (refl, h)
  run_state-IsStep turn reload_config m b s h = (refl, h)

  beat-IsStep :
      (turn : Turn B F) (state : State) (a : Option State) (u : Step B F)
      → IsStep a (some state) u.events
      → IsStep a (some state) (beat bot c turn state u).events
  unfolding beat
  beat-IsStep turn state a u h =
      if_both (λ (v : Step B F). IsStep a (some state) v.events) _
        (record u { heartbeat_msg = turn.now; events = u.events ++ heartbeat state ∷ [] }) u
        (IsStep-append a (some state) (some state) u.events (heartbeat state ∷ []) h
          (heartbeat-IsStep (some state) state))
        h

  worker-IsStep :
      (turn : Turn B F) (old_state : Option State) (m : F) (b : B)
      → IsStep old_state
          (some (worker bot c turn old_state m b).0)
          (worker bot c turn old_state m b).1.events
  unfolding worker
  worker-IsStep turn old_state m b =
      let b1 : B = turn.commands b in
      let state : State = bot.state b1 in
      let u : Step B F = change_state bot c old_state state m b1 in
      IsStep-append old_state (some state) (some state) u.events _
        (change_state-IsStep old_state state m b1)
        (beat-IsStep turn state (some state) (run_state bot c turn state u.heartbeat_msg u.bot)
          (run_state-IsStep turn state u.heartbeat_msg u.bot))

  -- A new bot is not started, and its state is not that of the last turn.
  new_bot-IsStep :
      (state : State)
      → IsStep {F = F}
          (some reload_config)
          (some reload_config)
          (reloading ∷ cleanup ∷ new_bot ∷ notify_reloaded state ∷ ready ∷ [])
  unfolding IsStep is_orderly started_after
  new_bot-IsStep state s h = (refl, λ i. ground arith)

  reconfigure-IsStep :
      (turn : Turn B F) (a : Option State) (state : State) (u : Step B F)
      → state_eq state reload_config ≡ true
      → IsStep a (some state) u.events
      → IsStep a (some state) (reconfigure bot c turn u).events
  unfolding reconfigure
  reconfigure-IsStep turn a running u e h = ground arith
  reconfigure-IsStep turn a paused u e h = ground arith
  reconfigure-IsStep turn a stopped u e h = ground arith
  reconfigure-IsStep turn a reload_config u e h =
      IsStep-append a (some reload_config) (some reload_config) u.events _ h
        (new_bot-IsStep (bot.state turn.new_bot))

  turn_of-IsStep :
      (turn : Turn B F) (old_state : Option State) (m : F) (b : B)
      → IsStep old_state
          (some (turn_of bot c turn old_state m b).0)
          (turn_of bot c turn old_state m b).1.events
  unfolding turn_of
  turn_of-IsStep turn old_state m b =
      let (state, u) = worker bot c turn old_state m b in
      if_cases (λ (v : State × Step B F). IsStep old_state (some v.0) v.1.events)
        (not u.raised && state_eq state reload_config) (state, reconfigure bot c turn u) (state, u)
        (λ e.
          reconfigure-IsStep turn old_state state u (ground arith)
            (worker-IsStep turn old_state m b))
        (λ e. worker-IsStep turn old_state m b)

module _ {B F : Type 0} ⦃f : Float F⦄ (bot : Bot B) where
  run-is_orderly_from :
      (c : Config F) (turns : List (Turn B F)) (old_state : Option State) (m : F) (b : B) (s : Bool)
      → (is_active old_state ≡ true → s ≡ true)
      → is_orderly s (run bot c turns old_state m b) ≡ true
  unfolding run is_orderly IsStep
  run-is_orderly_from c [] old_state m b s h = refl
  run-is_orderly_from c (turn ∷ turns) old_state m b s h =
      let (state, u) = turn_of bot c turn old_state m b in
      let (o, t) = turn_of-IsStep bot c turn old_state m b s h in
      if_both (λ (es : List (Event F)). is_orderly s es ≡ true) u.raised u.events _ o
        (is_orderly-append s u.events (run bot u.config turns (some state) u.heartbeat_msg u.bot)
          ∙ ground (
            arith,
            o,
            run-is_orderly_from u.config turns (some state) u.heartbeat_msg u.bot
                (started_after s u.events) t,
          ))

  -- However the commands of users change the state of the bot, whatever its processing raises, and
  -- whatever configuration is read when it is reloaded,
  -- the loop lets the bot process only when it was started, by `startup`, after it was created.
  pub run-is_orderly :
      (c : Config F) (turns : List (Turn B F)) (m : F) (b : B)
      → is_orderly false (run bot c turns none m b) ≡ true
  run-is_orderly c turns m b = run-is_orderly_from c turns none m b false (λ h. h)
