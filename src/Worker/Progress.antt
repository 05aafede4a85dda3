-- ===== src/Worker/Progress.antt =====
-- freqtrade/worker.py: how often the bot processes.
use freqtrade_llm.Base.{
  ℕ, ◌+◌, suc, Bool, true, false, not, ◌&&◌, Option, some, List, [], ◌∷◌, ◌++◌, if◌then◌else◌, ◌≡◌,
  refl, ◌∙◌, ap, arith, if_both, length, select,
}
use freqtrade_llm.Base.Float.{Float}
use freqtrade_llm.Worker.{
  State, running, paused, stopped, reload_config, Event, process, watchdog, heartbeat, sleep,
  reloading, cleanup, new_bot, notify_reloaded, ready, Bot, Config, Turn, Step, Outcome, returned,
  temporary_error, operational_exception, other_exception, is_active, state_eq, change_state,
  process_running, run_state, beat, worker, reconfigure, turn_of, run,
}

module _ {F : Type 0} where
  -- How often the bot processes in these events
  unfoldable pub processed : List (Event F) → ℕ
  processed [] = 0
  processed (process ∷ es) = suc (processed es)
  processed (e ∷ es) = processed es

  processed-append : (xs ys : List (Event F)) → processed (xs ++ ys) ≡ processed xs + processed ys
  unfolding processed
  processed-append [] ys = omega arith
  processed-append (x ∷ xs) ys = ground (arith, processed-append xs ys)

-- 1 for a state in which the bot is to process
abbrev pub due : State → ℕ
due s = if is_active (some s) then 1 else 0

nothing_lem : (F : Type 0) → processed {F = F} [] ≡ length (select (λ s. is_active (some s)) [])
unfolding processed select
nothing_lem F = refl

if_processed :
    {F : Type 0} (raised : Bool) (state : State) (es rest : List (Event F)) (others : List State)
    → processed es ≡ due state
    → processed rest ≡ length (select (λ s. is_active (some s)) others)
    → processed (if raised then es else es ++ rest)
      ≡ length (select (λ s. is_active (some s)) (state ∷ (if raised then [] else others)))
unfolding select
if_processed true state es rest others h k = ground (arith, h)
if_processed false state es rest others h k = ground (arith, processed-append es rest, h, k)

module _ {B F : Type 0} ⦃f : Float F⦄ (bot : Bot B) (c : Config F) where
  change_state-processed :
      (old_state : Option State) (state : State) (m : F) (b : B)
      → processed (change_state bot c old_state state m b).events ≡ 0
  unfolding processed change_state
  change_state-processed old_state state m b = ground arith

  process_running-processed :
      (m : F) (o : Outcome × B) → processed (process_running bot c m o).events ≡ 1
  unfolding processed process_running
  process_running-processed m (returned, b) = ground arith
  process_running-processed m (temporary_error, b) = ground arith
  process_running-processed m (operational_exception, b) = ground arith
  process_running-processed m (other_exception, b) = ground arith

  called-processed :
      (state : State) (m : F) (o : Outcome × B) (raised : Bool) (x : F)
      → processed (
          watchdog state ∷ (process_running bot c m o).events
          ++ (if raised then [] else sleep x ∷ []))
        ≡ 1
  unfolding processed
  called-processed state m o raised x = ground (
    arith,
    processed-append (process_running bot c m o).events (if raised then [] else sleep x ∷ []),
    process_running-processed m o,
  )

  run_state-processed :
      (turn : Turn B F) (state : State) (m : F) (b : B)
      → processed (run_state bot c turn state m b).events ≡ due state
  unfolding run_state processed
  run_state-processed turn running m b = called-processed running m (bot.process b) _ _
  run_state-processed turn paused m b = called-processed paused m (bot.process b) _ _
  run_state-processed turn stopped m b = refl
  run_state-processed turn reload_config m b = refl

  beat-processed :
      (turn : Turn B F) (state : State) (u : Step B F)
      → processed (beat bot c turn state u).events ≡ processed u.events
  unfolding beat processed
  beat-processed turn state u =
      if_both (λ (v : Step B F). processed v.events ≡ processed u.events) _
        (record u { heartbeat_msg = turn.now; events = u.events ++ heartbeat state ∷ [] }) u
        (ground (arith, processed-append u.events (heartbeat state ∷ []))) refl

  worker-processed :
      (turn : Turn B F) (old_state : Option State) (m : F) (b : B)
      → processed (worker bot c turn old_state m b).1.events
        ≡ due (worker bot c turn old_state m b).0
  unfolding worker
  worker-processed turn old_state m b =
      let b1 : B = turn.commands b in
      let state : State = bot.state b1 in
      let u : Step B F = change_state bot c old_state state m b1 in
      let v : Step B F = run_state bot c turn state u.heartbeat_msg u.bot in
      processed-append u.events (beat bot c turn state v).events
      ∙ ap (λ n. n + processed (beat bot c turn state v).events)
          (change_state-processed old_state state m b1)
      ∙ omega
          (arith, beat-processed turn state v, run_state-processed turn state u.heartbeat_msg u.bot)

  reconfigure-processed :
      (turn : Turn B F) (u : Step B F)
      → processed (reconfigure bot c turn u).events ≡ processed u.events
  unfolding reconfigure processed
  reconfigure-processed turn u =
      processed-append u.events
        (reloading ∷ cleanup ∷ new_bot ∷ notify_reloaded (bot.state turn.new_bot) ∷ ready ∷ [])
      ∙ omega arith

  turn_of-processed :
      (turn : Turn B F) (old_state : Option State) (m : F) (b : B)
      → processed (turn_of bot c turn old_state m b).1.events
        ≡ due (turn_of bot c turn old_state m b).0
  unfolding turn_of
  turn_of-processed turn old_state m b =
      let (state, u) = worker bot c turn old_state m b in
      if_both (λ (v : State × Step B F). processed v.1.events ≡ due v.0)
        (not u.raised && state_eq state reload_config) (state, reconfigure bot c turn u) (state, u)
        (reconfigure-processed turn u ∙ worker-processed turn old_state m b)
        (worker-processed turn old_state m b)

module _ {B F : Type 0} ⦃f : Float F⦄ (bot : Bot B) where
  -- The states that the turns of the loop read, up to an exception that leaves it
  unfoldable pub states : Config F → List (Turn B F) → Option State → F → B → List State
  states c [] old_state m b = []
  states c (turn ∷ turns) old_state m b =
      let (state, u) = turn_of bot c turn old_state m b in
      let rest = states u.config turns (some state) u.heartbeat_msg u.bot in
      state ∷ (if u.raised then [] else rest)

  -- The bot processes exactly once in every turn of the loop that finds it running or paused, and in no
  -- other turn.
  pub run-processed :
      (c : Config F) (turns : List (Turn B F)) (m : F) (b : B) (old_state : Option State)
      → processed (run bot c turns old_state m b)
        ≡ length (select (λ s. is_active (some s)) (states c turns old_state m b))
  unfolding run states
  run-processed c [] m b old_state = nothing_lem F
  run-processed c (turn ∷ turns) m b old_state =
      let (state, u) = turn_of bot c turn old_state m b in
      if_processed u.raised state u.events _ _ (turn_of-processed bot c turn old_state m b)
        (run-processed u.config turns u.heartbeat_msg u.bot (some state))
