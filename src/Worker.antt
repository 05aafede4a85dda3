-- ===== src/Worker.antt =====
-- freqtrade/worker.py: the loop that runs a bot, with freqtrade/enums/state.py. The bot, of
-- freqtrade/freqtradebot.py, is a record of the operations that the loop calls. The calls are also
-- written down as events, in their order.
pub mod Startup
pub mod Throttle
pub mod Progress
use freqtrade_llm.Base.{
  Bool, true, false, not, ◌&&◌, ◌||◌, Option, none, some, List, [], ◌∷◌, ◌++◌, if◌then◌else◌, ltb,
}
use freqtrade_llm.Base.Float.{Float, truthy}
use freqtrade_llm.Base.Float

pub data State : Type 0 where
  running : State
  paused : State
  stopped : State
  reload_config : State

-- How `process` of the bot ends: it returns, or raises a `TemporaryError`, an
-- `OperationalException` or another exception.
pub data Outcome : Type 0 where
  returned : Outcome
  temporary_error : Outcome
  operational_exception : Outcome
  other_exception : Outcome

pub data Event (F : Type 0) : Type 0 where
  notify_status : State → Event F
  startup : Event F
  check_for_open_trades : Event F
  watchdog : State → Event F
  process_stopped : Event F
  process : Event F
  notify_exception : Event F
  sleep : F → Event F
  heartbeat : State → Event F
  reloading : Event F
  cleanup : Event F
  new_bot : Event F
  notify_reloaded : State → Event F
  ready : Event F

-- The operations of the bot that the loop calls
pub record Bot (B : Type 0) : Type 0 where
  pub state : B → State
  pub with_state : State → B → B
  pub startup : B → B
  pub check_for_open_trades : B → B
  pub process_stopped : B → B
  pub process : B → Outcome × B
  pub notify_status : State → B → B
  pub notify_exception : B → B

-- The settings `_init` reads; `timeframe` tells whether the configuration names one.
pub record Config (F : Type 0) : Type 0 where
  pub throttle_secs : F
  pub heartbeat_interval : F
  pub timeframe : Bool
  -- `timeframe_offset` and `RETRY_TIMEOUT`, 1 and 30 seconds
  pub timeframe_offset : F
  pub retry_timeout : F

-- One turn of the loop: what other threads, the commands of users, did to the bot before it, the
-- time that the call took, the time to the next candle, and the time of the heartbeat; and, should
-- the turn reload the configuration, the one that is read again and the bot that is made from it.
pub record Turn (B F : Type 0) : Type 0 where
  pub commands : B → B
  pub time_passed : F
  pub next_tft : F
  pub now : F
  pub new_config : Config F
  pub new_bot : B

-- What a turn leaves: the attributes of the worker, and what happened.
pub record Step (B F : Type 0) : Type 0 where
  pub bot : B
  pub config : Config F
  pub heartbeat_msg : F
  pub events : List (Event F)
  -- an exception leaves the loop
  pub raised : Bool

abbrev pub state_eq : State → State → Bool
state_eq running running = true
state_eq running s = false
state_eq paused paused = true
state_eq paused s = false
state_eq stopped stopped = true
state_eq stopped s = false
state_eq reload_config reload_config = true
state_eq reload_config s = false

abbrev pub is : State → Option State → Bool
is s none = false
is s (some t) = state_eq s t

abbrev pub is_active : Option State → Bool
is_active old_state = is running old_state || is paused old_state

module _ {F : Type 0} ⦃f : Float F⦄ where
  open f use {zero, add, sub, lt}

  -- The `sleep_duration` of `_throttle`
  unfoldable pub sleep_duration : F → F → Option F → F → F
  sleep_duration throttle_secs time_passed none timeframe_offset =
      Float.max (sub throttle_secs time_passed) zero
  sleep_duration throttle_secs time_passed (some next_tft) timeframe_offset =
      let duration = sub throttle_secs time_passed in
      let next_tf_with_offset = add next_tft timeframe_offset in
      let spread =
        if lt next_tft duration && lt duration next_tf_with_offset
        then next_tf_with_offset
        else duration in
      Float.max (Float.min spread next_tf_with_offset) zero

module _ {B F : Type 0} ⦃f : Float F⦄ (bot : Bot B) (c : Config F) where
  open f use {zero, sub, lt}

  -- The part of `_worker` before the call: what a new state brings about
  unfoldable pub change_state : Option State → State → F → B → Step B F
  change_state old_state state heartbeat_msg b =
      let quiet = is reload_config old_state in
      let starts = is_active (some state) && not (is_active old_state) in
      let b1 : B = if quiet then b else bot.notify_status state b in
      let b2 : B = if starts then bot.startup b1 else b1 in
      let b3 : B = if state_eq state stopped then bot.check_for_open_trades b2 else b2 in
      if is state old_state
      then record {
        bot = b;
        config = c;
        heartbeat_msg = heartbeat_msg;
        events = [];
        raised = false;
      }
      else record {
        bot = b3;
        config = c;
        heartbeat_msg = zero;
        events =
            (if quiet then [] else notify_status state ∷ [])
            ++ (if starts then startup ∷ [] else [])
            ++ (if state_eq state stopped then check_for_open_trades ∷ [] else []);
        raised = false;
      }

  -- `_process_running`, with the outcome of `process`
  unfoldable pub process_running : F → Outcome × B → Step B F
  process_running heartbeat_msg (returned, b) = record {
    bot = b;
    config = c;
    heartbeat_msg = heartbeat_msg;
    events = process ∷ [];
    raised = false;
  }
  process_running heartbeat_msg (temporary_error, b) = record {
    bot = b;
    config = c;
    heartbeat_msg = heartbeat_msg;
    events = process ∷ sleep c.retry_timeout ∷ [];
    raised = false;
  }
  process_running heartbeat_msg (operational_exception, b) = record {
    bot = bot.with_state stopped (bot.notify_exception b);
    config = c;
    heartbeat_msg = heartbeat_msg;
    events = process ∷ notify_exception ∷ [];
    raised = false;
  }
  process_running heartbeat_msg (other_exception, b) = record {
    bot = b;
    config = c;
    heartbeat_msg = heartbeat_msg;
    events = process ∷ [];
    raised = true;
  }

  -- The throttled call of a state
  unfoldable pub run_state : Turn B F → State → F → B → Step B F
  unfolding process_running sleep_duration
  run_state turn stopped heartbeat_msg b = record {
    bot = bot.process_stopped b;
    config = c;
    heartbeat_msg = heartbeat_msg;
    events =
        watchdog stopped
        ∷ process_stopped
        ∷ sleep (sleep_duration c.throttle_secs turn.time_passed none c.timeframe_offset)
        ∷ [];
    raised = false;
  }
  run_state turn reload_config heartbeat_msg b = record {
    bot = b;
    config = c;
    heartbeat_msg = heartbeat_msg;
    events = [];
    raised = false;
  }
  run_state turn state heartbeat_msg b =
      let u = process_running heartbeat_msg (bot.process b) in
      let next_tft = if c.timeframe then some turn.next_tft else none in
      record u {
        events =
            watchdog state ∷ u.events
            ++ (if u.raised
                then []
                else sleep
                    (sleep_duration c.throttle_secs turn.time_passed next_tft c.timeframe_offset)
                  ∷ []);
      }

  unfoldable pub beat : Turn B F → State → Step B F → Step B F
  beat turn state u =
      if not u.raised
        && truthy c.heartbeat_interval
        && lt c.heartbeat_interval (sub turn.now u.heartbeat_msg)
      then record u { heartbeat_msg = turn.now; events = u.events ++ heartbeat state ∷ [] }
      else u

  -- `_worker`: the state it returns is the one that it read.
  unfoldable pub worker : Turn B F → Option State → F → B → State × Step B F
  unfolding change_state run_state beat
  worker turn old_state heartbeat_msg b =
      let b1 = turn.commands b in
      let state = bot.state b1 in
      let u = change_state old_state state heartbeat_msg b1 in
      let v = run_state turn state u.heartbeat_msg u.bot in
      let w = beat turn state v in (state, record w { events = u.events ++ w.events })

  -- `_reconfigure`, with `_init`; the message names the state of the new bot.
  unfoldable pub reconfigure : Turn B F → Step B F → Step B F
  reconfigure turn u = record u {
    bot = bot.notify_status (bot.state turn.new_bot) turn.new_bot;
    config = turn.new_config;
    events =
        u.events
        ++ reloading ∷ cleanup ∷ new_bot ∷ notify_reloaded (bot.state turn.new_bot) ∷ ready ∷ [];
  }

  -- One turn of `run`
  unfoldable pub turn_of : Turn B F → Option State → F → B → State × Step B F
  unfolding worker reconfigure
  turn_of turn old_state heartbeat_msg b =
      let (state, u) = worker turn old_state heartbeat_msg b in
      if not u.raised && state_eq state reload_config
      then (state, reconfigure turn u)
      else (state, u)

module _ {B F : Type 0} ⦃f : Float F⦄ (bot : Bot B) where
  -- `run`: the events of its first turns, up to an exception that leaves the loop
  unfoldable pub run : Config F → List (Turn B F) → Option State → F → B → List (Event F)
  unfolding turn_of
  run c [] old_state heartbeat_msg b = []
  run c (turn ∷ turns) old_state heartbeat_msg b =
      let (state, u) = turn_of bot c turn old_state heartbeat_msg b in
      let rest = run u.config turns (some state) u.heartbeat_msg u.bot in
      if u.raised then u.events else u.events ++ rest
