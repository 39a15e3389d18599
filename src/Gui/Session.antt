-- ===== src/Gui/Session.antt =====
-- The connect button of src/gui_win32.c and the thread behind it in src/main.c: `request_start` and
-- `request_stop` with their callbacks `gui_start_pipeline` and `gui_stop_pipeline`, and
-- `gui_pipeline_thread`. The window's messages and the thread's work interleave in any order.
pub mod Life
use droidcam_whip_c.Common.{Bool, true, false, List, [], ◌∷◌, Option, none, some, if◌then◌else◌}
use droidcam_whip_c.Gui.Settings.{Settings, SourceConfig, gui_get_config}

pub data Event : Type 0 where
  create_thread : Bool → Event
  source_start : SourceConfig → Bool → Event
  source_stop : Event
  join : Event

-- Whether a thread is created, and whether the source starts, by the events before.
pub record Env : Type 0 where
  pub creates : List Event → Bool
  pub starts : List Event → Bool

-- How far `gui_pipeline_thread` is: before `droidcam_source_start` returns, in its loop, or behind.
pub data Thread : Type 0 where
  no_thread starting waiting ended : Thread

-- `running` of `WinGui` with its settings, and `struct gui_pipeline`.
pub record Session : Type 0 where
  pub running : Bool
  pub settings : Settings
  pub thread_active : Bool
  pub stop_requested : Bool
  pub source : Bool
  pub config : Option SourceConfig
  pub thread : Thread
  pub events : List Event

abbrev pub new_session : Settings → Session
new_session settings = record {
  running = false;
  settings = settings;
  thread_active = false;
  stop_requested = false;
  source = false;
  config = none;
  thread = no_thread;
  events = [];
}

abbrev pub log : Event → Session → Session
log e s = record s { events = e ∷ s.events }

-- The loop of the thread, each time that it looks at `stop_requested`.
unfoldable pub wait_round : Session → Session
wait_round s =
    if s.stop_requested then record (log source_stop s) { source = false; thread = ended } else s

-- The thread up to its loop, by what `droidcam_source_start` returns.
started : SourceConfig → Bool → Session → Session
started config ok s = record (log (source_start config ok) s) {
  source = ok;
  thread = if ok then waiting else ended;
}

-- `config` is set whenever there is a thread.
begin : Bool → Session → Option SourceConfig → Session
begin ok s (some config) = started config ok s
begin ok s none = s

-- ID_CONNECT, the dialog with its result, WM_CLOSE, and a turn of the thread.
pub data SessionStep : Type 0 where
  connect close work : SessionStep
  change : Settings → SessionStep

module _ (env : Env) where
  unfoldable pub thread_begins : Session → Session
  unfolding begin started
  thread_begins s = begin (env.starts s.events) s s.config

  -- What the thread does when it is its turn.
  turn : Session → Thread → Session
  turn s no_thread = s
  turn s starting = thread_begins s
  turn s waiting = wait_round s
  turn s ended = s

  unfoldable pub gui_pipeline_thread : Session → Session
  unfolding turn
  gui_pipeline_thread s = turn s s.thread

  created : Session → Bool → Session × Bool
  created s true =
      (record (log (create_thread true) s) { thread_active = true; thread = starting }, true)
  created s false = (record (log (create_thread false) s) { thread_active = false }, false)

  -- The second component: whether it returns 0.
  unfoldable pub gui_start_pipeline : Session → Session × Bool
  unfolding created
  gui_start_pipeline s =
      if s.thread_active
      then (s, true)
      else created (record s { config = some (gui_get_config s.settings); stop_requested = false })
          (env.creates s.events)

  -- With the stop requested the thread ends in two turns, which `pthread_join` waits for.
  unfoldable pub gui_stop_pipeline : Session → Session
  gui_stop_pipeline s =
      if s.thread_active
      then (let asked = record s { stop_requested = true } in
          let over = gui_pipeline_thread (gui_pipeline_thread asked) in
          record (log join over) { thread_active = false; thread = no_thread })
      else s

  unfoldable pub request_start : Session → Session
  request_start s =
      if s.running
      then s
      else (let (s', ok) = gui_start_pipeline s in if ok then record s' { running = true } else s')

  unfoldable pub request_stop : Session → Session
  request_stop s = if s.running then record (gui_stop_pipeline s) { running = false } else s

  unfoldable pub session_step : Session → SessionStep → Session
  session_step s connect = if s.running then request_stop s else request_start s
  session_step s close = request_stop s
  session_step s work = gui_pipeline_thread s
  session_step s (change settings) = record s { settings = settings }

  unfoldable pub session_run : Session → List SessionStep → Session
  session_run s [] = s
  session_run s (t ∷ steps) = session_run (session_step s t) steps

  -- `main` from `gui_run` on: the messages, then `gui_stop_pipeline`.
  unfoldable pub gui_main : Settings → List SessionStep → Session
  gui_main settings steps = gui_stop_pipeline (session_run (new_session settings) steps)
