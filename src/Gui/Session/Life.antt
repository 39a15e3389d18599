-- ===== src/Gui/Session/Life.antt =====
-- The sources and the threads of src/main.c and src/gui_win32.c, by the calls that were made.
use droidcam_whip_c.Common.{
  some, refl, if-cases, ℕ, ◌+◌, ◌≡◌, Bool, true, false, List, [], ◌∷◌, none, arith, if◌then◌else◌,
}
use droidcam_whip_c.Gui.Session.{
  work, close, connect, change, SessionStep, gui_main, session_step, session_run,
  gui_start_pipeline, log, request_start, gui_stop_pipeline, request_stop, thread_begins,
  gui_pipeline_thread, new_session, Event, wait_round, Thread, Env, Session, create_thread,
  source_start, source_stop, join, no_thread, starting, waiting, ended,
}
use droidcam_whip_c.Gui.Settings.{SourceConfig, Settings}

abbrev pub threads_created : List Event → ℕ
threads_created [] = 0
threads_created (create_thread true ∷ events) = 1 + threads_created events
threads_created (_ ∷ events) = threads_created events

abbrev pub threads_joined : List Event → ℕ
threads_joined [] = 0
threads_joined (join ∷ events) = 1 + threads_joined events
threads_joined (_ ∷ events) = threads_joined events

abbrev pub sources_started : List Event → ℕ
sources_started [] = 0
sources_started (source_start config true ∷ events) = 1 + sources_started events
sources_started (_ ∷ events) = sources_started events

abbrev pub sources_stopped : List Event → ℕ
sources_stopped [] = 0
sources_stopped (source_stop ∷ events) = 1 + sources_stopped events
sources_stopped (_ ∷ events) = sources_stopped events

abbrev has_thread : Thread → Bool
has_thread no_thread = false
has_thread starting = true
has_thread waiting = true
has_thread ended = true

abbrev is_waiting : Thread → Bool
is_waiting waiting = true
is_waiting no_thread = false
is_waiting starting = false
is_waiting ended = false

-- The button shows whether there is a thread; a source is open exactly while the thread is in its
-- loop; and the calls so far add up to what is open.
pub record IsSound (s : Session) : Type 0 where
  pub button : s.running ≡ s.thread_active
  pub active : s.thread_active ≡ has_thread s.thread
  pub held : s.source ≡ is_waiting s.thread
  pub configured : s.config ≡ none → s.thread_active ≡ false
  pub threads :
      threads_created s.events ≡ threads_joined s.events + (if s.thread_active then 1 else 0)
  pub sources : sources_started s.events ≡ sources_stopped s.events + (if s.source then 1 else 0)

new-IsSound : (settings : Settings) → IsSound (new_session settings)
new-IsSound settings = ground arith

wait_round-IsSound : (s : Session) → s.thread ≡ waiting → IsSound s → IsSound (wait_round s)
unfolding wait_round
wait_round-IsSound s e v = ground arith

module _ (env : Env) where
  gui_pipeline_thread-IsSound : (s : Session) → IsSound s → IsSound (gui_pipeline_thread env s)
  unfolding gui_pipeline_thread thread_begins wait_round
  gui_pipeline_thread-IsSound s v = ground arith

  -- The thread that is asked to stop ends within two turns, so the join returns.
  two_turns-ended :
      (s : Session)
      → IsSound s
      → s.thread_active ≡ true
      → s.stop_requested ≡ true
      → (gui_pipeline_thread env (gui_pipeline_thread env s)).thread ≡ ended
  unfolding gui_pipeline_thread thread_begins wait_round
  two_turns-ended s v a b = ground arith

-- No thread and no source is left, and all calls have their counterpart.
pub record IsDone (s : Session) : Type 0 where
  pub inactive : s.thread_active ≡ false
  pub no_source : s.source ≡ false
  pub unthreaded : s.thread ≡ no_thread
  pub all_joined : threads_created s.events ≡ threads_joined s.events
  pub all_stopped : sources_started s.events ≡ sources_stopped s.events

idle-IsDone : (s : Session) → IsSound s → s.thread_active ≡ false → IsDone s
idle-IsDone s v e = ground arith

over-IsDone :
    (s : Session)
    → IsSound s
    → s.thread ≡ ended
    → IsDone (record (log join s) { thread_active = false; thread = no_thread })
over-IsDone s v e = ground arith

module _ (env : Env) where
  asked-IsSound : (s : Session) → IsSound s → IsSound (record s { stop_requested = true })
  asked-IsSound s v = ground arith

  gui_stop_pipeline-IsDone : (s : Session) → IsSound s → IsDone (gui_stop_pipeline env s)
  unfolding gui_stop_pipeline
  gui_stop_pipeline-IsDone s v =
      let asked = record s { stop_requested = true } in
      let once = gui_pipeline_thread env asked in
      let over = gui_pipeline_thread env once in
      let sound = asked-IsSound s v in
      if-cases IsDone s.thread_active
        (record (log join over) { thread_active = false; thread = no_thread }) s
        (λ e.
          over-IsDone over
            (gui_pipeline_thread-IsSound env once (gui_pipeline_thread-IsSound env asked sound))
            (two_turns-ended env asked sound e refl))
        (λ e. idle-IsDone s v e)

  request_start-IsSound : (s : Session) → IsSound s → IsSound (request_start env s)
  unfolding request_start gui_start_pipeline
  request_start-IsSound s v = ground arith

  done-IsSound : (s : Session) → IsDone s → IsSound (record s { running = false })
  done-IsSound s d = ground arith

  request_stop-IsSound : (s : Session) → IsSound s → IsSound (request_stop env s)
  unfolding request_stop
  request_stop-IsSound s v =
      if-cases IsSound s.running (record (gui_stop_pipeline env s) { running = false }) s
        (λ e. done-IsSound (gui_stop_pipeline env s) (gui_stop_pipeline-IsDone s v)) (λ e. v)

  session_step-IsSound :
      (s : Session) (t : SessionStep) → IsSound s → IsSound (session_step env s t)
  unfolding session_step
  session_step-IsSound s connect v =
      if-cases IsSound s.running (request_stop env s) (request_start env s)
        (λ e. request_stop-IsSound s v) (λ e. request_start-IsSound s v)
  session_step-IsSound s close v = request_stop-IsSound s v
  session_step-IsSound s work v = gui_pipeline_thread-IsSound env s v
  session_step-IsSound s (change settings) v = ground arith

  session_run-IsSound :
      (steps : List SessionStep) (s : Session) → IsSound s → IsSound (session_run env s steps)
  unfolding session_run
  session_run-IsSound [] s v = v
  session_run-IsSound (t ∷ steps) s v =
      session_run-IsSound steps (session_step env s t) (session_step-IsSound s t v)

-- However the clicks, the dialog, the closing of the window and the thread's turns interleave, and
-- whichever threads and sources fail to start: at any time the button shows whether there is a
-- thread, and at most one source is open, exactly while the thread waits in its loop; and when
-- `main` is through with its `gui_stop_pipeline`, the thread is gone, every thread that was created
-- has been joined, and every source that was started has been stopped.
pub gui_main-IsDone :
    (env : Env) (settings : Settings) (steps : List SessionStep)
    → IsSound (session_run env (new_session settings) steps) × IsDone (gui_main env settings steps)
unfolding gui_main
gui_main-IsDone env settings steps =
    let sound = session_run-IsSound env steps (new_session settings) (new-IsSound settings) in
    (sound, gui_stop_pipeline-IsDone env (session_run env (new_session settings) steps) sound)

-- A source that does not start leaves the button on "Disconnect": the next click starts nothing.
pub failed_start_stays :
    (env : Env) (s : Session) (config : SourceConfig)
    → IsSound s
    → s.thread ≡ starting
    → s.config ≡ some config
    → env.starts s.events ≡ false
    → let failed = gui_pipeline_thread env s in
      (failed.running ≡ true)
      × (failed.source ≡ false)
      × (sources_started (session_step env failed connect).events ≡ sources_started s.events)
      × ((session_step env failed connect).running ≡ false)
unfolding gui_pipeline_thread thread_begins wait_round session_step request_stop gui_stop_pipeline
failed_start_stays env s config v e f g = ground arith
