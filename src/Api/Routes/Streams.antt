-- ===== src/Api/Routes/Streams.antt =====
-- The handlers of a terminal and of a log leave alone what is beside the engine.
use matrisea.Common.{
  Str, refl, ◌∙◌, Option, none, some, List, [], ◌∷◌, Result, ok, err, panic, Error, Action, crash,
}
use matrisea.Common.Keeps.{Keeps, Keeps-bind, Keeps-pure, Keeps-catch, keeps}
use matrisea.Vmm.Host.{Vmm, Host, World}
use matrisea.Vmm.Frames.{
  IsBeside, Keeps-is_managed_running_container, Keeps-get_container_id_by_name,
  Keeps-container_exec,
}
use matrisea.Vmm.Exec.{
  kill_pid, kill_pids, container_kill_process, container_kill_terminal, container_attach_to_process,
  container_attach_to_terminal, container_terminal_resize,
}
use matrisea.Vmm.Transfer.{container_file_exists}
use matrisea.Api.Socket.{
  Socket, MessageType, text_message, binary_message, Attached, write_input, close_input,
  with_deferred, call, tell,
}
use matrisea.Api.Logstream.{
  ClientMessage, log_file, to_process, ws_log_reader_copy, log_cleanup, follow_log, attach_log,
  found_log, stream_log, log_stream_handler,
}
use matrisea.Api.Terminal.{
  Command, input, resize, malformed, command_of, execute, on_message, ws_reader_copy,
  terminal_cleanup, in_terminal, terminal_handler,
}

module _ (H : Host) (v : Vmm) {V : Type 0} (view : World H → V) (B : IsBeside H view) where
  Keeps-kill_pid : (name pid : Str) → Keeps view (kill_pid H v name pid)
  Keeps-kill_pid name pid = search (keeps, Keeps-container_exec H view B) depth 8

  Keeps-kill_pids : (name : Str) (pids : List Str) → Keeps view (kill_pids H v name pids)
  unfolding kill_pids
  Keeps-kill_pids name [] = Keeps-pure view tt
  Keeps-kill_pids name (pid ∷ pids) =
      Keeps-bind view _ _ (Keeps-kill_pid name pid) (λ _. Keeps-kill_pids name pids)

  Keeps-container_kill_process : (name cmd : Str) → Keeps view (container_kill_process H v name cmd)
  unfolding container_kill_process
  Keeps-container_kill_process name cmd =
      search
        (
          keeps,
          Keeps-is_managed_running_container H v view B,
          Keeps-container_exec H view B,
          Keeps-kill_pids,
        )
        depth 12

  Keeps-container_kill_terminal : (name : Str) → Keeps view (container_kill_terminal H v name)
  unfolding container_kill_terminal
  Keeps-container_kill_terminal name =
      search (keeps, Keeps-is_managed_running_container H v view B, Keeps-container_kill_process)

  Keeps-container_attach_to_process :
      (name : Str) (cmd env : List Str) → Keeps view (container_attach_to_process H v name cmd env)
  unfolding container_attach_to_process
  Keeps-container_attach_to_process name cmd env =
      search (keeps, Keeps-is_managed_running_container H v view B, B.engine) depth 12

  Keeps-container_attach_to_terminal :
      (name : Str) → Keeps view (container_attach_to_terminal H v name)
  unfolding container_attach_to_terminal
  Keeps-container_attach_to_terminal name =
      search
        (keeps, Keeps-is_managed_running_container H v view B, Keeps-container_attach_to_process)

  Keeps-container_file_exists : (name path : Str) → Keeps view (container_file_exists H v name path)
  unfolding container_file_exists
  Keeps-container_file_exists name path =
      search (keeps, Keeps-get_container_id_by_name H v view B, B.engine) depth 10

module _ (H : Host) (S : Socket) (v : Vmm) {V : Type 0} (view : World H → V)
    (B : IsBeside H view) where
  -- What the view shows of the world beside the connections.
  abbrev seen : Attached H S → V
  seen s = view s.world

  Keeps-call : {A : Type 0} (m : Action (World H) A) → Keeps view m → Keeps seen (call H S m)
  Keeps-call m h = record { same = λ s. h.same s.world }

  Keeps-write_input : (p : Str) → Keeps seen (write_input H S p)
  unfolding write_input
  Keeps-write_input p = record { same = λ s. refl }

  Keeps-close_input : Keeps seen (close_input H S)
  unfolding close_input
  Keeps-close_input = record { same = λ s. refl }

  Keeps-with_deferred :
      (m d : Action (Attached H S) (Unit {0}))
      → Keeps seen m
      → Keeps seen d
      → Keeps seen (with_deferred H S m d)
  Keeps-with_deferred m d h k = record { same = λ s. k.same (m s).1 ∙ h.same s }

  Keeps-tell : (msg : Str) → Keeps seen (tell H S msg)
  unfolding tell
  Keeps-tell msg = record { same = λ s. refl }

  Keeps-crash : Keeps seen (crash {A = Unit {0}})
  Keeps-crash = record { same = λ s. refl }

  Keeps-execute : (id : Str) (c : Result Command) → Keeps seen (execute H S v id c)
  unfolding execute container_terminal_resize
  Keeps-execute id (ok (input p)) = Keeps-write_input p
  Keeps-execute id (ok (resize lines cols)) =
      Keeps-catch seen _ _ (Keeps-call _ (B.engine _ (H.engine.exec_resize id lines cols)))
        (λ e. Keeps-pure seen tt)
  Keeps-execute id (ok malformed) = Keeps-pure seen tt
  Keeps-execute id (err e) = Keeps-pure seen tt
  Keeps-execute id panic = Keeps-crash

  Keeps-on_message : (id : Str) (t : MessageType) (p : Str) → Keeps seen (on_message H S v id t p)
  Keeps-on_message id text_message p = Keeps-execute id (command_of p)
  Keeps-on_message id binary_message p = Keeps-pure seen tt

  Keeps-ws_reader_copy :
      (id : Str) (ms : List ClientMessage) → Keeps seen (ws_reader_copy H S v id ms)
  unfolding ws_reader_copy
  Keeps-ws_reader_copy id [] = Keeps-pure seen tt
  Keeps-ws_reader_copy id (m ∷ ms) =
      Keeps-bind seen _ _ (Keeps-on_message id m.type m.payload) (λ _. Keeps-ws_reader_copy id ms)

  Keeps-terminal_cleanup : (name : Str) → Keeps seen (terminal_cleanup H S v name)
  unfolding terminal_cleanup
  Keeps-terminal_cleanup name =
      search
        (
          keeps,
          Keeps-write_input,
          Keeps-close_input,
          Keeps-call,
          Keeps-container_kill_terminal H v view B,
        )
        depth 8

  Keeps-in_terminal :
      (error_text : Error → Str) (name : Str) (client : List ClientMessage) (r : Result (Str × Str))
      → Keeps seen (in_terminal H S v error_text name client r)
  Keeps-in_terminal error_text name client (ok session) =
      Keeps-with_deferred _ _ (Keeps-ws_reader_copy session.0 client) (Keeps-terminal_cleanup name)
  Keeps-in_terminal error_text name client (err e) = Keeps-tell _
  Keeps-in_terminal error_text name client panic = Keeps-crash

  pub Keeps-terminal_handler :
      (error_text : Error → Str) (name : Str) (client : List ClientMessage)
      → Keeps seen (terminal_handler H S v error_text name client)
  unfolding terminal_handler
  Keeps-terminal_handler error_text name client =
      Keeps-bind seen _ _
        (record { same = λ s. (Keeps-container_attach_to_terminal H v view B _).same s.world })
        (λ r. Keeps-in_terminal error_text _ client r)

  Keeps-to_process : (t : MessageType) (p : Str) → Keeps seen (to_process H S t p)
  Keeps-to_process text_message p = Keeps-write_input p
  Keeps-to_process binary_message p = Keeps-pure seen tt

  Keeps-ws_log_reader_copy : (ms : List ClientMessage) → Keeps seen (ws_log_reader_copy H S ms)
  unfolding ws_log_reader_copy
  Keeps-ws_log_reader_copy [] = Keeps-pure seen tt
  Keeps-ws_log_reader_copy (m ∷ ms) =
      Keeps-bind seen _ _ (Keeps-to_process m.type m.payload) (λ _. Keeps-ws_log_reader_copy ms)

  Keeps-log_cleanup : (name file : Str) → Keeps seen (log_cleanup H S v name file)
  unfolding log_cleanup
  Keeps-log_cleanup name file =
      search
        (
          keeps,
          Keeps-write_input,
          Keeps-close_input,
          Keeps-call,
          Keeps-container_kill_process H v view B,
        )
        depth 8

  module _ (error_text : Error → Str) (client : List ClientMessage) (name : Str) where
    Keeps-follow_log :
        (file : Str) (r : Result (Str × Str))
        → Keeps seen (follow_log H S error_text v client name file r)
    Keeps-follow_log file (ok session) =
        Keeps-with_deferred _ _ (Keeps-ws_log_reader_copy client) (Keeps-log_cleanup name file)
    Keeps-follow_log file (err e) = Keeps-tell _
    Keeps-follow_log file panic = Keeps-crash

    Keeps-attach_log : (file : Str) → Keeps seen (attach_log H S error_text v client name file)
    Keeps-attach_log file =
        Keeps-bind seen _ _
          (record { same = λ s. (Keeps-container_attach_to_process H v view B _ _ _).same s.world })
          (λ r. Keeps-follow_log file r)

    Keeps-found_log :
        (file : Str) (r : Result (Unit {0}))
        → Keeps seen (found_log H S error_text v client name file r)
    Keeps-found_log file (ok u) = Keeps-attach_log file
    Keeps-found_log file (err e) = Keeps-tell _
    Keeps-found_log file panic = Keeps-crash

    Keeps-stream_log :
        (file : Option Str) → Keeps seen (stream_log H S error_text v client name file)
    Keeps-stream_log none = Keeps-pure seen tt
    Keeps-stream_log (some file) =
        Keeps-bind seen _ _
          (record { same = λ s. (Keeps-container_file_exists H v view B name file).same s.world })
          (λ r. Keeps-found_log file r)

  pub Keeps-log_stream_handler :
      (error_text : Error → Str) (client : List ClientMessage) (name source : Str)
      → Keeps seen (log_stream_handler H S error_text v client name source)
  unfolding log_stream_handler
  Keeps-log_stream_handler error_text client name source =
      Keeps-stream_log error_text client _ (log_file source)
